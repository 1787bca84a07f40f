-- ===== src/Server/Awaiting.antt =====
-- src/server/handler.rs: `decide` in two halves, before and after the await of an upstream's reply.
-- Other tasks run between them.
pub mod Stored
pub mod Whole
pub mod Taken
pub mod Served
use panopti_dns.Prelude.{
  ℕ, Bool, true, false, not, ◌&&◌, ◌||◌, Option, none, some, List, [], ◌∷◌, if◌then◌else◌, is_empty,
}
use panopti_dns.Hickory.{Hickory, RecordType, ptr, axfr, ixfr, DnsClass, type_eq}
use panopti_dns.Config.{IpAddr, Zone, Config}
use panopti_dns.Zone.{Outcome, answer, no_name, no_zone, resolve}
use panopti_dns.Upstream.{Upstream, Lookup, begin_lookup, finish_lookup}
use panopti_dns.Server.{
  Clients, get_client, put_client, Zones, Reply, refused_reply, apex_reply, answer_reply,
  no_name_reply, no_zone_reply, is_served_class, apex_of,
}

-- How far `decide` comes without waiting: a reply, or a query to an upstream, by a name, with the
-- records to serve where it has none.
pub data Progress (h : Hickory) : Type 0 where
  ready : Reply h.Record → Progress h
  waits : IpAddr → h.Name → List h.Record → Progress h

module _ (h : Hickory) where
  open h use {Name, Record}

  abbrev asked_or : Reply Record → IpAddr → List Record → Option Name → Progress h
  asked_or reply addr records none = ready reply
  asked_or reply addr records (some up_qname) = waits addr up_qname records

  unfoldable pub begin_override :
      ℕ → Zones Name → Zone Name → Name → List Record → Progress h × Zones Name
  begin_override now zones z qname records =
      let synthesized = answer_reply h zones.config qname records in
      elim z.upstream [
        | none ↦ (ready synthesized, zones)
        | some addr ↦ (elim (get_client addr zones.upstreams) [
          | none ↦ (ready synthesized, zones)
          | some u ↦
              (let (asked, u') = begin_lookup h now qname u in
                (
                  asked_or synthesized addr records asked,
                  record zones { upstreams = put_client addr u' zones.upstreams },
                ))
        ])
      ]

  unfoldable pub begin_resolved :
      ℕ → Zones Name → Name → RecordType → Outcome Name Record → Progress h × Zones Name
  begin_resolved now zones qname qtype (answer z records) =
      if not (is_empty records) && type_eq qtype ptr
      then begin_override now zones z qname records
      else (ready (answer_reply h zones.config qname records), zones)
  begin_resolved now zones qname qtype (no_name z) =
      (ready (no_name_reply h zones.config qname z), zones)
  begin_resolved now zones qname qtype no_zone =
      (ready (no_zone_reply h zones.config.params.out_of_zone), zones)

  -- `decide` up to the await.
  unfoldable pub begin_decide :
      ℕ → Zones Name → Name → RecordType → DnsClass → Progress h × Zones Name
  begin_decide now zones qname qtype qclass =
      if not (is_served_class qclass)
      then (ready refused_reply, zones)
      else if type_eq qtype axfr || type_eq qtype ixfr
      then (ready refused_reply, zones)
      else (elim (apex_of h zones.config qname qtype) [
        | some apex ↦ (ready (apex_reply h zones.config apex qtype), zones)
        | none ↦ begin_resolved now zones qname qtype (resolve h zones.config qname qtype)
      ])

  -- `decide` after the await, with what came of the query.
  unfoldable pub finish_decide :
      ℕ
      → Zones Name
      → Name
      → IpAddr
      → Name
      → List Record
      → Lookup Record
      → Reply Record × Zones Name
  finish_decide later zones qname addr up_qname records lookup =
      elim (get_client addr zones.upstreams) [
        | none ↦ (answer_reply h zones.config qname records, zones)
        | some u ↦
            (let (relayed, u') = finish_lookup h later qname up_qname lookup u in
              (
                answer_reply h zones.config qname (if is_empty relayed then records else relayed),
                record zones { upstreams = put_client addr u' zones.upstreams },
              ))
      ]
