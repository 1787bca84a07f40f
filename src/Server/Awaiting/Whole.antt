-- ===== src/Server/Awaiting/Whole.antt =====
-- The two halves of `decide` are the whole, where nothing runs between them.
use panopti_dns.Prelude.{◌≡◌, refl, inl, inr, List, arith, Option-cases}
use panopti_dns.Hickory.{Hickory, RecordType, DnsClass}
use panopti_dns.Config.{Zone}
use panopti_dns.Zone.{Outcome, answer, no_name, no_zone, resolve}
use panopti_dns.Upstream.{begin_lookup, finish_lookup, lookup_ptr}
use panopti_dns.Server.{
  get_client, Zones, Reply, answer_reply, Network, override, decide_resolved, decide,
}
use panopti_dns.Server.Awaiting.{
  Progress, ready, waits, begin_override, begin_resolved, begin_decide, finish_decide,
}
use panopti_dns.Server.Awaiting.Stored.{get_client-put_same, put_client-put_client}

module _ (h : Hickory) where
  open h use {Name, Record}

  -- The second half, right after the first.
  unfoldable pub settled : Network h → Name → Progress h × Zones Name → Reply Record × Zones Name
  settled net qname (ready reply, zones) = (reply, zones)
  settled net qname (waits addr up_qname records, zones) =
      finish_decide h net.later zones qname addr up_qname records (net.ask addr up_qname)

  override_whole :
      (net : Network h) (zones : Zones Name) (z : Zone Name) (qname : Name) (records : List Record)
      → settled net qname (begin_override h net.now zones z qname records) ≡ (
        answer_reply h zones.config qname (override h net z qname records zones.upstreams).0,
        record zones { upstreams = (override h net z qname records zones.upstreams).1 },
      )
  unfolding settled begin_override override lookup_ptr finish_decide
  override_whole net zones z qname records = elim (Option-cases z.upstream) [
    | inl alone ↦ ground arith
    | inr (addr, up) ↦ (elim (Option-cases (get_client addr zones.upstreams)) [
      | inl unknown ↦ ground arith
      | inr (u, known) ↦ (elim (Option-cases (begin_lookup h net.now qname u).0) [
        | inl skipped ↦ ground arith
        | inr (up_qname, asked) ↦ ground (
          arith,
          get_client-put_same addr (begin_lookup h net.now qname u).1 zones.upstreams,
          put_client-put_client addr (begin_lookup h net.now qname u).1
              (finish_lookup h net.later qname up_qname (net.ask addr up_qname)
                (begin_lookup h net.now qname u).1).1
              zones.upstreams,
        )
      ])
    ])
  ]

  resolved_whole :
      (net : Network h) (zones : Zones Name) (qname : Name) (qtype : RecordType)
      (o : Outcome Name Record)
      → settled net qname (begin_resolved h net.now zones qname qtype o)
        ≡ decide_resolved h net zones qname qtype o
  unfolding settled begin_resolved decide_resolved
  resolved_whole net zones qname qtype (no_name z) = refl
  resolved_whole net zones qname qtype no_zone = refl
  resolved_whole net zones qname qtype (answer z records) =
      ground (arith, override_whole net zones z qname records)

  -- If no other task runs between the two halves, `decide` up to the await of an upstream, then the rest
  -- of it with what the upstream replies, give the reply and the zones that `decide` gives as a whole.
  pub decide_whole :
      (net : Network h) (zones : Zones Name) (qname : Name) (qtype : RecordType) (cls : DnsClass)
      → settled net qname (begin_decide h net.now zones qname qtype cls)
        ≡ decide h net zones qname qtype cls
  unfolding settled begin_decide decide
  decide_whole net zones qname qtype cls =
      ground (arith, resolved_whole net zones qname qtype (resolve h zones.config qname qtype))
