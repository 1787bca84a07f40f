-- ===== src/Server/Replies.antt =====
-- The shape of what `decide` answers, on all of its branches.
use panopti_dns.Prelude.{
  ◌≡◌, ◌≢◌, refl, Bool, true, false, not, ◌||◌, ◌&&◌, Option, none, some, List, [], arith,
  if◌then◌else◌, is_empty,
}
use panopti_dns.Hickory.{Hickory, RecordType, ptr, axfr, ixfr, DnsClass, type_eq}
use panopti_dns.Config.{Zone, Config, OutOfZonePolicy, refused_policy, nx_domain_policy}
use panopti_dns.Zone.{Outcome, answer, no_name, no_zone, resolve}
use panopti_dns.Rrl.{Kind, answer_kind, negative_kind}
use panopti_dns.Server.{
  Zones, ResponseCode, no_error, nx_domain, refused, Reply, error_reply, is_served_class, kind_of,
  apex_reply, negative_authority, answer_reply, no_name_reply, no_zone_reply, Network, override,
  decide_resolved, apex_of, decide,
}

-- The rate limiter's kind is that of the answers; a code other than NOERROR comes with no answers;
-- and where there are answers, or no SOA is configured, the authority section is empty.
unfoldable pub IsCoherent : (h : Hickory) → Config h.Name → Reply h.Record → Type 0
IsCoherent h config r =
    (r.kind ≡ kind_of r.answers)
    × (r.code ≢ no_error → r.answers ≡ [])
    × (r.kind ≡ answer_kind → r.authority ≡ [])
    × (config.soa ≡ none → r.authority ≡ [])

module _ (h : Hickory) where
  open h use {Name, Record}

  negative_authority-without_soa :
      (config : Config Name) (qname : Name) (k : Kind)
      → config.soa ≡ none
      → negative_authority h config qname k ≡ []
  unfolding negative_authority
  negative_authority-without_soa config qname answer_kind e = refl
  negative_authority-without_soa config qname negative_kind e = ground arith

  error_reply-IsCoherent :
      (config : Config Name) (c : ResponseCode) → IsCoherent h config (error_reply c)
  unfolding IsCoherent
  error_reply-IsCoherent config c = (refl, λ e. refl, λ e. refl, λ e. refl)

  apex_reply-IsCoherent :
      (config : Config Name) (apex : Name) (qtype : RecordType)
      → IsCoherent h config (apex_reply h config apex qtype)
  unfolding IsCoherent apex_reply
  apex_reply-IsCoherent config apex qtype = (refl, λ e. absurd (e refl), λ e. refl, λ e. refl)

  answer_reply-IsCoherent :
      (config : Config Name) (qname : Name) (records : List Record)
      → IsCoherent h config (answer_reply h config qname records)
  unfolding IsCoherent answer_reply negative_authority
  answer_reply-IsCoherent config qname records = (
    refl,
    λ e. absurd (e refl),
    λ e. rw e refl,
    negative_authority-without_soa config qname (kind_of records),
  )

  no_name_reply-IsCoherent :
      (config : Config Name) (qname : Name) (z : Zone Name)
      → IsCoherent h config (no_name_reply h config qname z)
  unfolding IsCoherent no_name_reply
  no_name_reply-IsCoherent config qname z = (refl, λ e. refl, λ e. cc, λ e. ground arith)

  no_zone_reply-IsCoherent :
      (config : Config Name) (p : OutOfZonePolicy) → IsCoherent h config (no_zone_reply h p)
  unfolding no_zone_reply
  no_zone_reply-IsCoherent config refused_policy = error_reply-IsCoherent config refused
  no_zone_reply-IsCoherent config nx_domain_policy = error_reply-IsCoherent config nx_domain

  if-IsCoherent :
      (config : Config Name) (b : Bool) (x y : Reply Record × Zones Name)
      → IsCoherent h config x.0
      → IsCoherent h config y.0
      → IsCoherent h config (if b then x else y).0
  if-IsCoherent config true x y hx hy = hx
  if-IsCoherent config false x y hx hy = hy

  decide_resolved-IsCoherent :
      (net : Network h) (zones : Zones Name) (qname : Name) (qtype : RecordType)
      (o : Outcome Name Record)
      → IsCoherent h zones.config (decide_resolved h net zones qname qtype o).0
  unfolding decide_resolved
  decide_resolved-IsCoherent net zones qname qtype (answer z records) =
      if-IsCoherent zones.config (not (is_empty records) && type_eq qtype ptr) _ _
        (answer_reply-IsCoherent zones.config qname
          (override h net z qname records zones.upstreams).0)
        (answer_reply-IsCoherent zones.config qname records)
  decide_resolved-IsCoherent net zones qname qtype (no_name z) =
      no_name_reply-IsCoherent zones.config qname z
  decide_resolved-IsCoherent net zones qname qtype no_zone =
      no_zone_reply-IsCoherent zones.config zones.config.params.out_of_zone

  -- Whatever the question: the rate limiter's kind of the reply is that of its answers; a reply whose
  -- code is not NOERROR has no answers; one that has answers, or that comes from a configuration with
  -- no SOA, has an empty authority section.
  pub decide-IsCoherent :
      (net : Network h) (zones : Zones Name) (qname : Name) (qtype : RecordType) (cls : DnsClass)
      → IsCoherent h zones.config (decide h net zones qname qtype cls).0
  unfolding decide
  decide-IsCoherent net zones qname qtype cls =
      if-IsCoherent zones.config (not (is_served_class cls)) _ _
        (error_reply-IsCoherent zones.config refused)
        (if-IsCoherent zones.config (type_eq qtype axfr || type_eq qtype ixfr) _ _
          (error_reply-IsCoherent zones.config refused)
          (by_apex (apex_of h zones.config qname qtype)))
    where
      by_apex :
          (o : Option Name)
          → IsCoherent h zones.config
              (elim o as (λ o. Reply Record × Zones Name) [
                | some apex ↦ (apex_reply h zones.config apex qtype, zones)
                | none ↦
                    decide_resolved h net zones qname qtype (resolve h zones.config qname qtype)
              ]).0
      by_apex (some apex) = apex_reply-IsCoherent zones.config apex qtype
      by_apex none =
          decide_resolved-IsCoherent net zones qname qtype (resolve h zones.config qname qtype)
