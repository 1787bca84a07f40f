-- ===== src/Server/Awaiting/Served.antt =====
-- What the second half of `decide` answers.
use panopti_dns.Prelude.{
  ℕ, ◌≡◌, refl, sym, ◌⊎◌, inl, inr, List, [], ◌∷◌, if◌then◌else◌, Option-cases, is_empty,
}
use panopti_dns.Hickory.{Hickory}
use panopti_dns.Config.{IpAddr}
use panopti_dns.Upstream.{
  Upstream, Lookup, found, negative, elapsed, filter_upstream, finish_lookup,
}
use panopti_dns.Server.{get_client, Zones, answer_reply}
use panopti_dns.Server.Awaiting.{finish_decide}

module _ (h : Hickory) where
  open h use {Name, Record}

  -- The records that the second half of `decide` serves: those of the upstream, as they are relayed, or
  -- those that the first half found.
  unfoldable pub IsServed : Name → Name → List Record → Lookup Record → List Record → Type 0
  IsServed qname up_qname records lookup rs =
      (rs ≡ records)
      ⊎ ((answers : List Record) × (lookup ≡ found answers)
          × (rs ≡ filter_upstream h qname up_qname answers))

  finish_lookup-IsServed :
      (later : ℕ) (qname up_qname : Name) (records : List Record) (lookup : Lookup Record)
      (u : Upstream)
      → let relayed = (finish_lookup h later qname up_qname lookup u).0 in
        IsServed qname up_qname records lookup (if is_empty relayed then records else relayed)
  unfolding finish_lookup IsServed
  finish_lookup-IsServed later qname up_qname records negative u = inl refl
  finish_lookup-IsServed later qname up_qname records elapsed u = inl refl
  finish_lookup-IsServed later qname up_qname records (found answers) u =
      chosen (filter_upstream h qname up_qname answers) refl
    where
      chosen :
          (relayed : List Record)
          → filter_upstream h qname up_qname answers ≡ relayed
          → IsServed qname up_qname records
              (found answers)
              (if is_empty relayed then records else relayed)
      chosen [] e = inl refl
      chosen (r ∷ rs) e = inr (answers, refl, sym e)

  pub finish_decide-IsServed :
      (later : ℕ) (zones : Zones Name) (qname : Name) (asked : IpAddr) (up_qname : Name)
      (records : List Record) (lookup : Lookup Record)
      → let x = finish_decide h later zones qname asked up_qname records lookup in
        (x.1.config ≡ zones.config)
        × ((rs : List Record) × (x.0 ≡ answer_reply h zones.config qname rs)
            × IsServed qname up_qname records lookup rs)
  unfolding finish_decide IsServed
  finish_decide-IsServed later zones qname asked up_qname records lookup =
      elim (Option-cases (get_client asked zones.upstreams)) [
        | inl unknown ↦ rw (unknown, finish_decide) (refl, (records, refl, inl refl))
        | inr (u, known) ↦
            rw (known, finish_decide)
              (refl, (_, refl, finish_lookup-IsServed later qname up_qname records lookup u))
      ]
