-- ===== src/Server/Override.antt =====
-- What an upstream can do to a PTR answer.
use panopti_dns.Prelude.{
  ℕ, ◌≡◌, refl, ◌⊎◌, inl, inr, false, Option, none, some, List, [], ◌∷◌, is_empty, if◌then◌else◌,
  All,
}
use panopti_dns.Hickory.{Hickory, IsDocumented}
use panopti_dns.Config.{IpAddr, Zone}
use panopti_dns.Upstream.{
  Upstream, Lookup, found, negative, elapsed, begin_lookup, finish_lookup, lookup_ptr,
}
use panopti_dns.Upstream.Filter.{IsRelayable, filter_upstream-IsRelayable}
use panopti_dns.Server.{Clients, get_client, put_client, Network, override}

module _ (h : Hickory) (doc : IsDocumented h) where
  finish_lookup-IsRelayable :
      (now : ℕ) (qname up : h.Name) (reply : Lookup h.Record) (u : Upstream)
      → All (IsRelayable h qname) (finish_lookup h now qname up reply u).0
  unfolding finish_lookup
  finish_lookup-IsRelayable now qname up (found rs) u =
      (filter_upstream-IsRelayable h doc qname up rs).0
  finish_lookup-IsRelayable now qname up negative u = tt
  finish_lookup-IsRelayable now qname up elapsed u = tt

  lookup_ptr-IsRelayable :
      (ask : h.Name → Lookup h.Record) (now later : ℕ) (qname : h.Name) (u : Upstream)
      → All (IsRelayable h qname) (lookup_ptr h ask now later qname u).0
  unfolding lookup_ptr
  lookup_ptr-IsRelayable ask now later qname u =
      settled (begin_lookup h now qname u).0 (begin_lookup h now qname u).1
    where
      settled :
          (asked : Option h.Name) (u' : Upstream)
          → All
              (IsRelayable h qname)
              (elim asked as (λ o. List h.Record × Upstream) [
                | none ↦ ([], u')
                | some up ↦ finish_lookup h later qname up (ask up) u'
              ]).0
      settled none u' = tt
      settled (some up) u' = finish_lookup-IsRelayable later qname up (ask up) u'

  -- The records stay as they were, or are records that may be relayed; and there are some if there were.
  IsOverride : h.Name → List h.Record → List h.Record → Type 0
  IsOverride qname before after =
      ((after ≡ before) ⊎ All (IsRelayable h qname) after)
      × (is_empty before ≡ false → is_empty after ≡ false)

  chosen-IsOverride :
      (qname : h.Name) (records relayed : List h.Record)
      → All (IsRelayable h qname) relayed
      → IsOverride qname records (if is_empty relayed then records else relayed)
  unfolding IsOverride
  chosen-IsOverride qname records [] all = (inl refl, λ e. e)
  chosen-IsOverride qname records (r ∷ rs) all = (inr all, λ e. refl)

  -- Whatever an upstream replies, or fails to: the synthesized records stay as they were, or are
  -- replaced by records each of which is owned by the name that was asked for, has the Internet's
  -- class, a PTR target as its data and a lifetime between 30 and 3600 seconds; and an answer that
  -- had records still has some.
  pub override_safe :
      (net : Network h) (z : Zone h.Name) (qname : h.Name) (records : List h.Record) (cs : Clients)
      → (((override h net z qname records cs).0 ≡ records)
          ⊎ All (IsRelayable h qname) (override h net z qname records cs).0)
        × (is_empty records ≡ false → is_empty (override h net z qname records cs).0 ≡ false)
  unfolding override IsOverride
  override_safe net z qname records cs = by_address z.upstream
    where
      by_client :
          (addr : IpAddr) (o : Option Upstream)
          → IsOverride qname records
              (elim o as (λ o. List h.Record × Clients) [
                | none ↦ (records, cs)
                | some u ↦
                    (let (relayed, u') = lookup_ptr h (net.ask addr) net.now net.later qname u in
                      ((if is_empty relayed then records else relayed), put_client addr u' cs))
              ]).0
      by_client addr none = (inl refl, λ e. e)
      by_client addr (some u) =
          chosen-IsOverride qname records _
            (lookup_ptr-IsRelayable (net.ask addr) net.now net.later qname u)

      by_address :
          (o : Option IpAddr)
          → IsOverride qname records
              (elim o as (λ o. List h.Record × Clients) [
                | none ↦ (records, cs)
                | some addr ↦ (elim (get_client addr cs) as (λ o. List h.Record × Clients) [
                  | none ↦ (records, cs)
                  | some u ↦
                      (let (relayed, u') = lookup_ptr h (net.ask addr) net.now net.later qname u in
                        ((if is_empty relayed then records else relayed), put_client addr u' cs))
                ])
              ]).0
      by_address none = (inl refl, λ e. e)
      by_address (some addr) = by_client addr (get_client addr cs)
