-- ===== src/Upstream/Permits.antt =====
-- The permits that bound the queries in flight.
use panopti_dns.Prelude.{ℕ, ◌+◌, ◌≡◌, refl, Option, none, some, List, [], arith}
use panopti_dns.Hickory.{Hickory}
use panopti_dns.Upstream.{
  Upstream, Lookup, found, negative, elapsed, try_acquire, release, begin_lookup, finish_lookup,
  lookup_ptr,
}

module _ (h : Hickory) where
  pub begin_lookup-permits :
      (now : ℕ) (qname : h.Name) (u : Upstream)
      → (elim (begin_lookup h now qname u).0 [ none ↦ 0 | some n ↦ 1 ])
          + (begin_lookup h now qname u).1.permits
        ≡ u.permits
  unfolding begin_lookup try_acquire release
  begin_lookup-permits now qname u = ground arith

  pub finish_lookup-permits :
      (now : ℕ) (qname up : h.Name) (l : Lookup h.Record) (u : Upstream)
      → (finish_lookup h now qname up l u).1.permits ≡ u.permits + 1
  unfolding finish_lookup release
  finish_lookup-permits now qname up (found rs) u = refl
  finish_lookup-permits now qname up negative u = refl
  finish_lookup-permits now qname up elapsed u = refl

  -- After a call of `lookup_ptr` the client has the permits that it had, whatever became of the query.
  lookup_ptr-permits :
      (ask : h.Name → Lookup h.Record) (now later : ℕ) (qname : h.Name) (u : Upstream)
      → (lookup_ptr h ask now later qname u).1.permits ≡ u.permits
  unfolding lookup_ptr
  lookup_ptr-permits ask now later qname u =
      settled (begin_lookup h now qname u).0 (begin_lookup h now qname u).1
        (begin_lookup-permits now qname u)
    where
      settled :
          (asked : Option h.Name) (u' : Upstream)
          → (elim asked as (λ o. ℕ) [ none ↦ 0 | some n ↦ 1 ]) + u'.permits ≡ u.permits
          → (elim asked as (λ o. List h.Record × Upstream) [
            | none ↦ ([], u')
            | some n ↦ finish_lookup h later qname n (ask n) u'
          ]).1.permits
            ≡ u.permits
      settled none u' e = ground arith
      settled (some n) u' e = ground (arith, finish_lookup-permits later qname n (ask n) u')
