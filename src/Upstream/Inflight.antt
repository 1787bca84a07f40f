-- ===== src/Upstream/Inflight.antt =====
-- Lookups that overlap: any order of queries sent and replies handled, on one client.
use panopti_dns.Prelude.{ℕ, suc, ◌+◌, ◌≤◌, ◌≡◌, refl, none, some, arith}
use panopti_dns.Hickory.{Hickory}
use panopti_dns.Config.{IpAddr}
use panopti_dns.Upstream.{Upstream, new_upstream, Lookup, begin_lookup, finish_lookup}
use panopti_dns.Upstream.Permits.{begin_lookup-permits, finish_lookup-permits}

-- A client and the number of its queries that wait for a reply, as calls of `lookup_ptr` that
-- overlap bring them about: each call sends its query or none, and later handles what came of it.
pub data Reachable (h : Hickory) (addr : IpAddr) (timeout : ℕ) : Upstream → ℕ → Type 0 where
  start : Reachable h addr timeout (new_upstream addr timeout) 0
  skipped :
      (now : ℕ) (qname : h.Name) (u : Upstream) (n : ℕ)
      → Reachable h addr timeout u n
      → (begin_lookup h now qname u).0 ≡ none
      → Reachable h addr timeout (begin_lookup h now qname u).1 n
  sent :
      (now : ℕ) (qname up_qname : h.Name) (u : Upstream) (n : ℕ)
      → Reachable h addr timeout u n
      → (begin_lookup h now qname u).0 ≡ some up_qname
      → Reachable h addr timeout (begin_lookup h now qname u).1 (suc n)
  finished :
      (now : ℕ) (qname up_qname : h.Name) (reply : Lookup h.Record) (u : Upstream) (n : ℕ)
      → Reachable h addr timeout u (suc n)
      → Reachable h addr timeout (finish_lookup h now qname up_qname reply u).1 n

module _ (h : Hickory) (addr : IpAddr) (timeout : ℕ) where
  balance : (u : Upstream) (n : ℕ) → Reachable h addr timeout u n → n + u.permits ≡ 64
  unfolding new_upstream
  balance _ _ start = refl
  balance _ _ (skipped now qname u n r e) =
      let kept : (begin_lookup h now qname u).1.permits ≡ u.permits =
        ground (arith, begin_lookup-permits h now qname u) in
      omega (arith, kept, balance u n r)
  balance _ _ (sent now qname up_qname u n r e) =
      let taken : 1 + (begin_lookup h now qname u).1.permits ≡ u.permits =
        ground (arith, begin_lookup-permits h now qname u) in
      omega (arith, taken, balance u n r)
  balance _ _ (finished now qname up_qname reply u n r) =
      omega (arith, finish_lookup-permits h now qname up_qname reply u, balance u (suc n) r)

  -- However the calls on one client overlap, the queries that wait for a reply and the permits that
  -- are left add up to 64; so never more than 64 queries wait.
  inflight_bounded :
      (u : Upstream) (n : ℕ) → Reachable h addr timeout u n → (n + u.permits ≡ 64) × (n ≤ 64)
  inflight_bounded u n r = let e = balance u n r in (e, omega (arith, e))
