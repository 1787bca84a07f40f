-- ===== src/Upstream/Blackout.antt =====
-- An upstream that does not reply: lookups that time out, one after the other, and those after them.
use panopti_dns.Prelude.{
  ℕ, suc, ◌+◌, ◌≤◌, ◌<◌, ◌≡◌, sym, ap, ◌∙◌, false, none, some, List, [], ◌∷◌, arith, length, All,
}
use native.Mathlib.Nat.{add-zero}
use panopti_dns.Hickory.{Hickory}
use panopti_dns.Config.{IpAddr}
use panopti_dns.Upstream.{
  Upstream, Breaker, new_upstream, elapsed, upstream_qname, is_open, is_open_at, record_failure,
  try_acquire, release, begin_lookup, finish_lookup, lookup_ptr,
}
use panopti_dns.Upstream.Circuit.{counting}

module _ (h : Hickory) where
  -- A lookup: when it begins, when its deadline has passed, and for which name.
  pub record Call : Type 0 where
    pub now : ℕ
    pub later : ℕ
    pub qname : h.Name

  -- The name to ask for is not too long.
  abbrev pub IsAskable : h.Name → Type 0
  IsAskable qname = (n : h.Name) × (upstream_qname h qname ≡ some n)

  -- The client after a call that times out.
  abbrev pub timed_out : Call → Upstream → Upstream
  timed_out c u = (lookup_ptr h (λ n. elapsed) c.now c.later c.qname u).1

  abbrev pub all_timed_out : List Call → Upstream → Upstream
  all_timed_out [] u = u
  all_timed_out (c ∷ cs) u = all_timed_out cs (timed_out c u)

  -- A client with all its permits.
  abbrev idle : IpAddr → ℕ → Breaker → Upstream
  idle addr timeout b = record { addr = addr; permits = 64; breaker = b; timeout = timeout }

  timed_out-idle :
      (addr : IpAddr) (timeout n : ℕ) (c : Call)
      → IsAskable c.qname
      → timed_out c (idle addr timeout (counting n))
        ≡ idle addr timeout (record_failure c.later (counting n)).1
  unfolding lookup_ptr begin_lookup finish_lookup is_open is_open_at try_acquire release
  timed_out-idle addr timeout n c (up, asked) = ground arith

  all_timed_out-idle :
      (addr : IpAddr) (timeout n : ℕ) (cs : List Call)
      → n + length cs < 8
      → All (λ (c : Call). IsAskable c.qname) cs
      → all_timed_out cs (idle addr timeout (counting n))
        ≡ idle addr timeout (counting (n + length cs))
  unfolding record_failure
  all_timed_out-idle addr timeout n [] lt askable =
      ap (λ (k : ℕ). idle addr timeout (counting k)) (sym (add-zero n))
  all_timed_out-idle addr timeout n (c ∷ cs) lt (a, askable) =
      let counted : (record_failure c.later (counting n)).1 ≡ counting (suc n) = ground arith in
      ap (λ u. all_timed_out cs u)
        (timed_out-idle addr timeout n c a ∙ ap (λ b. idle addr timeout b) counted)
      ∙ all_timed_out-idle addr timeout (suc n) cs (omega (arith, lt)) askable
      ∙ ap (λ (k : ℕ). idle addr timeout (counting k)) (omega arith)

  -- If eight lookups of a new client, one after the other and each for a name that is not too long, time
  -- out, the last at time `t`: until ten seconds after `t` a lookup sends no query, for any name, and leaves
  -- the client as it is; from then on a lookup for a name that is not too long asks again, with the breaker
  -- closed, its count at 0, and one of the 64 permits.
  pub begin_lookup-blackout :
      (addr : IpAddr) (timeout : ℕ) (cs : List Call) (last : Call) (early late : ℕ)
      (other qname up_qname : h.Name)
      → length cs ≡ 7
      → All (λ (c : Call). IsAskable c.qname) cs
      → IsAskable last.qname
      → early < last.later + 10000
      → last.later + 10000 ≤ late
      → upstream_qname h qname ≡ some up_qname
      → let u = timed_out last (all_timed_out cs (new_upstream addr timeout)) in
        (begin_lookup h early other u ≡ (none, u))
        × (begin_lookup h late qname u ≡ (
          some up_qname,
          record {
            addr = addr;
            permits = 63;
            breaker = record { poisoned = false; consecutive_failures = 0; open_until = none };
            timeout = timeout;
          },
        ))
  unfolding begin_lookup is_open is_open_at try_acquire record_failure new_upstream
  begin_lookup-blackout addr timeout cs last early late other qname up_qname seven askable
        last_askable before behind asked =
      let u = timed_out last (all_timed_out cs (new_upstream addr timeout)) in
      let tripped : u
          ≡ idle addr timeout (record {
            poisoned = false;
            consecutive_failures = 8;
            open_until = some (last.later + 10000);
          }) =
        ap (timed_out last) (
          all_timed_out-idle addr timeout 0 cs (omega (arith, seven)) askable
          ∙ ap (λ (k : ℕ). idle addr timeout (counting (0 + k))) seven)
        ∙ timed_out-idle addr timeout 7 last last_askable in
      rw tripped (ground arith, ground arith)
