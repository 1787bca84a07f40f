-- ===== src/Upstream/Circuit.antt =====
-- The circuit breaker: when it opens, and when it closes again.
use native.Mathlib.Nat.{add-zero, add-suc, suc-add}
use panopti_dns.Prelude.{
  ap, ◌∙◌, ℕ, suc, ◌+◌, ◌<◌, ◌≡◌, refl, true, false, none, some, List, [], ◌∷◌, arith, length,
}
use panopti_dns.Upstream.{Breaker, closed_breaker, record_success, record_failure}

-- The breaker after timeouts at the given times, one after the other.
abbrev pub failures_at : List ℕ → Breaker → Breaker
failures_at [] b = b
failures_at (t ∷ ts) b = failures_at ts (record_failure t b).1

-- Neither poisoned nor open, with `n` timeouts in a row.
abbrev pub counting : ℕ → Breaker
counting n = record { poisoned = false; consecutive_failures = n; open_until = none }

record_failure-counting :
    (t n : ℕ) → suc n < 8 → record_failure t (counting n) ≡ (false, counting (suc n))
unfolding record_failure
record_failure-counting t n lt = ground arith

failures_at-counting :
    (ts : List ℕ) (n : ℕ)
    → n + length ts < 8
    → failures_at ts (counting n) ≡ counting (n + length ts)
failures_at-counting [] n lt = rw (add-zero n) refl
failures_at-counting (t ∷ ts) n lt =
    rw
      (
        record_failure-counting t n (omega (arith, lt)),
        add-suc n (length ts),
        ← suc-add n (length ts),
      )
      (failures_at-counting ts (suc n) (omega (arith, lt)))

-- Seven timeouts in a row leave a closed breaker closed, with 7 counted; the next one opens it for 10
-- seconds; and a success after the seven starts the count again.
pub record_failure_trips :
    (ts : List ℕ) (t : ℕ)
    → length ts ≡ 7
    → (failures_at ts closed_breaker ≡ counting 7)
      × (record_failure t (failures_at ts closed_breaker) ≡ (
        true,
        record { poisoned = false; consecutive_failures = 8; open_until = some (t + 10000) },
      ))
      × (record_success (failures_at ts closed_breaker) ≡ closed_breaker)
unfolding record_failure record_success
record_failure_trips ts t seven =
    let seventh : failures_at ts closed_breaker ≡ counting 7 =
      failures_at-counting ts 0 (omega (arith, seven)) ∙ ap (λ n. counting (0 + n)) seven in
    (seventh, rw seventh refl, rw seventh refl)
