-- ===== src/Rrl.antt =====
-- src/rrl.rs: response rate limiting. The keyed token buckets are the library governor's; a
-- `Governor` has its operations, its clock among its state.
pub mod Keys
pub mod Budgets
use panopti_dns.Prelude.{
  ℕ, zero, suc, ◌+◌, ◌-◌, ◌*◌, ◌/◌, ◌%◌, ◌^◌, min, Bool, true, false, not, ◌||◌, leb, ◌==◌,
  if◌then◌else◌,
}
use panopti_dns.Config.{IpAddr, v4, v6, RrlParams}

pub data ClientKey : Type 0 where
  key_v4 : ℕ → ClientKey
  key_v6 : ℕ → ClientKey

-- `bits >> shift << shift` on a word of `width` bits, 0 where the shift is too wide.
unfoldable pub clear_low : ℕ → ℕ → ℕ → ℕ
clear_low width bits shift = if leb width shift then 0 else bits / 2 ^ shift * 2 ^ shift % 2 ^ width

unfoldable pub client_key : IpAddr → ℕ → ℕ → ClientKey
client_key (v4 bits) ipv4_prefix ipv6_prefix = key_v4 (clear_low 32 bits (32 - min ipv4_prefix 32))
client_key (v6 bits) ipv4_prefix ipv6_prefix =
    key_v6 (clear_low 64 (bits / 2 ^ 64 % 2 ^ 64) (64 - min ipv6_prefix 64))

pub data Kind : Type 0 where
  answer_kind negative_kind : Kind

pub data Decision : Type 0 where
  allow drop_it truncate : Decision

pub record Quota : Type 0 where
  pub per_second : ℕ
  pub burst_size : ℕ

pub record Governor : Type 1 where
  pub Limiter : Type 0
  pub keyed : Quota → Limiter
  -- `check_key(key).is_ok()`, with the limiter after it
  pub check_key : Limiter → ClientKey → Bool × Limiter
  pub retain_recent : Limiter → Limiter
  pub tracked_keys : Limiter → ℕ

-- `NonZeroU32::new(n).unwrap_or(d)`
abbrev non_zero_or : ℕ → ℕ → ℕ
non_zero_or n d = if n == 0 then d else n

unfoldable pub quota : RrlParams → Quota
quota params =
    let rps = non_zero_or params.responses_per_second 1 in
    record { per_second = rps; burst_size = non_zero_or params.burst rps }

pub record Rrl (g : Governor) : Type 0 where
  pub params : RrlParams
  pub answers : g.Limiter
  pub negatives : g.Limiter
  pub suppressed : ℕ

module _ (g : Governor) where
  unfoldable pub new : RrlParams → Rrl g
  new params = record {
    params = params;
    answers = g.keyed (quota params);
    negatives = g.keyed (quota params);
    suppressed = 0;
  }

  -- The limiter of a kind, and the state with that limiter changed.
  unfoldable pub limiter_of : Kind → Rrl g → g.Limiter
  limiter_of answer_kind r = r.answers
  limiter_of negative_kind r = r.negatives

  unfoldable pub with_limiter : Kind → Rrl g → g.Limiter → Rrl g
  with_limiter answer_kind r l = record r { answers = l }
  with_limiter negative_kind r l = record r { negatives = l }

  -- What becomes of the `n`th suppressed response.
  unfoldable pub slip_decision : ℕ → ℕ → Decision
  slip_decision zero n = drop_it
  slip_decision (suc s) n = if n % suc s == 0 then truncate else drop_it

  -- Over budget: `fetch_add` on an AtomicU64 wraps.
  unfoldable pub suppress : Rrl g → Decision × Rrl g
  suppress r = (
    slip_decision r.params.slip r.suppressed,
    record r { suppressed = (r.suppressed + 1) % 2 ^ 64 },
  )

  unfoldable pub decide : Rrl g → IpAddr → Kind → Bool → Decision × Rrl g
  decide r addr kind is_tcp =
      if not r.params.enabled || is_tcp
      then (allow, r)
      else (let key = client_key addr r.params.ipv4_prefix r.params.ipv6_prefix in
          let (within, limiter) = g.check_key (limiter_of kind r) key in
          let r' = with_limiter kind r limiter in if within then (allow, r') else suppress r')

  unfoldable pub sweep : Rrl g → Rrl g
  sweep r = record r {
    answers = g.retain_recent r.answers;
    negatives = g.retain_recent r.negatives;
  }

  unfoldable pub enabled : Rrl g → Bool
  enabled r = r.params.enabled

  -- `saturating_add` on usize of 64 bits
  unfoldable pub tracked : Rrl g → ℕ
  tracked r = min (g.tracked_keys r.answers + g.tracked_keys r.negatives) (2 ^ 64 - 1)
