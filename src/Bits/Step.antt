-- ===== src/Bits/Step.antt =====
-- One binary digit of `bit_and` and `bit_or`: what the native operations stand for, without fuel.
use native.Mathlib.Nat.{zero-add, suc-add}
use Prim.Native.Nat.{digits, bit_and-bitwise, bit_or-bitwise}
use panopti_dns.Prelude.{
  ℕ, zero, suc, ◌+◌, ◌-◌, ◌*◌, ◌/◌, ◌%◌, ◌≤◌, min, max, bit_and, bit_or, ◌≡◌, sym, ap, ◌∙◌, refl,
  arith,
}

module _ (base : ℕ → ℕ) (op : ℕ → ℕ → ℕ) where
  -- A round more than enough changes nothing, and so no number of rounds does.
  one_more : (fuel a b : ℕ) → a ≤ fuel → digits base op (suc fuel) a b ≡ digits base op fuel a b
  one_more (suc fuel) (suc a) b enough =
      ap (λ rest. rest * 2 + op (suc a % 2) (b % 2))
        (one_more fuel (suc a / 2) (b / 2) (omega arith))
  one_more (suc fuel) zero b enough = refl
  one_more zero zero b enough = refl
  one_more zero (suc a) b enough = absurd (omega arith)

  any_more :
      (extra fuel a b : ℕ) → a ≤ fuel → digits base op (extra + fuel) a b ≡ digits base op fuel a b
  any_more zero fuel a b enough = rw (zero-add fuel) refl
  any_more (suc extra) fuel a b enough =
      rw (suc-add extra fuel)
        (one_more (extra + fuel) a b (omega arith) ∙ any_more extra fuel a b enough)

  -- The digits of `suc a` are those of its half and the lowest one.
  lowest_digit :
      (a b : ℕ)
      → digits base op (suc a) (suc a) b
        ≡ digits base op (suc a / 2) (suc a / 2) (b / 2) * 2 + op (suc a % 2) (b % 2)
  lowest_digit a b =
      let half = suc a / 2 in
      let rounds : a - half + half ≡ a = omega arith in
      ap (λ fuel. digits base op fuel half (b / 2) * 2 + op (suc a % 2) (b % 2)) (sym rounds)
      ∙ ap (λ rest. rest * 2 + op (suc a % 2) (b % 2))
          (any_more (a - half) half half (b / 2) (omega arith))

pub bit_and_step : (x y : ℕ) → bit_and x y ≡ bit_and (x / 2) (y / 2) * 2 + min (x % 2) (y % 2)
bit_and_step zero y = omega (arith, bit_and-bitwise 0 y, bit_and-bitwise 0 (y / 2))
bit_and_step (suc x) y =
    bit_and-bitwise (suc x) y
    ∙ lowest_digit (λ rest. 0) min x y
    ∙ ap (λ high. high * 2 + min (suc x % 2) (y % 2)) (sym (bit_and-bitwise (suc x / 2) (y / 2)))

pub bit_or_step : (x y : ℕ) → bit_or x y ≡ bit_or (x / 2) (y / 2) * 2 + max (x % 2) (y % 2)
bit_or_step zero y = omega (arith, bit_or-bitwise 0 y, bit_or-bitwise 0 (y / 2))
bit_or_step (suc x) y =
    bit_or-bitwise (suc x) y
    ∙ lowest_digit (λ rest. rest) max x y
    ∙ ap (λ high. high * 2 + max (suc x % 2) (y % 2)) (sym (bit_or-bitwise (suc x / 2) (y / 2)))
