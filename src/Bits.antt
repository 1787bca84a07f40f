-- ===== src/Bits.antt =====
-- The bit operators of u128 that the address code uses, as arithmetic on fields of bits.
mod Step
use Step.{bit_or_step, bit_and_step}
use Prim.Native.Nat.{bit_or-bitwise, bit_and-bitwise}
use native.Mathlib.Nat.{
  pow-succ', mod-lt, div-add-mod', one-le-pow, zero-add, suc-add, mul_assoc, mul-add-div_right,
  div-eq_of_lt, div-lt_iff_lt-mul,
}
use panopti_dns.Prelude.{
  ℕ, zero, suc, ◌+◌, ◌-◌, ◌*◌, ◌/◌, ◌%◌, ◌^◌, ◌≤◌, ◌<◌, min, max, bit_and, bit_or, ◌≡◌, refl, sym,
  ap, ◌∙◌, arith,
}

pub two-pow-pos : (k : ℕ) → 1 ≤ 2 ^ k
two-pow-pos k = one-le-pow k 2 (omega arith)

-- With 0 on the right, by halves of the number on the left.
with_zero : (bound a : ℕ) → a ≤ bound → (bit_or a 0 ≡ a) × (bit_and a 0 ≡ 0)
with_zero bound zero le = (refl, refl)
with_zero zero (suc a) le = absurd (omega arith)
with_zero (suc bound) (suc a) le =
    let (same, none) = with_zero bound (suc a / 2) (omega arith) in
    (omega (arith, same, bit_or_step (suc a) 0), omega (arith, none, bit_and_step (suc a) 0))

pub bit_or-zero : (a : ℕ) → bit_or a 0 ≡ a
bit_or-zero a = (with_zero a a (omega arith)).0

pub bit_and-zero : (a : ℕ) → bit_and a 0 ≡ 0
bit_and-zero a = (with_zero a a (omega arith)).1

pub zero-bit_or : (b : ℕ) → bit_or 0 b ≡ b
zero-bit_or b = bit_or-bitwise 0 b

-- Halving a number whose low field, of `k + 1` bits, is `r`.
halve_fields : (k q r : ℕ) → (q * 2 ^ suc k + r) / 2 ≡ q * 2 ^ k + r / 2
halve_fields k q r = omega (arith, ap (λ (t : ℕ). q * t) (pow-succ' 2 k))

low_of_fields : (k q r : ℕ) → (q * 2 ^ suc k + r) % 2 ≡ r % 2
low_of_fields k q r = omega (arith, ap (λ (t : ℕ). q * t) (pow-succ' 2 k))

half_below : (k r : ℕ) → r < 2 ^ suc k → r / 2 < 2 ^ k
half_below k r h = omega (arith, pow-succ' 2 k)

-- The operators work on the high and the low field on their own.
pub bit_or_fields :
    (k p q r s : ℕ)
    → r < 2 ^ k
    → s < 2 ^ k
    → bit_or (p * 2 ^ k + r) (q * 2 ^ k + s) ≡ bit_or p q * 2 ^ k + bit_or r s
bit_or_fields zero p q zero zero hr hs = ground arith
bit_or_fields zero p q zero (suc s) hr hs = absurd (omega arith)
bit_or_fields zero p q (suc r) s hr hs = absurd (omega arith)
bit_or_fields (suc k) p q r s hr hs = ground (
  arith,
  bit_or_step (p * 2 ^ suc k + r) (q * 2 ^ suc k + s),
  bit_or_step r s,
  halve_fields k p r,
  halve_fields k q s,
  low_of_fields k p r,
  low_of_fields k q s,
  bit_or_fields k p q (r / 2) (s / 2) (half_below k r hr) (half_below k s hs),
  ap (λ (t : ℕ). bit_or p q * t) (pow-succ' 2 k),
)

pub bit_and_fields :
    (k p q r s : ℕ)
    → r < 2 ^ k
    → s < 2 ^ k
    → bit_and (p * 2 ^ k + r) (q * 2 ^ k + s) ≡ bit_and p q * 2 ^ k + bit_and r s
bit_and_fields zero p q zero zero hr hs = ground arith
bit_and_fields zero p q zero (suc s) hr hs = absurd (omega arith)
bit_and_fields zero p q (suc r) s hr hs = absurd (omega arith)
bit_and_fields (suc k) p q r s hr hs = ground (
  arith,
  bit_and_step (p * 2 ^ suc k + r) (q * 2 ^ suc k + s),
  bit_and_step r s,
  halve_fields k p r,
  halve_fields k q s,
  low_of_fields k p r,
  low_of_fields k q s,
  bit_and_fields k p q (r / 2) (s / 2) (half_below k r hr) (half_below k s hs),
  ap (λ (t : ℕ). bit_and p q * t) (pow-succ' 2 k),
)

-- A field above and a field below do not meet.
pub bit_or_disjoint : (k q r : ℕ) → r < 2 ^ k → bit_or (q * 2 ^ k) r ≡ q * 2 ^ k + r
bit_or_disjoint k q r h =
    ground (arith, bit_or_fields k q 0 0 r (two-pow-pos k) h, bit_or-zero q, zero-bit_or r)

pub bit_or_above : (k q r : ℕ) → r < 2 ^ k → bit_or r (q * 2 ^ k) ≡ q * 2 ^ k + r
bit_or_above k q r h =
    ground (arith, bit_or_fields k 0 q r 0 h (two-pow-pos k), bit_or-zero r, zero-bit_or q)

-- A number has one quotient and one remainder.
pub fields_unique : (p q r s t : ℕ) → r < p → t < p → q * p + r ≡ s * p + t → (q ≡ s) × (r ≡ t)
fields_unique p q r s t hr ht e = ground (
  arith,
  mul-add-div_right {m = p} (omega arith) q r,
  mul-add-div_right {m = p} (omega arith) s t,
  div-eq_of_lt hr,
  div-eq_of_lt ht,
)

ones_halve : (k : ℕ) → (2 ^ suc k - 1) / 2 ≡ 2 ^ k - 1
ones_halve k = omega (arith, pow-succ' 2 k, two-pow-pos k)

ones_low : (k : ℕ) → (2 ^ suc k - 1) % 2 ≡ 1
ones_low k = omega (arith, pow-succ' 2 k, two-pow-pos k)

pub bit_and-ones : (k r : ℕ) → r < 2 ^ k → bit_and r (2 ^ k - 1) ≡ r
bit_and-ones zero zero h = bit_and-zero 0
bit_and-ones zero (suc r) h = absurd (omega arith)
bit_and-ones (suc k) r h = ground (
  arith,
  bit_and_step r (2 ^ suc k - 1),
  ones_halve k,
  ones_low k,
  bit_and-ones k (r / 2) (half_below k r h),
)

pub two-pow-add : (m n : ℕ) → 2 ^ (m + n) ≡ 2 ^ m * 2 ^ n
two-pow-add zero n = ground (arith, zero-add n)
two-pow-add (suc m) n =
    rw (suc-add, pow-succ' 2 (m + n), two-pow-add m n, pow-succ' 2 m)
      (sym (mul_assoc 2 (2 ^ m) (2 ^ n)))

mod-below : (k a : ℕ) → a % 2 ^ k < 2 ^ k
mod-below k a = mod-lt a (two-pow-pos k)

-- A mask of ones below bit `k` keeps the low field.
pub bit_and_low : (k a : ℕ) → bit_and a (2 ^ k - 1) ≡ a % 2 ^ k
bit_and_low k a = ground (
  arith,
  div-add-mod' a (2 ^ k),
  two-pow-pos k,
  bit_and_fields k (a / 2 ^ k) 0 (a % 2 ^ k) (2 ^ k - 1) (mod-below k a)
      (omega (arith, two-pow-pos k)),
  bit_and-zero (a / 2 ^ k),
  bit_and-ones k (a % 2 ^ k) (mod-below k a),
)

-- A mask of `n` ones above `k` zeros clears the low field.
pub bit_and_high :
    (n k a : ℕ) → a < 2 ^ (n + k) → bit_and a ((2 ^ n - 1) * 2 ^ k) ≡ a / 2 ^ k * 2 ^ k
bit_and_high n k a h = ground (
  arith,
  div-add-mod' a (2 ^ k),
  bit_and_fields k (a / 2 ^ k) (2 ^ n - 1) (a % 2 ^ k) 0 (mod-below k a) (two-pow-pos k),
  bit_and-zero (a % 2 ^ k),
  bit_and-ones n (a / 2 ^ k) ((div-lt_iff_lt-mul (two-pow-pos k)).1 (rw two-pow-add at h)),
)
