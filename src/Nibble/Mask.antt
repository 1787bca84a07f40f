-- ===== src/Nibble/Mask.antt =====
-- `mask_bits` of src/nibble.rs as arithmetic on the network and the host part.
use native.Mathlib.Nat.{div-eq_of_lt-le, mul-suc, suc-mul, mul_comm}
use panopti_dns.Prelude.{
  ℕ, zero, suc, ◌-◌, ◌*◌, ◌/◌, ◌%◌, ◌^◌, ◌≤◌, ◌<◌, ◌≡◌, refl, ap, ◌∙◌, bit_and, arith,
}
use panopti_dns.Bits.{two-pow-pos, two-pow-add, bit_and_high, bit_and_low}
use panopti_dns.Nibble.{u128_max, not128, shr128, mask_bits}

-- The host bits below a prefix of `mask` bits.
abbrev pub host_bits : ℕ → ℕ
host_bits mask = 128 - mask

-- 2 ^ 128 split at the prefix.
width_split : (mask : ℕ) → mask ≤ 128 → 2 ^ 128 ≡ 2 ^ mask * 2 ^ host_bits mask
width_split mask h =
    ap (λ (t : ℕ). 2 ^ t) {x = 128} (omega arith) ∙ two-pow-add mask (host_bits mask)

ones_shift : (p q : ℕ) → 1 ≤ p → 1 ≤ q → (p * q - 1) / p ≡ q - 1
ones_shift p zero hp hq = absurd (omega arith)
ones_shift p (suc q) hp hq =
    div-eq_of_lt-le p (grind (arith, mul-suc p q, mul_comm p q))
      (grind (arith, mul-suc p q, mul_comm p q, suc-mul q p))

pred_suc : (p : ℕ) → suc p - 1 ≡ p
pred_suc p = omega arith

not_ones : (p q : ℕ) → 1 ≤ p → 1 ≤ q → p * q - 1 - (q - 1) ≡ (p - 1) * q
not_ones zero q hp hq = absurd (omega arith)
not_ones (suc p) q hp hq = rw (pred_suc p) (omega (arith, suc-mul p q))

ones_left : (p q : ℕ) → 1 ≤ p → 1 ≤ q → p * q - 1 - (p - 1) * q ≡ q - 1
ones_left zero q hp hq = absurd (omega arith)
ones_left (suc p) q hp hq = rw (pred_suc p) (omega (arith, suc-mul p q))

u128_max-split : (mask : ℕ) → mask ≤ 128 → u128_max ≡ 2 ^ mask * 2 ^ host_bits mask - 1
u128_max-split mask h = omega (arith, width_split mask h)

mask_bits_inner :
    (mask : ℕ) → mask ≤ 128 → not128 (shr128 u128_max mask) ≡ (2 ^ mask - 1) * 2 ^ host_bits mask
mask_bits_inner mask h =
    rw (u128_max-split mask h, ones_shift _ _ (two-pow-pos mask) (two-pow-pos (host_bits mask)))
      (not_ones (2 ^ mask) (2 ^ host_bits mask) (two-pow-pos mask) (two-pow-pos (host_bits mask)))

mask_bits_full :
    (mask : ℕ) → mask ≤ 128 → 128 ≤ mask → u128_max ≡ (2 ^ mask - 1) * 2 ^ host_bits mask
mask_bits_full mask h g = rw (let e : mask ≡ 128 = omega arith in e) refl

pub mask_bits-fields :
    (mask : ℕ) → mask ≤ 128 → mask_bits mask ≡ (2 ^ mask - 1) * 2 ^ host_bits mask
unfolding mask_bits
mask_bits-fields zero h = refl
mask_bits-fields (suc m) h = ground (arith, mask_bits_inner (suc m) h, mask_bits_full (suc m) h)

-- `addr & mask_bits(mask)` clears the host part.
pub and-mask_bits :
    (mask addr : ℕ)
    → mask ≤ 128
    → addr < 2 ^ 128
    → bit_and addr (mask_bits mask) ≡ addr / 2 ^ host_bits mask * 2 ^ host_bits mask
and-mask_bits mask addr h lt = rw (mask_bits-fields mask h) (
    bit_and_high mask (host_bits mask) addr
      (rw (width_split mask h, ← two-pow-add mask (host_bits mask)) at lt))

-- `addr & !mask_bits(mask)` keeps the host part alone.
pub and-not-mask_bits :
    (mask addr : ℕ)
    → mask ≤ 128
    → bit_and addr (not128 (mask_bits mask)) ≡ addr % 2 ^ host_bits mask
and-not-mask_bits mask addr h = rw not_mask (bit_and_low (host_bits mask) addr)
  where
    not_mask : not128 (mask_bits mask) ≡ 2 ^ host_bits mask - 1
    not_mask =
        rw (mask_bits-fields mask h, u128_max-split mask h)
          (ones_left (2 ^ mask) (2 ^ host_bits mask) (two-pow-pos mask)
            (two-pow-pos (host_bits mask)))
