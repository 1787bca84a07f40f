-- ===== src/Nibble/Hex.antt =====
-- Hex digits as numbers: `HEX_LOWER` and `hex_val` of src/nibble.rs.
use panopti_dns.Prelude.{
  ℕ, zero, suc, ◌+◌, ◌<◌, ◌≡◌, refl, Bool, true, false, ◌&&◌, Option, none, some, arith, ltb, ◌==◌,
  if◌then◌else◌, get_elem?,
}
use panopti_dns.Bytes.{to_lower}
use panopti_dns.Nibble.{hex_lower, hex_val}

-- The lowercase digit of a number below 16.
abbrev pub digit_of : ℕ → ℕ
digit_of n = if ltb n 10 then b'0' + n else 87 + n

abbrev holds : Option ℕ → ℕ → Bool
holds none d = false
holds (some c) d = c == d

all_below : (ℕ → Bool) → ℕ → Bool
all_below p zero = true
all_below p (suc n) = p n && all_below p n

all_below_sound : (p : ℕ → Bool) (k n : ℕ) → all_below p k ≡ true → n < k → p n ≡ true
unfolding all_below
all_below_sound p zero n h lt = absurd (omega arith)
all_below_sound p (suc k) n h lt = ground (arith, all_below_sound p k n)

abbrev agrees : ℕ → Bool
agrees n = holds (get_elem? hex_lower n) (digit_of n)

holds→eq : (o : Option ℕ) (d : ℕ) → holds o d ≡ true → o ≡ some d
holds→eq none d h = cc
holds→eq (some c) d h = ground arith

table : all_below agrees 16 ≡ true
unfolding all_below
table = refl

pub hex_lower-digit_of : (n : ℕ) → n < 16 → get_elem? hex_lower n ≡ some (digit_of n)
hex_lower-digit_of n h = holds→eq _ _ (all_below_sound agrees 16 n table h)

pub hex_val-digit_of : (n : ℕ) → n < 16 → hex_val (digit_of n) ≡ some n
unfolding hex_val
hex_val-digit_of n h = ground arith

-- A byte that decodes is, in lowercase, the digit of its value, which is a nibble.
pub hex_val_sound : (b v : ℕ) → hex_val b ≡ some v → (v < 16) × (to_lower b ≡ digit_of v)
unfolding hex_val to_lower
hex_val_sound b v h = ground arith

-- Case does not matter.
pub hex_val-to_lower : (b : ℕ) → hex_val (to_lower b) ≡ hex_val b
unfolding hex_val to_lower
hex_val-to_lower b = ground arith

pub to_lower-digit_of : (n : ℕ) → n < 16 → to_lower (digit_of n) ≡ digit_of n
unfolding to_lower
to_lower-digit_of n h = ground arith
