-- ===== src/Nibble/Digits.antt =====
-- `host_digits` and `digits_to_host` against fixed-width hexadecimal.
use native.Mathlib.Nat.{
  pow-succ', pow-le-pow_right, mod-eq_of_lt, one-le-pow, mod-lt, add-zero, zero-add, add-suc,
  suc-add,
}
use mathlib.Core.List.{append-nil, append_assoc, map-append}
use panopti_dns.Prelude.{
  ℕ, zero, suc, ◌+◌, ◌-◌, ◌*◌, ◌/◌, ◌%◌, ◌^◌, ◌≤◌, ◌<◌, ◌≡◌, refl, sym, ap, ◌∙◌, ◌↔◌, bit_or, false,
  not, none, some, [], ◌∷◌, ◌++◌, arith, ◌==◌, ltb, ◌>>=◌, >>=-eq-some, some_inv, unless_some,
  length, length-append, replicate, inl, inr, Bool-cases, Option-cases, length-map,
}
use panopti_dns.Bits.{bit_or_disjoint, two-pow-add}
use panopti_dns.Bytes.{Bytes, to_lower, to_ascii_lowercase}
use panopti_dns.Nibble.{
  shl128, hex_val, hex_digits, format_hex, host_digits, digits_loop, digits_to_host,
}
use panopti_dns.Nibble.Hex.{
  digit_of, hex_lower-digit_of, hex_val-digit_of, hex_val_sound, hex_val-to_lower,
  to_lower-digit_of,
}
use panopti_dns.Nibble.Mask.{and-not-mask_bits}

-- The `width` lowest hex digits of a number, highest first.
unfoldable pub fixed : ℕ → ℕ → Bytes
fixed zero v = []
fixed (suc width) v = fixed width (v / 16) ++ digit_of (v % 16) ∷ []

pub length-fixed : (width v : ℕ) → length (fixed width v) ≡ width
unfolding fixed
length-fixed zero v = refl
length-fixed (suc width) v = omega (
  arith,
  length-append (fixed width (v / 16)) (digit_of (v % 16) ∷ []),
  length-fixed width (v / 16),
)

pub two_pow_nibbles : (n : ℕ) → 2 ^ (n * 4) ≡ 16 ^ n
two_pow_nibbles zero = refl
two_pow_nibbles (suc n) =
    ap (λ (t : ℕ). 2 ^ t) {x = suc n * 4} {y = 4 + n * 4} (omega arith)
    ∙ two-pow-add 4 (n * 4)
    ∙ omega (arith, two_pow_nibbles n, pow-succ' 16 n)

div_below : (w v : ℕ) → v < 16 ^ suc w → v / 16 < 16 ^ w
div_below w v h = omega (arith, pow-succ' 16 w)

replicate_snoc : (j c : ℕ) → replicate j c ++ c ∷ [] ≡ replicate (suc j) c
replicate_snoc zero c = refl
replicate_snoc (suc j) c = ap (◌∷◌ c) (replicate_snoc j c)

fixed_zero : (j : ℕ) → fixed j 0 ≡ replicate j b'0'
unfolding fixed
fixed_zero zero = refl
fixed_zero (suc j) = rw (fixed_zero j) (replicate_snoc j b'0')

-- Wider digits begin with zeros.
fixed_pad : (j k v : ℕ) → v < 16 ^ k → replicate j b'0' ++ fixed k v ≡ fixed (j + k) v
unfolding fixed
fixed_pad j zero zero h = rw add-zero (append-nil (replicate j b'0') ∙ sym (fixed_zero j))
fixed_pad j zero (suc v) h = absurd (omega arith)
fixed_pad j (suc k) v h = rw (add-suc j k) (
    sym (append_assoc (replicate j b'0') (fixed k (v / 16)) (digit_of (v % 16) ∷ []))
    ∙ ap (λ (t : Bytes). t ++ digit_of (v % 16) ∷ []) (fixed_pad j k (v / 16) (div_below k v h)))

-- `{:x}` writes as few digits as the number needs, and one at least.
hex_digits-fixed :
    (fuel w v : ℕ)
    → w < fuel
    → v < 16 ^ suc w
    → (k : ℕ) × (hex_digits fuel v ≡ some (fixed k v)) × (v < 16 ^ k) × (k ≤ suc w)
unfolding hex_digits fixed
hex_digits-fixed zero w v hw h = absurd (omega arith)
hex_digits-fixed (suc fuel) zero v hw h =
    (1, rw (hex_lower-digit_of (v % 16) (omega arith)) (ground arith), omega arith, omega arith)
hex_digits-fixed (suc fuel) (suc w) v hw h =
    let (k, read, fits, small) =
      hex_digits-fixed fuel w (v / 16) (omega arith) (div_below (suc w) v h) in
    elim (Bool-cases (ltb v 16)) [
      | inl one' ↦
          (1, rw (hex_lower-digit_of (v % 16) (omega arith), one') refl, ground arith, omega arith)
      | inr more ↦ (
        suc k,
        rw (hex_lower-digit_of (v % 16) (omega arith), more, read) refl,
        omega (arith, pow-succ' 16 k),
        omega arith,
      )
    ]

-- `{:0width$x}` of a number that fits is its fixed-width form.
pub format_hex-fixed :
    (w v : ℕ) → w < 32 → v < 16 ^ suc w → format_hex (suc w) v ≡ some (fixed (suc w) v)
unfolding format_hex
format_hex-fixed w v hw h =
    let (k, read, fits, small) = hex_digits-fixed 32 w v hw h in
    rw (read, length-fixed k v)
      (ap some (
        fixed_pad (suc w - k) k v fits
        ∙ ap (λ (t : ℕ). fixed t v) {x = suc w - k + k} (omega arith)))

-- `host_digits` writes the low nibbles of the address, padded to their number.
pub host_digits-fixed : (addr n : ℕ) → n ≤ 32 → host_digits addr n ≡ some (fixed n (addr % 16 ^ n))
unfolding host_digits
host_digits-fixed addr zero h = unfold fixed in refl
host_digits-fixed addr (suc n) h =
    let bits : 2 ^ (128 - (128 - suc n * 4)) ≡ 16 ^ suc n =
      ap (λ (t : ℕ). 2 ^ t) {x = 128 - (128 - suc n * 4)} {y = suc n * 4} (omega arith)
      ∙ two_pow_nibbles (suc n) in
    let in_range : ltb 32 (suc n) ≡ false = ground arith in
    let some_digits : (suc n == 0) ≡ false = ground arith in
    rw (in_range, some_digits, and-not-mask_bits (128 - suc n * 4) addr (omega arith), bits)
      (format_hex-fixed n (addr % 16 ^ suc n) (omega arith)
        (mod-lt addr (one-le-pow (suc n) 16 (omega arith))))

-- Too many nibbles are refused.
pub host_digits-none : (addr n : ℕ) → 32 < n → host_digits addr n ≡ none
unfolding host_digits
host_digits-none addr n h = ground arith

-- The digits are in lowercase.
pub fixed-lowercase : (w v : ℕ) → to_ascii_lowercase (fixed w v) ≡ fixed w v
unfolding fixed
fixed-lowercase zero v = refl
fixed-lowercase (suc w) v =
    map-append to_lower (fixed w (v / 16)) (digit_of (v % 16) ∷ [])
    ∙ rw (fixed-lowercase w (v / 16), to_lower-digit_of (v % 16) (omega arith))

-- One digit more on the right.
shift_in :
    (host value : ℕ)
    → host < 16 ^ 31
    → value < 16
    → bit_or (shl128 host 4) value ≡ host * 16 + value
shift_in host value h v =
    rw (mod-eq_of_lt {n = host * 2 ^ 4} {m = 2 ^ 128} (omega arith))
      (bit_or_disjoint 4 host value v)

pow_16_mono : (k : ℕ) → k ≤ 31 → 16 ^ k ≤ 16 ^ 31
pow_16_mono k h = pow-le-pow_right (omega arith) h

-- Digits read with a number of `k` nibbles before them: the result has the digits of both.
digits_loop_sound :
    (ds : Bytes) (k host v : ℕ)
    → host < 16 ^ k
    → k + length ds ≤ 32
    → digits_loop ds host ≡ some v
    → (v < 16 ^ (k + length ds)) × (fixed k host ++ to_ascii_lowercase ds ≡ fixed (k + length ds) v)
unfolding digits_loop fixed
digits_loop_sound [] k host v hh hk e =
    rw add-zero (omega (arith, some_inv e), append-nil (fixed k host) ∙ ap (fixed k) (some_inv e))
digits_loop_sound (b ∷ ds) k host v hh hk e =
    let (value, eb, er) = >>=-eq-some (hex_val b) _ e in
    let (small, low) = hex_val_sound b value eb in
    let fits : host < 16 ^ 31 = omega (arith, pow_16_mono k (omega arith)) in
    let (below, digits) =
      digits_loop_sound ds (suc k) (host * 16 + value) v (omega (arith, pow-succ' 16 k))
        (omega arith) (rw (shift_in host value fits small) at er) in
    let high : (host * 16 + value) / 16 ≡ host = omega arith in
    let last : (host * 16 + value) % 16 ≡ value = omega arith in
    rw (add-suc k (length ds)) (
      rw (suc-add k (length ds)) at below,
      rw low (
          sym (append_assoc (fixed k host) (digit_of value ∷ []) (to_ascii_lowercase ds))
          ∙ rw (high, last, suc-add k (length ds)) at digits),
    )

digits_loop-append :
    (ds es : Bytes) (host : ℕ)
    → digits_loop (ds ++ es) host ≡ (digits_loop ds host >>= digits_loop es)
unfolding digits_loop
digits_loop-append [] es host = refl
digits_loop-append (d ∷ ds) es host = elim (Option-cases (hex_val d)) [
  | inl bad ↦ rw bad
  | inr (v, good) ↦ rw good (digits_loop-append ds es (bit_or (shl128 host 4) v))
]

-- The fixed-width digits of a number read back as the number.
digits_loop-fixed : (w v : ℕ) → w ≤ 32 → v < 16 ^ w → digits_loop (fixed w v) 0 ≡ some v
unfolding fixed digits_loop
digits_loop-fixed zero v hw h = ap some (omega arith)
digits_loop-fixed (suc w) v hw h =
    let high = div_below w v h in
    let read = digits_loop-fixed w (v / 16) (omega arith) high in
    let fits : v / 16 < 16 ^ 31 = omega (arith, pow_16_mono w (omega arith)) in
    digits_loop-append (fixed w (v / 16)) (digit_of (v % 16) ∷ []) 0
    ∙ rw
        (
          read,
          hex_val-digit_of (v % 16) (omega arith),
          shift_in (v / 16) (v % 16) fits (omega arith),
        )
        (ap some (omega arith))

digits_loop-lowercase :
    (ds : Bytes) (host : ℕ) → digits_loop (to_ascii_lowercase ds) host ≡ digits_loop ds host
unfolding digits_loop
digits_loop-lowercase [] host = refl
digits_loop-lowercase (d ∷ ds) host = elim (Option-cases (hex_val d)) [
  | inl bad ↦ rw (hex_val-to_lower d, bad)
  | inr (v, good) ↦
      rw (hex_val-to_lower d, good) (digits_loop-lowercase ds (bit_or (shl128 host 4) v))
]

-- For at most 32 nibbles `digits_to_host` accepts exactly the fixed-width digits, in any case, of a
-- number that fits, and returns that number.
pub digits_to_host_exact :
    (ds : Bytes) (n v : ℕ)
    → n ≤ 32
    → (digits_to_host ds n ≡ some v) ↔ ((v < 16 ^ n) × (to_ascii_lowercase ds ≡ fixed n v))
unfolding digits_to_host fixed
digits_to_host_exact ds n v hn = (sound, complete)
  where
    sound : digits_to_host ds n ≡ some v → (v < 16 ^ n) × (to_ascii_lowercase ds ≡ fixed n v)
    sound e =
        let (len, read) = unless_some (not (length ds == n)) (digits_loop ds 0) e in
        let same : length ds ≡ n = ground arith in
        rw (same, zero-add n) at (digits_loop_sound ds 0 0 v (omega arith) (omega arith) read)

    complete : (v < 16 ^ n) × (to_ascii_lowercase ds ≡ fixed n v) → digits_to_host ds n ≡ some v
    complete (lt, e) =
        let same : length ds ≡ n = sym (length-map ds to_lower) ∙ ap length e ∙ length-fixed n v in
        let read : digits_loop ds 0 ≡ some v =
          sym (digits_loop-lowercase ds 0) ∙ rw e (digits_loop-fixed n v hn lt) in
        rw (same, read) (ground arith)

-- For at most 32 nibbles: the digits that `host_digits` writes are as many as asked for, and decode to the host part of the
-- address.
pub host_digits_round_trip :
    (addr n : ℕ)
    → n ≤ 32
    → (ds : Bytes) × (host_digits addr n ≡ some ds)
      × (length ds ≡ n)
      × (digits_to_host ds n ≡ some (addr % 16 ^ n))
host_digits_round_trip addr n hn =
    let below = mod-lt addr (one-le-pow n 16 (omega arith)) in
    (
      fixed n (addr % 16 ^ n),
      host_digits-fixed addr n hn,
      length-fixed n (addr % 16 ^ n),
      (digits_to_host_exact _ n _ hn).1 (below, fixed-lowercase n (addr % 16 ^ n)),
    )
