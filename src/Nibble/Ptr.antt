-- ===== src/Nibble/Ptr.antt =====
-- The two directions between an address and its ip6.arpa name.
use native.Mathlib.Nat.{add-zero, pow-le-pow_right, mod-eq_of_lt, mod-lt, div-add-mod'}
use panopti_dns.Prelude.{
  ℕ, zero, suc, ◌+◌, ◌*◌, ◌/◌, ◌%◌, ◌^◌, ◌≤◌, ◌<◌, ◌≡◌, refl, sym, ap, ◌∙◌, bit_or, true, some,
  List, [], ◌∷◌, ◌++◌, arith, and_parts, >>=-eq-some,
}
use panopti_dns.Bits.{two-pow-pos, two-pow-add, bit_and_low, bit_or_above, fields_unique}
use panopti_dns.Bytes.{Bytes, codes, eq_ignore_ascii_case}
use panopti_dns.Hickory.{same_labels}
use panopti_dns.Nibble.{shl128, nibble_of, parse_nibbles, nibble_labels}
use panopti_dns.Nibble.Hex.{
  digit_of, hex_lower-digit_of, hex_val-digit_of, hex_val_sound, to_lower-digit_of,
  hex_val-to_lower,
}

-- The nibble of `a` at a position.
abbrev pub nibble_at : ℕ → ℕ → ℕ
nibble_at a position = a / 2 ^ (position * 4) % 16

-- The digit labels of `a`, from a position on.
unfoldable pub digit_labels : ℕ → ℕ → ℕ → List Bytes
digit_labels a position zero = []
digit_labels a position (suc rounds) =
    (digit_of (nibble_at a position) ∷ []) ∷ digit_labels a (position + 1) rounds

-- The labels of the reverse name of an address.
unfoldable pub ptr_labels : ℕ → List Bytes
ptr_labels a = digit_labels a 0 32 ++ codes "ip6" ∷ codes "arpa" ∷ []

pub nibble_labels-digit_labels :
    (rounds a position : ℕ)
    → nibble_labels a position rounds ≡ some (digit_labels a position rounds)
unfolding nibble_labels digit_labels
nibble_labels-digit_labels zero a position = refl
nibble_labels-digit_labels (suc rounds) a position = rw (
  bit_and_low 4 (a / 2 ^ (position * 4)),
  hex_lower-digit_of (nibble_at a position) (omega arith),
  nibble_labels-digit_labels rounds a (position + 1),
)

-- The power of the next position.
pow_next : (p : ℕ) → 2 ^ ((p + 1) * 4) ≡ 16 * 2 ^ (p * 4)
pow_next p =
    ap (λ (t : ℕ). 2 ^ t) {x = (p + 1) * 4} {y = 4 + p * 4} (omega arith) ∙ two-pow-add 4 (p * 4)

pow_fits : (p : ℕ) → p < 32 → 16 * 2 ^ (p * 4) ≤ 2 ^ 128
pow_fits p h = rw (← pow_next p) (pow-le-pow_right (omega arith) {j = 128} (omega arith))

-- One round puts the nibble above those that are read.
or_nibble :
    (p value acc : ℕ)
    → p < 32
    → value < 16
    → acc < 2 ^ (p * 4)
    → bit_or acc (shl128 value (p * 4)) ≡ value * 2 ^ (p * 4) + acc
or_nibble p value acc hp hv ha = rw (mod-eq_of_lt fits) (bit_or_above (p * 4) value acc ha)
  where
    fits : value * 2 ^ (p * 4) < 2 ^ 128
    fits = grind (arith, pow_fits p hp, two-pow-pos (p * 4))

sum_below :
    (p value acc : ℕ)
    → value < 16
    → acc < 2 ^ (p * 4)
    → value * 2 ^ (p * 4) + acc < 2 ^ ((p + 1) * 4)
sum_below p value acc hv ha = grind (arith, pow_next p)

regroup : (q t r a : ℕ) {u : ℕ} → u ≡ 16 * t → q * t + r ≡ a → q / 16 * u + (q % 16 * t + r) ≡ a
regroup q t r a {u} e f = rw e (omega (arith, f, ap (λ (x : ℕ). x * t) (div-add-mod' q 16)))

-- The low part of `a` grows by the nibble at the position.
low_next : (a p : ℕ) → a % 2 ^ ((p + 1) * 4) ≡ nibble_at a p * 2 ^ (p * 4) + a % 2 ^ (p * 4)
low_next a p =
    (fields_unique (2 ^ ((p + 1) * 4)) (a / 2 ^ ((p + 1) * 4)) (a % 2 ^ ((p + 1) * 4))
      (a / 2 ^ (p * 4) / 16) (nibble_at a p * 2 ^ (p * 4) + a % 2 ^ (p * 4))
      (mod-lt a (two-pow-pos ((p + 1) * 4)))
      (sum_below p (nibble_at a p) (a % 2 ^ (p * 4)) (omega arith) (mod-lt a (two-pow-pos (p * 4))))
      (div-add-mod' a (2 ^ ((p + 1) * 4)) ∙ sym regrouped)).1
  where
    regrouped :
        a / 2 ^ (p * 4) / 16 * 2 ^ ((p + 1) * 4) + (nibble_at a p * 2 ^ (p * 4) + a % 2 ^ (p * 4))
        ≡ a
    regrouped =
        regroup (a / 2 ^ (p * 4)) (2 ^ (p * 4)) (a % 2 ^ (p * 4)) a (pow_next p)
          (div-add-mod' a (2 ^ (p * 4)))

nibble_of-digit :
    (label : Bytes) (n : ℕ)
    → n < 16
    → eq_ignore_ascii_case label (digit_of n ∷ []) ≡ true
    → nibble_of label ≡ some n
unfolding nibble_of
nibble_of-digit [] n h e = cc
nibble_of-digit (b ∷ []) n h e =
    ground (arith, hex_val-to_lower b, to_lower-digit_of n h, hex_val-digit_of n h)
nibble_of-digit (b ∷ c ∷ bs) n h e = ground arith

digit-nibble_of :
    (label : Bytes) (n : ℕ)
    → nibble_of label ≡ some n
    → (n < 16) × (eq_ignore_ascii_case label (digit_of n ∷ []) ≡ true)
unfolding nibble_of
digit-nibble_of [] n e = cc
digit-nibble_of (b ∷ []) n e = ground (arith, hex_val_sound b n e, to_lower-digit_of n)
digit-nibble_of (b ∷ c ∷ bs) n e = cc

-- A name whose labels are the digits of `a`, in any case, reads as `a`.
pub parse_nibbles_complete :
    (rounds a p : ℕ) (labels tail : List Bytes)
    → p + rounds ≤ 32
    → same_labels labels (digit_labels a p rounds ++ tail) ≡ true
    → (rest : List Bytes) × (parse_nibbles rounds p labels (a % 2 ^ (p * 4))
        ≡ some (a % 2 ^ ((p + rounds) * 4), rest))
      × (same_labels rest tail ≡ true)
unfolding parse_nibbles digit_labels
parse_nibbles_complete zero a p labels tail h e = (labels, rw add-zero, e)
parse_nibbles_complete (suc rounds) a p [] tail h e = cc
parse_nibbles_complete (suc rounds) a p (label ∷ labels) tail h e =
    let (here, later) =
      and_parts (eq_ignore_ascii_case label (digit_of (nibble_at a p) ∷ []))
        (same_labels labels (digit_labels a (p + 1) rounds ++ tail)) e in
    let room : p + 1 + rounds ≤ 32 = omega arith in
    let (rest, read, same) = parse_nibbles_complete rounds a (p + 1) labels tail room later in
    (
      rest,
      rw
          (
            nibble_of-digit label (nibble_at a p) (omega arith) here,
            or_nibble p (nibble_at a p) (a % 2 ^ (p * 4)) (omega arith) (omega arith)
                (mod-lt a (two-pow-pos (p * 4))),
            ← low_next a p,
          )
          (rw (let e' : p + suc rounds ≡ p + 1 + rounds = omega arith in e') read),
      same,
    )

-- Whatever is read has the digits of the result as its labels.
pub parse_nibbles_sound :
    (rounds p acc a : ℕ) (labels rest tail : List Bytes)
    → p + rounds ≤ 32
    → acc < 2 ^ (p * 4)
    → parse_nibbles rounds p labels acc ≡ some (a, rest)
    → same_labels rest tail ≡ true
    → (a % 2 ^ (p * 4) ≡ acc)
      × (a < 2 ^ ((p + rounds) * 4))
      × (same_labels labels (digit_labels a p rounds ++ tail) ≡ true)
unfolding parse_nibbles digit_labels
parse_nibbles_sound zero p acc a labels rest tail h ha e same =
    let e' : p + 0 ≡ p = omega arith in
    rw (e', mod-eq_of_lt {m = 2 ^ (p * 4)} (cc_bound (ap_fst e) ha))
      (ap_fst e, cc_bound (ap_fst e) ha, cc)
  where
    ap_fst : {x y : ℕ × List Bytes} → some x ≡ some y → y.0 ≡ x.0
    ap_fst q = cc

    cc_bound : {x y z : ℕ} → y ≡ x → x < z → y < z
    cc_bound q l = omega arith
parse_nibbles_sound (suc rounds) p acc a [] rest tail h ha e same = cc
parse_nibbles_sound (suc rounds) p acc a (label ∷ labels) rest tail h ha e same =
    let (v, ev, er) = >>=-eq-some (nibble_of label) _ e in
    let (small, here) = digit-nibble_of label v ev in
    let (low, below, later) =
      parse_nibbles_sound rounds (p + 1) (v * 2 ^ (p * 4) + acc) a labels rest tail (omega arith)
        (sum_below p v acc small ha) (rw (or_nibble p v acc (omega arith) small ha) at er) same in
    let (nib, old) =
      fields_unique (2 ^ (p * 4)) (nibble_at a p) (a % 2 ^ (p * 4)) v acc
        (mod-lt a (two-pow-pos (p * 4))) ha (sym (low_next a p) ∙ low) in
    let e' : p + suc rounds ≡ p + 1 + rounds = omega arith in
    (old, rw e' below, rw (nib, here) later)
