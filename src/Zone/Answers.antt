-- ===== src/Zone/Answers.antt =====
-- Forward queries: a name that a zone's template accepts is the forward name of an address in its network.
use mathlib.Core.Path.{subst}
use native.Mathlib.Nat.{
  div-lt_iff_lt-mul, mul-le-mul_right, suc-mul, mul-add-div_right, mod-eq_of_lt, div-eq_of_lt,
  mul-add-mod_self_right,
}
use panopti_dns.Prelude.{
  ℕ, suc, ◌+◌, ◌-◌, ◌*◌, ◌/◌, ◌%◌, ◌^◌, ◌≤◌, ◌<◌, ◌≡◌, refl, sym, ap, ◌∙◌, bit_and, bit_or, true,
  false, Option, none, some, List, [], ◌∷◌, arith, ◌==◌, ==_iff, length, All, inl, inr, Bool-cases,
  Option-cases,
}
use panopti_dns.Bits.{bit_or_disjoint, two-pow-pos, two-pow-add}
use panopti_dns.Bytes.{
  Bytes, codes, to_lower, to_ascii_lowercase, bytes_eq, bytes_eq→eq, eq_ignore_ascii_case,
}
use panopti_dns.Hickory.{Hickory, IsDocumented, same_labels}
use panopti_dns.Hickory
use panopti_dns.Nibble.{mask_bits}
use panopti_dns.Nibble.Mask.{host_bits, and-mask_bits}
use panopti_dns.Nibble.Digits.{fixed, two_pow_nibbles}
use panopti_dns.Config.{FwdLabel, literal, digits, Zone, label_count, render_label}
use panopti_dns.Zone.{match_label, match_labels, match_zone_forward}
use panopti_dns.Zone.Strip.{lowercase-lowercase}
use panopti_dns.Zone.Compiled.{is_plain}
use panopti_dns.Zone.RoundTrip.{render_label-plain}
use panopti_dns.Zone.Forward.{has_one, IsTemplateLabel, IsServable, rendered_labels}
use panopti_dns.Zone.Exact.{match_labels_sound, match_digits_sound}

-- The parts of an address that is put together from a prefix and a host part.
address_parts :
    (n prefix v : ℕ)
    → n ≤ 32
    → prefix < 2 ^ 128
    → bit_and prefix (mask_bits (128 - 4 * n)) ≡ prefix
    → v < 16 ^ n
    → (bit_or prefix v < 2 ^ 128)
      × (bit_or prefix v % 16 ^ n ≡ v)
      × (bit_and (bit_or prefix v) (mask_bits (128 - 4 * n)) ≡ prefix)
address_parts n prefix v small below masked fits =
    let K = 2 ^ (n * 4) in
    let q = prefix / K in
    let bits : host_bits (128 - 4 * n) ≡ n * 4 = omega arith in
    let host : v < K = rw (two_pow_nibbles n) fits in
    let multiple : prefix ≡ q * K =
      sym masked ∙ and-mask_bits (128 - 4 * n) prefix (omega arith) below ∙ rw bits refl in
    let joined : bit_or prefix v ≡ q * K + v =
      ap (λ (p : ℕ). bit_or p v) multiple ∙ bit_or_disjoint (n * 4) q v host in
    let whole : 2 ^ (128 - n * 4) * K ≡ 2 ^ 128 =
      sym (two-pow-add (128 - n * 4) (n * 4))
      ∙ ap (λ (t : ℕ). 2 ^ t) {x = 128 - n * 4 + n * 4} {y = 128} (omega arith) in
    let low : q < 2 ^ (128 - n * 4) =
      (div-lt_iff_lt-mul (two-pow-pos (n * 4))).1 (rw whole below) in
    let room : suc q * K ≤ 2 ^ 128 =
      subst (λ (t : ℕ). suc q * K ≤ t) whole (mul-le-mul_right K low) in
    let inside : bit_or prefix v < 2 ^ 128 = omega (arith, joined, room, suc-mul q K, host) in
    (
      inside,
      ap (λ (t : ℕ). bit_or prefix v % t) (sym (two_pow_nibbles n))
          ∙ ap (λ (t : ℕ). t % K) joined
          ∙ mul-add-mod_self_right q K v
          ∙ mod-eq_of_lt host,
      and-mask_bits (128 - 4 * n) (bit_or prefix v) (omega arith) inside
          ∙ ap (λ (b : ℕ). bit_or prefix v / 2 ^ b * 2 ^ b) bits
          ∙ ap (λ (t : ℕ). t / K * K) joined
          ∙ ap (λ (t : ℕ). t * K)
              (mul-add-div_right (two-pow-pos (n * 4)) q v ∙ omega (arith, div-eq_of_lt host))
          ∙ sym multiple,
    )

true_ne_false : true ≡ false → ⊥
true_ne_false e = cc

-- What a label that is matched comes to, lowercased.
matched_text :
    (n : ℕ) (label : Bytes) (l : FwdLabel) (host found : Option ℕ)
    → n ≤ 32
    → IsTemplateLabel n l
    → match_label n label l host ≡ some found
    → (w : ℕ) × (to_ascii_lowercase label ≡ to_ascii_lowercase (render_label (fixed n w) l))
unfolding IsTemplateLabel render_label match_label
matched_text n label (literal verbatim lower) host found small lowered e =
    elim (Bool-cases (eq_ignore_ascii_case label lower)) [
      | inr differs ↦ ground arith
      | inl same ↦
          (0, bytes_eq→eq _ _ same ∙ ap to_ascii_lowercase lowered ∙ lowercase-lowercase verbatim)
    ]
matched_text n label (digits pre pre_lower post post_lower dashed) host found small
      (low, low', group) e =
    let (w, is_w, below, same) =
      match_digits_sound n label pre post dashed host found small group (rw (low, low') at e) in
    (w, same)

only_star : (s : Bytes) → to_ascii_lowercase (codes "*") ≡ to_ascii_lowercase s → s ≡ codes "*"
unfolding to_lower
only_star [] e = cc
only_star (b ∷ []) e =
    let lowered : to_lower b ≡ 42 = cc in
    let same : b ≡ 42 = ground arith in ap (λ (c : ℕ). c ∷ []) same
only_star (b ∷ c ∷ s) e = cc

first_plain :
    (l : FwdLabel) (ls : List FwdLabel) → is_plain (l ∷ ls) ≡ true → is_plain (l ∷ []) ≡ true
first_plain (literal verbatim lower) ls p = p
first_plain (digits pre pre_lower post post_lower dashed) ls p = p

-- Where a plain template accepts the labels, the first is not `*`, so the library counts all of them.
label_total :
    (n v : ℕ) (labels : List Bytes) (ls : List FwdLabel)
    → 1 ≤ n
    → n ≤ 32
    → All (IsTemplateLabel n) ls
    → is_plain ls ≡ true
    → Hickory.label_count labels ≡ length ls
    → match_labels n labels ls none ≡ some (some v)
    → length labels ≡ length ls
unfolding match_labels
label_total n v [] ls pos small all plain counted e = counted
label_total n v (x ∷ xs) [] pos small all plain counted e = cc
label_total n v (x ∷ xs) (l ∷ ls) pos small (one, all) plain counted e =
    elim (Bool-cases (bytes_eq x (codes "*"))) [
      | inr other ↦ rw other at counted
      | inl star ↦ (elim (Option-cases (match_label n x l none)) [
        | inl refused ↦ ground arith
        | inr found ↦
            (let (w, same) = matched_text n x l none found.0 small one found.1 in
              let rendered : render_label (fixed n w) l ≡ codes "*" =
                only_star _ (ap to_ascii_lowercase (sym (bytes_eq→eq x (codes "*") star)) ∙ same) in
              let never = render_label-plain n w l pos (first_plain l ls plain) in
              absurd
                (true_ne_false (sym (ap (λ (t : Bytes). bytes_eq t (codes "*")) rendered) ∙ never)))
      ])
    ]

module _ (h : Hickory) (doc : IsDocumented h) where
  -- For a zone with host nibbles, at most 32, a prefix of the other nibbles below 2 ^ 128, and a template
  -- as the compiler makes it, with one placeholder and without a literal `*` in front: if the template maps
  -- a name to an address, the address is below 2 ^ 128 and in the zone's network, and the name is the
  -- forward name of that address, but for case.
  pub match_zone_forward_sound :
      (z : Zone h.Name) (name : h.Name) (addr : ℕ)
      → 1 ≤ z.host_nibbles
      → IsServable z
      → has_one z.fwd.labels ≡ true
      → is_plain z.fwd.labels ≡ true
      → z.prefix < 2 ^ 128
      → bit_and z.prefix (mask_bits z.mask) ≡ z.prefix
      → match_zone_forward h z name ≡ some addr
      → (addr < 2 ^ 128)
        × (bit_and addr (mask_bits z.mask) ≡ z.prefix)
        × (same_labels (h.iter name) (rendered_labels z addr) ≡ true)
  unfolding match_zone_forward IsServable
  match_zone_forward_sound z name addr pos (small, masked, labels, placed) one plain low network e =
      let n = z.host_nibbles in
      elim (Bool-cases (h.num_labels name == label_count z.fwd)) [
        | inr differs ↦ ground arith
        | inl counted ↦ (elim (Option-cases (match_labels n (h.iter name) z.fwd.labels none)) [
          | inl refused ↦ ground arith
          | inr matched ↦ (elim (Option-cases matched.0) [
            | inl missing ↦ ground arith
            | inr host ↦
                (let v = host.0 in
                  let run : match_labels n (h.iter name) z.fwd.labels none ≡ some (some v) =
                    matched.1 ∙ ap some host.1 in
                  let same : bit_or z.prefix v ≡ addr = ground arith in
                  let total =
                    label_total n v (h.iter name) z.fwd.labels pos small labels plain
                      (sym (doc.num_labels_lem name) ∙ (==_iff _ _).0 counted) run in
                  let (fits, alike) =
                    match_labels_sound n v (h.iter name) z.fwd.labels none small total labels placed
                      one run in
                  let (inside, part, covered) =
                    address_parts n z.prefix v small low (rw masked at network) fits in
                  subst
                    (λ (a : ℕ).
                      (a < 2 ^ 128)
                      × (bit_and a (mask_bits z.mask) ≡ z.prefix)
                      × (same_labels (h.iter name) (rendered_labels z a) ≡ true))
                    same (inside, rw masked covered, rw part alike))
          ])
        ])
      ]
