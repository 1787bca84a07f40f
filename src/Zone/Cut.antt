-- ===== src/Zone/Cut.antt =====
-- What is cut off labels, read back: prefixes, suffixes and dashes, with no regard to case.
use mathlib.Core.List.{map-append}
use panopti_dns.Prelude.{
  ℕ, zero, suc, ◌-◌, ◌*◌, ◌^◌, ◌≤◌, ◌<◌, ◌≡◌, refl, sym, ap, ◌∙◌, Bool, true, false, some, [], ◌∷◌,
  ◌++◌, arith, leb, length, length-map, take, drop, if◌then◌else◌, inl, inr, Bool-cases,
  Option-cases,
}
use panopti_dns.Bytes.{
  Bytes, to_lower, to_ascii_lowercase, bytes_eq→eq, eq_ignore_ascii_case, split_at_checked,
}
use panopti_dns.Nibble.{dash_group, dash_rest, undash_group}
use panopti_dns.Nibble.Dash.{undash_group_exact}
use panopti_dns.Nibble.Digits.{fixed, digits_to_host_exact, fixed-lowercase}
use panopti_dns.Zone.{strip_prefix_ci, strip_suffix_ci, host_of}
use panopti_dns.Zone.Strip.{lowercase-lowercase}

take-drop : (n : ℕ) (s : Bytes) → take n s ++ drop n s ≡ s
take-drop zero s = refl
take-drop (suc n) [] = refl
take-drop (suc n) (b ∷ s) = ap (◌∷◌ b) (take-drop n s)

pub strip_prefix_ci_sound :
    (label pre rest : Bytes)
    → strip_prefix_ci label (to_ascii_lowercase pre) ≡ some rest
    → to_ascii_lowercase label ≡ to_ascii_lowercase pre ++ to_ascii_lowercase rest
unfolding strip_prefix_ci split_at_checked
strip_prefix_ci_sound label pre rest e =
    let n = length (to_ascii_lowercase pre) in
    elim (Bool-cases (leb n (length label))) [
      | inr short ↦ ground arith
      | inl fits ↦
          (elim (Bool-cases (eq_ignore_ascii_case (take n label) (to_ascii_lowercase pre))) [
            | inr differs ↦ ground arith
            | inl alike ↦
                let left : to_ascii_lowercase (take n label) ≡ to_ascii_lowercase pre =
                  bytes_eq→eq _ _ alike ∙ lowercase-lowercase pre in
                let right : drop n label ≡ rest = ground arith in
                ap to_ascii_lowercase (sym (take-drop n label))
                ∙ map-append to_lower (take n label) (drop n label)
                ∙ rw (left, right) refl
          ])
    ]

pub strip_suffix_ci_sound :
    (rest post middle : Bytes)
    → strip_suffix_ci rest (to_ascii_lowercase post) ≡ some middle
    → to_ascii_lowercase rest ≡ to_ascii_lowercase middle ++ to_ascii_lowercase post
unfolding strip_suffix_ci split_at_checked
strip_suffix_ci_sound rest post middle e =
    let k = length (to_ascii_lowercase post) in
    let n = length rest - k in
    elim (Bool-cases (leb k (length rest))) [
      | inr short ↦ ground arith
      | inl fits ↦
          (elim (Bool-cases (eq_ignore_ascii_case (drop n rest) (to_ascii_lowercase post))) [
            | inr differs ↦ ground arith
            | inl alike ↦
                let right : to_ascii_lowercase (drop n rest) ≡ to_ascii_lowercase post =
                  bytes_eq→eq _ _ alike ∙ lowercase-lowercase post in
                let left : take n rest ≡ middle = ground arith in
                ap to_ascii_lowercase (sym (take-drop n rest))
                ∙ map-append to_lower (take n rest) (drop n rest)
                ∙ rw (left, right) refl
          ])
    ]

take-lowercase : (n : ℕ) (s : Bytes) → to_ascii_lowercase (take n s) ≡ take n (to_ascii_lowercase s)
take-lowercase zero s = refl
take-lowercase (suc n) [] = refl
take-lowercase (suc n) (b ∷ s) = ap (◌∷◌ (to_lower b)) (take-lowercase n s)

drop-lowercase : (n : ℕ) (s : Bytes) → to_ascii_lowercase (drop n s) ≡ drop n (to_ascii_lowercase s)
drop-lowercase zero s = refl
drop-lowercase (suc n) [] = refl
drop-lowercase (suc n) (b ∷ s) = drop-lowercase n s

dash_rest-lowercase :
    (room : ℕ) (ds : Bytes)
    → to_ascii_lowercase (dash_rest room ds) ≡ dash_rest room (to_ascii_lowercase ds)
unfolding dash_rest to_lower
dash_rest-lowercase zero ds = refl
dash_rest-lowercase (suc room) [] = refl
dash_rest-lowercase (suc room) (d ∷ ds) = ap (◌∷◌ b'-') (
    map-append to_lower (take 4 (d ∷ ds)) (dash_rest room (drop 4 (d ∷ ds)))
    ∙ ap (λ (t : Bytes). t ++ to_ascii_lowercase (dash_rest room (drop 4 (d ∷ ds))))
        (take-lowercase 4 (d ∷ ds))
    ∙ ap (λ (t : Bytes). take 4 (to_ascii_lowercase (d ∷ ds)) ++ t)
        (dash_rest-lowercase room (drop 4 (d ∷ ds))
          ∙ ap (dash_rest room) (drop-lowercase 4 (d ∷ ds))))

dash_group-lowercase :
    (ds : Bytes) → to_ascii_lowercase (dash_group ds) ≡ dash_group (to_ascii_lowercase ds)
unfolding dash_group
dash_group-lowercase ds =
    map-append to_lower (take 4 ds) (dash_rest (length ds) (drop 4 ds))
    ∙ rw
        (
          take-lowercase 4 ds,
          dash_rest-lowercase (length ds) (drop 4 ds),
          drop-lowercase 4 ds,
          length-map ds to_lower,
        )
        refl

-- The digits as a template renders them.
abbrev pub shown : Bool → Bytes → Bytes
shown dashed ds = if dashed then dash_group ds else ds

pub host_of_sound :
    (n v : ℕ) (dashed : Bool) (middle : Bytes)
    → n ≤ 32
    → (dashed ≡ true → (groups : ℕ) × (n ≡ 4 * suc groups))
    → host_of n dashed middle ≡ some v
    → (v < 16 ^ n) × (to_ascii_lowercase middle ≡ to_ascii_lowercase (shown dashed (fixed n v)))
unfolding host_of
host_of_sound n v false middle small group e =
    let (below, same) = (digits_to_host_exact middle n v small).0 e in
    (below, same ∙ sym (fixed-lowercase n v))
host_of_sound n v true middle small group e = elim (Option-cases (undash_group middle n)) [
  | inl refused ↦ ground arith
  | inr read ↦
      (let ds = read.0 in
        let (groups, whole) = group refl in
        let (long, grouped) = (undash_group_exact middle ds groups).0 (rw whole at read.1) in
        let (below, same) = (digits_to_host_exact ds n v small).0 (ground arith) in
        (
          below,
          ap to_ascii_lowercase grouped
              ∙ dash_group-lowercase ds
              ∙ ap dash_group (same ∙ sym (fixed-lowercase n v))
              ∙ sym (dash_group-lowercase (fixed n v)),
        ))
]
