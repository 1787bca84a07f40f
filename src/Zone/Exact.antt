-- ===== src/Zone/Exact.antt =====
-- Forward names: `match_zone_forward` accepts no name but those that `forward_name` produces.
use mathlib.Core.Path.{subst}
use mathlib.Core.List.{map-append}
use panopti_dns.Prelude.{
  ℕ, suc, ◌*◌, ◌^◌, ◌≤◌, ◌<◌, ◌≡◌, refl, sym, ap, ◌∙◌, Bool, true, false, Option, some, List, [],
  ◌∷◌, ◌++◌, map, arith, length, All, inl, inr, Bool-cases, Option-cases, some_inv,
}
use panopti_dns.Bytes.{
  Bytes, to_lower, to_ascii_lowercase, bytes_eq→eq, bytes_eq_refl, eq_ignore_ascii_case,
}
use panopti_dns.Hickory.{same_labels}
use panopti_dns.Nibble.Digits.{fixed}
use panopti_dns.Config.{FwdLabel, literal, digits, render_label}
use panopti_dns.Zone.{strip_prefix_ci, strip_suffix_ci, host_of, match_label, match_labels}
use panopti_dns.Zone.Strip.{lowercase-lowercase}
use panopti_dns.Zone.Forward.{IsTemplateLabel, has_digits, has_one}
use panopti_dns.Zone.Cut.{strip_prefix_ci_sound, strip_suffix_ci_sound, shown, host_of_sound}

-- A label that is matched is the one that the template renders, but for case.
pub match_digits_sound :
    (n : ℕ) (label pre post : Bytes) (dashed : Bool) (host : Option ℕ) (found : Option ℕ)
    → n ≤ 32
    → (dashed ≡ true → (groups : ℕ) × (n ≡ 4 * suc groups))
    → match_label n label
        (digits pre (to_ascii_lowercase pre) post (to_ascii_lowercase post) dashed)
        host
      ≡ some found
    → (v : ℕ) × (found ≡ some v)
      × (v < 16 ^ n)
      × (to_ascii_lowercase label ≡ to_ascii_lowercase (pre ++ (shown dashed (fixed n v) ++ post)))
unfolding match_label
match_digits_sound n label pre post dashed host found small group e =
    elim (Option-cases (strip_prefix_ci label (to_ascii_lowercase pre))) [
      | inl absent ↦ ground arith
      | inr rest ↦ (elim (Option-cases (strip_suffix_ci rest.0 (to_ascii_lowercase post))) [
        | inl absent ↦ ground arith
        | inr middle ↦ (elim (Option-cases (host_of n dashed middle.0)) [
          | inl absent ↦ ground arith
          | inr value ↦
              (let (below, same) = host_of_sound n value.0 dashed middle.0 small group value.1 in
                let digits = shown dashed (fixed n value.0) in
                (
                  value.0,
                  ground arith,
                  below,
                  strip_prefix_ci_sound label pre rest.0 rest.1
                      ∙ ap (λ (t : Bytes). to_ascii_lowercase pre ++ t)
                          (strip_suffix_ci_sound rest.0 post middle.0 middle.1
                            ∙ ap (λ (t : Bytes). t ++ to_ascii_lowercase post) same
                            ∙ sym (map-append to_lower digits post))
                      ∙ sym (map-append to_lower pre (digits ++ post)),
                ))
        ])
      ])
    ]

alike :
    (a b : Bytes) → to_ascii_lowercase a ≡ to_ascii_lowercase b → eq_ignore_ascii_case a b ≡ true
alike a b e = rw e (bytes_eq_refl (to_ascii_lowercase b))

-- Labels without digits: the host part found before is kept.
match_literals_sound :
    (n : ℕ) (ds : Bytes) (labels : List Bytes) (ls : List FwdLabel) (host found : Option ℕ)
    → length labels ≡ length ls
    → All (IsTemplateLabel n) ls
    → has_digits ls ≡ false
    → match_labels n labels ls host ≡ some found
    → (found ≡ host) × (same_labels labels (map (render_label ds) ls) ≡ true)
unfolding match_labels match_label IsTemplateLabel render_label
match_literals_sound n ds [] [] host found long all none_left e = (sym (some_inv e), refl)
match_literals_sound n ds [] (l ∷ ls) host found long all none_left e = absurd (omega arith)
match_literals_sound n ds (x ∷ xs) [] host found long all none_left e = absurd (omega arith)
match_literals_sound n ds (x ∷ xs) (digits p q r s t ∷ ls) host found long all none_left e = cc
match_literals_sound n ds (x ∷ xs) (literal verbatim lower ∷ ls) host found long (lowered, all)
      none_left e =
    elim (Bool-cases (eq_ignore_ascii_case x lower)) [
      | inr differs ↦ ground arith
      | inl same ↦
          (let (kept, others) =
              match_literals_sound n ds xs ls host found (omega arith) all none_left
                (ground arith) in
            let first : eq_ignore_ascii_case x verbatim ≡ true = alike x verbatim (
              bytes_eq→eq _ _ same
              ∙ ap to_ascii_lowercase lowered
              ∙ lowercase-lowercase verbatim) in
            (kept, ground arith))
    ]

-- Labels with digits in one of them: all are those that the template renders for the host part found.
pub match_labels_sound :
    (n v : ℕ) (labels : List Bytes) (ls : List FwdLabel) (host : Option ℕ)
    → n ≤ 32
    → length labels ≡ length ls
    → All (IsTemplateLabel n) ls
    → has_digits ls ≡ true
    → has_one ls ≡ true
    → match_labels n labels ls host ≡ some (some v)
    → (v < 16 ^ n) × (same_labels labels (map (render_label (fixed n v)) ls) ≡ true)
unfolding match_labels match_label IsTemplateLabel render_label
match_labels_sound n v [] [] host small long all placed one e = cc
match_labels_sound n v [] (l ∷ ls) host small long all placed one e = absurd (omega arith)
match_labels_sound n v (x ∷ xs) [] host small long all placed one e = absurd (omega arith)
match_labels_sound n v (x ∷ xs) (literal verbatim lower ∷ ls) host small long (lowered, all) placed
      one e =
    elim (Bool-cases (eq_ignore_ascii_case x lower)) [
      | inr differs ↦ ground arith
      | inl same ↦
          (let (below, others) =
              match_labels_sound n v xs ls host small (omega arith) all placed one (ground arith) in
            let first : eq_ignore_ascii_case x verbatim ≡ true = alike x verbatim (
              bytes_eq→eq _ _ same
              ∙ ap to_ascii_lowercase lowered
              ∙ lowercase-lowercase verbatim) in
            (below, ground arith))
    ]
match_labels_sound n v (x ∷ xs) (digits pre pre_lower post post_lower dashed ∷ ls) host small long
      ((low, low', group), all) placed one e =
    elim (Option-cases (match_label n x (digits pre pre_lower post post_lower dashed) host)) [
      | inl refused ↦ ground arith
      | inr found ↦
          (let none_left : has_digits ls ≡ false = ground arith in
            let rest : match_labels n xs ls found.0 ≡ some (some v) = ground arith in
            let (kept, others) =
              match_literals_sound n (fixed n v) xs ls found.0 (some v) (omega arith) all none_left
                rest in
            let (w, is_w, below, same) =
              match_digits_sound n x pre post dashed host found.0 small group
                (rw (low, low') at found.1) in
            let equal : w ≡ v = some_inv (sym is_w ∙ sym kept) in
            let text : to_ascii_lowercase x
                ≡ to_ascii_lowercase (pre ++ (shown dashed (fixed n v) ++ post)) =
              same
              ∙ ap (λ (k : ℕ). to_ascii_lowercase (pre ++ (shown dashed (fixed n k) ++ post)))
                  equal in
            let first : eq_ignore_ascii_case x (pre ++ (shown dashed (fixed n v) ++ post)) ≡ true =
              alike x _ text in
            (subst (λ (k : ℕ). k < 16 ^ n) equal below, rw first others))
    ]
