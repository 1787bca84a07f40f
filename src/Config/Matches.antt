-- ===== src/Config/Matches.antt =====
-- Occurrences of a placeholder, counted over a text and over its segments.
use mathlib.Core.List.{append-nil, append_assoc, map-append}
use panopti_dns.Prelude.{
  ℕ, zero, suc, ◌+◌, ◌-◌, ◌≤◌, ◌≡◌, refl, sym, ap, ◌∙◌, Bool, true, false, ◌&&◌, some, List, [],
  ◌∷◌, ◌++◌, arith, ◌==◌, ==_iff, ◌⊎◌, inl, inr, Bool-cases, Option-cases, length, All,
}
use panopti_dns.Bytes.{Bytes, codes, to_lower, to_ascii_lowercase}
use panopti_dns.Config.Compile.{placeholder, placeholder_dashed, find_placeholder}
use panopti_dns.Config.Text.{find, starts_with, find_from, count_matches, split_loop, strip_last}

-- `starts_with`, byte by byte.
abbrev prefix_of : Bytes → Bytes → Bool
prefix_of [] s = true
prefix_of (p ∷ ps) [] = false
prefix_of (p ∷ ps) (c ∷ cs) = (c == p) && prefix_of ps cs

starts_with_lem : (p s : Bytes) → starts_with p s ≡ prefix_of p s
starts_with_lem [] s = ground arith
starts_with_lem (p ∷ ps) [] = ground arith
starts_with_lem (p ∷ ps) (c ∷ cs) = ground (arith, starts_with_lem ps cs)

-- The byte `b` is not in the pattern.
abbrev pub IsWithout : ℕ → Bytes → Type 0
IsWithout b p = All (λ c. (b == c) ≡ false) p

prefix_of-append :
    (b : ℕ) (p a rest : Bytes) → IsWithout b p → prefix_of p (a ++ b ∷ rest) ≡ prefix_of p a
prefix_of-append b [] a rest free = refl
prefix_of-append b (x ∷ p) [] rest (differs, free) = ground arith
prefix_of-append b (x ∷ p) (c ∷ a) rest (differs, free) = rw (prefix_of-append b p a rest free) refl

prefix_of-length : (p a : Bytes) → prefix_of p a ≡ true → length p ≤ length a
prefix_of-length [] a e = omega arith
prefix_of-length (x ∷ p) [] e = cc
prefix_of-length (x ∷ p) (c ∷ a) e = ground (arith, prefix_of-length p a)

-- A byte that is not in the pattern divides the matches.
count_matches-append :
    (b : ℕ) (x : ℕ) (p : Bytes) (skip : ℕ) (a rest : Bytes)
    → IsWithout b (x ∷ p)
    → skip ≤ length a
    → count_matches skip (x ∷ p) (a ++ b ∷ rest)
      ≡ count_matches skip (x ∷ p) a + count_matches 0 (x ∷ p) rest
unfolding count_matches
count_matches-append b x p zero [] rest free le =
    let miss : starts_with (x ∷ p) (b ∷ rest) ≡ false =
      starts_with_lem (x ∷ p) (b ∷ rest) ∙ prefix_of-append b (x ∷ p) [] rest free in
    rw miss (omega arith)
count_matches-append b x p (suc skip) [] rest free le = absurd (omega arith)
count_matches-append b x p (suc skip) (c ∷ a) rest free le =
    count_matches-append b x p skip a rest free (omega arith)
count_matches-append b x p zero (c ∷ a) rest free le =
    let same : starts_with (x ∷ p) (c ∷ (a ++ b ∷ rest)) ≡ starts_with (x ∷ p) (c ∷ a) =
      starts_with_lem (x ∷ p) (c ∷ (a ++ b ∷ rest))
      ∙ prefix_of-append b (x ∷ p) (c ∷ a) rest free
      ∙ sym (starts_with_lem (x ∷ p) (c ∷ a)) in
    elim (Bool-cases (starts_with (x ∷ p) (c ∷ a))) [
      | inl hit ↦
          let fits : length p ≤ length a =
            ground (arith, prefix_of-length (x ∷ p) (c ∷ a), starts_with_lem (x ∷ p) (c ∷ a)) in
          let width : suc (length p) - 1 ≡ length p = omega arith in
          rw (same, hit, width)
            (omega (arith, count_matches-append b x p (length p) a rest free fits))
      | inr miss ↦
          rw (same, miss) (omega (arith, count_matches-append b x p 0 a rest free (omega arith)))
    ]

-- Where a match is found one is counted.
count_matches-found :
    (at : ℕ) (p s : Bytes) (i : ℕ) → find_from at p s ≡ some i → 1 ≤ count_matches 0 p s
unfolding count_matches find_from
count_matches-found at p [] i e = cc
count_matches-found at p (c ∷ cs) i e = elim (Bool-cases (starts_with p (c ∷ cs))) [
  | inl hit ↦ ground arith
  | inr miss ↦ ground (arith, count_matches-found (at + 1) p cs i)
]

-- The placeholders in a text, and in its segments.
abbrev pub hits : Bytes → ℕ
hits s =
    count_matches 0 placeholder (to_ascii_lowercase s)
    + count_matches 0 placeholder_dashed (to_ascii_lowercase s)

abbrev pub segment_hits : List Bytes → ℕ
segment_hits [] = 0
segment_hits (s ∷ ss) = hits s + segment_hits ss

hits-dot : (a rest : Bytes) → hits (a ++ b'.' ∷ rest) ≡ hits a + hits rest
unfolding to_lower
hits-dot a rest =
    let low = to_ascii_lowercase a in
    let low' = to_ascii_lowercase rest in
    let plain =
      count_matches-append b'.' b'%' (codes "digits%") 0 low low'
        (refl, (refl, (refl, (refl, (refl, (refl, (refl, (refl, tt)))))))) (omega arith) in
    let dashed =
      count_matches-append b'.' b'%' (codes "digits-dashed%") 0 low low'
        (
          refl,
          (
            refl,
            (
              refl,
              (
                refl,
                (
                  refl,
                  (
                    refl,
                    (refl, (refl, (refl, (refl, (refl, (refl, (refl, (refl, (refl, tt))))))))),
                  ),
                ),
              ),
            ),
          ),
        )
        (omega arith) in
    rw (map-append to_lower a (b'.' ∷ rest)) (omega (arith, plain, dashed))

hits-nil : hits [] ≡ 0
unfolding count_matches
hits-nil = refl

-- No placeholder has a dot, so splitting at the dots loses none and makes none.
pub segment_hits-split_loop :
    (segment s : Bytes) → segment_hits (split_loop b'.' segment s) ≡ hits (segment ++ s)
unfolding split_loop
segment_hits-split_loop segment [] = rw (append-nil segment) (omega arith)
segment_hits-split_loop segment (c ∷ cs) = elim (Bool-cases (c == b'.')) [
  | inl dot ↦
      rw (dot, (==_iff c b'.').0 dot, hits-dot segment cs)
        (omega (arith, segment_hits-split_loop [] cs))
  | inr other ↦
      rw other (
        segment_hits-split_loop (segment ++ c ∷ []) cs ∙ ap hits (append_assoc segment (c ∷ []) cs))
]

strip_last-cases : (s : Bytes) → (strip_last b'.' s ≡ s) ⊎ (s ≡ strip_last b'.' s ++ b'.' ∷ [])
unfolding strip_last
strip_last-cases [] = inl refl
strip_last-cases (c ∷ []) = elim (Bool-cases (c == b'.')) [
  | inl dot ↦ inr (rw dot (ap (λ x. x ∷ []) ((==_iff c b'.').0 dot)))
  | inr other ↦ inl (rw other refl)
]
strip_last-cases (c ∷ d ∷ cs) = elim (strip_last-cases (d ∷ cs)) [
  | inl same ↦ inl (ap (◌∷◌ c) same)
  | inr dotted ↦ inr (ap (◌∷◌ c) dotted)
]

pub hits-strip_last : (s : Bytes) → hits (strip_last b'.' s) ≡ hits s
hits-strip_last s = elim (strip_last-cases s) [
  | inl same ↦ ap hits same
  | inr dotted ↦
      let counted = ap hits dotted ∙ hits-dot (strip_last b'.' s) [] in
      omega (arith, counted, hits-nil)
]

pub hits-find_placeholder :
    (s : Bytes) (found : ℕ × ℕ × Bool)
    → find_placeholder (to_ascii_lowercase s) ≡ some found
    → 1 ≤ hits s
unfolding find_placeholder find
hits-find_placeholder s found e =
    let low = to_ascii_lowercase s in
    elim (Option-cases (find_from 0 placeholder_dashed low)) [
      | inr dashed ↦ omega (arith, count_matches-found 0 placeholder_dashed low dashed.0 dashed.1)
      | inl absent ↦ elim (Option-cases (find_from 0 placeholder low)) [
        | inr plain ↦ omega (arith, count_matches-found 0 placeholder low plain.0 plain.1)
        | inl neither ↦ ground arith
      ]
    ]
