-- ===== src/Config/Keywords.antt =====
-- The keywords at the front of a line: those that are there are matched, in any case, and no others.
use panopti_dns.Prelude.{
  ℕ, suc, ◌+◌, ◌-◌, ◌≡◌, refl, sym, ap, ◌∙◌, Bool, true, false, not, ◌&&◌, none, some, List, [],
  ◌∷◌, ◌++◌, arith, ◌==◌, if◌then◌else◌, length, length-map, take, inl, inr, Bool-cases, is_empty,
  ◌>>=◌, All,
}
use panopti_dns.Bytes.{Bytes, bytes_eq, bytes_eq→eq, to_lower, to_ascii_lowercase, split_at_checked}
use panopti_dns.Zone.Strip.{split_at_checked-append}
use panopti_dns.Config.Text.{is_space, trim_ascii_start, trim_ascii_end}
use panopti_dns.Config.Parse.{match_word, match_more, match_words, strip_keyword}

-- The words, each with a blank behind it, and what follows.
unfoldable pub spelled : List Bytes → Bytes → Bytes
spelled [] rest = rest
spelled (w ∷ ws) rest = w ++ 32 ∷ spelled ws rest

-- The first byte is not white space, nor the mark of a comment.
abbrev pub starts_dark : Bytes → Bool
starts_dark [] = false
starts_dark (c ∷ cs) = not (is_space c) && not (c == b'#')

-- What is typed for keywords: each word in any case.
unfoldable pub AreTyped : List Bytes → List Bytes → Type 0
AreTyped [] [] = Unit {0}
AreTyped [] (w ∷ ws) = ⊥
AreTyped (t ∷ ts) [] = ⊥
AreTyped (t ∷ ts) (w ∷ ws) =
    (to_ascii_lowercase t ≡ to_ascii_lowercase w) × (starts_dark t ≡ true) × AreTyped ts ws

-- Two words that are not the same, where neither is the other's front with a blank behind it.
abbrev pub clash : Bytes → Bytes → Bool
clash [] t = false
clash (a ∷ as') [] = not (a == 32)
clash (a ∷ as') (b ∷ bs) = if a == b then clash as' bs else true

-- Some word is another one.
abbrev pub clash_words : List Bytes → List Bytes → Bool
clash_words [] ts = false
clash_words (w ∷ ws) [] = false
clash_words (w ∷ ws) (t ∷ ts) =
    if clash (to_ascii_lowercase w) (to_ascii_lowercase t)
    then true
    else bytes_eq (to_ascii_lowercase w) (to_ascii_lowercase t) && clash_words ws ts

bytes_eq_refl : (a : Bytes) → bytes_eq a a ≡ true
bytes_eq_refl [] = refl
bytes_eq_refl (x ∷ xs) = ground (arith, bytes_eq_refl xs)

clash-take :
    (w t rest : Bytes)
    → clash (to_ascii_lowercase w) (to_ascii_lowercase t) ≡ true
    → bytes_eq (to_ascii_lowercase (take (length w) (t ++ 32 ∷ rest))) (to_ascii_lowercase w)
      ≡ false
unfolding to_lower
clash-take [] t rest e = cc
clash-take (a ∷ w) [] rest e = ground arith
clash-take (a ∷ w) (b ∷ t) rest e = ground (arith, clash-take w t rest)

match_word_miss :
    (w t rest : Bytes)
    → clash (to_ascii_lowercase w) (to_ascii_lowercase t) ≡ true
    → match_word w (t ++ 32 ∷ rest) ≡ none
unfolding match_word split_at_checked
match_word_miss w t rest e = ground (arith, clash-take w t rest)

typed-length : (t w : Bytes) → to_ascii_lowercase t ≡ to_ascii_lowercase w → length t ≡ length w
typed-length t w e = sym (length-map t to_lower) ∙ ap (λ s. length s) e ∙ length-map w to_lower

match_word_hit :
    (w t rest : Bytes)
    → to_ascii_lowercase t ≡ to_ascii_lowercase w
    → match_word w (t ++ rest) ≡ some rest
unfolding match_word
match_word_hit w t rest e =
    rw
      (
        match_word,
        ← typed-length t w e,
        split_at_checked-append t rest,
        e,
        bytes_eq_refl (to_ascii_lowercase w),
      )
      refl

pub trim_dark : (t rest : Bytes) → starts_dark t ≡ true → trim_ascii_start (t ++ rest) ≡ t ++ rest
unfolding trim_ascii_start
trim_dark [] rest e = cc
trim_dark (c ∷ cs) rest e = ground arith

trim_blank : (s : Bytes) → trim_ascii_start (32 ∷ s) ≡ trim_ascii_start s
unfolding trim_ascii_start
trim_blank s = refl

-- The bytes of the words, each with a blank.
unfoldable pub width : List Bytes → ℕ
width [] = 0
width (t ∷ ts) = suc (length t) + width ts

match_more-cons :
    (w : Bytes) (ws : List Bytes) (t rest : Bytes) (consumed : ℕ)
    → starts_dark t ≡ true
    → match_more (w ∷ ws) consumed (32 ∷ (t ++ rest))
      ≡ (match_word w (t ++ rest) >>= match_more ws (consumed + 1 + length w))
unfolding match_more
match_more-cons w ws t rest consumed dark =
    let trimmed : trim_ascii_start (32 ∷ (t ++ rest)) ≡ t ++ rest =
      trim_blank (t ++ rest) ∙ trim_dark t rest dark in
    let one : suc (length (t ++ rest)) - length (t ++ rest) ≡ 1 = omega arith in
    let less : (length (t ++ rest) == suc (length (t ++ rest))) ≡ false = ground arith in
    rw (match_more, trimmed, one, less) refl

match_more_miss :
    (ws ts : List Bytes) (rest : Bytes) (consumed : ℕ)
    → clash_words ws ts ≡ true
    → All (λ t. starts_dark t ≡ true) ts
    → match_more ws consumed (32 ∷ spelled ts rest) ≡ none
unfolding spelled
match_more_miss [] ts rest consumed e dark = cc
match_more_miss (w ∷ ws) [] rest consumed e dark = cc
match_more_miss (w ∷ ws) (t ∷ ts) rest consumed e (d, dark) =
    match_more-cons w ws t (32 ∷ spelled ts rest) consumed d
    ∙ (elim (Bool-cases (clash (to_ascii_lowercase w) (to_ascii_lowercase t))) [
      | inl apart ↦ rw (match_word_miss w t (spelled ts rest) apart) refl
      | inr alike ↦
          let more : bytes_eq (to_ascii_lowercase w) (to_ascii_lowercase t) ≡ true = ground arith in
          let others : clash_words ws ts ≡ true = ground arith in
          rw (match_word_hit w t (32 ∷ spelled ts rest) (sym (bytes_eq→eq _ _ more)))
            (match_more_miss ws ts rest (consumed + 1 + length w) others dark)
    ])

-- Keywords of which one is another word than what is typed do not match.
pub match_words_miss :
    (ws ts : List Bytes) (rest : Bytes)
    → clash_words ws ts ≡ true
    → All (λ t. starts_dark t ≡ true) ts
    → match_words (spelled ts rest) ws ≡ none
unfolding match_words spelled
match_words_miss [] ts rest e dark = cc
match_words_miss (w ∷ ws) [] rest e dark = cc
match_words_miss (w ∷ ws) (t ∷ ts) rest e (d, dark) =
    elim (Bool-cases (clash (to_ascii_lowercase w) (to_ascii_lowercase t))) [
      | inl apart ↦ rw (match_word_miss w t (spelled ts rest) apart) refl
      | inr alike ↦
          let more : bytes_eq (to_ascii_lowercase w) (to_ascii_lowercase t) ≡ true = ground arith in
          let others : clash_words ws ts ≡ true = ground arith in
          rw (match_word_hit w t (32 ∷ spelled ts rest) (sym (bytes_eq→eq _ _ more)))
            (match_more_miss ws ts rest (length w) others dark)
    ]

match_more_hit :
    (ws ts : List Bytes) (v : Bytes) (consumed : ℕ)
    → AreTyped ts ws
    → match_more ws consumed (32 ∷ spelled ts v) ≡ some (consumed + width ts, 32 ∷ v)
unfolding spelled AreTyped width match_more
match_more_hit [] [] v consumed typed = ap (λ (n : ℕ). some (n, 32 ∷ v)) (omega arith)
match_more_hit [] (t ∷ ts) v consumed typed = absurd typed
match_more_hit (w ∷ ws) [] v consumed typed = absurd typed
match_more_hit (w ∷ ws) (t ∷ ts) v consumed (same, dark, typed) =
    match_more-cons w ws t (32 ∷ spelled ts v) consumed dark
    ∙ rw (match_word_hit w t (32 ∷ spelled ts v) same) (
        match_more_hit ws ts v (consumed + 1 + length w) typed
        ∙ ap (λ (n : ℕ). some (n, 32 ∷ v)) (omega (arith, typed-length t w same)))

-- A value: it is not empty, and has no white space at its ends.
abbrev pub IsValue : Bytes → Type 0
IsValue v = (is_empty v ≡ false) × (trim_ascii_start v ≡ v) × (trim_ascii_end v ≡ v)

-- Keywords that are typed in any case, with a value behind them, are matched, and the value is found.
pub strip_keyword_hit :
    (w t : Bytes) (ws ts : List Bytes) (v : Bytes)
    → AreTyped (t ∷ ts) (w ∷ ws)
    → IsValue v
    → strip_keyword (spelled (t ∷ ts) v) (w ∷ ws) ≡ some (width (t ∷ ts), v)
unfolding strip_keyword match_words spelled AreTyped width
strip_keyword_hit w t ws ts v (same, dark, typed) (some_left, front, back) =
    let matched : match_words (spelled (t ∷ ts) v) (w ∷ ws) ≡ some (length w + width ts, 32 ∷ v) =
      rw (match_word_hit w t (32 ∷ spelled ts v) same) (match_more_hit ws ts v (length w) typed) in
    let trimmed : trim_ascii_start (32 ∷ v) ≡ v = trim_blank v ∙ front in
    let less : (length v == suc (length v)) ≡ false = ground arith in
    rw (strip_keyword, matched, trimmed, back, less, some_left)
      (ap (λ (n : ℕ). some (n, v)) (omega (arith, typed-length t w same)))
