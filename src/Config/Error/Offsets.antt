-- ===== src/Config/Error/Offsets.antt =====
-- The offsets that the parser counts: keywords and values lie within the line.
use mathlib.Core.Path.{subst}
use panopti_dns.Prelude.{
  ℕ, ◌+◌, ◌-◌, ◌≤◌, ◌≡◌, Option, some, List, [], ◌∷◌, arith, length, length-drop, find_map, inl,
  inr, Option-cases, some_inv,
}
use panopti_dns.Bytes.{Bytes, split_at_checked}
use panopti_dns.Config.Text.{trim_ascii_start, trim_ascii_end}
use panopti_dns.Config.Parse.{
  Directive, directives, match_word, match_more, match_words, strip_keyword, first_word,
  find_directive,
}

pub length-trim_ascii_start : (s : Bytes) → length (trim_ascii_start s) ≤ length s
unfolding trim_ascii_start
length-trim_ascii_start [] = omega arith
length-trim_ascii_start (c ∷ cs) = ground (arith, length-trim_ascii_start cs)

length-trim_ascii_end : (s : Bytes) → length (trim_ascii_end s) ≤ length s
unfolding trim_ascii_end
length-trim_ascii_end [] = omega arith
length-trim_ascii_end (c ∷ cs) = ground (arith, length-trim_ascii_end cs)

pub length-first_word : (s : Bytes) → length (first_word s) ≤ length s
unfolding first_word
length-first_word [] = omega arith
length-first_word (c ∷ cs) = ground (arith, length-first_word cs)

match_word-length :
    (word rest tail : Bytes)
    → match_word word rest ≡ some tail
    → length word + length tail ≡ length rest
unfolding match_word split_at_checked
match_word-length word rest tail e = ground (arith, length-drop (length word) rest)

match_more-length :
    (words : List Bytes) (consumed : ℕ) (rest : Bytes) (found : ℕ × Bytes)
    → match_more words consumed rest ≡ some found
    → found.0 + length found.1 ≡ consumed + length rest
unfolding match_more
match_more-length [] consumed rest found e = ground arith
match_more-length (word ∷ words) consumed rest found e =
    elim (Option-cases (match_word word (trim_ascii_start rest))) [
      | inl absent ↦ ground arith
      | inr tail ↦
          (let matched = match_word-length word (trim_ascii_start rest) tail.0 tail.1 in
            let shorter = length-trim_ascii_start rest in
            let run : match_more words
                  (consumed + (length rest - length (trim_ascii_start rest)) + length word) tail.0
                ≡ some found =
              ground arith in
            omega (arith, matched, shorter, match_more-length words _ tail.0 found run))
    ]

match_words-length :
    (line : Bytes) (words : List Bytes) (found : ℕ × Bytes)
    → match_words line words ≡ some found
    → found.0 + length found.1 ≡ length line
unfolding match_words
match_words-length line [] found e = ground arith
match_words-length line (word ∷ words) found e = elim (Option-cases (match_word word line)) [
  | inl absent ↦ ground arith
  | inr tail ↦
      (let run : match_more words (length word) tail.0 ≡ some found = ground arith in
        omega (
          arith,
          match_word-length word line tail.0 tail.1,
          match_more-length words (length word) tail.0 found run,
        ))
]

strip_keyword-length :
    (line : Bytes) (words : List Bytes) (found : ℕ × Bytes)
    → strip_keyword line words ≡ some found
    → found.0 + length found.1 ≤ length line
unfolding strip_keyword
strip_keyword-length line words found e = elim (Option-cases (match_words line words)) [
  | inl absent ↦ ground arith
  | inr matched ↦
      (let (consumed, rest) = matched.0 in
        ground (
          arith,
          match_words-length line words matched.0 matched.1,
          length-trim_ascii_start rest,
          length-trim_ascii_end (trim_ascii_start rest),
        ))
]

find_map-implies :
    {A B : Type 0} (P : B → Type 0) (f : A → Option B)
    → ((a : A) (b : B) → f a ≡ some b → P b)
    → (xs : List A) (b : B) → find_map f xs ≡ some b
    → P b
unfolding find_map
find_map-implies P f holds [] b e = cc
find_map-implies P f holds (x ∷ xs) b e = elim (Option-cases (f x)) [
  | inl absent ↦ find_map-implies P f holds xs b (rw (find_map, absent) at e)
  | inr found ↦ subst P (some_inv (rw (find_map, found.1) at e)) (holds x found.0 found.1)
]

-- The value of a directive lies within the line that it was found in.
pub find_directive-within :
    (body : Bytes) (d : Directive) (offset : ℕ) (value : Bytes)
    → find_directive body ≡ some (d, offset, value)
    → offset + length value ≤ length body
unfolding find_directive
find_directive-within body d offset value e =
    find_map-implies (λ (x : Directive × ℕ × Bytes). x.1 + length x.2 ≤ length body) _
      (λ a b found. elim (Option-cases (strip_keyword body a.words)) [
        | inl absent ↦ ground arith
        | inr hit ↦ ground (arith, strip_keyword-length body a.words hit.0 hit.1)
      ])
      directives (d, offset, value) e
