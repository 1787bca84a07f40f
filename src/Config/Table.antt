-- ===== src/Config/Table.antt =====
-- The table of directives: every one of them is found by its own keywords, and by no others.
use mathlib.Core.List.{append_assoc}
use mathlib.Core.Path.{subst}
use panopti_dns.Prelude.{
  ℕ, ◌≡◌, refl, ◌∙◌, true, false, Option, none, some, List, [], ◌∷◌, ◌++◌, arith, ◌>>=◌, is_empty,
  All, find_first, find_map,
}
use panopti_dns.Prelude.Members.{In, All-In}
use panopti_dns.Bytes.{Bytes, to_lower}
use panopti_dns.Config.Text.{trim_ascii_start}
use panopti_dns.Config.Parse.{
  Directive, directives, Flag, flags, matches_flag, strip_keyword, is_comment,
}
use panopti_dns.Config.Keywords.{
  spelled, starts_dark, AreTyped, clash_words, width, IsValue, match_words_miss, strip_keyword_hit,
  trim_dark,
}

-- What the search tries for one directive.
abbrev pub try : Bytes → Directive → Option (Directive × ℕ × Bytes)
try body d = strip_keyword body d.words >>= λ found. some (d, found.0, found.1)

-- No keywords of `before` match those of a directive behind them, nor do those of a flag.
abbrev Unmixed : List Directive → List Directive → Type 0
Unmixed before [] = Unit {0}
Unmixed before (d ∷ ds) =
    All (λ b. clash_words b.words d.words ≡ true) before
    × All (λ (f : Flag). clash_words f.words d.words ≡ true) flags
    × (is_empty d.words ≡ false)
    × Unmixed (before ++ d ∷ []) ds

clash_words-typed : (ws ts ks : List Bytes) → AreTyped ts ks → clash_words ws ts ≡ clash_words ws ks
unfolding AreTyped
clash_words-typed [] ts ks typed = refl
clash_words-typed (w ∷ ws) [] [] typed = refl
clash_words-typed (w ∷ ws) [] (k ∷ ks) typed = absurd typed
clash_words-typed (w ∷ ws) (t ∷ ts) [] typed = absurd typed
clash_words-typed (w ∷ ws) (t ∷ ts) (k ∷ ks) (same, dark, typed) =
    rw (same, clash_words-typed ws ts ks typed) refl

AreTyped-dark : (ts ks : List Bytes) → AreTyped ts ks → All (λ t. starts_dark t ≡ true) ts
unfolding AreTyped
AreTyped-dark [] ks typed = tt
AreTyped-dark (t ∷ ts) [] typed = absurd typed
AreTyped-dark (t ∷ ts) (k ∷ ks) (same, dark, typed) = (dark, AreTyped-dark ts ks typed)

strip_keyword_miss :
    (ws ts ks : List Bytes) (v : Bytes)
    → AreTyped ts ks
    → clash_words ws ks ≡ true
    → strip_keyword (spelled ts v) ws ≡ none
unfolding strip_keyword
strip_keyword_miss ws ts ks v typed e =
    rw
      (
        strip_keyword,
        match_words_miss ws ts v (clash_words-typed ws ts ks typed ∙ e) (AreTyped-dark ts ks typed),
      )
      refl

find_map-missed :
    (before rest : List Directive) (ts ks : List Bytes) (v : Bytes)
    → AreTyped ts ks
    → All (λ (b : Directive). clash_words b.words ks ≡ true) before
    → find_map (try (spelled ts v)) (before ++ rest) ≡ find_map (try (spelled ts v)) rest
unfolding find_map
find_map-missed [] rest ts ks v typed missed = refl
find_map-missed (b ∷ before) rest ts ks v typed (m, missed) =
    rw (find_map, strip_keyword_miss b.words ts ks v typed m)
      (find_map-missed before rest ts ks v typed missed)

unmixed : Unmixed [] directives
unfolding directives flags to_lower
unmixed = ground arith

keyword_found :
    (ks ts : List Bytes) (v : Bytes)
    → is_empty ks ≡ false
    → AreTyped ts ks
    → IsValue v
    → strip_keyword (spelled ts v) ks ≡ some (width ts, v)
keyword_found [] ts v some_word typed value = cc
keyword_found (k ∷ ks) [] v some_word typed value = absurd (unfold AreTyped in typed)
keyword_found (k ∷ ks) (t ∷ ts) v some_word typed value = strip_keyword_hit k t ks ts v typed value

flags_missed :
    (fs : List Flag) (ts ks : List Bytes) (v : Bytes)
    → AreTyped ts ks
    → All (λ (f : Flag). clash_words f.words ks ≡ true) fs
    → find_first (λ (f : Flag). matches_flag (spelled ts v) f.words) fs ≡ none
unfolding find_first matches_flag
flags_missed [] ts ks v typed missed = refl
flags_missed (f ∷ fs) ts ks v typed (m, missed) =
    rw
      (
        find_first,
        matches_flag,
        match_words_miss f.words ts v (clash_words-typed f.words ts ks typed ∙ m)
            (AreTyped-dark ts ks typed),
      )
      (flags_missed fs ts ks v typed missed)

-- What a line without its indentation is.
abbrev pub IsBody : Bytes → Type 0
IsBody s = (trim_ascii_start s ≡ s) × (is_comment s ≡ false)

typed-IsBody :
    (ks ts : List Bytes) (v : Bytes) → is_empty ks ≡ false → AreTyped ts ks → IsBody (spelled ts v)
unfolding AreTyped spelled
typed-IsBody [] ts v some_word typed = cc
typed-IsBody (k ∷ ks) [] v some_word typed = absurd typed
typed-IsBody (k ∷ ks) ([] ∷ ts) v some_word (same, dark, typed) = cc
typed-IsBody (k ∷ ks) ((c ∷ t) ∷ ts) v some_word (same, dark, typed) =
    (trim_dark (c ∷ t) (32 ∷ spelled ts v) dark, ground arith)

-- A line with the keywords of `d` is that of `d`, for the table `ds`.
abbrev pub IsFound : List Directive → Directive → Type 0
IsFound ds d =
    (ts : List Bytes) (v : Bytes)
    → AreTyped ts d.words
    → IsValue v
    → (find_map (try (spelled ts v)) ds ≡ some (d, width ts, v))
      × (find_first (λ (f : Flag). matches_flag (spelled ts v) f.words) flags ≡ none)
      × IsBody (spelled ts v)

All-IsFound : (before ds : List Directive) → Unmixed before ds → All (IsFound (before ++ ds)) ds
unfolding find_map
All-IsFound before [] apart = tt
All-IsFound before (d ∷ ds) (missed, flagless, words, apart) = (
  λ ts v typed value. (
    find_map-missed before (d ∷ ds) ts d.words v typed missed
        ∙ rw (find_map, keyword_found d.words ts v words typed value) refl,
    flags_missed flags ts d.words v typed flagless,
    typed-IsBody d.words ts v words typed,
  ),
  subst (λ table. All (IsFound table) ds) (append_assoc before (d ∷ []) ds)
      (All-IsFound (before ++ d ∷ []) ds apart),
)

pub directive-IsFound : (d : Directive) → In d directives → IsFound directives d
directive-IsFound d i =
    All-In (IsFound directives) d directives (All-IsFound [] directives unmixed) i
