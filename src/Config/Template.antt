-- ===== src/Config/Template.antt =====
-- What `compile_template` accepts: lowercased halves, one placeholder, whole groups if it is dashed.
use mathlib.Core.Path.{subst}
use panopti_dns.Prelude.{
  not, ap, ℕ, zero, suc, ◌+◌, ◌%◌, ◌≤◌, ◌≡◌, refl, ◌∙◌, min, Bool, true, false, Option, none, some,
  List, [], ◌∷◌, ◌++◌, arith, inl, inr, Bool-cases, Option-cases, some_inv, replicate, All,
  All-append, is_empty,
}
use panopti_dns.Bytes.{Bytes, to_ascii_lowercase}
use panopti_dns.Hickory.{Hickory, ok, Result-cases}
use panopti_dns.Config.{FwdLabel, literal, digits, FwdTemplate, render}
use panopti_dns.Config.Error.{ConfigError, RawValue}
use panopti_dns.Config.Text.{strip_last, split_loop, split}
use panopti_dns.Config.Compile.{
  Labels, after_check, find_placeholder, digits_label, add_segment, segments_loop, check_hits,
  compile_template,
}
use panopti_dns.Config.Matches.{
  hits, segment_hits, segment_hits-split_loop, hits-strip_last, hits-find_placeholder,
}
use panopti_dns.Zone.Forward.{has_digits, has_one}

-- A label whose halves are lowercased, and that is dashed only if `dashed_used`.
unfoldable pub IsCompiledLabel : Bool → FwdLabel → Type 0
IsCompiledLabel dashed_used (literal verbatim lower) = lower ≡ to_ascii_lowercase verbatim
IsCompiledLabel dashed_used (digits pre pre_lower post post_lower dashed) =
    (pre_lower ≡ to_ascii_lowercase pre)
    × (post_lower ≡ to_ascii_lowercase post)
    × (dashed ≡ true → dashed_used ≡ true)

-- The labels so far: at most one has digits, and `digits_at` says whether one has.
unfoldable pub IsConsistent : Labels → Type 0
IsConsistent ls =
    All (IsCompiledLabel ls.dashed_used) ls.labels
    × (has_one ls.labels ≡ true)
    × (ls.digits_at ≡ none → has_digits ls.labels ≡ false)
    × ((i : ℕ) → ls.digits_at ≡ some i → has_digits ls.labels ≡ true)

abbrev taken : Option ℕ → ℕ
taken none = 0
taken (some i) = 1

has_digits-literal :
    (ls : List FwdLabel) (v l : Bytes) → has_digits (ls ++ literal v l ∷ []) ≡ has_digits ls
has_digits-literal [] v l = refl
has_digits-literal (literal a b ∷ ls) v l = has_digits-literal ls v l
has_digits-literal (digits a b c d e ∷ ls) v l = refl

has_digits-digits :
    (ls : List FwdLabel) (a b c d : Bytes) (e : Bool)
    → has_digits (ls ++ digits a b c d e ∷ []) ≡ true
has_digits-digits [] a b c d e = refl
has_digits-digits (literal v l ∷ ls) a b c d e = has_digits-digits ls a b c d e
has_digits-digits (digits p q r s t ∷ ls) a b c d e = refl

has_one-literal : (ls : List FwdLabel) (v l : Bytes) → has_one (ls ++ literal v l ∷ []) ≡ has_one ls
has_one-literal [] v l = refl
has_one-literal (literal a b ∷ ls) v l = has_one-literal ls v l
has_one-literal (digits a b c d e ∷ ls) v l = ap not (has_digits-literal ls v l)

has_one-digits :
    (ls : List FwdLabel) (a b c d : Bytes) (e : Bool)
    → has_digits ls ≡ false
    → has_one (ls ++ digits a b c d e ∷ []) ≡ true
has_one-digits [] a b c d e none_yet = refl
has_one-digits (literal v l ∷ ls) a b c d e none_yet = has_one-digits ls a b c d e none_yet
has_one-digits (digits p q r s t ∷ ls) a b c d e none_yet = cc

-- Labels without digits are as good for the dashed form as for the plain one.
relabel :
    (d d' : Bool) (ls : List FwdLabel)
    → has_digits ls ≡ false
    → All (IsCompiledLabel d) ls
    → All (IsCompiledLabel d') ls
unfolding IsCompiledLabel
relabel d d' [] none_yet all = tt
relabel d d' (literal v l ∷ ls) none_yet (one, all) = (one, relabel d d' ls none_yet all)
relabel d d' (digits p q r s t ∷ ls) none_yet all = cc

taken-none : (o : Option ℕ) → taken o ≡ 0 → o ≡ none
taken-none none e = refl
taken-none (some i) e = absurd (omega arith)

add_segment-IsConsistent :
    (v : RawValue) (idx : ℕ) (segment : Bytes) (hit : Option (ℕ × ℕ × Bool)) (ls ls' : Labels)
    (errors : List ConfigError)
    → IsConsistent ls
    → taken ls.digits_at + (elim hit [ none ↦ 0 | some x ↦ 1 ]) ≤ 1
    → (add_segment v idx segment hit ls errors).0 ≡ some ls'
    → IsConsistent ls'
      × (taken ls'.digits_at ≡ taken ls.digits_at + (elim hit [ none ↦ 0 | some x ↦ 1 ]))
unfolding add_segment IsConsistent IsCompiledLabel digits_label
add_segment-IsConsistent v idx segment none ls ls' errors (all, one, absent, present) room e =
    let kept : Labels = record ls {
      labels = ls.labels ++ literal segment (to_ascii_lowercase segment) ∷ [];
    } in
    let same : kept ≡ ls' = some_inv e in
    let still = has_digits-literal ls.labels segment (to_ascii_lowercase segment) in
    subst (λ x. IsConsistent x × (taken x.digits_at ≡ taken ls.digits_at + 0)) same
      (
        (
          All-append (IsCompiledLabel ls.dashed_used) ls.labels _ all (refl, tt),
          has_one-literal ls.labels segment (to_ascii_lowercase segment) ∙ one,
          (λ x. still ∙ absent x),
          (λ i x. still ∙ present i x),
        ),
        omega arith,
      )
add_segment-IsConsistent v idx segment (some (at, width, dashed)) ls ls' errors
      (all, one, absent, present) room e =
    let made : Labels = record {
      labels = ls.labels ++ digits_label segment at width dashed ∷ [];
      digits_at = some idx;
      dashed_used = dashed;
    } in
    let same : made ≡ ls' = ground arith in
    let first : has_digits ls.labels ≡ false = absent (taken-none ls.digits_at (omega arith)) in
    subst (λ x. IsConsistent x × (taken x.digits_at ≡ taken ls.digits_at + 1)) same
      (
        (
          All-append (IsCompiledLabel dashed) ls.labels _
              (relabel ls.dashed_used dashed ls.labels first all) ((refl, refl, λ x. x), tt),
          has_one-digits ls.labels _ _ _ _ dashed first,
          (λ x. cc),
          (λ i x. has_digits-digits ls.labels _ _ _ _ dashed),
        ),
        omega arith,
      )

segments_loop-IsConsistent :
    (v : RawValue) (idx : ℕ) (segments : List Bytes) (ls ls' : Labels) (errors : List ConfigError)
    → IsConsistent ls
    → taken ls.digits_at + segment_hits segments ≤ 1
    → (segments_loop v idx segments ls errors).0 ≡ some ls'
    → IsConsistent ls'
unfolding segments_loop
segments_loop-IsConsistent v idx [] ls ls' errors fine room e = subst IsConsistent (some_inv e) fine
segments_loop-IsConsistent v idx (segment ∷ segments) ls ls' errors fine room e =
    let found = find_placeholder (to_ascii_lowercase segment) in
    elim (Bool-cases (is_empty segment)) [
      | inl blank ↦ ground arith
      | inr filled ↦
          step (add_segment v idx segment found ls errors).0
            (add_segment v idx segment found ls errors).1 refl
            (λ next es good fits run.
              segments_loop-IsConsistent v (idx + 1) segments next ls' es good fits run)
            (rw filled at e)
    ]
  where
    one_at_most :
        taken ls.digits_at
          + (elim (find_placeholder (to_ascii_lowercase segment)) as (λ o. ℕ) [
            | none ↦ 0
            | some x ↦ 1
          ])
          + segment_hits segments
        ≤ 1
    one_at_most = elim (Option-cases (find_placeholder (to_ascii_lowercase segment))) [
      | inl absent ↦ rw absent (omega (arith, room))
      | inr found ↦
          rw (found.1) (omega (arith, room, hits-find_placeholder segment found.0 found.1))
    ]

    step :
        (o : Option Labels) (es : List ConfigError)
        → (add_segment v idx segment (find_placeholder (to_ascii_lowercase segment)) ls errors).0
          ≡ o
        → ((next : Labels) (es' : List ConfigError)
            → IsConsistent next
            → taken next.digits_at + segment_hits segments ≤ 1
            → (segments_loop v (idx + 1) segments next es').0 ≡ some ls'
            → IsConsistent ls')
        → (after_check (segments_loop v (idx + 1) segments) (o, es)).0 ≡ some ls'
        → IsConsistent ls'
    step none es made rest run = cc
    step (some next) es made rest run =
        let (good, count) =
          add_segment-IsConsistent v idx segment (find_placeholder (to_ascii_lowercase segment)) ls
            next errors fine (omega (arith, one_at_most)) made in
        rest next es good (omega (arith, one_at_most, count)) run

abbrev nothing_yet : Labels
nothing_yet = record { labels = []; digits_at = none; dashed_used = false }

first_labels : IsConsistent nothing_yet
unfolding IsConsistent
first_labels = (tt, refl, (λ e. refl), (λ i e. cc))

check_hits-one :
    (v : RawValue) (n : ℕ) (errors : List ConfigError) → (check_hits v n errors).0 ≡ some tt → n ≡ 1
unfolding check_hits
check_hits-one v zero errors e = cc
check_hits-one v (suc zero) errors e = refl
check_hits-one v (suc (suc n)) errors e = cc

-- A template as it was accepted: consistent labels, whole groups of four digits if it is dashed, and
-- a rendering of the widest digits that the library takes.
unfoldable pub IsAccepted : (h : Hickory) → ℕ → FwdTemplate → Type 0
IsAccepted h n t =
    (dashed_used : Bool) × All (IsCompiledLabel dashed_used) t.labels
    × (has_digits t.labels ≡ true)
    × (has_one t.labels ≡ true)
    × (dashed_used ≡ true → n % 4 ≡ 0)
    × (widest : h.Name) × (render h t (replicate (min n 32) b'f') ≡ ok widest)

module _ (h : Hickory) where
  pub compile_template-IsAccepted :
      (v : RawValue) (n : ℕ) (errors : List ConfigError) (t : FwdTemplate)
      → (compile_template h v n errors).0 ≡ some t
      → IsAccepted h n t
  unfolding compile_template split IsConsistent IsAccepted
  compile_template-IsAccepted v n errors t e =
      let count = hits v.value in
      let hit = check_hits v count errors in
      let run =
        segments_loop v 0 (split_loop b'.' [] (strip_last b'.' v.value)) nothing_yet hit.1 in
      let once : count ≡ 1 = check_hits-one v count errors (ground arith) in
      let room : segment_hits (split_loop b'.' [] (strip_last b'.' v.value)) ≤ 1 = omega (
        arith,
        once,
        hits-strip_last v.value,
        segment_hits-split_loop [] (strip_last b'.' v.value),
      ) in
      elim (Option-cases run.0) [
        | inl failed ↦ ground arith
        | inr found ↦
            (let ls = found.0 in
              let made = found.1 in
              let good =
                segments_loop-IsConsistent v 0 (split_loop b'.' [] (strip_last b'.' v.value))
                  nothing_yet ls hit.1 first_labels (omega (arith, room)) made in
              elim (Option-cases ls.digits_at) [
                | inl absent ↦ ground arith
                | inr placed ↦
                    let template : FwdTemplate = record {
                      labels = ls.labels;
                      digits_at = placed.0;
                    } in
                    let whole : ls.dashed_used ≡ true → n % 4 ≡ 0 = λ d. ground arith in
                    elim (Result-cases (render h template (replicate (min n 32) b'f'))) [
                      | inr refused ↦ ground arith
                      | inl widest ↦
                          let same : template ≡ t = ground arith in
                          subst (IsAccepted h n) same
                            (consistent ls placed.0 good placed.1 whole widest)
                    ]
              ])
      ]
    where
      consistent :
          (ls : Labels) (i : ℕ)
          → IsConsistent ls
          → ls.digits_at ≡ some i
          → (ls.dashed_used ≡ true → n % 4 ≡ 0)
          → ((w : h.Name) × (render h
                  (record { labels = ls.labels; digits_at = i })
                  (replicate (min n 32) b'f')
                ≡ ok w))
          → IsAccepted h n (record { labels = ls.labels; digits_at = i })
      consistent ls i (all, one, absent, present) placed whole (w, made) =
          (ls.dashed_used, all, present i placed, one, whole, w, made)
