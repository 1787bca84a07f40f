-- ===== src/Nibble/Dash.antt =====
-- `dash_group` and `undash_group` are inverse on whole groups of four digits.
use mathlib.Core.List.{append_assoc}
use panopti_dns.Prelude.{
  ℕ, zero, suc, ◌*◌, ◌/◌, ◌≤◌, ◌≡◌, refl, sym, ap, ◌∙◌, ◌↔◌, some, [], ◌∷◌, ◌++◌, arith,
  >>=-eq-some, some_inv, when_some, length,
}
use panopti_dns.Bytes.{Bytes, split_at_checked, bytes_eq, bytes_eq→eq}
use panopti_dns.Nibble.{dash_rest, dash_group, undash_loop, undash_group}

split_four :
    (a b c d : ℕ) (r : Bytes)
    → split_at_checked (a ∷ b ∷ c ∷ d ∷ r) 4 ≡ some (a ∷ b ∷ c ∷ d ∷ [], r)
unfolding split_at_checked
split_four a b c d r = ground arith

split_one : (x : ℕ) (r : Bytes) → split_at_checked (x ∷ r) 1 ≡ some (x ∷ [], r)
unfolding split_at_checked
split_one x r = ground arith

-- A successful split of four bytes, or of one.
split_four_sound :
    (s chunk rest : Bytes)
    → split_at_checked s 4 ≡ some (chunk, rest)
    → (a : ℕ) × (b : ℕ) × (c : ℕ) × (d : ℕ) × (s ≡ a ∷ b ∷ c ∷ d ∷ rest)
      × (chunk ≡ a ∷ b ∷ c ∷ d ∷ [])
unfolding split_at_checked
split_four_sound [] chunk rest e = cc
split_four_sound (a ∷ []) chunk rest e = cc
split_four_sound (a ∷ b ∷ []) chunk rest e = cc
split_four_sound (a ∷ b ∷ c ∷ []) chunk rest e = cc
split_four_sound (a ∷ b ∷ c ∷ d ∷ r) chunk rest e =
    let p = some_inv (sym (unfold split_at_checked in split_four a b c d r) ∙ e) in
    (a, b, c, d, cc p, cc p)

split_one_sound :
    (s dash rest : Bytes) → split_at_checked s 1 ≡ some (dash, rest) → s ≡ dash ++ rest
unfolding split_at_checked
split_one_sound [] dash rest e = cc
split_one_sound (a ∷ r) dash rest e = ground arith

-- The loop on a group and the dashed groups behind it.
undash_loop_dashed :
    (groups room : ℕ) (out : Bytes) (a b c d : ℕ) (more : Bytes)
    → length more ≡ 4 * groups
    → length more ≤ room
    → undash_loop groups out (a ∷ b ∷ c ∷ d ∷ dash_rest room more)
      ≡ some (out ++ a ∷ b ∷ c ∷ d ∷ more)
unfolding undash_loop dash_rest
undash_loop_dashed zero zero out a b c d [] e h = rw (split_four a b c d [])
undash_loop_dashed zero (suc room) out a b c d [] e h = rw (split_four a b c d [])
undash_loop_dashed zero room out a b c d (m ∷ more) e h = absurd (omega arith)
undash_loop_dashed (suc groups) zero out a b c d more e h = absurd (omega arith)
undash_loop_dashed (suc groups) (suc room) out a b c d [] e h = absurd (omega arith)
undash_loop_dashed (suc groups) (suc room) out a b c d (p ∷ []) e h = absurd (omega arith)
undash_loop_dashed (suc groups) (suc room) out a b c d (p ∷ q ∷ []) e h = absurd (omega arith)
undash_loop_dashed (suc groups) (suc room) out a b c d (p ∷ q ∷ r ∷ []) e h = absurd (omega arith)
undash_loop_dashed (suc groups) (suc room) out a b c d (p ∷ q ∷ r ∷ s ∷ more) e h =
    rw
      (
        split_four a b c d (b'-' ∷ p ∷ q ∷ r ∷ s ∷ dash_rest room more),
        split_one b'-' (p ∷ q ∷ r ∷ s ∷ dash_rest room more),
      )
      (undash_loop_dashed groups room (out ++ a ∷ b ∷ c ∷ d ∷ []) p q r s more (omega arith)
          (omega arith)
        ∙ ap some (append_assoc out (a ∷ b ∷ c ∷ d ∷ []) (p ∷ q ∷ r ∷ s ∷ more)))

-- Digits in whole groups of four, one group at least, come back from their dashed form.
pub undash_group-dash_group :
    (ds : Bytes) (groups : ℕ)
    → length ds ≡ 4 * suc groups
    → undash_group (dash_group ds) (length ds) ≡ some ds
unfolding undash_group dash_group
undash_group-dash_group [] groups e = absurd (omega arith)
undash_group-dash_group (a ∷ []) groups e = absurd (omega arith)
undash_group-dash_group (a ∷ b ∷ []) groups e = absurd (omega arith)
undash_group-dash_group (a ∷ b ∷ c ∷ []) groups e = absurd (omega arith)
undash_group-dash_group (a ∷ b ∷ c ∷ d ∷ more) groups e =
    let count : length (a ∷ b ∷ c ∷ d ∷ more) / 4 ≡ suc groups = omega arith in
    rw (count, undash_group)
      (undash_loop_dashed groups (length (a ∷ b ∷ c ∷ d ∷ more)) [] a b c d more (omega arith)
        (omega arith))

dash_rest-nil : (room : ℕ) → dash_rest room [] ≡ []
unfolding dash_rest
dash_rest-nil zero = refl
dash_rest-nil (suc room) = refl

-- One more group, for any room that is left.
dash_rest_group :
    (p q r s : ℕ) (more tail : Bytes)
    → ((room : ℕ) → length more ≤ room → tail ≡ dash_rest room more)
    → (room : ℕ) → length (p ∷ q ∷ r ∷ s ∷ more) ≤ room
    → b'-' ∷ p ∷ q ∷ r ∷ s ∷ tail ≡ dash_rest room (p ∷ q ∷ r ∷ s ∷ more)
unfolding dash_rest
dash_rest_group p q r s more tail e zero h = absurd (omega arith)
dash_rest_group p q r s more tail e (suc room) h = rw (e room (omega arith))

-- Whatever the loop accepts is the dashed form of what it returns.
undash_loop_sound :
    (groups : ℕ) (out input ds : Bytes)
    → undash_loop groups out input ≡ some ds
    → (a : ℕ) × (b : ℕ) × (c : ℕ) × (d : ℕ) × (more : Bytes) × (tail : Bytes) × (ds
        ≡ out ++ a ∷ b ∷ c ∷ d ∷ more)
      × (length more ≡ 4 * groups)
      × (input ≡ a ∷ b ∷ c ∷ d ∷ tail)
      × ((room : ℕ) → length more ≤ room → tail ≡ dash_rest room more)
unfolding undash_loop
undash_loop_sound zero out input ds e =
    let ((chunk, rest), e1, m) = >>=-eq-some (split_at_checked input 4) _ e in
    let (done, e2) = when_some (bytes_eq rest []) (some (out ++ chunk)) m in
    let (a, b, c, d, e3, e4) = split_four_sound input chunk rest e1 in
    (
      a,
      b,
      c,
      d,
      [],
      rest,
      sym (some_inv e2) ∙ ap (◌++◌ out) e4,
      omega arith,
      e3,
      λ room h. bytes_eq→eq rest [] done ∙ sym (dash_rest-nil room),
    )
undash_loop_sound (suc groups) out input ds e =
    let ((chunk, rest), e1, m) = >>=-eq-some (split_at_checked input 4) _ e in
    let ((dash, rest'), e2, m') = >>=-eq-some (split_at_checked rest 1) _ m in
    let (is_dash, e3) =
      when_some (bytes_eq dash (b'-' ∷ [])) (undash_loop groups (out ++ chunk) rest') m' in
    let (a, b, c, d, e4, e5) = split_four_sound input chunk rest e1 in
    let (p, q, r, s, more, tail, e6, len, e7, later) =
      undash_loop_sound groups (out ++ chunk) rest' ds e3 in
    let behind : rest ≡ b'-' ∷ p ∷ q ∷ r ∷ s ∷ tail =
      split_one_sound rest dash rest' e2
      ∙ ap (λ (t : Bytes). t ++ rest') (bytes_eq→eq dash (b'-' ∷ []) is_dash)
      ∙ ap (◌∷◌ b'-') e7 in
    (
      a,
      b,
      c,
      d,
      p ∷ q ∷ r ∷ s ∷ more,
      rest,
      e6
          ∙ append_assoc out chunk (p ∷ q ∷ r ∷ s ∷ more)
          ∙ ap (λ (t : Bytes). out ++ (t ++ p ∷ q ∷ r ∷ s ∷ more)) e5,
      omega (arith, len),
      e4,
      λ room h. behind ∙ dash_rest_group p q r s more tail later room h,
    )

-- For host parts of whole groups of four nibbles, `undash_group` accepts exactly the dashed forms
-- of that many bytes, and returns the bytes without the dashes, whatever the bytes are: that they are
-- hex digits is tested by `digits_to_host`, which the caller applies.
pub undash_group_exact :
    (input ds : Bytes) (groups : ℕ)
    → (undash_group input (4 * suc groups) ≡ some ds)
      ↔ ((length ds ≡ 4 * suc groups) × (input ≡ dash_group ds))
undash_group_exact input ds groups = (sound, complete)
  where
    sound :
        undash_group input (4 * suc groups) ≡ some ds
        → (length ds ≡ 4 * suc groups) × (input ≡ dash_group ds)
    sound e =
        let count : 4 * suc groups / 4 ≡ suc groups = omega arith in
        let run : undash_loop groups [] input ≡ some ds =
          unfold undash_group in rw (count, undash_group) at e in
        let (a, b, c, d, more, tail, e1, len, e2, behind) =
          undash_loop_sound groups [] input ds run in
        (
          rw e1 (omega (arith, len)),
          unfold dash_group in
              rw (e2, e1) (ap (λ (t : Bytes). a ∷ b ∷ c ∷ d ∷ t) (behind _ (omega arith))),
        )

    complete :
        (length ds ≡ 4 * suc groups) × (input ≡ dash_group ds)
        → undash_group input (4 * suc groups) ≡ some ds
    complete (len, e) = rw (e, ← len) (undash_group-dash_group ds groups len)
