-- ===== src/Zone/Widths.antt =====
-- A template renders all digits of one length to labels of the same lengths.
use panopti_dns.Prelude.{
  ℕ, zero, suc, ◌≡◌, refl, ap, true, false, List, [], ◌∷◌, ◌++◌, map, arith, length, take, drop,
  length-append, length-take, length-drop, All,
}
use panopti_dns.Bytes.{Bytes}
use panopti_dns.Hickory.{IsLabel, wire_length}
use panopti_dns.Nibble.{dash_rest, dash_group}
use panopti_dns.Config.{FwdLabel, literal, digits, render_label}

length-dash_rest :
    (room : ℕ) (a b : Bytes)
    → length a ≡ length b
    → length (dash_rest room a) ≡ length (dash_rest room b)
unfolding dash_rest
length-dash_rest zero a b e = refl
length-dash_rest (suc room) [] [] e = refl
length-dash_rest (suc room) [] (y ∷ b) e = absurd (omega arith)
length-dash_rest (suc room) (x ∷ a) [] e = absurd (omega arith)
length-dash_rest (suc room) (x ∷ a) (y ∷ b) e =
    let rest =
      length-dash_rest room (drop 4 (x ∷ a)) (drop 4 (y ∷ b))
        (omega (arith, length-drop 4 (x ∷ a), length-drop 4 (y ∷ b))) in
    omega (
      arith,
      rest,
      length-append (take 4 (x ∷ a)) (dash_rest room (drop 4 (x ∷ a))),
      length-append (take 4 (y ∷ b)) (dash_rest room (drop 4 (y ∷ b))),
      length-take 4 (x ∷ a),
      length-take 4 (y ∷ b),
    )

length-dash_group :
    (a b : Bytes) → length a ≡ length b → length (dash_group a) ≡ length (dash_group b)
unfolding dash_group
length-dash_group a b e =
    let rest =
      length-dash_rest (length a) (drop 4 a) (drop 4 b)
        (omega (arith, e, length-drop 4 a, length-drop 4 b)) in
    let room = ap (λ r. length (dash_rest r (drop 4 b))) e in
    omega (
      arith,
      rest,
      room,
      length-append (take 4 a) (dash_rest (length a) (drop 4 a)),
      length-append (take 4 b) (dash_rest (length b) (drop 4 b)),
      length-take 4 a,
      length-take 4 b,
      e,
    )

length-render_label :
    (a b : Bytes) (l : FwdLabel)
    → length a ≡ length b
    → length (render_label a l) ≡ length (render_label b l)
unfolding render_label
length-render_label a b (literal verbatim lower) e = refl
length-render_label a b (digits pre pre_lower post post_lower true) e = omega (
  arith,
  length-append pre (dash_group a ++ post),
  length-append pre (dash_group b ++ post),
  length-append (dash_group a) post,
  length-append (dash_group b) post,
  length-dash_group a b e,
)
length-render_label a b (digits pre pre_lower post post_lower false) e = omega (
  arith,
  length-append pre (a ++ post),
  length-append pre (b ++ post),
  length-append a post,
  length-append b post,
  e,
)

-- Labels rendered from some digits are legal if those rendered from others, as many, are.
pub render_label-IsLabel :
    (a b : Bytes) (ls : List FwdLabel)
    → length a ≡ length b
    → All IsLabel (map (render_label a) ls)
    → All IsLabel (map (render_label b) ls)
render_label-IsLabel a b [] e legal = tt
render_label-IsLabel a b (l ∷ ls) e ((lo, hi), legal) =
    let same = length-render_label a b l e in
    ((omega (arith, same), omega (arith, same)), render_label-IsLabel a b ls e legal)

pub wire_length-render_label :
    (a b : Bytes) (ls : List FwdLabel)
    → length a ≡ length b
    → wire_length (map (render_label a) ls) ≡ wire_length (map (render_label b) ls)
wire_length-render_label a b [] e = refl
wire_length-render_label a b (l ∷ ls) e =
    omega (arith, length-render_label a b l e, wire_length-render_label a b ls e)
