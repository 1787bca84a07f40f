-- ===== src/Prelude/Members.antt =====
-- The elements of a list, and what is found among them.
use mathlib.Core.Path.{subst}
use panopti_dns.Prelude.{
  ◌≡◌, refl, ap, ◌⊎◌, inl, inr, Bool, true, false, some, List, [], ◌∷◌, map, All, Bool-cases,
  find_first, some_inv,
}

-- Membership, by recursion.
abbrev pub In : {A : Type 0} → A → List A → Type 0
In a [] = ⊥
In a (x ∷ xs) = (x ≡ a) ⊎ In a xs

module _ {A : Type 0} where
  pub All-In {κ} : (P : A → Type κ) (a : A) (xs : List A) → All P xs → In a xs → P a
  All-In P a [] all i = absurd i
  All-In P a (x ∷ xs) (p, all) (inl e) = subst P e p
  All-In P a (x ∷ xs) (p, all) (inr i) = All-In P a xs all i

  pub find_first-In :
      (p : A → Bool) (xs : List A) (a : A) → find_first p xs ≡ some a → In a xs × (p a ≡ true)
  unfolding find_first
  find_first-In p [] a e = cc
  find_first-In p (x ∷ xs) a e = elim (Bool-cases (p x)) [
    | inl hit ↦
        (let same : x ≡ a = some_inv (rw hit at e) in (inl same, subst (λ y. p y ≡ true) same hit))
    | inr miss ↦ (let (i, holds) = find_first-In p xs a (rw miss at e) in (inr i, holds))
  ]

  pub find_first_total :
      (p : A → Bool) (xs : List A) (a : A)
      → In a xs
      → p a ≡ true
      → (b : A) × (find_first p xs ≡ some b)
  unfolding find_first
  find_first_total p [] a i holds = absurd i
  find_first_total p (x ∷ xs) a i holds = elim (Bool-cases (p x)) [
    | inl hit ↦ (x, rw hit refl)
    | inr miss ↦ (let (b, e) = find_first_total p xs a (later i miss) holds in (b, rw miss e))
  ]
    where
      later : In a (x ∷ xs) → p x ≡ false → In a xs
      later (inl same) miss = (let e = ap p same in cc)
      later (inr i) miss = i

  pub In-map_cases :
      {B : Type 0} (f : A → B) (b : B) (xs : List A)
      → In b (map f xs)
      → (a : A) × In a xs × (f a ≡ b)
  In-map_cases f b [] i = absurd i
  In-map_cases f b (x ∷ xs) (inl e) = (x, inl refl, e)
  In-map_cases f b (x ∷ xs) (inr i) = (let (a, j, e) = In-map_cases f b xs i in (a, inr j, e))

  pub In-map : {B : Type 0} (f : A → B) (a : A) (xs : List A) → In a xs → In (f a) (map f xs)
  In-map f a [] i = absurd i
  In-map f a (x ∷ xs) (inl e) = inl (ap f e)
  In-map f a (x ∷ xs) (inr i) = inr (In-map f a xs i)
