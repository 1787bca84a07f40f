-- ===== src/Zone/Longest.antt =====
-- `zone_for_addr` finds the zone with the longest prefix.
use panopti_dns.Prelude.{
  ℕ, ◌≤◌, ◌≡◌, bit_and, Bool, true, false, none, some, List, [], ◌∷◌, arith, ◌==◌, All, inl, inr,
  Bool-cases, find_first, some_inv,
}
use mathlib.Core.Path.{subst}
use panopti_dns.Hickory.{Hickory}
use panopti_dns.Nibble.{mask_bits}
use panopti_dns.Config.{Zone, Config}
use panopti_dns.Config.Order.{IsLongestFirst}
use panopti_dns.Zone.{zone_for_addr}

-- Whether an address is in the network of a zone.
abbrev pub covers : {Name : Type 0} → ℕ → Zone Name → Bool
covers addr z = bit_and addr (mask_bits z.mask) == z.prefix

pub find_first-longest :
    {Name : Type 0} (p : Zone Name → Bool) (zs : List (Zone Name)) (z : Zone Name)
    → IsLongestFirst zs
    → find_first p zs ≡ some z
    → (p z ≡ true) × All (λ o. p o ≡ true → o.mask ≤ z.mask) zs
unfolding find_first IsLongestFirst
find_first-longest p [] z sorted e = cc
find_first-longest {Name} p (y ∷ ys) z (below, sorted) e = elim (Bool-cases (p y)) [
  | inl hit ↦
      let same : y ≡ z = some_inv (rw hit at e) in
      subst (λ t. (p t ≡ true) × All (λ o. p o ≡ true → o.mask ≤ t.mask) (y ∷ ys)) same
        (hit, ((λ x. omega arith), weaken ys below))
  | inr miss ↦
      let (holds, all) = find_first-longest p ys z sorted (rw miss at e) in
      (holds, ((λ x. cc), all))
]
  where
    weaken :
        (os : List (Zone Name))
        → All (λ o. o.mask ≤ y.mask) os
        → All (λ o. p o ≡ true → o.mask ≤ y.mask) os
    weaken [] all = tt
    weaken (o ∷ os) (a, all) = ((λ x. a), weaken os all)

find_first-none :
    {Name : Type 0} (p : Zone Name → Bool) (zs : List (Zone Name))
    → find_first p zs ≡ none
    → All (λ o. p o ≡ false) zs
unfolding find_first
find_first-none p [] e = tt
find_first-none p (y ∷ ys) e = elim (Bool-cases (p y)) [
  | inl hit ↦ ground arith
  | inr miss ↦ (miss, find_first-none p ys (rw miss at e))
]

module _ (h : Hickory) where
  -- If the zones are ordered longest prefix first, `zone_for_addr` gives, of the zones whose network
  -- the address is in, one with the longest prefix; and none only if the address is in no network.
  pub zone_for_addr_longest :
      (config : Config h.Name) (addr : ℕ)
      → IsLongestFirst config.zones
      → ((z : Zone h.Name)
          → zone_for_addr h config addr ≡ some z
          → (covers addr z ≡ true) × All (λ o. covers addr o ≡ true → o.mask ≤ z.mask) config.zones)
        × (zone_for_addr h config addr ≡ none → All (λ o. covers addr o ≡ false) config.zones)
  unfolding zone_for_addr
  zone_for_addr_longest config addr sorted = (
    λ z found. find_first-longest (covers addr) config.zones z sorted found,
    λ missing. find_first-none (covers addr) config.zones missing,
  )
