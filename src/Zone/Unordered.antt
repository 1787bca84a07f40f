-- ===== src/Zone/Unordered.antt =====
-- `zone_for_addr` does not depend on the order in which the file has its network blocks.
use panopti_dns.Prelude.{
  ℕ, ◌≤◌, ◌≡◌, refl, sym, ap, ◌∙◌, inl, inr, bit_and, true, false, Option, none, some, List, [],
  ◌∷◌, map, arith, Option-cases, find_first, ==_iff,
}
use panopti_dns.Prelude.Members.{In, All-In, find_first-In, find_first_total, In-map_cases, In-map}
use panopti_dns.Bytes.{Bytes}
use panopti_dns.Hickory.{Hickory, ok}
use panopti_dns.Nibble.{mask_bits}
use panopti_dns.Config.{Zone, Config}
use panopti_dns.Config.Compile.{AddressText}
use panopti_dns.Config.Zones.{parse_config}
use panopti_dns.Config.Order.{IsLongestFirst, parse_config-IsLongestFirst}
use panopti_dns.Config.Distinct.{
  same_network, same_network_comm, AreDistinct, parse_config-AreDistinct,
}
use panopti_dns.Zone.{zone_for_addr}
use panopti_dns.Zone.Longest.{covers, find_first-longest}

module _ {Name : Type 0} where
  -- A zone without the line that it was read from.
  abbrev pub unline : Zone Name → Zone Name
  unline z = record z { src_line = 0 }

  -- The same zones, in any order and on any lines.
  abbrev pub SameBlocks : List (Zone Name) → List (Zone Name) → Type 0
  SameBlocks zs os =
      ((z : Zone Name) → In z (map unline zs) → In z (map unline os))
      × ((z : Zone Name) → In z (map unline os) → In z (map unline zs))

  AreDistinct-eq :
      (zs : List (Zone Name)) (a b : Zone Name)
      → AreDistinct zs
      → In a zs
      → In b zs
      → same_network a b ≡ true
      → a ≡ b
  unfolding AreDistinct
  AreDistinct-eq [] a b distinct i j same = absurd i
  AreDistinct-eq (z ∷ zs) a b (apart, distinct) (inl e) (inl e') same = sym e ∙ e'
  AreDistinct-eq (z ∷ zs) a b (apart, distinct) (inl e) (inr j) same =
      absurd (differs (All-In (λ o. same_network z o ≡ false) b zs apart j) e)
    where
      differs : same_network z b ≡ false → z ≡ a → ⊥
      differs apart_from is = (let e' = ap (λ o. same_network o b) is in cc)
  AreDistinct-eq (z ∷ zs) a b (apart, distinct) (inr i) (inl e) same =
      absurd (differs (All-In (λ o. same_network z o ≡ false) a zs apart i) e)
    where
      differs : same_network z a ≡ false → z ≡ b → ⊥
      differs apart_from is =
          (let e' = ap (λ o. same_network o a) is in let back = same_network_comm a b in cc)
  AreDistinct-eq (z ∷ zs) a b (apart, distinct) (inr i) (inr j) same =
      AreDistinct-eq zs a b distinct i j same

  covers-unline : (addr : ℕ) (a b : Zone Name) → unline a ≡ unline b → covers addr a ≡ covers addr b
  covers-unline addr a b e = ap (λ (z : Zone Name). covers addr z) e

  -- Two zones that an address is in, with prefixes of one length, are of one network.
  covers-same_network :
      (addr : ℕ) (a b : Zone Name)
      → covers addr a ≡ true
      → covers addr b ≡ true
      → a.mask ≡ b.mask
      → same_network a b ≡ true
  covers-same_network addr a b ha hb e =
      let pa : bit_and addr (mask_bits a.mask) ≡ a.prefix =
        (==_iff (bit_and addr (mask_bits a.mask)) a.prefix).0 ha in
      let pb : bit_and addr (mask_bits b.mask) ≡ b.prefix =
        (==_iff (bit_and addr (mask_bits b.mask)) b.prefix).0 hb in
      let one : a.prefix ≡ b.prefix = sym pa ∙ ap (λ n. bit_and addr (mask_bits n)) e ∙ pb in
      rw ((==_iff a.prefix b.prefix).1 one, (==_iff a.mask b.mask).1 e) refl

  -- What is found among the zones is found among the same zones in another order.
  find_first-SameBlocks :
      (addr : ℕ) (zs os : List (Zone Name)) (z : Zone Name)
      → IsLongestFirst zs
      → IsLongestFirst os
      → AreDistinct zs
      → SameBlocks zs os
      → find_first (covers addr) zs ≡ some z
      → (o : Zone Name) × (find_first (covers addr) os ≡ some o) × (unline o ≡ unline z)
  find_first-SameBlocks addr zs os z sorted sorted' distinct (to, back) found =
      let (here, holds) = find_first-In (covers addr) zs z found in
      let (z', there, line) =
        In-map_cases unline (unline z) os (to (unline z) (In-map unline z zs here)) in
      let (o, found') =
        find_first_total (covers addr) os z' there (covers-unline addr z' z line ∙ holds) in
      let (there', holds') = find_first-In (covers addr) os o found' in
      let (y, here', line') =
        In-map_cases unline (unline o) zs (back (unline o) (In-map unline o os there')) in
      let longest = (find_first-longest (covers addr) zs z sorted found).1 in
      let longest' = (find_first-longest (covers addr) os o sorted' found').1 in
      let covered : covers addr y ≡ true = covers-unline addr y o line' ∙ holds' in
      let le : y.mask ≤ z.mask =
        All-In (λ o. covers addr o ≡ true → o.mask ≤ z.mask) y zs longest here' covered in
      let ge : z'.mask ≤ o.mask =
        All-In (λ x. covers addr x ≡ true → x.mask ≤ o.mask) z' os longest' there
          (covers-unline addr z' z line ∙ holds) in
      let m : z'.mask ≡ z.mask = ap (λ (x : Zone Name). x.mask) line in
      let m' : y.mask ≡ o.mask = ap (λ (x : Zone Name). x.mask) line' in
      let one : y ≡ z =
        AreDistinct-eq zs y z distinct here' here
          (covers-same_network addr y z covered holds (omega (arith, le, ge, m, m'))) in
      (o, found', sym line' ∙ ap unline one)

-- The zone that was found, without its line.
abbrev pub unlined : {Name : Type 0} → Option (Zone Name) → Option (Zone Name)
unlined none = none
unlined (some z) = some (unline z)

module _ (h : Hickory) (text : AddressText) (lossy : Bytes → Bytes) where
  -- If two texts are accepted, and the zones of both configurations are the same but for their order
  -- and the lines that they stand on, `zone_for_addr` finds the same zone in both for every address, but
  -- for its line, or none in both.
  pub zone_for_addr-SameBlocks :
      (input input' : Bytes) (config config' : Config h.Name) (addr : ℕ)
      → parse_config h text lossy input ≡ ok config
      → parse_config h text lossy input' ≡ ok config'
      → SameBlocks config.zones config'.zones
      → unlined (zone_for_addr h config addr) ≡ unlined (zone_for_addr h config' addr)
  unfolding zone_for_addr
  zone_for_addr-SameBlocks input input' config config' addr e e' (to, back) =
      let sorted = parse_config-IsLongestFirst h text lossy input config e in
      let sorted' = parse_config-IsLongestFirst h text lossy input' config' e' in
      let distinct = parse_config-AreDistinct h text lossy input config e in
      let distinct' = parse_config-AreDistinct h text lossy input' config' e' in
      elim (Option-cases (find_first (covers addr) config.zones)) [
        | inr (z, found) ↦
            (let (o, found', same) =
                find_first-SameBlocks addr config.zones config'.zones z sorted sorted' distinct
                  (to, back) found in
              rw (found, found') (ap some (sym same)))
        | inl missing ↦ (elim (Option-cases (find_first (covers addr) config'.zones)) [
          | inl missing' ↦ rw (missing, missing') refl
          | inr (o, found') ↦
              (let (z, found, same) =
                  find_first-SameBlocks addr config'.zones config.zones o sorted' sorted distinct'
                    (back, to) found' in
                absurd (some_ne_none (sym found ∙ missing)))
        ])
      ]
    where
      some_ne_none : {z : Zone h.Name} → some z ≡ none → ⊥
      some_ne_none e = cc
