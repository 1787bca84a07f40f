-- ===== src/Config/Order.antt =====
-- The order of the zones of a configuration.
use panopti_dns.Config.Parse.{RawZone, parse}
use panopti_dns.Prelude.{
  Option, none, some, ℕ, ◌≤◌, ◌≡◌, refl, Bool, true, false, List, [], ◌∷◌, arith, leb,
  if◌then◌else◌, All, inl, inr, Bool-cases, is_empty,
}
use panopti_dns.Bytes.{Bytes}
use panopti_dns.Hickory.{Hickory, ok, err}
use panopti_dns.Config.{Zone, Config}
use panopti_dns.Config.Error.{ConfigError}
use panopti_dns.Config.Compile.{AddressText}
use panopti_dns.Config.Zones.{
  Seen, compile_zone, compile_zones, insert_zone, sort_zones, compile, parse_config,
}

-- Longest prefix first.
unfoldable pub IsLongestFirst : {Name : Type 0} → List (Zone Name) → Type 0
IsLongestFirst [] = Unit {0}
IsLongestFirst (z ∷ zs) = All (λ o. o.mask ≤ z.mask) zs × IsLongestFirst zs

pub insert_zone-All :
    {Name : Type 0} (P : Zone Name → Type 0) (z : Zone Name) (zs : List (Zone Name))
    → P z
    → All P zs
    → All P (insert_zone z zs)
unfolding insert_zone
insert_zone-All P z [] pz all = (pz, tt)
insert_zone-All P z (y ∷ ys) pz (py, all) = elim (Bool-cases (leb y.mask z.mask)) [
  | inl first ↦ rw first (pz, (py, all))
  | inr later ↦ rw later (py, insert_zone-All P z ys pz all)
]

pub sort_zones-All :
    {Name : Type 0} (P : Zone Name → Type 0) (zs : List (Zone Name))
    → All P zs
    → All P (sort_zones zs)
unfolding sort_zones
sort_zones-All P [] all = tt
sort_zones-All P (z ∷ zs) (pz, all) =
    insert_zone-All P z (sort_zones zs) pz (sort_zones-All P zs all)

All-mask_trans :
    {Name : Type 0} (m n : ℕ) (zs : List (Zone Name))
    → m ≤ n
    → All (λ o. o.mask ≤ m) zs
    → All (λ o. o.mask ≤ n) zs
All-mask_trans m n [] le all = tt
All-mask_trans m n (z ∷ zs) le (a, all) = (omega arith, All-mask_trans m n zs le all)

insert_zone-IsLongestFirst :
    {Name : Type 0} (z : Zone Name) (zs : List (Zone Name))
    → IsLongestFirst zs
    → IsLongestFirst (insert_zone z zs)
unfolding insert_zone IsLongestFirst
insert_zone-IsLongestFirst z [] sorted = (tt, tt)
insert_zone-IsLongestFirst z (y ∷ ys) (below, sorted) = elim (Bool-cases (leb y.mask z.mask)) [
  | inl first ↦
      let le : y.mask ≤ z.mask = ground arith in
      rw first ((le, All-mask_trans y.mask z.mask ys le below), (below, sorted))
  | inr later ↦
      let le : z.mask ≤ y.mask = ground arith in
      rw later (
        insert_zone-All (λ o. o.mask ≤ y.mask) z ys le below,
        insert_zone-IsLongestFirst z ys sorted,
      )
]

pub sort_zones-IsLongestFirst :
    {Name : Type 0} (zs : List (Zone Name)) → IsLongestFirst (sort_zones zs)
unfolding sort_zones IsLongestFirst
sort_zones-IsLongestFirst [] = tt
sort_zones-IsLongestFirst (z ∷ zs) =
    insert_zone-IsLongestFirst z (sort_zones zs) (sort_zones-IsLongestFirst zs)

module _ (h : Hickory) (text : AddressText) where
  -- What was read without an error is what the parsed directives compile to.
  pub parse_config-ok :
      (lossy : Bytes → Bytes) (input : Bytes) (config : Config h.Name)
      → parse_config h text lossy input ≡ ok config
      → (compile h text (parse lossy input).0 (parse lossy input).1).0 ≡ config
  unfolding parse_config
  parse_config-ok lossy input config e =
      let x = compile h text (parse lossy input).0 (parse lossy input).1 in
      accepted (is_empty x.1) x.0 x.1 e
    where
      accepted :
          (b : Bool) (c : Config h.Name) (errors : List ConfigError)
          → (if b then ok c else err errors) ≡ ok config
          → c ≡ config
      accepted true c errors done = cc
      accepted false c errors done = cc

  -- The zones of a configuration that was read are ordered longest prefix first.
  pub parse_config-IsLongestFirst :
      (lossy : Bytes → Bytes) (input : Bytes) (config : Config h.Name)
      → parse_config h text lossy input ≡ ok config
      → IsLongestFirst config.zones
  unfolding compile
  parse_config-IsLongestFirst lossy input config e =
      rw (← parse_config-ok lossy input config e) (sort_zones-IsLongestFirst _)

  -- What holds of every zone that `compile_zone` makes, whatever its lifetime, holds of the zones that
  -- are read.
  compile_zones-All :
      (P : Zone h.Name → Type 0)
      → ((seen seen' : Seen) (raw : RawZone) (errors : List ConfigError) (z : Zone h.Name) (ttl : ℕ)
          → (compile_zone h text seen raw errors).0 ≡ some (z, seen')
          → P (record z { ttl = ttl }))
      → (ttl : ℕ) (raws : List RawZone) (seen : Seen) (errors : List ConfigError)
      → All P (compile_zones h text ttl raws seen errors).0
  unfolding compile_zones
  compile_zones-All P step ttl [] seen errors = tt
  compile_zones-All P step ttl (raw ∷ raws) seen errors =
      added (λ s es. compile_zones-All P step ttl raws s es) (compile_zone h text seen raw errors).0
        refl
    where
      added :
          ((s : Seen) (es : List ConfigError) → All P (compile_zones h text ttl raws s es).0)
          → (o : Option (Zone h.Name × Seen)) → (compile_zone h text seen raw errors).0 ≡ o
          → All P
              (elim o as (λ o. List (Zone h.Name) × List ConfigError) [
                | none ↦ compile_zones h text ttl raws seen (compile_zone h text seen raw errors).1
                | some (z, seen') ↦
                    (let (zs, errors'') =
                        compile_zones h text ttl raws seen'
                          (compile_zone h text seen raw errors).1 in
                      (record z { ttl = ttl } ∷ zs, errors''))
              ]).0
      added rest none e = rest seen (compile_zone h text seen raw errors).1
      added rest (some (z, seen')) e =
          (step seen seen' raw errors z ttl e, rest seen' (compile_zone h text seen raw errors).1)

  pub parse_config-All :
      (P : Zone h.Name → Type 0)
      → ((seen seen' : Seen) (raw : RawZone) (errors : List ConfigError) (z : Zone h.Name) (ttl : ℕ)
          → (compile_zone h text seen raw errors).0 ≡ some (z, seen')
          → P (record z { ttl = ttl }))
      → (lossy : Bytes → Bytes) (input : Bytes) (config : Config h.Name)
      → parse_config h text lossy input ≡ ok config
      → All P config.zones
  unfolding compile
  parse_config-All P step lossy input config e =
      rw (← parse_config-ok lossy input config e)
        (sort_zones-All P _ (compile_zones-All P step _ _ _ _))
