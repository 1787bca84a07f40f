-- ===== src/Config/Distinct.antt =====
-- No two zones of a configuration have the same network.
use panopti_dns.Prelude.{
  ℕ, ◌≡◌, refl, sym, ap, ◌∙◌, Bool, false, ◌&&◌, Option, none, some, List, [], ◌∷◌, arith, ◌==◌,
  leb, All, All-implies, inl, inr, Bool-cases,
}
use panopti_dns.Bytes.{Bytes}
use panopti_dns.Hickory.{Hickory, ok}
use panopti_dns.Config.{Zone, Config}
use panopti_dns.Config.Error.{ConfigError}
use panopti_dns.Config.Parse.{RawZone}
use panopti_dns.Config.Compile.{AddressText}
use panopti_dns.Config.Zones.{
  Seen, seen_network, compile_zone, compile_zones, insert_zone, sort_zones, compile, parse_config,
}
use panopti_dns.Config.Order.{insert_zone-All, sort_zones-All, parse_config-ok}

abbrev pub same_network : {Name : Type 0} → Zone Name → Zone Name → Bool
same_network a b = a.prefix == b.prefix && a.mask == b.mask

unfoldable pub AreDistinct : {Name : Type 0} → List (Zone Name) → Type 0
AreDistinct [] = Unit {0}
AreDistinct (z ∷ zs) = All (λ o. same_network z o ≡ false) zs × AreDistinct zs

pub same_network_comm : {Name : Type 0} (a b : Zone Name) → same_network a b ≡ same_network b a
same_network_comm a b = ground arith

insert_zone-AreDistinct :
    {Name : Type 0} (z : Zone Name) (zs : List (Zone Name))
    → All (λ o. same_network z o ≡ false) zs
    → AreDistinct zs
    → AreDistinct (insert_zone z zs)
unfolding insert_zone AreDistinct
insert_zone-AreDistinct z [] apart distinct = (tt, tt)
insert_zone-AreDistinct z (y ∷ ys) (differs, apart) (others, distinct) =
    elim (Bool-cases (leb y.mask z.mask)) [
      | inl first ↦ rw first ((differs, apart), (others, distinct))
      | inr later ↦ rw later (
        insert_zone-All (λ o. same_network y o ≡ false) z ys (same_network_comm y z ∙ differs)
            others,
        insert_zone-AreDistinct z ys apart distinct,
      )
    ]

sort_zones-AreDistinct :
    {Name : Type 0} (zs : List (Zone Name)) → AreDistinct zs → AreDistinct (sort_zones zs)
unfolding sort_zones AreDistinct
sort_zones-AreDistinct [] distinct = tt
sort_zones-AreDistinct (z ∷ zs) (apart, distinct) =
    insert_zone-AreDistinct z (sort_zones zs)
      (sort_zones-All (λ o. same_network z o ≡ false) zs apart) (sort_zones-AreDistinct zs distinct)

module _ (h : Hickory) (text : AddressText) where
  -- The network of a zone is new, and then is seen.
  IsNew : Seen → Zone h.Name → Type 0
  IsNew seen z = seen_network seen.networks z.prefix z.mask ≡ none

  compile_zone-IsNew :
      (seen seen' : Seen) (raw : RawZone) (errors : List ConfigError) (z : Zone h.Name)
      → (compile_zone h text seen raw errors).0 ≡ some (z, seen')
      → IsNew seen z × (seen'.networks ≡ ((z.prefix, z.mask), raw.network.line) ∷ seen.networks)
  unfolding compile_zone IsNew
  compile_zone-IsNew seen seen' raw errors z e = ground arith

  seen_network-cons :
      (p m line : ℕ) (rest : List ((ℕ × ℕ) × ℕ)) (z : Zone h.Name)
      → seen_network (((p, m), line) ∷ rest) z.prefix z.mask ≡ none
      → ((p == z.prefix && m == z.mask) ≡ false) × (seen_network rest z.prefix z.mask ≡ none)
  unfolding seen_network
  seen_network-cons p m line rest z e = ground arith

  compile_zones-AreDistinct :
      (ttl : ℕ) (raws : List RawZone) (seen : Seen) (errors : List ConfigError)
      → let zs = (compile_zones h text ttl raws seen errors).0 in
        All (IsNew seen) zs × AreDistinct zs
  unfolding compile_zones AreDistinct IsNew
  compile_zones-AreDistinct ttl [] seen errors = (tt, tt)
  compile_zones-AreDistinct ttl (raw ∷ raws) seen errors =
      added (λ s es. compile_zones-AreDistinct ttl raws s es)
        (compile_zone h text seen raw errors).0 refl
    where
      added :
          ((s : Seen) (es : List ConfigError)
            → let zs = (compile_zones h text ttl raws s es).0 in All (IsNew s) zs × AreDistinct zs)
          → (o : Option (Zone h.Name × Seen)) → (compile_zone h text seen raw errors).0 ≡ o
          → let zs =
              (elim o as (λ o. List (Zone h.Name) × List ConfigError) [
                | none ↦ compile_zones h text ttl raws seen (compile_zone h text seen raw errors).1
                | some (z, seen') ↦
                    (let (zs, errors'') =
                        compile_zones h text ttl raws seen'
                          (compile_zone h text seen raw errors).1 in
                      (record z { ttl = ttl } ∷ zs, errors''))
              ]).0 in
            All (IsNew seen) zs × AreDistinct zs
      added rest none e = rest seen (compile_zone h text seen raw errors).1
      added rest (some (z, seen')) e =
          let (new, grown) = compile_zone-IsNew seen seen' raw errors z e in
          let (unseen, distinct) = rest seen' (compile_zone h text seen raw errors).1 in
          let split : (o : Zone h.Name)
              → IsNew seen' o
              → (same_network z o ≡ false) × IsNew seen o =
            (λ o fresh.
              seen_network-cons z.prefix z.mask raw.network.line seen.networks o
                (ap (λ n. seen_network n o.prefix o.mask) (sym grown) ∙ fresh)) in
          (
            (new, All-implies (IsNew seen') (IsNew seen) (λ o fresh. (split o fresh).1) _ unseen),
            (
              All-implies (IsNew seen') (λ o. same_network z o ≡ false)
                  (λ o fresh. (split o fresh).0) _ unseen,
              distinct,
            ),
          )

  -- No two zones of a configuration that was read have the same network.
  pub parse_config-AreDistinct :
      (lossy : Bytes → Bytes) (input : Bytes) (config : Config h.Name)
      → parse_config h text lossy input ≡ ok config
      → AreDistinct config.zones
  unfolding compile
  parse_config-AreDistinct lossy input config e =
      rw (← parse_config-ok h text lossy input config e)
        (sort_zones-AreDistinct _ (compile_zones-AreDistinct _ _ _ _).1)
