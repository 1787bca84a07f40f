-- ===== src/Zone/Served.antt =====
-- AAAA queries over a configuration that was read: no answer but for the forward names of its addresses.
use mathlib.Core.Path.{subst}
use panopti_dns.Prelude.{
  ℕ, ◌^◌, ◌<◌, ◌≡◌, sym, ap, ◌∙◌, bit_and, true, Option, some, List, [], ◌∷◌, arith, All, inl, inr,
  Option-cases, some_inv, find_map,
}
use panopti_dns.Bytes.{Bytes}
use panopti_dns.Hickory.{Hickory, IsDocumented, ok, aaaa, aaaa_data, same_labels}
use panopti_dns.Nibble.{mask_bits}
use panopti_dns.Config.{Zone, Config}
use panopti_dns.Config.Compile.{AddressText}
use panopti_dns.Config.Networks.{IsNetwork, HasNetwork}
use panopti_dns.Config.Template.{IsAccepted}
use panopti_dns.Config.Zones.{parse_config}
use panopti_dns.Zone.{
  answer, match_zone_forward, match_forward, zone_containing, resolve, resolve_forward,
  resolve_none, aaaa_record, forward_has_type, reverse_has_type,
}
use panopti_dns.Zone.Forward.{rendered_labels}
use panopti_dns.Zone.Compiled.{IsCompiled, is_plain, parse_config-IsCompiled, IsCompiled-IsServable}
use panopti_dns.Zone.Answers.{match_zone_forward_sound}

-- What `find_map` finds, it finds at one of the elements.
All-find_map :
    {A B : Type 0} (P : A → Type 0) (f : A → Option B) (xs : List A) (b : B)
    → All P xs
    → find_map f xs ≡ some b
    → (a : A) × P a × (f a ≡ some b)
unfolding find_map
All-find_map P f [] b all e = cc
All-find_map P f (x ∷ xs) b (one, all) e = elim (Option-cases (f x)) [
  | inl absent ↦ All-find_map P f xs b all (rw (find_map, absent) at e)
  | inr found ↦ (x, one, found.1 ∙ ap some (some_inv (rw (find_map, found.1) at e)))
]

module _ (h : Hickory) (doc : IsDocumented h) where
  match_forward-zone :
      (config : Config h.Name) (qname : h.Name) (z : Zone h.Name) (addr : ℕ)
      → All (IsCompiled h) config.zones
      → match_forward h config qname ≡ some (z, addr)
      → IsCompiled h z × (match_zone_forward h z qname ≡ some addr)
  unfolding match_forward
  match_forward-zone config qname z addr all e =
      let (y, compiled, found) = All-find_map (IsCompiled h) _ config.zones (z, addr) all e in
      elim (Option-cases (match_zone_forward h y qname)) [
        | inl absent ↦ ground arith
        | inr hit ↦
            (let same : y ≡ z = ground arith in
              let value : hit.0 ≡ addr = ground arith in
              subst
                (λ (x : Zone h.Name). IsCompiled h x × (match_zone_forward h x qname ≡ some addr))
                same (compiled, hit.1 ∙ ap some value))
      ]

  -- What an AAAA query is answered with, if it is answered from a zone.
  resolve_aaaa :
      (config : Config h.Name) (qname : h.Name) (z : Zone h.Name) (records : List h.Record)
      → resolve h config qname aaaa ≡ answer z records
      → (addr : ℕ) × (match_forward h config qname ≡ some (z, addr))
        × (records ≡ h.from_rdata qname z.ttl (aaaa_data addr) ∷ [])
  unfolding resolve resolve_forward resolve_none reverse_has_type forward_has_type aaaa_record
  resolve_aaaa config qname z records e = elim (Option-cases (match_forward h config qname)) [
    | inl absent ↦ (elim (Option-cases (zone_containing h config qname)) [
      | inl outside ↦ ground arith
      | inr inside ↦ ground arith
    ])
    | inr found ↦
        (let y = found.0.0 in
          let addr = found.0.1 in
          let same : y ≡ z = ground arith in
          let only : h.from_rdata qname y.ttl (aaaa_data addr) ∷ [] ≡ records = ground arith in
          (
            addr,
            found.1 ∙ ap (λ (x : Zone h.Name). some (x, addr)) same,
            sym only
                ∙ ap (λ (x : Zone h.Name). h.from_rdata qname x.ttl (aaaa_data addr) ∷ []) same,
          ))
  ]

  -- If a configuration is read without an error and an AAAA query is answered from one of its zones, whose
  -- prefix is below 2 ^ 128 and whose template has no literal `*` in front: the answer is one record, owned
  -- by the name that was asked for, with an address of the zone's network, and the name is the forward name
  -- of that address, but for case.
  pub parse_config-answers_own :
      (text : AddressText) (lossy : Bytes → Bytes) (input : Bytes) (config : Config h.Name)
      (z : Zone h.Name) (qname : h.Name) (records : List h.Record)
      → parse_config h text lossy input ≡ ok config
      → resolve h config qname aaaa ≡ answer z records
      → z.prefix < 2 ^ 128
      → is_plain z.fwd.labels ≡ true
      → (addr : ℕ) × (records ≡ h.from_rdata qname z.ttl (aaaa_data addr) ∷ [])
        × (addr < 2 ^ 128)
        × (bit_and addr (mask_bits z.mask) ≡ z.prefix)
        × (same_labels (h.iter qname) (rendered_labels z addr) ≡ true)
  unfolding IsAccepted HasNetwork IsNetwork
  parse_config-answers_own text lossy input config z qname records read answered low plain =
      let (addr, chosen, only) = resolve_aaaa config qname z records answered in
      let (compiled, matched) =
        match_forward-zone config qname z addr
          (parse_config-IsCompiled h text lossy input config read) chosen in
      let (
        ((aligned, lower, upper, masked), width),
        (dashed_used, labels, placed, one, whole, widest, made),
      ) =
        compiled in
      let (below, covered, own) =
        match_zone_forward_sound h doc z qname addr (omega arith)
          (IsCompiled-IsServable h doc z compiled) one plain low masked matched in
      (addr, only, below, covered, own)
