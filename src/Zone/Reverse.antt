-- ===== src/Zone/Reverse.antt =====
-- Reverse queries: the target of a PTR answer resolves forward to the address that was asked for.
use panopti_dns.Prelude.{
  true, ℕ, ◌^◌, ◌≤◌, ◌<◌, ◌≡◌, refl, bit_and, some, [], ◌∷◌, length, All, ==_iff,
}
use panopti_dns.Hickory.{
  Hickory, IsDocumented, IsLabel, wire_length, same_labels, ptr, ptr_data, label_count,
}
use panopti_dns.Nibble.{mask_bits, ptr_name_to_addr}
use panopti_dns.Nibble.Ptr.{ptr_labels}
use panopti_dns.Nibble.PtrName.{ptr_name_to_addr_exact}
use panopti_dns.Config.{Zone, Config}
use panopti_dns.Config.Order.{IsLongestFirst}
use panopti_dns.Zone.{
  answer, zone_for_addr, match_ptr, ptr_record, match_zone_forward, reverse_has_type, resolve,
}
use panopti_dns.Zone.Forward.{IsServable, rendered_labels, forward_round_trip}
use panopti_dns.Zone.Longest.{zone_for_addr_longest}

module _ (h : Hickory) (doc : IsDocumented h) where
  -- For the reverse name of an address below 2 ^ 128, in any case, that is in a zone with the longest
  -- prefix of an ordered configuration: if the zone has at most 32 host nibbles, a prefix of the other
  -- nibbles and a template as the compiler makes it, and the labels of the address's forward name are
  -- of legal lengths and the first is not `*`, a PTR query is answered with one record, owned by the
  -- name that was asked for, and the zone's template maps its target back to the address.
  pub resolve_reverse :
      (config : Config h.Name) (z : Zone h.Name) (qname : h.Name) (addr : ℕ)
      → addr < 2 ^ 128
      → same_labels (h.iter qname) (ptr_labels addr) ≡ true
      → IsLongestFirst config.zones
      → zone_for_addr h config addr ≡ some z
      → IsServable z
      → All IsLabel (rendered_labels z addr)
      → wire_length (rendered_labels z addr) ≤ 254
      → label_count (rendered_labels z addr) ≡ length (rendered_labels z addr)
      → (target : h.Name) × (resolve h config qname ptr
          ≡ answer z (h.from_rdata qname z.ttl (ptr_data target) ∷ []))
        × (match_zone_forward h z target ≡ some addr)
  unfolding resolve reverse_has_type match_ptr ptr_record
  resolve_reverse config z qname addr below reverse sorted chosen servable legal short plain =
      let read : ptr_name_to_addr h qname ≡ some addr =
        (ptr_name_to_addr_exact h doc qname addr).1 (below, reverse) in
      let covered = ((zone_for_addr_longest h config addr sorted).0 z chosen).0 in
      let inside : bit_and addr (mask_bits z.mask) ≡ z.prefix = (==_iff _ _).0 covered in
      let (target, made, back) =
        forward_round_trip h doc z addr servable below inside legal short plain in
      (target, rw (read, chosen, made) refl, back)
