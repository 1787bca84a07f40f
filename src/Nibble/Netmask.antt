-- ===== src/Nibble/Netmask.antt =====
-- `netmask_to_ptr_name`: the zone name of every nibble-aligned prefix, and the round trip.
use panopti_dns.Prelude.{
  ℕ, zero, suc, ◌+◌, ◌-◌, ◌*◌, ◌/◌, ◌%◌, ◌^◌, ◌≤◌, ◌<◌, ◌≡◌, refl, ◌∙◌, true, false, not, ◌||◌,
  none, some, List, [], ◌∷◌, ◌++◌, arith, ◌==◌, ltb, All,
}
use panopti_dns.Bytes.{Bytes, bytes_eq_refl, to_ascii_lowercase}
use panopti_dns.Hickory.{Hickory, IsDocumented, same_labels, wire_length, IsLabel}
use panopti_dns.Nibble.{ptr_name_to_addr, fqdn_of, netmask_to_ptr_name}
use panopti_dns.Nibble.Ptr.{digit_labels, ptr_labels, nibble_labels-digit_labels}
use panopti_dns.Nibble.PtrName.{suffix, ptr_name_to_addr_exact}

pub same_labels_refl : (ls : List Bytes) → same_labels ls ls ≡ true
same_labels_refl [] = refl
same_labels_refl (l ∷ ls) = rw (bytes_eq_refl (to_ascii_lowercase l), same_labels_refl ls)

-- The labels of the zone of a prefix.
unfoldable pub zone_labels : ℕ → ℕ → List Bytes
zone_labels prefix mask = digit_labels prefix (32 - mask / 4) (mask / 4) ++ suffix

digit_labels-IsLabel : (rounds a p : ℕ) → All IsLabel (digit_labels a p rounds ++ suffix)
unfolding digit_labels
digit_labels-IsLabel zero a p = omega arith
digit_labels-IsLabel (suc rounds) a p = (omega arith, digit_labels-IsLabel rounds a (p + 1))

wire_length-digit_labels :
    (rounds a p : ℕ) → wire_length (digit_labels a p rounds ++ suffix) ≡ 2 * rounds + 9
unfolding digit_labels
wire_length-digit_labels zero a p = refl
wire_length-digit_labels (suc rounds) a p = omega (arith, wire_length-digit_labels rounds a (p + 1))

abbrev pub IsNibbleMask : ℕ → Type 0
IsNibbleMask mask = (mask ≤ 128) × (mask % 4 ≡ 0)

module _ (h : Hickory) (doc : IsDocumented h) where
  -- On a nibble-aligned prefix length up to 128 `netmask_to_ptr_name` returns a name, whose labels
  -- are the nibbles of the prefix, lowest first, and the suffix ip6.arpa.
  netmask_to_ptr_name_total :
      (prefix mask : ℕ)
      → IsNibbleMask mask
      → (n : h.Name) × (netmask_to_ptr_name h prefix mask ≡ some n)
        × (h.iter n ≡ zone_labels prefix mask)
  unfolding netmask_to_ptr_name fqdn_of zone_labels
  netmask_to_ptr_name_total prefix mask (small, aligned) =
      let ls = digit_labels prefix (32 - mask / 4) (mask / 4) ++ suffix in
      let (n, made) =
        doc.from_labels_total ls (digit_labels-IsLabel (mask / 4) prefix (32 - mask / 4))
          (omega (arith, wire_length-digit_labels (mask / 4) prefix (32 - mask / 4))) in
      let in_range : (ltb 128 mask || not (mask % 4 == 0)) ≡ false = ground arith in
      (
        h.set_fqdn n true,
        rw (in_range, nibble_labels-digit_labels (mask / 4) prefix (32 - mask / 4), made),
        doc.iter-set_fqdn n true ∙ doc.iter-from_labels ls n made,
      )

  -- Any other prefix length is refused.
  pub netmask_to_ptr_name-none :
      (prefix mask : ℕ) → ¬ (IsNibbleMask mask) → netmask_to_ptr_name h prefix mask ≡ none
  unfolding netmask_to_ptr_name
  netmask_to_ptr_name-none prefix mask bad = ground arith

  -- An address below 2 ^ 128 survives the trip to its reverse name and back.
  pub ptr_round_trip :
      (a : ℕ)
      → a < 2 ^ 128
      → (n : h.Name) × (netmask_to_ptr_name h a 128 ≡ some n) × (ptr_name_to_addr h n ≡ some a)
  ptr_round_trip a lt =
      let (n, made, labels) = netmask_to_ptr_name_total a 128 (omega arith) in
      (
        n,
        made,
        (ptr_name_to_addr_exact h doc n a).1
            (lt, rw labels (unfold zone_labels ptr_labels in same_labels_refl (ptr_labels a))),
      )
