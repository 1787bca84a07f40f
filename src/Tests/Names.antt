-- ===== src/Tests/Names.antt =====
-- The theorems on addresses and names, applied.
use mathlib.Core.Path.{subst}
use panopti_dns.Prelude.{
  ◌++◌, replicate, find_first, ℕ, ◌*◌, ◌^◌, ◌≤◌, ◌<◌, ◌≡◌, ◌↔◌, refl, sym, bit_and, true, false,
  none, some, List, [], ◌∷◌, arith, length, All,
}
use panopti_dns.Bytes.{split_at_checked, Bytes, codes, to_lower, to_ascii_lowercase}
use panopti_dns.Hickory.{same_labels, IsLabel, wire_length, label_count}
use panopti_dns.Nibble.{
  digits_loop, hex_val, ptr_name_to_addr, mask_bits, digits_to_host, dash_group, undash_group,
  netmask_to_ptr_name, undash_loop,
}
use panopti_dns.Nibble.PtrName.{ptr_name_to_addr_exact}
use panopti_dns.Nibble.Ptr.{ptr_labels, digit_labels}
use panopti_dns.Nibble.Digits.{fixed, digits_to_host_exact}
use panopti_dns.Nibble.Netmask.{ptr_round_trip}
use panopti_dns.Nibble.Dash.{undash_group_exact}
use panopti_dns.Config.{literal, digits, Zone, Config, default_server_params, render_label}
use panopti_dns.Config.Order.{IsLongestFirst}
use panopti_dns.Zone.{
  match_labels, match_label, strip_prefix_ci, strip_suffix_ci, host_of, zone_for_addr,
  match_zone_forward,
}
use panopti_dns.Zone.Forward.{IsTemplateLabel, IsServable, rendered_labels}
use panopti_dns.Zone.Star.{star_template_unmatched}
use panopti_dns.Zone.Longest.{covers, zone_for_addr_longest}
use panopti_dns.Tests.Instances.{SmallName, small, small-IsDocumented}

abbrev pub address : ℕ
address = 0x20010db8000000000000000000000abc

abbrev pub relative : List Bytes → SmallName
relative ls = record { labels = ls; absolute = false }

-- 2001:db8::/112, with its hosts under example.net.
abbrev pub lab : Zone SmallName
lab = record {
  src_line = 1;
  prefix = 0x20010db8000000000000000000000000;
  mask = 112;
  host_nibbles = 4;
  ptr_zone = relative [];
  resolves_to = codes "h-%digits%.Example.net";
  fwd = record {
    labels =
        digits (codes "h-") (codes "h-") [] [] false
        ∷ literal (codes "Example") (codes "example")
        ∷ literal (codes "net") (codes "net")
        ∷ [];
    digits_at = 0;
  };
  fwd_parent = relative (codes "Example" ∷ codes "net" ∷ []);
  ttl = 3600;
  upstream = none;
}

-- 2000::/4 and 2001:db8::/112 in the order that a configuration has.
abbrev pub wide : Zone SmallName
wide = record lab { prefix = 2 * 16 ^ 31; mask = 4; host_nibbles = 31 }

abbrev pub two_zones : Config SmallName
two_zones = record {
  listen = [];
  zones = lab ∷ wide ∷ [];
  soa = none;
  nameservers = [];
  params = default_server_params;
}

lab-IsServable : IsServable lab
unfolding IsServable IsTemplateLabel to_lower
lab-IsServable = (omega arith, refl, ((refl, refl, λ e. cc), (refl, (refl, tt))), refl)

lab_covers_address : bit_and address (mask_bits lab.mask) ≡ lab.prefix
unfolding mask_bits
lab_covers_address = refl

host_name : rendered_labels lab address ≡ codes "h-0abc" ∷ codes "Example" ∷ codes "net" ∷ []
unfolding fixed render_label
host_name = refl

host_name-IsLabel : All IsLabel (rendered_labels lab address)
host_name-IsLabel =
    subst (λ ls. All IsLabel ls) (sym host_name)
      ((omega arith, omega arith), ((omega arith, omega arith), ((omega arith, omega arith), tt)))

host_name_short : wire_length (rendered_labels lab address) ≤ 254
host_name_short = subst (λ ls. wire_length ls ≤ 254) (sym host_name) (omega arith)

host_name_plain : label_count (rendered_labels lab address) ≡ length (rendered_labels lab address)
host_name_plain = subst (λ ls. label_count ls ≡ length ls) (sym host_name) refl

two_zones-IsLongestFirst : IsLongestFirst two_zones.zones
unfolding IsLongestFirst
two_zones-IsLongestFirst = ((omega arith, tt), (tt, tt))

ptr_name_to_addr_exact_example :
    (ptr_name_to_addr small (relative (codes "x" ∷ [])) ≡ some address)
    ↔ ((address < 2 ^ 128) × (same_labels (codes "x" ∷ []) (ptr_labels address) ≡ true))
ptr_name_to_addr_exact_example =
    ptr_name_to_addr_exact small small-IsDocumented (relative (codes "x" ∷ [])) address

digits_to_host_exact_example :
    (digits_to_host (codes "0aBc") 4 ≡ some 0xabc)
    ↔ ((0xabc < 16 ^ 4) × (to_ascii_lowercase (codes "0aBc") ≡ fixed 4 0xabc))
digits_to_host_exact_example = digits_to_host_exact (codes "0aBc") 4 0xabc (omega arith)

undash_group_exact_example :
    (undash_group (codes "0abc-0000") 8 ≡ some (codes "0abc0000"))
    ↔ ((length (codes "0abc0000") ≡ 8) × (codes "0abc-0000" ≡ dash_group (codes "0abc0000")))
undash_group_exact_example = undash_group_exact (codes "0abc-0000") (codes "0abc0000") 1

zone_for_addr_longest_example :
    ((z : Zone SmallName)
      → zone_for_addr small two_zones address ≡ some z
      → (covers address z ≡ true)
        × All (λ o. covers address o ≡ true → o.mask ≤ z.mask) (lab ∷ wide ∷ []))
    × (zone_for_addr small two_zones address ≡ none
        → All (λ o. covers address o ≡ false) (lab ∷ wide ∷ []))
zone_for_addr_longest_example =
    zone_for_addr_longest small two_zones address two_zones-IsLongestFirst

-- The reverse name of the address.
abbrev pub reverse_name : SmallName
reverse_name = relative (
    codes "c" ∷ codes "B" ∷ codes "a" ∷ replicate 21 (codes "0")
    ++ codes "8"
      ∷ codes "b"
      ∷ codes "D"
      ∷ codes "0"
      ∷ codes "1"
      ∷ codes "0"
      ∷ codes "0"
      ∷ codes "2"
      ∷ codes "ip6"
      ∷ codes "arpa"
      ∷ [])

pub reverse_name_same : same_labels reverse_name.labels (ptr_labels address) ≡ true
unfolding ptr_labels digit_labels to_lower
reverse_name_same = refl

lab_chosen : zone_for_addr small two_zones address ≡ some lab
unfolding zone_for_addr find_first mask_bits
lab_chosen = refl

-- *.%digits%.example, and the name of the address there.
abbrev starred : Zone SmallName
starred = record lab {
  fwd = record {
    labels =
        literal (codes "*") (codes "*")
        ∷ digits [] [] [] [] false
        ∷ literal (codes "example") (codes "example")
        ∷ [];
    digits_at = 1;
  };
}

abbrev starred_name : SmallName
starred_name = relative (codes "*" ∷ codes "0abc" ∷ codes "example" ∷ [])

starred_named : starred_name.labels ≡ rendered_labels starred address
unfolding fixed render_label
starred_named = refl

star_template_unmatched_example : match_zone_forward small starred starred_name ≡ none
star_template_unmatched_example =
    star_template_unmatched small small-IsDocumented starred starred_name address (codes "*")
      (digits [] [] [] [] false ∷ literal (codes "example") (codes "example") ∷ []) refl
      starred_named

-- The same name with a label behind it, which is no name of the zone.
abbrev longer_name : SmallName
longer_name = relative (codes "*" ∷ codes "0abc" ∷ codes "example" ∷ codes "org" ∷ [])

longer_name_accepted : match_zone_forward small starred longer_name ≡ some address
unfolding match_zone_forward match_labels match_label strip_prefix_ci strip_suffix_ci host_of
    digits_to_host digits_loop hex_val split_at_checked to_lower
longer_name_accepted = refl

ptr_round_trip_example :
    (n : SmallName) × (netmask_to_ptr_name small address 128 ≡ some n)
    × (ptr_name_to_addr small n ≡ some address)
ptr_round_trip_example = ptr_round_trip small small-IsDocumented address (omega arith)

-- Four bytes that are no hex digits.
zzzz_accepted : undash_group (codes "zzzz") 4 ≡ some (codes "zzzz")
unfolding undash_group undash_loop split_at_checked
zzzz_accepted = refl
