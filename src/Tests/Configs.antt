-- ===== src/Tests/Configs.antt =====
-- The theorems on configurations, applied to one that is read.
use panopti_dns.Prelude.{
  ℕ, ◌<◌, ◌^◌, bit_and, ◌≡◌, some, arith, refl, true, false, none, List, [], ◌∷◌, ◌++◌, All,
  replicate, drop, inl, inr, find_first, find_map,
}
use panopti_dns.Bytes.{Bytes, codes, to_lower, split_at_checked}
use panopti_dns.Hickory.{aaaa, aaaa_data, same_labels, err, ok, ptr, ptr_data}
use panopti_dns.Prelude.Members.{In}
use panopti_dns.Zone.Unordered.{SameBlocks, unline, unlined, zone_for_addr-SameBlocks}
use panopti_dns.Zone.{
  answer, resolve, zone_for_addr, match_zone_forward, resolve_forward, match_forward, match_labels,
  match_label, strip_prefix_ci, strip_suffix_ci, host_of, reverse_has_type, forward_has_type,
  aaaa_record,
}
use panopti_dns.Nibble.{
  digits_to_host, digits_loop, hex_val, mask_bits, nibble_of, nibble_labels, fqdn_of,
  netmask_to_ptr_name,
}
use panopti_dns.Zone.Forward.{rendered_labels}
use panopti_dns.Zone.Served.{parse_config-answers_own}
use panopti_dns.Zone.RoundTrip.{parse_config-round_trip}
use panopti_dns.Tests.Names.{relative, address, reverse_name, reverse_name_same}
use panopti_dns.Config.{
  v6, literal, digits, Zone, Config, default_server_params, parent_label, render_label, absolute,
  parent, render,
}
use panopti_dns.Config.Order.{IsLongestFirst, parse_config-IsLongestFirst}
use panopti_dns.Config.Networks.{HasNetwork, parse_config-HasNetwork}
use panopti_dns.Config.Params.{IsInRange, parse_config-IsInRange}
use panopti_dns.Tests.Instances.{SmallRecord, SmallName, small, small-IsDocumented, texts}
use panopti_dns.Config.Error.{ConfigError, network_prefix_not_nibble_aligned, error, error_at}
use panopti_dns.Config.Error.Located.{IsLocated}
use panopti_dns.Config.Error.Parsed.{parse_config-IsLocated}
use panopti_dns.Config.Text.{
  trim_ascii_start, trim_ascii_end, strip_last, lines_loop, lines, find_from, find, count_matches,
  split_loop, split, split_once, decimal_loop, unsigned_digits, u32_from_str, utf8_loop, is_utf8,
}
use panopti_dns.Config.Parse.{
  directives, flags, match_word, match_more, match_words, strip_keyword, matches_flag,
  starts_with_word, known_keyword, first_word, unmatched_line_error, change_last, last_zone,
  add_to_zone, add_global, add_value, apply_directive, take_directive, take_flag, find_directive,
  take_line, parse_line, parse_lines, parse,
}
use panopti_dns.Config.Compile.{
  parse_u32, compile_network, find_placeholder, digits_label, add_segment, segments_loop,
  check_hits, parse_name, compile_template,
}
use panopti_dns.Config.Globals.{
  compile_listen, compile_listens, number_in, policy_of, apply_global, apply_globals,
  missing_pair_error, pair_soa, compile_globals,
}
use panopti_dns.Config.Zones.{
  seen_network, seen_pattern, compile_upstream, insert_zone, sort_zones, compile_zone,
  compile_zones, compile, parse_config,
}

abbrev pub input : Bytes
input = codes "max-udp-payload 1400\nnetwork 2001:db8::/112\nresolves to h-%digits%.example.net\n"

abbrev pub same : Bytes → Bytes
same s = s

-- The labels of 8.b.d.0.1.0.0.2.ip6.arpa below twenty zeros.
abbrev reverse_labels : List Bytes
reverse_labels =
    replicate 20 (codes "0")
    ++ codes "8"
      ∷ codes "b"
      ∷ codes "d"
      ∷ codes "0"
      ∷ codes "1"
      ∷ codes "0"
      ∷ codes "0"
      ∷ codes "2"
      ∷ codes "ip6"
      ∷ codes "arpa"
      ∷ []

abbrev pub network_zone : Zone SmallName
network_zone = record {
  src_line = 2;
  prefix = 0x20010db8000000000000000000000000;
  mask = 112;
  host_nibbles = 4;
  ptr_zone = record { labels = reverse_labels; absolute = true };
  resolves_to = codes "h-%digits%.example.net";
  fwd = record {
    labels =
        digits (codes "h-") (codes "h-") [] [] false
        ∷ literal (codes "example") (codes "example")
        ∷ literal (codes "net") (codes "net")
        ∷ [];
    digits_at = 0;
  };
  fwd_parent = record { labels = codes "example" ∷ codes "net" ∷ []; absolute = true };
  ttl = 3600;
  upstream = none;
}

abbrev pub read : Config SmallName
read = record {
  listen = [];
  zones = network_zone ∷ [];
  soa = none;
  nameservers = [];
  params = record default_server_params { max_udp_payload = 1400 };
}

-- The same network, with an upstream.
abbrev pub relayed_input : Bytes
relayed_input =
    codes "network 2001:db8::/112\nresolves to h-%digits%.example.net\nwith upstream ::\n"

abbrev pub relayed : Config SmallName
relayed = record {
  listen = [];
  zones = record network_zone { src_line = 1; upstream = some (v6 0) } ∷ [];
  soa = none;
  nameservers = [];
  params = default_server_params;
}

-- Two networks of one size, and the same in the other order.
abbrev two_blocks : Bytes
two_blocks =
    codes "network 2001:db8::/112\nresolves to h-%digits%.example.net\n"
    ++ codes "network 2001:db9::/112\nresolves to k-%digits%.example.net\n"

abbrev swapped_blocks : Bytes
swapped_blocks =
    codes "network 2001:db9::/112\nresolves to k-%digits%.example.net\n"
    ++ codes "network 2001:db8::/112\nresolves to h-%digits%.example.net\n"

abbrev other_zone : Zone SmallName
other_zone = record network_zone {
  src_line = 3;
  prefix = 0x20010db9000000000000000000000000;
  ptr_zone = record {
    labels = replicate 20 (codes "0") ++ codes "9" ∷ drop 21 reverse_labels;
    absolute = true;
  };
  resolves_to = codes "k-%digits%.example.net";
  fwd = record {
    labels =
        digits (codes "k-") (codes "k-") [] [] false
        ∷ literal (codes "example") (codes "example")
        ∷ literal (codes "net") (codes "net")
        ∷ [];
    digits_at = 0;
  };
}

abbrev in_one_order : Config SmallName
in_one_order = record read {
  zones = record network_zone { src_line = 1 } ∷ other_zone ∷ [];
  params = default_server_params;
}

abbrev in_other_order : Config SmallName
in_other_order = record read {
  zones = record other_zone { src_line = 1 } ∷ record network_zone { src_line = 3 } ∷ [];
  params = default_server_params;
}

inputs_read :
    (parse_config small texts same input ≡ ok read)
    × (parse_config small texts same relayed_input ≡ ok relayed)
    × (parse_config small texts same two_blocks ≡ ok in_one_order)
    × (parse_config small texts same swapped_blocks ≡ ok in_other_order)
unfolding parent_label render_label absolute parent render error error_at trim_ascii_start
    trim_ascii_end strip_last lines_loop lines find_from find count_matches split_loop split
    split_once decimal_loop unsigned_digits u32_from_str utf8_loop is_utf8 directives flags
    match_word match_more match_words strip_keyword matches_flag starts_with_word known_keyword
    first_word unmatched_line_error change_last last_zone add_to_zone add_global add_value
    apply_directive take_directive take_flag find_directive take_line parse_line parse_lines parse
    parse_u32 compile_network find_placeholder digits_label add_segment segments_loop check_hits
    parse_name compile_template compile_listen compile_listens number_in policy_of apply_global
    apply_globals missing_pair_error pair_soa compile_globals seen_network seen_pattern
    compile_upstream insert_zone sort_zones compile_zone compile_zones compile parse_config hex_val
    mask_bits nibble_of nibble_labels fqdn_of netmask_to_ptr_name to_lower split_at_checked
    find_first find_map
inputs_read = (refl, refl, refl, refl)

pub input_reads : parse_config small texts same input ≡ ok read
input_reads = inputs_read.0

pub relayed_input_reads : parse_config small texts same relayed_input ≡ ok relayed
relayed_input_reads = inputs_read.1

parse_config-HasNetwork_example : All HasNetwork (network_zone ∷ [])
parse_config-HasNetwork_example = parse_config-HasNetwork small texts same input read input_reads

parse_config-IsLongestFirst_example : IsLongestFirst (network_zone ∷ [])
parse_config-IsLongestFirst_example =
    parse_config-IsLongestFirst small texts same input read input_reads

parse_config-IsInRange_example : IsInRange (record default_server_params { max_udp_payload = 1400 })
parse_config-IsInRange_example = parse_config-IsInRange small texts same input read input_reads

pub chosen_zone : zone_for_addr small read address ≡ some network_zone
unfolding zone_for_addr find_first mask_bits
chosen_zone = refl

parse_config-round_trip_example :
    (target : SmallName) × (resolve small read reverse_name ptr
      ≡ answer network_zone
          (record { name = reverse_name; ttl = 3600; content = ptr_data target } ∷ []))
    × (match_zone_forward small network_zone target ≡ some address)
parse_config-round_trip_example =
    parse_config-round_trip small small-IsDocumented texts same input read network_zone reverse_name
      address input_reads (omega arith) reverse_name_same chosen_zone refl

-- A prefix length that is no multiple of 4, behind a tab.
abbrev unaligned_input : Bytes
unaligned_input = 9 ∷ codes "network 2001:db8::/63"

abbrev unaligned : ConfigError
unaligned = record {
  line = 1;
  snippet = unaligned_input;
  span = some (20, 22);
  kind = network_prefix_not_nibble_aligned 63;
}

unaligned_refused : parse_config small texts same unaligned_input ≡ err (unaligned ∷ [])
unfolding parent_label render_label absolute parent render error error_at trim_ascii_start
    trim_ascii_end strip_last lines_loop lines find_from find count_matches split_loop split
    split_once decimal_loop unsigned_digits u32_from_str utf8_loop is_utf8 directives flags
    match_word match_more match_words strip_keyword matches_flag starts_with_word known_keyword
    first_word unmatched_line_error change_last last_zone add_to_zone add_global add_value
    apply_directive take_directive take_flag find_directive take_line parse_line parse_lines parse
    parse_u32 compile_network find_placeholder digits_label add_segment segments_loop check_hits
    parse_name compile_template compile_listen compile_listens number_in policy_of apply_global
    apply_globals missing_pair_error pair_soa compile_globals seen_network seen_pattern
    compile_upstream insert_zone sort_zones compile_zone compile_zones compile parse_config hex_val
    mask_bits nibble_of nibble_labels fqdn_of netmask_to_ptr_name to_lower split_at_checked
    find_first find_map
unaligned_refused = refl

parse_config-IsLocated_example : All IsLocated (unaligned ∷ [])
parse_config-IsLocated_example =
    parse_config-IsLocated small texts same unaligned_input (unaligned ∷ []) unaligned_refused

-- A forward name in another case.
abbrev forward_query : SmallName
forward_query = relative (codes "H-0AbC" ∷ codes "example" ∷ codes "NET" ∷ [])

abbrev forward_answer : SmallRecord
forward_answer = record { name = forward_query; ttl = 3600; content = aaaa_data address }

forward_query_answered :
    resolve small read forward_query aaaa ≡ answer network_zone (forward_answer ∷ [])
unfolding resolve resolve_forward match_forward match_zone_forward match_labels match_label
    strip_prefix_ci strip_suffix_ci host_of digits_to_host digits_loop hex_val split_at_checked
    find_map to_lower reverse_has_type forward_has_type aaaa_record
forward_query_answered = refl

parse_config-answers_own_example :
    (addr : ℕ) × (forward_answer ∷ []
      ≡ record { name = forward_query; ttl = 3600; content = aaaa_data addr } ∷ [])
    × (addr < 2 ^ 128)
    × (bit_and addr (mask_bits 112) ≡ network_zone.prefix)
    × (same_labels forward_query.labels (rendered_labels network_zone addr) ≡ true)
parse_config-answers_own_example =
    parse_config-answers_own small small-IsDocumented texts same input read network_zone
      forward_query (forward_answer ∷ []) input_reads forward_query_answered (omega arith) refl

swapped-SameBlocks : SameBlocks in_one_order.zones in_other_order.zones
swapped-SameBlocks = (
  λ z i. exchange (unline network_zone) (unline other_zone) i,
  λ z i. exchange (unline other_zone) (unline network_zone) i,
)
  where
    exchange : (a b : Zone SmallName) {z : Zone SmallName} → In z (a ∷ b ∷ []) → In z (b ∷ a ∷ [])
    exchange a b (inl e) = inr (inl e)
    exchange a b (inr (inl e)) = inl e
    exchange a b (inr (inr none_left)) = absurd none_left

zone_for_addr-SameBlocks_example :
    unlined (zone_for_addr small in_one_order address)
    ≡ unlined (zone_for_addr small in_other_order address)
zone_for_addr-SameBlocks_example =
    zone_for_addr-SameBlocks small texts same two_blocks swapped_blocks in_one_order in_other_order
      address inputs_read.2 inputs_read.3 swapped-SameBlocks
