-- ===== src/Config/Error/Message.antt =====
-- src/config/error.rs: the message of a configuration problem, and the hint below it.
use panopti_dns.Prelude.{
  ℕ, zero, suc, ◌+◌, ◌/◌, ◌%◌, Option, none, some, [], ◌∷◌, ◌++◌, ltb, if◌then◌else◌,
}
use panopti_dns.Bytes.{Bytes, codes}
use panopti_dns.Config.Error.{
  ConfigErrorKind, not_utf8, unknown_directive, missing_value, directive_before_network,
  global_after_network, invalid_number, invalid_dns_name, invalid_choice,
  missing_companion_directive, duplicate_directive, missing_resolves_to, network_missing_prefix_len,
  network_invalid_address, network_prefix_len_not_a_number, network_prefix_len_out_of_range,
  network_prefix_not_nibble_aligned, network_host_bits_set, network_prefix_too_short,
  network_is_single_address, duplicate_network, placeholder_missing, placeholder_repeated,
  dashed_digits_not_nibble_multiple_of_four, resolves_to_invalid_name, forward_name_too_long,
  duplicate_forward_pattern, invalid_listen_address, invalid_upstream_address,
}

-- The digits of a number below 10 ^ `fuel`.
unfoldable pub decimal_digits : ℕ → ℕ → Bytes
decimal_digits zero n = []
decimal_digits (suc fuel) n =
    let more = decimal_digits fuel (n / 10) in
    if ltb n 10 then (b'0' + n) ∷ [] else more ++ (b'0' + n % 10) ∷ []

-- `to_string` of a u32 or a usize: 20 digits are enough for 64 bits.
unfoldable pub to_string : ℕ → Bytes
to_string n = decimal_digits 20 n

-- A word between backquotes.
abbrev pub quoted : Bytes → Bytes
quoted word = codes "`" ++ (word ++ codes "`")

unfoldable pub message : ConfigErrorKind → Bytes
message not_utf8 = codes "line is not valid UTF-8"
message (unknown_directive keyword) = codes "unknown directive " ++ quoted keyword
message (missing_value keyword) = quoted keyword ++ codes " requires a value"
message (directive_before_network keyword) =
    quoted keyword ++ codes " appears before any `network` directive"
message (global_after_network keyword) =
    quoted keyword ++ codes " is a global setting and must appear before the first `network`"
message (invalid_number what allowed) = quoted what ++ codes " is not a valid number"
message (invalid_dns_name what) = quoted what ++ codes " is not a valid DNS name"
message (invalid_choice what allowed) = codes "invalid value for " ++ quoted what
message (missing_companion_directive missing present) =
    quoted present
    ++ (codes " is set but " ++ (quoted missing ++ codes " is missing; a SOA record needs both"))
message (duplicate_directive keyword first_line) =
    codes "duplicate "
    ++ (quoted keyword
        ++ (codes " for this network (first set on line " ++ (to_string first_line ++ codes ")")))
message missing_resolves_to = codes "this `network` has no `resolves to` directive"
message network_missing_prefix_len = codes "network is missing a prefix length, e.g. `/64`"
message network_invalid_address = codes "not a valid IPv6 address"
message network_prefix_len_not_a_number = codes "prefix length is not a number"
message (network_prefix_len_out_of_range mask) =
    codes "prefix length /" ++ (to_string mask ++ codes " is out of range (0-128)")
message (network_prefix_not_nibble_aligned mask) =
    codes "prefix length /"
    ++ (to_string mask ++ codes " is not nibble-aligned (must be a multiple of 4)")
message (network_host_bits_set suggestion) = codes "network has bits set below its prefix length"
message (network_prefix_too_short mask) =
    codes "prefix length /"
    ++ (to_string mask ++ codes " would make this server authoritative for all of ip6.arpa")
message network_is_single_address = codes "/128 is a single address, leaving no digits for %DIGITS%"
message (duplicate_network first_line) =
    codes "network is already configured on line " ++ to_string first_line
message placeholder_missing = codes "`resolves to` must contain %DIGITS% or %DIGITS-DASHED%"
message (placeholder_repeated count) =
    codes "`resolves to` contains %DIGITS%/%DIGITS-DASHED% "
    ++ (to_string count ++ codes " times, expected exactly once")
message (dashed_digits_not_nibble_multiple_of_four host_nibbles) =
    codes "%DIGITS-DASHED% needs a host part that is a multiple of 4 hex digits wide, but "
    ++ (codes "this network's is " ++ to_string host_nibbles)
message (resolves_to_invalid_name reason) =
    codes "`resolves to` is not a valid DNS name: " ++ reason
message (forward_name_too_long reason) =
    codes "the widest name this template can produce is invalid: " ++ reason
message (duplicate_forward_pattern first_line) =
    codes "this `resolves to` pattern is already used on line " ++ to_string first_line
message invalid_listen_address = codes "not a valid IP address or address:port"
message invalid_upstream_address = codes "not a valid IP address"

-- The ellipsis, in UTF-8.
abbrev ellipsis : Bytes
ellipsis = 0xe2 ∷ 0x80 ∷ 0xa6 ∷ []

unfoldable pub hint : ConfigErrorKind → Option Bytes
hint network_missing_prefix_len = some (
    codes "a `network` without a prefix length is what made AllKnowingDNS claim "
    ++ codes "the whole ip6.arpa namespace")
hint (network_prefix_not_nibble_aligned mask) =
    some (codes "expected /0, /4, /8, " ++ (ellipsis ++ codes " /128"))
hint (network_host_bits_set suggestion) =
    some (codes "did you mean " ++ (quoted suggestion ++ codes "?"))
hint placeholder_missing = some (codes "e.g. `resolves to ipv6-%DIGITS%.example.net`")
hint (dashed_digits_not_nibble_multiple_of_four host_nibbles) =
    some (codes "prefix length must leave a multiple of 4 hex digits, e.g. /48, /96")
hint invalid_listen_address =
    some (codes "e.g. `listen 2001:db8::1`, `listen 0.0.0.0`, `listen [::]:5353`")
hint (invalid_number what allowed) = some (codes "expected " ++ allowed)
hint (invalid_choice what allowed) = some (codes "expected " ++ allowed)
hint (invalid_dns_name what) = some (codes "e.g. `ns1.example.net.` (a trailing dot is optional)")
hint (global_after_network keyword) =
    some (codes "indentation is decorative in this format, so globals are recognised by position")
hint _ = none
