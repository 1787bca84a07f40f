-- ===== src/Nibble.antt =====
-- src/nibble.rs: conversions between IPv6 addresses and ip6.arpa names. An address is a number
-- below 2 ^ 128; `<<` drops what leaves the 128 bits.
pub mod Hex
pub mod Mask
pub mod Ptr
pub mod PtrName
pub mod Netmask
pub mod Digits
pub mod Dash
use panopti_dns.Prelude.{
  ℕ, zero, suc, ◌+◌, ◌-◌, ◌*◌, ◌/◌, ◌%◌, ◌^◌, bit_and, bit_or, true, not, ◌||◌, Option, none, some,
  List, [], ◌∷◌, ◌++◌, ltb, leb, ◌==◌, if◌then◌else◌, ◌>>=◌, length, get_elem?, take, drop,
  replicate,
}
use panopti_dns.Bytes.{Bytes, codes, within, bytes_eq, eq_ignore_ascii_case, split_at_checked}
use panopti_dns.Hickory.{Hickory, Result, ok, err}

abbrev pub addr_nibbles : ℕ
addr_nibbles = 32

abbrev pub ptr_query_labels : ℕ
ptr_query_labels = addr_nibbles + 2

abbrev pub hex_lower : Bytes
hex_lower = codes "0123456789abcdef"

abbrev pub u128_max : ℕ
u128_max = 2 ^ 128 - 1

abbrev pub shl128 : ℕ → ℕ → ℕ
shl128 a k = a * 2 ^ k % 2 ^ 128

abbrev pub shr128 : ℕ → ℕ → ℕ
shr128 a k = a / 2 ^ k

-- `!a`
abbrev pub not128 : ℕ → ℕ
not128 a = u128_max - a

unfoldable pub hex_val : ℕ → Option ℕ
hex_val b =
    if within b'0' b'9' b
    then some (b - b'0')
    else if within b'a' b'f' b
    then some (b - b'a' + 10)
    else if within b'A' b'F' b
    then some (b - b'A' + 10)
    else none

unfoldable pub mask_bits : ℕ → ℕ
mask_bits mask =
    if mask == 0 then 0 else if leb 128 mask then u128_max else not128 (shr128 u128_max mask)

-- `let &[digit] = label`, and its value.
unfoldable pub nibble_of : Bytes → Option ℕ
nibble_of (digit ∷ []) = hex_val digit
nibble_of _ = none

-- The loop over the nibble labels: the rounds left, the position, and what `labels` still holds.
unfoldable pub parse_nibbles : ℕ → ℕ → List Bytes → ℕ → Option (ℕ × List Bytes)
parse_nibbles zero position labels addr = some (addr, labels)
parse_nibbles (suc rounds) position [] addr = none
parse_nibbles (suc rounds) position (label ∷ labels) addr = nibble_of label >>= λ value.
    parse_nibbles rounds (position + 1) labels (bit_or addr (shl128 value (position * 4)))

-- `labels.next()?.eq_ignore_ascii_case(word)`
unfoldable pub expect_label : Bytes → List Bytes → Option (List Bytes)
expect_label word [] = none
expect_label word (label ∷ labels) = if eq_ignore_ascii_case label word then some labels else none

-- The labels of the prefix from `position` on, for so many rounds.
unfoldable pub nibble_labels : ℕ → ℕ → ℕ → Option (List Bytes)
nibble_labels prefix position zero = some []
nibble_labels prefix position (suc rounds) = do
  digit ← get_elem? hex_lower (bit_and (shr128 prefix (position * 4)) 0xf)
  rest ← nibble_labels prefix (position + 1) rounds
  some ((digit ∷ []) ∷ rest)

module _ (h : Hickory) where
  open h use {Name, iter, num_labels, from_labels, set_fqdn}

  unfoldable pub ptr_name_to_addr : Name → Option ℕ
  ptr_name_to_addr name = if not (num_labels name == ptr_query_labels) then none else do
    (addr, labels) ← parse_nibbles addr_nibbles 0 (iter name) 0
    labels' ← expect_label (codes "ip6") labels
    _ ← expect_label (codes "arpa") labels'
    some addr

  -- `Name::from_labels(labels).ok()?` and `set_fqdn(true)`
  unfoldable pub fqdn_of : Result Name h.ProtoError → Option Name
  fqdn_of (ok name) = some (set_fqdn name true)
  fqdn_of (err e) = none

  unfoldable pub netmask_to_ptr_name : ℕ → ℕ → Option Name
  netmask_to_ptr_name prefix mask = if ltb 128 mask || not (mask % 4 == 0) then none else do
    labels ← nibble_labels prefix (addr_nibbles - mask / 4) (mask / 4)
    fqdn_of (from_labels (labels ++ codes "ip6" ∷ codes "arpa" ∷ []))

-- The digits of `{:x}`, without padding; a u128 has 32 at most.
unfoldable pub hex_digits : ℕ → ℕ → Option Bytes
hex_digits zero v = none
hex_digits (suc fuel) v =
    let more = hex_digits fuel (v / 16) in
    get_elem? hex_lower (v % 16) >>= λ digit.
    if ltb v 16 then some (digit ∷ []) else more >>= λ high. some (high ++ digit ∷ [])

-- `format!("{host:0width$x}")`
unfoldable pub format_hex : ℕ → ℕ → Option Bytes
format_hex width v =
    hex_digits 32 v >>= λ digits. some (replicate (width - length digits) b'0' ++ digits)

unfoldable pub host_digits : ℕ → ℕ → Option Bytes
host_digits addr host_nibbles =
    if ltb addr_nibbles host_nibbles
    then none
    else if host_nibbles == 0
    then some []
    else format_hex host_nibbles (bit_and addr (not128 (mask_bits (128 - host_nibbles * 4))))

unfoldable pub digits_loop : Bytes → ℕ → Option ℕ
digits_loop [] host = some host
digits_loop (byte ∷ digits) host =
    hex_val byte >>= λ value. digits_loop digits (bit_or (shl128 host 4) value)

unfoldable pub digits_to_host : Bytes → ℕ → Option ℕ
digits_to_host digits host_nibbles =
    if not (length digits == host_nibbles) then none else digits_loop digits 0

-- The chunks of four after the first, each behind a dash; `room` bounds the bytes left.
unfoldable pub dash_rest : ℕ → Bytes → Bytes
dash_rest zero digits = []
dash_rest (suc room) [] = []
dash_rest (suc room) (d ∷ digits) =
    b'-' ∷ (take 4 (d ∷ digits) ++ dash_rest room (drop 4 (d ∷ digits)))

unfoldable pub dash_group : Bytes → Bytes
dash_group digits = take 4 digits ++ dash_rest (length digits) (drop 4 digits)

-- The loop over the groups: those left after this one, what is read, and the input left.
unfoldable pub undash_loop : ℕ → Bytes → Bytes → Option Bytes
undash_loop zero out input = do
  (chunk, rest) ← split_at_checked input 4
  if bytes_eq rest [] then some (out ++ chunk) else none
undash_loop (suc groups) out input = do
  (chunk, rest) ← split_at_checked input 4
  (dash, rest') ← split_at_checked rest 1
  if bytes_eq dash (b'-' ∷ []) then undash_loop groups (out ++ chunk) rest' else none

unfoldable pub undash_group : Bytes → ℕ → Option Bytes
undash_group input host_nibbles = elim (host_nibbles / 4) [
  | zero ↦ none
  | suc groups ↦ undash_loop groups [] input
]
