-- ===== src/Config/Compile.antt =====
-- src/config/compile.rs: raw directives to a checked configuration, with every problem reported.
use panopti_dns.Prelude.{
  ℕ, zero, suc, ◌+◌, ◌%◌, min, bit_and, Bool, true, false, not, ◌&&◌, Option, none, some, List, [],
  ◌∷◌, ◌++◌, leb, ◌==◌, length, take, drop, replicate, is_empty,
}
use panopti_dns.Bytes.{Bytes, codes, to_ascii_lowercase}
use panopti_dns.Hickory.{Hickory, Result, ok, err}
use panopti_dns.Nibble.{mask_bits, addr_nibbles}
use panopti_dns.Config.{IpAddr, ListenAddr, FwdLabel, literal, digits, FwdTemplate, render}
use panopti_dns.Config.Error.{
  ConfigError, RawValue, error, error_at, invalid_number, invalid_dns_name,
  network_missing_prefix_len, network_invalid_address, network_prefix_len_not_a_number,
  network_prefix_len_out_of_range, network_prefix_not_nibble_aligned, network_host_bits_set,
  network_prefix_too_short, network_is_single_address, placeholder_missing, placeholder_repeated,
  dashed_digits_not_nibble_multiple_of_four, resolves_to_invalid_name, forward_name_too_long,
}
use panopti_dns.Config.Text.{strip_last, find, count_matches, split, split_once, u32_from_str}

-- The parsers and the printer of addresses in `std::net`.
pub record AddressText : Type 0 where
  pub ip_from_str : Bytes → Option IpAddr
  pub ipv6_from_str : Bytes → Option ℕ
  pub socket_from_str : Bytes → Option ListenAddr
  -- `format!("{}/{mask}", Ipv6Addr::from(prefix))`
  pub network_text : ℕ → ℕ → Bytes

-- A computation that may give up, and that adds to the errors.
abbrev pub Check {ℓ} : Type ℓ → Type ℓ
Check A = List ConfigError → Option A × List ConfigError

abbrev pub pass {ℓ} : {A : Type ℓ} → A → Check A
pass a errors = (some a, errors)

abbrev pub reject {ℓ} : {A : Type ℓ} → ConfigError → Check A
reject e errors = (none, errors ++ e ∷ [])

abbrev pub after_check {ℓ κ} :
    {A : Type ℓ} {B : Type κ}
    → (A → Check B)
    → Option A × List ConfigError
    → Option B × List ConfigError
after_check f (none, errors) = (none, errors)
after_check f (some a, errors) = f a errors

infixl 5 ◌>>=◌ ◌>>◌
abbrev pub ◌>>=◌ {ℓ κ} : {A : Type ℓ} {B : Type κ} → Check A → (A → Check B) → Check B
◌>>=◌ m f errors = after_check f (m errors)

abbrev pub ◌>>◌ {ℓ} : {B : Type ℓ} → Check (Unit {0}) → Check B → Check B
m >> k = m >>= λ _. k

-- A test that must hold.
abbrev pub demand : Bool → ConfigError → Check (Unit {0})
demand true e = pass tt
demand false e = reject e

abbrev pub or_reject {ℓ} : {A : Type ℓ} → Option A → ConfigError → Check A
or_reject none e = reject e
or_reject (some a) e = pass a

abbrev pub placeholder : Bytes
placeholder = codes "%digits%"

abbrev pub placeholder_dashed : Bytes
placeholder_dashed = codes "%digits-dashed%"

unfoldable pub parse_u32 : RawValue → Bytes → Bytes → Check ℕ
parse_u32 v what allowed = or_reject (u32_from_str v.value) (error v (invalid_number what allowed))

unfoldable pub compile_network : AddressText → RawValue → Check (ℕ × ℕ)
compile_network text v = do
  (addr_part, mask_part) ←
      or_reject (split_once b'/' [] v.value) (error v network_missing_prefix_len)
  let at_mask = error_at v (length addr_part + 1) (length mask_part)
  addr ←
      or_reject (text.ipv6_from_str addr_part)
        (error_at v 0 (length addr_part) network_invalid_address)
  mask ← or_reject (u32_from_str mask_part) (at_mask network_prefix_len_not_a_number)
  demand (leb mask 128) (at_mask (network_prefix_len_out_of_range mask))
  demand (mask % 4 == 0) (at_mask (network_prefix_not_nibble_aligned mask))
  demand (not (mask == 0)) (at_mask (network_prefix_too_short mask))
  demand (not (mask == 128)) (error v network_is_single_address)
  let prefix = bit_and addr (mask_bits mask)
  demand (addr == prefix) (error v (network_host_bits_set (text.network_text prefix mask)))
  pass (prefix, mask)

-- Where a placeholder stands in a lowered segment, its length, and whether it is the dashed one.
unfoldable pub find_placeholder : Bytes → Option (ℕ × ℕ × Bool)
find_placeholder lowered = elim (find placeholder_dashed lowered) [
  | some at ↦ some (at, length placeholder_dashed, true)
  | none ↦ (elim (find placeholder lowered) [
    | some at ↦ some (at, length placeholder, false)
    | none ↦ none
  ])
]

-- What the loop over the segments has: the labels, the index of the digits, and whether dashed.
pub record Labels : Type 0 where
  pub labels : List FwdLabel
  pub digits_at : Option ℕ
  pub dashed_used : Bool

unfoldable pub digits_label : Bytes → ℕ → ℕ → Bool → FwdLabel
digits_label segment at width dashed =
    let pre = take at segment in
    let post = drop width (drop at segment) in
    digits pre (to_ascii_lowercase pre) post (to_ascii_lowercase post) dashed

unfoldable pub add_segment : RawValue → ℕ → Bytes → Option (ℕ × ℕ × Bool) → Labels → Check Labels
add_segment v idx segment none ls =
    pass (record ls { labels = ls.labels ++ literal segment (to_ascii_lowercase segment) ∷ [] })
add_segment v idx segment (some (at, width, dashed)) ls = do
  demand (leb at (length segment))
      (error v (resolves_to_invalid_name (codes "malformed placeholder")))
  demand (leb width (length (drop at segment)))
      (error v (resolves_to_invalid_name (codes "malformed placeholder")))
  pass (record {
    labels = ls.labels ++ digits_label segment at width dashed ∷ [];
    digits_at = some idx;
    dashed_used = dashed;
  })

unfoldable pub segments_loop : RawValue → ℕ → List Bytes → Labels → Check Labels
segments_loop v idx [] ls = pass ls
segments_loop v idx (segment ∷ segments) ls = do
  demand (not (is_empty segment)) (error v (resolves_to_invalid_name (codes "empty label")))
  ls' ← add_segment v idx segment (find_placeholder (to_ascii_lowercase segment)) ls
  segments_loop v (idx + 1) segments ls'

unfoldable pub check_hits : RawValue → ℕ → Check (Unit {0})
check_hits v zero = reject (error v placeholder_missing)
check_hits v (suc zero) = pass tt
check_hits v (suc (suc n)) = reject (error v (placeholder_repeated (suc (suc n))))

module _ (h : Hickory) where
  open h use {Name, ProtoError, error_text, from_str_relaxed, set_fqdn}

  abbrev pub result_or_reject :
      {A : Type 0} → Result A ProtoError → (ProtoError → ConfigError) → Check A
  result_or_reject (ok a) f = pass a
  result_or_reject (err e) f = reject (f e)

  unfoldable pub parse_name : RawValue → Bytes → Check Name
  parse_name v what = do
    name ← result_or_reject (from_str_relaxed v.value) (λ e. error v (invalid_dns_name what))
    pass (set_fqdn name true)

  unfoldable pub compile_template : RawValue → ℕ → Check FwdTemplate
  compile_template v host_nibbles = do
    let lowered = to_ascii_lowercase v.value
    check_hits v (count_matches 0 placeholder lowered + count_matches 0 placeholder_dashed lowered)
    ls ←
        segments_loop v 0 (split b'.' (strip_last b'.' v.value))
          (record { labels = []; digits_at = none; dashed_used = false })
    digits_at ← or_reject ls.digits_at (
        error v (resolves_to_invalid_name (codes "placeholder does not lie within a single label")))
    demand (not (ls.dashed_used && not (host_nibbles % 4 == 0)))
        (error v (dashed_digits_not_nibble_multiple_of_four host_nibbles))
    let template : FwdTemplate = record { labels = ls.labels; digits_at = digits_at }
    widest ←
        result_or_reject (render h template (replicate (min host_nibbles addr_nibbles) b'f'))
          (λ e. error v (forward_name_too_long (error_text e)))
    pass template
