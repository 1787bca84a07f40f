-- ===== src/Config/Error.antt =====
-- src/config/error.rs: configuration problems, each at a line. A string is its bytes.
pub mod Message
pub mod Display
pub mod Decimal
pub mod Layout
pub mod Located
pub mod Reports
pub mod Settings
pub mod Compiled
pub mod Offsets
pub mod Kept
pub mod Parsed
use panopti_dns.Prelude.{ℕ, ◌+◌, min, max, Option, some}
use panopti_dns.Bytes.{Bytes}

pub data ConfigErrorKind : Type 0 where
  not_utf8 : ConfigErrorKind
  unknown_directive missing_value directive_before_network global_after_network :
      Bytes → ConfigErrorKind
  invalid_number : Bytes → Bytes → ConfigErrorKind
  invalid_dns_name : Bytes → ConfigErrorKind
  invalid_choice : Bytes → Bytes → ConfigErrorKind
  missing_companion_directive : Bytes → Bytes → ConfigErrorKind
  duplicate_directive : Bytes → ℕ → ConfigErrorKind
  missing_resolves_to network_missing_prefix_len network_invalid_address : ConfigErrorKind
  network_prefix_len_not_a_number : ConfigErrorKind
  network_prefix_len_out_of_range network_prefix_not_nibble_aligned : ℕ → ConfigErrorKind
  network_host_bits_set : Bytes → ConfigErrorKind
  network_prefix_too_short : ℕ → ConfigErrorKind
  network_is_single_address : ConfigErrorKind
  duplicate_network : ℕ → ConfigErrorKind
  placeholder_missing : ConfigErrorKind
  placeholder_repeated dashed_digits_not_nibble_multiple_of_four : ℕ → ConfigErrorKind
  resolves_to_invalid_name forward_name_too_long : Bytes → ConfigErrorKind
  duplicate_forward_pattern : ℕ → ConfigErrorKind
  invalid_listen_address invalid_upstream_address : ConfigErrorKind

-- `span` is a byte range of the line.
pub record ConfigError : Type 0 where
  pub line : ℕ
  pub snippet : Bytes
  pub span : Option (ℕ × ℕ)
  pub kind : ConfigErrorKind

-- `RawValue` of src/config/parse.rs: a directive's value and where it stands.
pub record RawValue : Type 0 where
  pub line : ℕ
  pub raw_line : Bytes
  pub span : ℕ × ℕ
  pub value : Bytes

unfoldable pub error : RawValue → ConfigErrorKind → ConfigError
error v kind = record { line = v.line; snippet = v.raw_line; span = some v.span; kind = kind }

unfoldable pub error_at : RawValue → ℕ → ℕ → ConfigErrorKind → ConfigError
error_at v offset len kind =
    let start = min (v.span.0 + offset) v.span.1 in
    let end = min (start + len) (max v.span.1 start) in
    record { line = v.line; snippet = v.raw_line; span = some (start, end); kind = kind }
