-- ===== src/Zone.antt =====
-- src/zone/: resolution of a query against the configured zones, and the records it answers with.
pub mod Strip
pub mod Forward
pub mod Longest
pub mod Unordered
pub mod Reverse
pub mod Star
pub mod Widths
pub mod Compiled
pub mod RoundTrip
pub mod Cut
pub mod Exact
pub mod Answers
pub mod Served
use panopti_dns.Prelude.{
  ℕ, zero, suc, ◌-◌, bit_and, bit_or, Bool, true, false, not, ◌||◌, Option, none, some, List, [],
  ◌∷◌, leb, ◌==◌, if◌then◌else◌, ◌>>=◌, length, find_first, find_map,
}
use panopti_dns.Bytes.{Bytes, eq_ignore_ascii_case, split_at_checked}
use panopti_dns.Hickory.{
  Hickory, Result, ok, err, RecordType, ptr, aaaa, any, Rdata, ptr_data, aaaa_data, type_eq,
}
use panopti_dns.Nibble.{digits_to_host, mask_bits, ptr_name_to_addr, undash_group, host_digits}
use panopti_dns.Config.{FwdLabel, literal, digits, FwdTemplate, Zone, Config, label_count, render}

unfoldable pub strip_prefix_ci : Bytes → Bytes → Option Bytes
strip_prefix_ci label prefix = do
  (head, tail) ← split_at_checked label (length prefix)
  if eq_ignore_ascii_case head prefix then some tail else none

-- `checked_sub`
abbrev pub checked_sub : ℕ → ℕ → Option ℕ
checked_sub a b = if leb b a then some (a - b) else none

unfoldable pub strip_suffix_ci : Bytes → Bytes → Option Bytes
strip_suffix_ci label suffix = do
  split ← checked_sub (length label) (length suffix)
  (head, tail) ← split_at_checked label split
  if eq_ignore_ascii_case tail suffix then some head else none

-- The digits of the label that carries the placeholder.
unfoldable pub host_of : ℕ → Bool → Bytes → Option ℕ
host_of host_nibbles true middle = do
  undashed ← undash_group middle host_nibbles
  digits_to_host undashed host_nibbles
host_of host_nibbles false middle = digits_to_host middle host_nibbles

-- One round of the loop of `match_zone_forward`: the new `host`, or `none` where it returns.
unfoldable pub match_label : ℕ → Bytes → FwdLabel → Option ℕ → Option (Option ℕ)
match_label host_nibbles label (literal verbatim lower) host =
    if eq_ignore_ascii_case label lower then some host else none
match_label host_nibbles label (digits pre pre_lower post post_lower dashed) host = do
  rest ← strip_prefix_ci label pre_lower
  middle ← strip_suffix_ci rest post_lower
  value ← host_of host_nibbles dashed middle
  some (some value)

unfoldable pub match_labels : ℕ → List Bytes → List FwdLabel → Option ℕ → Option (Option ℕ)
match_labels host_nibbles [] templates host = some host
match_labels host_nibbles (label ∷ labels) [] host = some host
match_labels host_nibbles (label ∷ labels) (template ∷ templates) host =
    match_label host_nibbles label template host >>= match_labels host_nibbles labels templates

unfoldable pub forward_has_type : RecordType → Bool
forward_has_type qtype = type_eq qtype aaaa || type_eq qtype any

unfoldable pub reverse_has_type : RecordType → Bool
reverse_has_type qtype = type_eq qtype ptr || type_eq qtype any

pub data Outcome (Name Record : Type 0) : Type 0 where
  answer : Zone Name → List Record → Outcome Name Record
  no_name : Zone Name → Outcome Name Record
  no_zone : Outcome Name Record

module _ (h : Hickory) where
  open h use {Name, Record, iter, num_labels, zone_of, from_rdata}

  unfoldable pub zone_for_addr : Config Name → ℕ → Option (Zone Name)
  zone_for_addr config addr =
      find_first (λ z. bit_and addr (mask_bits z.mask) == z.prefix) config.zones

  unfoldable pub match_ptr : Config Name → Name → Option (Zone Name × ℕ)
  match_ptr config qname = do
    addr ← ptr_name_to_addr h qname
    zone ← zone_for_addr config addr
    some (zone, addr)

  unfoldable pub match_zone_forward : Zone Name → Name → Option ℕ
  match_zone_forward zone qname =
      if not (num_labels qname == label_count zone.fwd) then none else do
        matched ← match_labels zone.host_nibbles (iter qname) zone.fwd.labels none
        host ← matched
        some (bit_or zone.prefix host)

  unfoldable pub match_forward : Config Name → Name → Option (Zone Name × ℕ)
  match_forward config qname =
      find_map (λ z. match_zone_forward z qname >>= λ addr. some (z, addr)) config.zones

  unfoldable pub zone_containing : Config Name → Name → Option (Zone Name)
  zone_containing config qname =
      find_first (λ z. zone_of z.ptr_zone qname || zone_of z.fwd_parent qname) config.zones

  -- `render(..).ok()`
  abbrev ok_of : Result Name h.ProtoError → Option Name
  ok_of (ok name) = some name
  ok_of (err e) = none

  unfoldable pub forward_name : Zone Name → ℕ → Option Name
  forward_name zone addr = do ds ← host_digits addr zone.host_nibbles; ok_of (render h zone.fwd ds)

  unfoldable pub ptr_record : Zone Name → Name → ℕ → Option Record
  ptr_record zone qname addr = do
    target ← forward_name zone addr
    some (from_rdata qname zone.ttl (ptr_data target))

  unfoldable pub aaaa_record : Zone Name → Name → ℕ → Record
  aaaa_record zone qname addr = from_rdata qname zone.ttl (aaaa_data addr)

  -- `.map(|r| vec![r]).unwrap_or_default()`
  abbrev pub option_list : Option Record → List Record
  option_list none = []
  option_list (some r) = r ∷ []

  -- The last step of `resolve`, for a name that no zone produces.
  unfoldable pub resolve_none : Config Name → Name → Outcome Name Record
  resolve_none config qname = elim (zone_containing config qname) [
    | some zone ↦ no_name zone
    | none ↦ no_zone
  ]

  unfoldable pub resolve_forward : Config Name → Name → RecordType → Outcome Name Record
  resolve_forward config qname qtype = elim (match_forward config qname) [
    | some (zone, addr) ↦
        answer zone (if forward_has_type qtype then aaaa_record zone qname addr ∷ [] else [])
    | none ↦ resolve_none config qname
  ]

  unfoldable pub resolve : Config Name → Name → RecordType → Outcome Name Record
  resolve config qname qtype =
      if reverse_has_type qtype
      then (elim (match_ptr config qname) [
        | some (zone, addr) ↦ answer zone (option_list (ptr_record zone qname addr))
        | none ↦ resolve_forward config qname qtype
      ])
      else resolve_forward config qname qtype
