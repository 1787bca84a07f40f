-- ===== src/Config.antt =====
-- src/config/mod.rs: the validated configuration and the forward-name template.
pub mod Error
pub mod Text
pub mod Parse
pub mod Compile
pub mod Globals
pub mod Zones
pub mod Order
pub mod Networks
pub mod Distinct
pub mod Params
pub mod Matches
pub mod Keywords
pub mod Table
pub mod Written
pub mod Template
use panopti_dns.Prelude.{
  ℕ, zero, suc, ◌+◌, ◌^◌, Bool, true, false, not, Option, none, some, List, [], ◌∷◌, ◌++◌, map,
  if◌then◌else◌, length, drop, is_empty,
}
use panopti_dns.Bytes.{Bytes}
use panopti_dns.Hickory.{Hickory, Result, ok, err}
use panopti_dns.Nibble.{dash_group}

abbrev pub default_ttl : ℕ
default_ttl = 3600

abbrev pub default_port : ℕ
default_port = 53

-- `std::net::IpAddr`, by its number.
pub data IpAddr : Type 0 where
  v4 : ℕ → IpAddr
  v6 : ℕ → IpAddr

pub record ListenAddr : Type 0 where
  pub addr : IpAddr
  pub port : ℕ

pub data FwdLabel : Type 0 where
  -- verbatim, lower
  literal : Bytes → Bytes → FwdLabel
  -- pre, pre_lower, post, post_lower, dashed
  digits : Bytes → Bytes → Bytes → Bytes → Bool → FwdLabel

pub record FwdTemplate : Type 0 where
  pub labels : List FwdLabel
  pub digits_at : ℕ

pub record Zone (Name : Type 0) : Type 0 where
  pub src_line : ℕ
  pub prefix : ℕ
  pub mask : ℕ
  pub host_nibbles : ℕ
  pub ptr_zone : Name
  pub resolves_to : Bytes
  pub fwd : FwdTemplate
  pub fwd_parent : Name
  pub ttl : ℕ
  pub upstream : Option IpAddr

pub data OutOfZonePolicy : Type 0 where
  refused_policy nx_domain_policy : OutOfZonePolicy

pub record SoaParams (Name : Type 0) : Type 0 where
  pub primary : Name
  pub hostmaster : Name
  pub serial : ℕ
  pub refresh : ℕ
  pub retry : ℕ
  pub expire : ℕ
  pub minimum : ℕ

pub record RrlParams : Type 0 where
  pub enabled : Bool
  pub responses_per_second : ℕ
  pub burst : ℕ
  pub slip : ℕ
  pub ipv4_prefix : ℕ
  pub ipv6_prefix : ℕ

abbrev pub default_rrl_params : RrlParams
default_rrl_params = record {
  enabled = true;
  responses_per_second = 20;
  burst = 50;
  slip = 2;
  ipv4_prefix = 24;
  ipv6_prefix = 64;
}

-- `upstream_timeout` is in milliseconds.
pub record ServerParams : Type 0 where
  pub out_of_zone : OutOfZonePolicy
  pub max_udp_payload : ℕ
  pub upstream_timeout : ℕ
  pub rrl : RrlParams

abbrev pub default_server_params : ServerParams
default_server_params = record {
  out_of_zone = refused_policy;
  max_udp_payload = 1232;
  upstream_timeout = 300;
  rrl = default_rrl_params;
}

pub record Config (Name : Type 0) : Type 0 where
  pub listen : List ListenAddr
  pub zones : List (Zone Name)
  pub soa : Option (SoaParams Name)
  pub nameservers : List Name
  pub params : ServerParams

abbrev pub label_count : FwdTemplate → ℕ
label_count t = length t.labels

-- What `parent` keeps of a label.
unfoldable pub parent_label : FwdLabel → Bytes
parent_label (literal verbatim lower) = verbatim
parent_label (digits pre pre_lower post post_lower dashed) = pre ++ post

-- One label of `render`.
unfoldable pub render_label : Bytes → FwdLabel → Bytes
render_label ds (literal verbatim lower) = verbatim
render_label ds (digits pre pre_lower post post_lower dashed) =
    pre ++ ((if dashed then dash_group ds else ds) ++ post)

module _ (h : Hickory) where
  open h use {Name, ProtoError, from_labels, set_fqdn, name_eq}

  -- `Name::from_labels(labels)?` and `set_fqdn(true)`
  unfoldable pub absolute : Result Name ProtoError → Result Name ProtoError
  absolute (ok name) = ok (set_fqdn name true)
  absolute (err e) = err e

  unfoldable pub parent : FwdTemplate → Result Name ProtoError
  parent t = absolute (from_labels (map parent_label (drop (t.digits_at + 1) t.labels)))

  unfoldable pub render : FwdTemplate → Bytes → Result Name ProtoError
  render t ds = absolute (from_labels (map (render_label ds) t.labels))

  -- `Vec::contains`
  unfoldable pub contains : List Name → Name → Bool
  contains [] name = false
  contains (n ∷ ns) name = let rest = contains ns name in if name_eq n name then true else rest

  abbrev push_new : List Name → Name → List Name
  push_new out name = if contains out name then out else out ++ name ∷ []

  unfoldable pub apexes_loop : List (Zone Name) → List Name → List Name
  apexes_loop [] out = out
  apexes_loop (z ∷ zones) out = apexes_loop zones (push_new (push_new out z.ptr_zone) z.fwd_parent)

  unfoldable pub apexes : Config Name → List Name
  apexes c = apexes_loop c.zones []

has_zones : {Name : Type 0} → Config Name → Bool
has_zones c = not (is_empty c.zones)

-- The warnings, by their subject.
pub data Warning : Type 0 where
  no_soa rrl_disabled no_network : Warning

abbrev soa_warning : {Name : Type 0} → Option (SoaParams Name) → List Warning
soa_warning none = no_soa ∷ []
soa_warning (some s) = []

unfoldable pub warnings : {Name : Type 0} → Config Name → List Warning
warnings c =
    soa_warning c.soa
    ++ ((if c.params.rrl.enabled then [] else rrl_disabled ∷ [])
        ++ (if is_empty c.zones then no_network ∷ [] else []))
