-- ===== src/Server.antt =====
-- src/server/handler.rs: what the server answers.
pub mod Replies
pub mod Override
pub mod Awaiting
pub mod Clients
pub mod Bind
pub mod BindCalls
use panopti_dns.Prelude.{
  ℕ, zero, suc, ◌+◌, ◌-◌, ◌^◌, min, max, Bool, true, false, not, ◌&&◌, ◌||◌, Option, none, some,
  List, [], ◌∷◌, ◌++◌, map, ltb, leb, ◌==◌, if◌then◌else◌, ◌>>=◌, is_empty, find_first, find_map,
}
use panopti_dns.Hickory.{
  Hickory, RecordType, ptr, any, soa, ns, axfr, ixfr, DnsClass, in_class, any_class, other_class,
  Rdata, soa_data, ns_data, type_eq,
}
use panopti_dns.Config.{
  IpAddr, v4, v6, Zone, Config, SoaParams, OutOfZonePolicy, refused_policy, nx_domain_policy,
  apexes,
}
use panopti_dns.Zone.{Outcome, answer, no_name, no_zone, resolve}
use panopti_dns.Rrl.{Kind, answer_kind, negative_kind}
use panopti_dns.Upstream.{Upstream, Lookup, new_upstream, lookup_ptr}

abbrev pub ip_eq : IpAddr → IpAddr → Bool
ip_eq (v4 a) (v4 b) = a == b
ip_eq (v6 a) (v6 b) = a == b
ip_eq _ _ = false

-- A map from addresses to clients, each address once.
abbrev pub Clients : Type 0
Clients = List (IpAddr × Upstream)

unfoldable pub get_client : IpAddr → Clients → Option Upstream
get_client addr [] = none
get_client addr ((a, u) ∷ rest) =
    let later = get_client addr rest in if ip_eq a addr then some u else later

unfoldable pub put_client : IpAddr → Upstream → Clients → Clients
put_client addr u [] = (addr, u) ∷ []
put_client addr u ((a, v) ∷ rest) =
    let later = put_client addr u rest in if ip_eq a addr then (a, u) ∷ rest else (a, v) ∷ later

pub record Zones (Name : Type 0) : Type 0 where
  pub config : Config Name
  pub upstreams : Clients

-- One round of the loop of `Zones::new`.
unfoldable pub add_client :
    (IpAddr → Bool) → ℕ → IpAddr → Option Upstream → Clients → Option Clients
add_client builds timeout addr (some u) cs = some cs
add_client builds timeout addr none cs =
    if builds addr then some (put_client addr (new_upstream addr timeout) cs) else none

unfoldable pub add_upstream : (IpAddr → Bool) → ℕ → Option IpAddr → Clients → Option Clients
add_upstream builds timeout none cs = some cs
add_upstream builds timeout (some addr) cs = add_client builds timeout addr (get_client addr cs) cs

-- The loop of `Zones::new`: a client for each upstream address that has none yet. `builds` says
-- whether the resolver library can build a resolver for an address.
unfoldable pub clients_loop :
    {Name : Type 0} → (IpAddr → Bool) → ℕ → List (Zone Name) → Clients → Option Clients
clients_loop builds timeout [] cs = some cs
clients_loop builds timeout (z ∷ zones) cs =
    add_upstream builds timeout z.upstream cs >>= clients_loop builds timeout zones

unfoldable pub new_zones : {Name : Type 0} → (IpAddr → Bool) → Config Name → Option (Zones Name)
new_zones builds config = do
  cs ← clients_loop builds config.params.upstream_timeout config.zones []
  some (record { config = config; upstreams = cs })

pub data ResponseCode : Type 0 where
  no_error nx_domain refused not_imp bad_vers serv_fail : ResponseCode

pub record Reply (Record : Type 0) : Type 0 where
  pub code : ResponseCode
  pub authoritative : Bool
  pub answers : List Record
  pub authority : List Record
  pub kind : Kind

abbrev pub error_reply : {Record : Type 0} → ResponseCode → Reply Record
error_reply c = record {
  code = c;
  authoritative = false;
  answers = [];
  authority = [];
  kind = negative_kind;
}

abbrev pub refused_reply : {Record : Type 0} → Reply Record
refused_reply = error_reply refused

abbrev pub is_served_class : DnsClass → Bool
is_served_class in_class = true
is_served_class any_class = true
is_served_class (other_class n) = false

abbrev pub kind_of {ℓ} : {A : Type ℓ} → List A → Kind
kind_of [] = negative_kind
kind_of (a ∷ as') = answer_kind

-- `i32::try_from(n).unwrap_or(i32::MAX)` of a u32
abbrev to_i32 : ℕ → ℕ
to_i32 n = min n (2 ^ 31 - 1)

module _ (h : Hickory) where
  open h use {Name, Record, name_eq, zone_of, from_rdata}

  unfoldable pub soa_record : Name → SoaParams Name → ℕ → Record
  soa_record apex s ttl = from_rdata apex (min ttl s.minimum) (
      soa_data s.primary s.hostmaster s.serial (to_i32 s.refresh) (to_i32 s.retry) (to_i32 s.expire)
        s.minimum)

  unfoldable pub ns_records : Name → Config Name → ℕ → List Record
  ns_records apex config ttl = map (λ n. from_rdata apex ttl (ns_data n)) config.nameservers

  abbrev first_ttl : List (Zone Name) → ℕ
  first_ttl [] = 3600
  first_ttl (z ∷ zones) = z.ttl

  abbrev soa_answers : Option (SoaParams Name) → Name → ℕ → List Record
  soa_answers none apex ttl = []
  soa_answers (some s) apex ttl = soa_record apex s ttl ∷ []

  unfoldable pub apex_answers : Config Name → Name → RecordType → List Record
  apex_answers config apex qtype =
      let ttl = first_ttl config.zones in
      (if type_eq qtype soa || type_eq qtype any then soa_answers config.soa apex ttl else [])
      ++ (if type_eq qtype ns || type_eq qtype any then ns_records apex config ttl else [])

  unfoldable pub apex_reply : Config Name → Name → RecordType → Reply Record
  apex_reply config apex qtype =
      let found = apex_answers config apex qtype in
      record {
        code = no_error;
        authoritative = true;
        answers = found;
        authority = [];
        kind = kind_of found;
      }

  unfoldable pub zone_soa : SoaParams Name → Name → Zone Name → Option (List Record)
  zone_soa s qname z =
      if zone_of z.ptr_zone qname
      then some (soa_record z.ptr_zone s z.ttl ∷ [])
      else if zone_of z.fwd_parent qname
      then some (soa_record z.fwd_parent s z.ttl ∷ [])
      else none

  abbrev or_empty : Option (List Record) → List Record
  or_empty none = []
  or_empty (some rs) = rs

  unfoldable pub negative_authority : Config Name → Name → Kind → List Record
  negative_authority config qname answer_kind = []
  negative_authority config qname negative_kind = elim config.soa [
    | none ↦ []
    | some s ↦ or_empty (find_map (zone_soa s qname) config.zones)
  ]

  unfoldable pub answer_reply : Config Name → Name → List Record → Reply Record
  answer_reply config qname records = record {
    code = no_error;
    authoritative = true;
    answers = records;
    authority = negative_authority config qname (kind_of records);
    kind = kind_of records;
  }

  unfoldable pub no_name_reply : Config Name → Name → Zone Name → Reply Record
  no_name_reply config qname z = record {
    code = nx_domain;
    authoritative = true;
    answers = [];
    authority =
        soa_answers config.soa (if zone_of z.ptr_zone qname then z.ptr_zone else z.fwd_parent)
          z.ttl;
    kind = negative_kind;
  }

  unfoldable pub no_zone_reply : OutOfZonePolicy → Reply Record
  no_zone_reply refused_policy = refused_reply
  no_zone_reply nx_domain_policy = error_reply nx_domain

  -- The network as a request meets it: what an upstream replies, and the times at which it is asked
  -- and its reply is there.
  pub record Network : Type 0 where
    pub ask : IpAddr → Name → Lookup Record
    pub now : ℕ
    pub later : ℕ

  -- An override of the records by the zone's upstream, if one replies with any.
  unfoldable pub override :
      Network → Zone Name → Name → List Record → Clients → List Record × Clients
  override net z qname records cs = elim z.upstream [
    | none ↦ (records, cs)
    | some addr ↦ (elim (get_client addr cs) [
      | none ↦ (records, cs)
      | some u ↦
          (let (relayed, u') = lookup_ptr h (net.ask addr) net.now net.later qname u in
            ((if is_empty relayed then records else relayed), put_client addr u' cs))
    ])
  ]

  unfoldable pub decide_resolved :
      Network → Zones Name → Name → RecordType → Outcome Name Record → Reply Record × Zones Name
  decide_resolved net zones qname qtype (answer z records) =
      if not (is_empty records) && type_eq qtype ptr
      then (let (records', cs) = override net z qname records zones.upstreams in
          (answer_reply zones.config qname records', record zones { upstreams = cs }))
      else (answer_reply zones.config qname records, zones)
  decide_resolved net zones qname qtype (no_name z) = (no_name_reply zones.config qname z, zones)
  decide_resolved net zones qname qtype no_zone =
      (no_zone_reply zones.config.params.out_of_zone, zones)

  abbrev pub asks_apex : RecordType → Bool
  asks_apex qtype = type_eq qtype soa || (type_eq qtype ns || type_eq qtype any)

  unfoldable pub apex_of : Config Name → Name → RecordType → Option Name
  apex_of config qname qtype =
      if asks_apex qtype then find_first (λ a. name_eq a qname) (apexes h config) else none

  unfoldable pub decide :
      Network → Zones Name → Name → RecordType → DnsClass → Reply Record × Zones Name
  decide net zones qname qtype qclass =
      if not (is_served_class qclass)
      then (refused_reply, zones)
      else if type_eq qtype axfr || type_eq qtype ixfr
      then (refused_reply, zones)
      else (elim (apex_of zones.config qname qtype) [
        | some apex ↦ (apex_reply zones.config apex qtype, zones)
        | none ↦ decide_resolved net zones qname qtype (resolve h zones.config qname qtype)
      ])
