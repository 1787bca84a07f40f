-- ===== src/Config/Globals.antt =====
-- src/config/compile.rs: the global directives and the listen addresses.
use panopti_dns.Prelude.{
  ℕ, ◌^◌, Bool, false, ◌&&◌, Option, none, some, List, [], ◌∷◌, ◌++◌, ltb, leb, if◌then◌else◌, ◌||◌,
  find_first,
}
use panopti_dns.Bytes.{Bytes, codes, bytes_eq}
use panopti_dns.Hickory.{Hickory}
use panopti_dns.Config.{
  ListenAddr, OutOfZonePolicy, refused_policy, nx_domain_policy, SoaParams, ServerParams,
  default_server_params, default_ttl, default_port,
}
use panopti_dns.Config.Error.{
  ConfigError, RawValue, error, invalid_number, invalid_choice, missing_companion_directive,
  invalid_listen_address,
}
use panopti_dns.Config.Parse.{
  RawConfig, RawGlobal, GlobalKey, primary, hostmaster, ns, ttl, out_of_zone, max_udp_payload,
  upstream_timeout, rrl_off, rrl_rps, rrl_burst, rrl_slip, key_eq,
}
use panopti_dns.Config.Compile.{
  AddressText, Check, pass, reject, demand, ◌>>=◌, ◌>>◌, parse_u32, parse_name,
}

unfoldable pub compile_listen : AddressText → RawValue → Check ListenAddr
compile_listen text v = elim (text.socket_from_str v.value) [
  | some sock ↦ pass sock
  | none ↦ (elim (text.ip_from_str v.value) [
    | some addr ↦ pass (record { addr = addr; port = default_port })
    | none ↦ reject (error v invalid_listen_address)
  ])
]

-- `filter_map(|v| compile_listen(v, errors))`
unfoldable pub compile_listens :
    AddressText → List RawValue → List ConfigError → List ListenAddr × List ConfigError
compile_listens text [] errors = ([], errors)
compile_listens text (v ∷ vs) errors =
    let (o, errors') = compile_listen text v errors in
    let (rest, errors'') = compile_listens text vs errors' in
    ((elim o [ none ↦ rest | some l ↦ l ∷ rest ]), errors'')

-- The variables of the loop over the global directives.
pub record Settings (Name : Type 0) : Type 0 where
  pub ttl_value : ℕ
  pub params : ServerParams
  pub primary_name : Option Name
  pub hostmaster_name : Option Name
  pub nameservers : List Name

-- `Globals` of the source.
pub record Globals (Name : Type 0) : Type 0 where
  pub ttl_value : ℕ
  pub soa : Option (SoaParams Name)
  pub nameservers : List Name
  pub params : ServerParams

-- Where a check fails the settings stay as they are.
abbrev pub settle {ℓ κ} :
    {A : Type ℓ} {S : Type κ} → (A → S) → S → Option A × List ConfigError → S × List ConfigError
settle f s (none, errors) = (s, errors)
settle f s (some a, errors) = (f a, errors)

-- A number with a range test behind it.
unfoldable pub number_in : RawValue → Bytes → Bytes → (ℕ → Bool) → Check ℕ
number_in v what allowed in_range = do
  n ← parse_u32 v what allowed
  demand (in_range n) (error v (invalid_number what allowed))
  pass n

unfoldable pub policy_of : RawValue → Check OutOfZonePolicy
policy_of v =
    if bytes_eq v.value (codes "refused")
    then pass refused_policy
    else if bytes_eq v.value (codes "nxdomain")
    then pass nx_domain_policy
    else reject (error v (invalid_choice (codes "out-of-zone") (codes "`refused` or `nxdomain`")))

abbrev pub ttl_range : Bytes
ttl_range = codes "a TTL in seconds (0-2147483647)"

module _ (h : Hickory) where
  open h use {Name}

  abbrev pub set_params : Settings Name → ServerParams → Settings Name
  set_params s p = record s { params = p }

  -- One round of the loop.
  unfoldable pub apply_global :
      GlobalKey → RawValue → Settings Name → List ConfigError → Settings Name × List ConfigError
  apply_global primary v s errors =
      let (o, errors') = parse_name h v (codes "primary") errors in
      (record s { primary_name = o }, errors')
  apply_global hostmaster v s errors =
      let (o, errors') = parse_name h v (codes "hostmaster") errors in
      (record s { hostmaster_name = o }, errors')
  apply_global ns v s errors =
      settle (λ n. record s { nameservers = s.nameservers ++ n ∷ [] }) s
        (parse_name h v (codes "ns") errors)
  apply_global ttl v s errors =
      settle (λ n. record s { ttl_value = n }) s
        (number_in v (codes "ttl") ttl_range (λ n. leb n 0x7fff_ffff) errors)
  apply_global out_of_zone v s errors =
      settle (λ p. set_params s (record (s.params) { out_of_zone = p })) s (policy_of v errors)
  apply_global max_udp_payload v s errors =
      settle (λ n. set_params s (record (s.params) { max_udp_payload = n })) s
        (number_in v (codes "max-udp-payload") (codes "512-65535 bytes")
          (λ n. ltb n (2 ^ 16) && leb 512 n) errors)
  apply_global upstream_timeout v s errors =
      settle (λ n. set_params s (record (s.params) { upstream_timeout = n })) s
        (number_in v (codes "upstream-timeout") (codes "1-10000 milliseconds")
          (λ n. leb 1 n && leb n 10000) errors)
  apply_global rrl_off v s errors =
      (set_params s (record (s.params) { rrl = record (s.params.rrl) { enabled = false } }), errors)
  apply_global rrl_rps v s errors =
      settle
        (λ n.
          set_params s
            (record (s.params) { rrl = record (s.params.rrl) { responses_per_second = n } }))
        s
        (number_in v (codes "rrl responses-per-second") (codes "at least 1") (λ n. leb 1 n) errors)
  apply_global rrl_burst v s errors =
      settle (λ n. set_params s (record (s.params) { rrl = record (s.params.rrl) { burst = n } })) s
        (number_in v (codes "rrl burst") (codes "at least 1") (λ n. leb 1 n) errors)
  apply_global rrl_slip v s errors =
      settle (λ n. set_params s (record (s.params) { rrl = record (s.params.rrl) { slip = n } })) s
        (parse_u32 v (codes "rrl slip") (codes "0 (always drop) or more") errors)

  unfoldable pub apply_globals :
      List RawGlobal → Settings Name → List ConfigError → Settings Name × List ConfigError
  apply_globals [] s errors = (s, errors)
  apply_globals (g ∷ gs) s errors =
      let (s', errors') = apply_global g.key g.value s errors in apply_globals gs s' errors'

  abbrev pub first_settings : Settings Name
  first_settings = record {
    ttl_value = default_ttl;
    params = default_server_params;
    primary_name = none;
    hostmaster_name = none;
    nameservers = [];
  }

  -- The first of the two directives that is there, or line 1.
  unfoldable pub missing_pair_error : RawConfig → Bytes → Bytes → ConfigError
  missing_pair_error raw missing present =
      elim (find_first (λ (g : RawGlobal). key_eq g.key primary || key_eq g.key hostmaster)
        raw.globals) [
          | some g ↦ error g.value (missing_companion_directive missing present)
          | none ↦ record {
            line = 1;
            snippet = [];
            span = none;
            kind = missing_companion_directive missing present;
          }
        ]

  abbrev soa_of : Name → Name → SoaParams Name
  soa_of p m = record {
    primary = p;
    hostmaster = m;
    serial = 1;
    refresh = 604800;
    retry = 86400;
    expire = 2419200;
    minimum = 60;
  }

  unfoldable pub pair_soa :
      RawConfig
      → Option Name
      → Option Name
      → List ConfigError
      → Option (SoaParams Name) × List ConfigError
  pair_soa raw (some p) (some m) errors = (some (soa_of p m), errors)
  pair_soa raw (some p) none errors =
      (none, errors ++ missing_pair_error raw (codes "hostmaster") (codes "primary") ∷ [])
  pair_soa raw none (some m) errors =
      (none, errors ++ missing_pair_error raw (codes "primary") (codes "hostmaster") ∷ [])
  pair_soa raw none none errors = (none, errors)

  unfoldable pub compile_globals : RawConfig → List ConfigError → Globals Name × List ConfigError
  compile_globals raw errors =
      let (s, errors') = apply_globals raw.globals first_settings errors in
      let (soa', errors'') = pair_soa raw s.primary_name s.hostmaster_name errors' in
      (
        record {
          ttl_value = s.ttl_value;
          soa = soa';
          nameservers = s.nameservers;
          params = s.params;
        },
        errors'',
      )
