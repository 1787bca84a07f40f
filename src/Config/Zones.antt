-- ===== src/Config/Zones.antt =====
-- src/config/compile.rs: the network blocks, and the whole configuration.
use panopti_dns.Prelude.{
  ℕ, ◌-◌, ◌/◌, ◌&&◌, Option, none, some, List, [], ◌∷◌, leb, ◌==◌, if◌then◌else◌, is_empty,
}
use panopti_dns.Bytes.{Bytes, bytes_eq, to_ascii_lowercase}
use panopti_dns.Hickory.{Hickory, Result, ok, err}
use panopti_dns.Nibble.{netmask_to_ptr_name}
use panopti_dns.Config.{IpAddr, Zone, Config, default_ttl, parent}
use panopti_dns.Config.Error.{
  ConfigError, RawValue, error, duplicate_network, missing_resolves_to, duplicate_forward_pattern,
  invalid_upstream_address, network_prefix_not_nibble_aligned, resolves_to_invalid_name,
}
use panopti_dns.Config.Parse.{RawZone, RawConfig, parse}
use panopti_dns.Config.Compile.{
  AddressText, Check, pass, reject, or_reject, result_or_reject, ◌>>=◌, ◌>>◌, compile_network,
  compile_template,
}
use panopti_dns.Config.Globals.{compile_listens, compile_globals}

-- The two maps against duplicates, with the lines of the first uses.
pub record Seen : Type 0 where
  pub networks : List ((ℕ × ℕ) × ℕ)
  pub patterns : List (Bytes × ℕ)

unfoldable pub seen_network : List ((ℕ × ℕ) × ℕ) → ℕ → ℕ → Option ℕ
seen_network [] prefix mask = none
seen_network (((p, m), line) ∷ rest) prefix mask =
    let later = seen_network rest prefix mask in
    if p == prefix && m == mask then some line else later

unfoldable pub seen_pattern : List (Bytes × ℕ) → Bytes → Option ℕ
seen_pattern [] pattern' = none
seen_pattern ((p, line) ∷ rest) pattern' =
    let later = seen_pattern rest pattern' in if bytes_eq p pattern' then some line else later

abbrev pub demand_new : Option ℕ → (ℕ → ConfigError) → Check (Unit {0})
demand_new none f = pass tt
demand_new (some line) f = reject (f line)

unfoldable pub compile_upstream : AddressText → Option RawValue → Check (Option IpAddr)
compile_upstream text none = pass none
compile_upstream text (some v) = do
  addr ← or_reject (text.ip_from_str v.value) (error v invalid_upstream_address)
  pass (some addr)

-- A zone after those with a longer prefix, before the others: one step of the stable sort.
unfoldable pub insert_zone : {Name : Type 0} → Zone Name → List (Zone Name) → List (Zone Name)
insert_zone z [] = z ∷ []
insert_zone z (y ∷ ys) =
    let rest = insert_zone z ys in if leb y.mask z.mask then z ∷ y ∷ ys else y ∷ rest

-- `sort_by_key(|z| Reverse(z.mask))`
unfoldable pub sort_zones : {Name : Type 0} → List (Zone Name) → List (Zone Name)
sort_zones [] = []
sort_zones (z ∷ zs) = insert_zone z (sort_zones zs)

module _ (h : Hickory) (text : AddressText) where
  open h use {Name, error_text}

  -- The zone, and the maps with its network and its pattern.
  unfoldable pub compile_zone : Seen → RawZone → Check (Zone Name × Seen)
  compile_zone seen raw = do
    (prefix, mask) ← compile_network text raw.network
    demand_new (seen_network seen.networks prefix mask)
        (λ line. error raw.network (duplicate_network line))
    resolves_to ← or_reject raw.resolves_to (error raw.network missing_resolves_to)
    let host_nibbles = (128 - mask) / 4
    fwd ← compile_template h resolves_to host_nibbles
    let pattern_key = to_ascii_lowercase resolves_to.value
    demand_new (seen_pattern seen.patterns pattern_key)
        (λ line. error resolves_to (duplicate_forward_pattern line))
    upstream ← compile_upstream text raw.upstream
    ptr_zone ←
        or_reject (netmask_to_ptr_name h prefix mask)
          (error raw.network (network_prefix_not_nibble_aligned mask))
    fwd_parent ←
        result_or_reject h (parent h fwd)
          (λ e. error resolves_to (resolves_to_invalid_name (error_text e)))
    pass (
      record {
        src_line = raw.network.line;
        prefix = prefix;
        mask = mask;
        host_nibbles = host_nibbles;
        ptr_zone = ptr_zone;
        resolves_to = resolves_to.value;
        fwd = fwd;
        fwd_parent = fwd_parent;
        ttl = default_ttl;
        upstream = upstream;
      },
      record {
        networks = ((prefix, mask), raw.network.line) ∷ seen.networks;
        patterns = (pattern_key, resolves_to.line) ∷ seen.patterns;
      },
    )

  -- The loop over the blocks; a block that is rejected is passed over.
  unfoldable pub compile_zones :
      ℕ → List RawZone → Seen → List ConfigError → List (Zone Name) × List ConfigError
  compile_zones ttl [] seen errors = ([], errors)
  compile_zones ttl (raw ∷ raws) seen errors =
      let (o, errors') = compile_zone seen raw errors in
      elim o [
        | none ↦ compile_zones ttl raws seen errors'
        | some (z, seen') ↦
            (let (zs, errors'') = compile_zones ttl raws seen' errors' in
              (record z { ttl = ttl } ∷ zs, errors''))
      ]

  unfoldable pub compile : RawConfig → List ConfigError → Config Name × List ConfigError
  compile raw errors =
      let (listen, errors1) = compile_listens text raw.listen errors in
      let (globals, errors2) = compile_globals h raw errors1 in
      let (zones, errors3) =
        compile_zones globals.ttl_value raw.zones (record { networks = []; patterns = [] })
          errors2 in
      (
        record {
          listen = listen;
          zones = sort_zones zones;
          soa = globals.soa;
          nameservers = globals.nameservers;
          params = globals.params;
        },
        errors3,
      )

  -- `Config::parse`
  unfoldable pub parse_config : (Bytes → Bytes) → Bytes → Result (Config Name) (List ConfigError)
  parse_config lossy input =
      let (raw, errors) = parse lossy input in
      let (config, errors') = compile raw errors in
      if is_empty errors' then ok config else err errors'
