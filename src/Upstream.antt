-- ===== src/Upstream.antt =====
-- src/upstream.rs: PTR overrides from a configured upstream. Times are in milliseconds.
pub mod Filter
pub mod Circuit
pub mod Permits
pub mod Inflight
pub mod Blackout
use panopti_dns.Prelude.{
  ℕ, zero, suc, ◌+◌, ◌-◌, ◌^◌, min, max, Bool, true, false, ◌&&◌, Option, none, some, List, [], ◌∷◌,
  map, ltb, leb, ◌==◌, if◌then◌else◌, take, keep_if,
}
use panopti_dns.Bytes.{Bytes, codes}
use panopti_dns.Hickory.{
  Hickory, Result, ok, err, RecordType, ptr, DnsClass, in_class, Rdata, ptr_data, type_eq,
}
use panopti_dns.Config.{IpAddr}

abbrev pub max_relayed_records : ℕ
max_relayed_records = 8

abbrev pub min_relay_ttl : ℕ
min_relay_ttl = 30

abbrev pub max_relay_ttl : ℕ
max_relay_ttl = 3600

abbrev pub max_inflight : ℕ
max_inflight = 64

abbrev pub breaker_threshold : ℕ
breaker_threshold = 8

abbrev pub breaker_cooldown : ℕ
breaker_cooldown = 10000

abbrev pub is_in_class : DnsClass → Bool
is_in_class in_class = true
is_in_class _ = false

-- `matches!(data, RData::PTR(_))`
abbrev pub is_ptr_data : {Name : Type 0} → Rdata Name → Bool
is_ptr_data (ptr_data target) = true
is_ptr_data _ = false

-- `ttl.clamp(MIN_RELAY_TTL, MAX_RELAY_TTL)`
unfoldable pub clamp_ttl : ℕ → ℕ
clamp_ttl ttl = max min_relay_ttl (min ttl max_relay_ttl)

module _ (h : Hickory) where
  open h use {
    Name, Record, name_eq, append_label, dns_class, record_type, owner, rdata, record_ttl,
    from_rdata,
  }

  unfoldable pub is_allowed : Name → Record → Bool
  is_allowed up_qname record' =
      is_in_class (dns_class record')
      && (type_eq (record_type record') ptr
          && (name_eq (owner record') up_qname && is_ptr_data (rdata record')))

  unfoldable pub relay : Name → Record → Record
  relay qname record' = from_rdata qname (clamp_ttl (record_ttl record')) (rdata record')

  unfoldable pub filter_upstream : Name → Name → List Record → List Record
  filter_upstream qname up_qname answers =
      map (relay qname) (take max_relayed_records (keep_if (is_allowed up_qname) answers))

  unfoldable pub upstream_qname : Name → Option Name
  upstream_qname qname = elim (append_label qname (codes "upstream")) [
    | ok n ↦ some n
    | err e ↦ none
  ]

-- The state behind the breaker's mutex, and whether the mutex is poisoned.
pub record Breaker : Type 0 where
  pub poisoned : Bool
  pub consecutive_failures : ℕ
  pub open_until : Option ℕ

abbrev pub closed_breaker : Breaker
closed_breaker = record { poisoned = false; consecutive_failures = 0; open_until = none }

unfoldable pub is_open_at : Option ℕ → ℕ → Breaker → Bool × Breaker
is_open_at none now b = (false, b)
is_open_at (some until) now b =
    if ltb now until
    then (true, b)
    else (false, record b { open_until = none; consecutive_failures = 0 })

unfoldable pub is_open : ℕ → Breaker → Bool × Breaker
is_open now b = is_open_at b.open_until now b

unfoldable pub record_success : Breaker → Breaker
record_success b =
    if b.poisoned then b else record b { consecutive_failures = 0; open_until = none }

abbrev pub is_none {ℓ} : {A : Type ℓ} → Option A → Bool
is_none none = true
is_none (some a) = false

-- The flag says whether this failure tripped the breaker.
unfoldable pub record_failure : ℕ → Breaker → Bool × Breaker
record_failure now b =
    if b.poisoned
    then (false, b)
    else (let failures = min (b.consecutive_failures + 1) (2 ^ 32 - 1) in
        if leb breaker_threshold failures && is_none b.open_until
        then (
          true,
          record b { consecutive_failures = failures; open_until = some (now + breaker_cooldown) },
        )
        else (false, record b { consecutive_failures = failures }))

-- A client of one upstream: its address, the permits left, the breaker, the deadline.
pub record Upstream : Type 0 where
  pub addr : IpAddr
  pub permits : ℕ
  pub breaker : Breaker
  pub timeout : ℕ

unfoldable pub new_upstream : IpAddr → ℕ → Upstream
new_upstream addr timeout = record {
  addr = addr;
  permits = max_inflight;
  breaker = closed_breaker;
  timeout = timeout;
}

-- What came of the query under its deadline.
pub data Lookup (Record : Type 0) : Type 0 where
  found : List Record → Lookup Record
  negative : Lookup Record
  elapsed : Lookup Record

-- `try_acquire_owned`
unfoldable pub try_acquire : Upstream → Option Upstream
try_acquire u = if u.permits == 0 then none else some (record u { permits = u.permits - 1 })

-- The permit is dropped.
unfoldable pub release : Upstream → Upstream
release u = record u { permits = u.permits + 1 }

module _ (h : Hickory) where
  open h use {Name, Record}

  -- `lookup_ptr` up to the await: the name to ask for, if a query is sent. The permit is then held.
  unfoldable pub begin_lookup : ℕ → Name → Upstream → Option Name × Upstream
  begin_lookup now qname u =
      let (skip, b) = is_open now u.breaker in
      let u' = record u { breaker = b } in
      if skip then (none, u') else (elim (try_acquire u') [
        | none ↦ (none, u')
        | some held ↦ (elim (upstream_qname h qname) [
          | none ↦ (none, release held)
          | some up_qname ↦ (some up_qname, held)
        ])
      ])

  -- `lookup_ptr` after the await: the records to serve; the permit is dropped.
  unfoldable pub finish_lookup : ℕ → Name → Name → Lookup Record → Upstream → List Record × Upstream
  finish_lookup now qname up_qname (found answers) u = (
    filter_upstream h qname up_qname answers,
    release (record u { breaker = record_success u.breaker }),
  )
  finish_lookup now qname up_qname negative u =
      ([], release (record u { breaker = record_success u.breaker }))
  finish_lookup now qname up_qname elapsed u =
      ([], release (record u { breaker = (record_failure now u.breaker).1 }))

  -- The whole call, when no other runs in between. `ask` is the network.
  unfoldable pub lookup_ptr :
      (Name → Lookup Record) → ℕ → ℕ → Name → Upstream → List Record × Upstream
  lookup_ptr ask now later qname u =
      let (asked, u') = begin_lookup now qname u in
      elim asked [
        | none ↦ ([], u')
        | some up_qname ↦ finish_lookup later qname up_qname (ask up_qname) u'
      ]
