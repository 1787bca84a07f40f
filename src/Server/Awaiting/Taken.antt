-- ===== src/Server/Awaiting/Taken.antt =====
-- The permits that the two halves of `decide` take and give back, and the configuration that they keep.
use panopti_dns.Prelude.{
  ℕ, ◌+◌, ◌≤◌, ◌≡◌, refl, inl, inr, Bool, Option, none, some, List, [], ◌∷◌, arith, if◌then◌else◌,
  Bool-cases, Option-cases, >>=-eq-some, when_some, some_inv,
}
use panopti_dns.Hickory.{Hickory, RecordType, DnsClass}
use panopti_dns.Config.{IpAddr, Zone, Config}
use panopti_dns.Zone.{Outcome, answer, no_name, no_zone, resolve}
use panopti_dns.Upstream.{Upstream, Lookup, new_upstream, begin_lookup, finish_lookup}
use panopti_dns.Upstream.Permits.{begin_lookup-permits, finish_lookup-permits}
use panopti_dns.Server.{
  ip_eq, Clients, get_client, Zones, add_client, add_upstream, clients_loop, new_zones,
}
use panopti_dns.Server.Clients.{ip_eq→eq}
use panopti_dns.Server.Awaiting.{
  Progress, ready, waits, begin_override, begin_resolved, begin_decide, finish_decide,
}
use panopti_dns.Server.Awaiting.Stored.{get_client-put_client}

-- The permits that are left for an address: all of them where there is no client yet.
abbrev pub left : Option Upstream → ℕ
left none = 64
left (some u) = u.permits

abbrev pub left_of : {Name : Type 0} → Zones Name → IpAddr → ℕ
left_of zones addr = left (get_client addr zones.upstreams)

-- One permit, where the address is the one that is asked.
abbrev pub one_for : IpAddr → IpAddr → ℕ
one_for asked addr = if ip_eq asked addr then 1 else 0

module _ (h : Hickory) where
  open h use {Name, Record}

  abbrev pub taken : IpAddr → Progress h → ℕ
  taken addr (ready reply) = 0
  taken addr (waits asked up_qname records) = one_for asked addr

  begin_override-taken :
      (now : ℕ) (zones : Zones Name) (z : Zone Name) (qname : Name) (records : List Record)
      (addr : IpAddr)
      → let x = begin_override h now zones z qname records in
        (x.1.config ≡ zones.config) × (left_of x.1 addr + taken addr x.0 ≡ left_of zones addr)
  unfolding begin_override
  begin_override-taken now zones z qname records addr = elim (Option-cases z.upstream) [
    | inl alone ↦ ground arith
    | inr (a, up) ↦ (elim (Option-cases (get_client a zones.upstreams)) [
      | inl unknown ↦ ground arith
      | inr (u, known) ↦
          let stored =
            get_client-put_client a addr (begin_lookup h now qname u).1 zones.upstreams in
          (elim (Bool-cases (ip_eq a addr)) [
            | inr other ↦ (elim (Option-cases (begin_lookup h now qname u).0) [
              | inl skipped ↦ ground arith
              | inr asked ↦ ground arith
            ])
            | inl same ↦
                let e = ip_eq→eq a addr same in
                (elim (Option-cases (begin_lookup h now qname u).0) [
                  | inl skipped ↦ ground (arith, begin_lookup-permits h now qname u)
                  | inr asked ↦ ground (arith, begin_lookup-permits h now qname u)
                ])
          ])
    ])
  ]

  begin_resolved-taken :
      (now : ℕ) (zones : Zones Name) (qname : Name) (qtype : RecordType) (o : Outcome Name Record)
      (addr : IpAddr)
      → let x = begin_resolved h now zones qname qtype o in
        (x.1.config ≡ zones.config) × (left_of x.1 addr + taken addr x.0 ≡ left_of zones addr)
  unfolding begin_resolved
  begin_resolved-taken now zones qname qtype (no_name z) addr = (refl, omega arith)
  begin_resolved-taken now zones qname qtype no_zone addr = (refl, omega arith)
  begin_resolved-taken now zones qname qtype (answer z records) addr =
      ground (arith, begin_override-taken now zones z qname records addr)

  -- A permit is taken exactly from the client that is asked.
  pub begin_decide-taken :
      (now : ℕ) (zones : Zones Name) (qname : Name) (qtype : RecordType) (cls : DnsClass)
      (addr : IpAddr)
      → let x = begin_decide h now zones qname qtype cls in
        (x.1.config ≡ zones.config) × (left_of x.1 addr + taken addr x.0 ≡ left_of zones addr)
  unfolding begin_decide
  begin_decide-taken now zones qname qtype cls addr =
      ground (
        arith,
        begin_resolved-taken now zones qname qtype (resolve h zones.config qname qtype) addr,
      )

  -- A permit is given back to the client that was asked, if there is one.
  pub finish_decide-taken :
      (later : ℕ) (zones : Zones Name) (qname : Name) (asked : IpAddr) (up_qname : Name)
      (records : List Record) (lookup : Lookup Record) (addr : IpAddr)
      → left_of zones asked ≤ 63
      → let x = finish_decide h later zones qname asked up_qname records lookup in
        (x.1.config ≡ zones.config) × (left_of x.1 addr ≡ left_of zones addr + one_for asked addr)
  unfolding finish_decide
  finish_decide-taken later zones qname asked up_qname records lookup addr some_left =
      elim (Option-cases (get_client asked zones.upstreams)) [
        | inl unknown ↦ ground arith
        | inr (u, known) ↦
            let stored =
              get_client-put_client asked addr (finish_lookup h later qname up_qname lookup u).1
                zones.upstreams in
            let back = finish_lookup-permits h later qname up_qname lookup u in
            elim (Bool-cases (ip_eq asked addr)) [
              | inr other ↦ ground arith
              | inl same ↦ (let e = ip_eq→eq asked addr same in ground arith)
            ]
      ]

-- All the permits of every client are left.
abbrev pub IsFresh : Clients → Type 0
IsFresh cs = (addr : IpAddr) → left (get_client addr cs) ≡ 64

add_client-IsFresh :
    (builds : IpAddr → Bool) (timeout : ℕ) (a : IpAddr) (o : Option Upstream) (cs out : Clients)
    → add_client builds timeout a o cs ≡ some out
    → IsFresh cs
    → IsFresh out
unfolding add_client new_upstream
add_client-IsFresh builds timeout a (some u) cs out e fresh addr = ground (arith, fresh addr)
add_client-IsFresh builds timeout a none cs out e fresh addr =
    let (built, put) = when_some (builds a) _ e in
    rw (← some_inv put, get_client-put_client a addr (new_upstream a timeout) cs)
      (ground (arith, fresh addr))

clients_loop-IsFresh :
    {Name : Type 0} (builds : IpAddr → Bool) (timeout : ℕ) (zones : List (Zone Name))
    (cs out : Clients)
    → clients_loop builds timeout zones cs ≡ some out
    → IsFresh cs
    → IsFresh out
unfolding clients_loop add_upstream
clients_loop-IsFresh builds timeout [] cs out e fresh = rw (← some_inv e) fresh
clients_loop-IsFresh builds timeout (z ∷ zones) cs out e fresh =
    let (mid, first, others) = >>=-eq-some _ _ e in
    clients_loop-IsFresh builds timeout zones mid out others (added z.upstream first)
  where
    added :
        {mid : Clients} (o : Option IpAddr)
        → add_upstream builds timeout o cs ≡ some mid
        → IsFresh mid
    added none done = rw (← some_inv done) fresh
    added (some a) done = add_client-IsFresh builds timeout a (get_client a cs) cs _ done fresh

pub new_zones-IsFresh :
    {Name : Type 0} (builds : IpAddr → Bool) (config : Config Name) (zones : Zones Name)
    → new_zones builds config ≡ some zones
    → (addr : IpAddr) → left_of zones addr ≡ 64
unfolding new_zones get_client
new_zones-IsFresh builds config zones e addr =
    let (cs, made, stored) = >>=-eq-some _ _ e in
    let fresh : IsFresh cs =
      clients_loop-IsFresh builds config.params.upstream_timeout config.zones [] cs made
        (λ a. refl) in
    rw (← some_inv stored) (fresh addr)
