-- ===== src/Server/Clients.antt =====
-- The clients of the upstreams: made once for each address, and changed by PTR queries only.
use panopti_dns.Prelude.{
  ℕ, ◌≡◌, refl, ap, inl, inr, Bool, true, false, not, ◌||◌, Option, none, some, List, [], ◌∷◌,
  arith, if◌then◌else◌, Bool-cases, Option-cases, >>=-eq-some, All, ==_iff, some_inv, when_some,
}
use panopti_dns.Hickory.{Hickory, RecordType, ptr, axfr, ixfr, DnsClass, type_eq}
use panopti_dns.Config.{IpAddr, v4, v6, Zone, Config}
use panopti_dns.Zone.{Outcome, answer, no_name, no_zone, resolve}
use panopti_dns.Upstream.{Upstream, new_upstream}
use panopti_dns.Server.{
  ip_eq, Clients, get_client, put_client, Zones, add_client, add_upstream, clients_loop, new_zones,
  is_served_class, Network, decide_resolved, apex_of, decide,
}

pub ip_eq→eq : (a b : IpAddr) → ip_eq a b ≡ true → a ≡ b
ip_eq→eq (v4 a) (v4 b) e = ap v4 ((==_iff a b).0 e)
ip_eq→eq (v6 a) (v6 b) e = ap v6 ((==_iff a b).0 e)
ip_eq→eq (v4 a) (v6 b) e = cc
ip_eq→eq (v6 a) (v4 b) e = cc

pub ip_eq_refl : (a : IpAddr) → ip_eq a a ≡ true
ip_eq_refl (v4 a) = (==_iff a a).1 refl
ip_eq_refl (v6 a) = (==_iff a a).1 refl

-- Whether there is a client for an address.
abbrev pub HasClient : Clients → IpAddr → Type 0
HasClient cs addr = (u : Upstream) × (get_client addr cs ≡ some u)

get_client-put_client :
    (addr : IpAddr) (u : Upstream) (cs : Clients) → HasClient (put_client addr u cs) addr
unfolding get_client put_client
get_client-put_client addr u [] = (u, rw (ip_eq_refl addr) refl)
get_client-put_client addr u ((a, v) ∷ rest) = elim (Bool-cases (ip_eq a addr)) [
  | inl same ↦ (u, ground arith)
  | inr other ↦ (let (w, e) = get_client-put_client addr u rest in (w, ground arith))
]

put_client-HasClient :
    (addr other : IpAddr) (u : Upstream) (cs : Clients)
    → HasClient cs other
    → HasClient (put_client addr u cs) other
unfolding get_client put_client
put_client-HasClient addr other u [] (v, e) = cc
put_client-HasClient addr other u ((a, w) ∷ rest) (v, e) = elim (Bool-cases (ip_eq a other)) [
  | inl same ↦ (if ip_eq a addr then u else w, ground arith)
  | inr differs ↦
      (let (x, found) = put_client-HasClient addr other u rest (v, ground arith) in
        elim (Bool-cases (ip_eq a addr)) [
          | inl hit ↦ (v, ground arith)
          | inr miss ↦ (x, ground arith)
        ])
]

-- The zone's upstream, if it has one, has a client.
unfoldable pub IsCovered : {Name : Type 0} → Clients → Zone Name → Type 0
IsCovered cs z = (addr : IpAddr) → z.upstream ≡ some addr → HasClient cs addr

add_upstream-HasClient :
    (builds : IpAddr → Bool) (timeout : ℕ) (o : Option IpAddr) (cs out : Clients)
    → add_upstream builds timeout o cs ≡ some out
    → ((addr : IpAddr) → o ≡ some addr → HasClient out addr)
      × ((addr : IpAddr) → HasClient cs addr → HasClient out addr)
unfolding add_upstream add_client
add_upstream-HasClient builds timeout none cs out e =
    (λ addr none_some. cc, λ addr has. rw (← some_inv e) has)
add_upstream-HasClient builds timeout (some a) cs out e = added (get_client a cs) refl e
  where
    added :
        (o : Option Upstream)
        → get_client a cs ≡ o
        → add_client builds timeout a o cs ≡ some out
        → ((addr : IpAddr) → some a ≡ some addr → HasClient out addr)
          × ((addr : IpAddr) → HasClient cs addr → HasClient out addr)
    added (some u) known done =
        rw (← some_inv done) (λ addr same. rw (← some_inv same) (u, known), λ addr has. has)
    added none unknown done =
        let (built, put) = when_some (builds a) _ done in
        rw (← some_inv put) (
          λ addr same. rw (← some_inv same) (get_client-put_client a (new_upstream a timeout) cs),
          λ addr has. put_client-HasClient a addr (new_upstream a timeout) cs has,
        )

clients_loop-HasClient :
    {Name : Type 0} (builds : IpAddr → Bool) (timeout : ℕ) (zones : List (Zone Name))
    (cs out : Clients)
    → clients_loop builds timeout zones cs ≡ some out
    → All (IsCovered out) zones × ((addr : IpAddr) → HasClient cs addr → HasClient out addr)
unfolding clients_loop IsCovered
clients_loop-HasClient builds timeout [] cs out e = (tt, λ addr has. rw (← some_inv e) has)
clients_loop-HasClient builds timeout (z ∷ zones) cs out e =
    let (mid, first, later) = >>=-eq-some _ _ e in
    let (new, kept) = add_upstream-HasClient builds timeout z.upstream cs mid first in
    let (covered, onward) = clients_loop-HasClient builds timeout zones mid out later in
    ((λ addr up. onward addr (new addr up), covered), λ addr has. onward addr (kept addr has))

clients_loop_total :
    {Name : Type 0} (builds : IpAddr → Bool) (timeout : ℕ) (zones : List (Zone Name)) (cs : Clients)
    → ((addr : IpAddr) → builds addr ≡ true)
    → (out : Clients) × (clients_loop builds timeout zones cs ≡ some out)
unfolding clients_loop add_upstream add_client
clients_loop_total builds timeout [] cs ok = (cs, refl)
clients_loop_total builds timeout (z ∷ zones) cs ok =
    let (mid, first) = add_upstream_total z.upstream in
    let (out, rest) = clients_loop_total builds timeout zones mid ok in (out, rw first rest)
  where
    add_upstream_total :
        (o : Option IpAddr) → (out : Clients) × (add_upstream builds timeout o cs ≡ some out)
    add_upstream_total none = (cs, refl)
    add_upstream_total (some a) = elim (Option-cases (get_client a cs)) [
      | inl unknown ↦ (put_client a (new_upstream a timeout) cs, rw (unknown, ok a) refl)
      | inr known ↦ (cs, rw known.1 refl)
    ]

-- If the resolver library can build a resolver for every address, the server's zones are made from
-- any configuration; they keep that configuration, and every zone's upstream has a client.
pub new_zones_total :
    {Name : Type 0} (builds : IpAddr → Bool) (config : Config Name)
    → ((addr : IpAddr) → builds addr ≡ true)
    → (zones : Zones Name) × (new_zones builds config ≡ some zones)
      × (zones.config ≡ config)
      × All (IsCovered zones.upstreams) config.zones
unfolding new_zones
new_zones_total {Name} builds config ok =
    let (cs, done) = clients_loop_total builds config.params.upstream_timeout config.zones [] ok in
    let made : Zones Name = record { config = config; upstreams = cs } in
    (
      made,
      rw done refl,
      refl,
      (clients_loop-HasClient builds config.params.upstream_timeout config.zones [] cs done).0,
    )

module _ (h : Hickory) where
  -- A question for a type other than PTR leaves the server's zones as they were: no upstream is asked.
  decide_keeps_zones :
      (net : Network h) (zones : Zones h.Name) (qname : h.Name) (qtype : RecordType)
      (cls : DnsClass)
      → type_eq qtype ptr ≡ false
      → (decide h net zones qname qtype cls).1 ≡ zones
  unfolding decide decide_resolved
  decide_keeps_zones net zones qname qtype cls e = ground arith

  decide_resolved-config :
      (net : Network h) (zones : Zones h.Name) (qname : h.Name) (qtype : RecordType)
      (o : Outcome h.Name h.Record)
      → (decide_resolved h net zones qname qtype o).1.config ≡ zones.config
  unfolding decide_resolved
  decide_resolved-config net zones qname qtype (answer z records) = ground arith
  decide_resolved-config net zones qname qtype (no_name z) = refl
  decide_resolved-config net zones qname qtype no_zone = refl

  -- `decide` keeps the configuration, whatever the question.
  pub decide-config :
      (net : Network h) (zones : Zones h.Name) (qname : h.Name) (qtype : RecordType)
      (cls : DnsClass)
      → (decide h net zones qname qtype cls).1.config ≡ zones.config
  unfolding decide
  decide-config net zones qname qtype cls =
      let o = resolve h zones.config qname qtype in
      elim (Bool-cases (not (is_served_class cls))) [
        | inl foreign ↦ rw foreign refl
        | inr served ↦ rw served (elim (Bool-cases (type_eq qtype axfr || type_eq qtype ixfr)) [
          | inl transfer ↦ rw transfer refl
          | inr query ↦ rw query (elim (Option-cases (apex_of h zones.config qname qtype)) [
            | inl inside ↦ rw inside (decide_resolved-config net zones qname qtype o)
            | inr apex ↦ rw apex.1 refl
          ])
        ])
      ]
