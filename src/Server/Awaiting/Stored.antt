-- ===== src/Server/Awaiting/Stored.antt =====
-- What is looked up after a client was put into the map.
use mathlib.Core.Path.{subst}
use panopti_dns.Prelude.{
  ◌≡◌, refl, sym, ap, ◌∙◌, inl, inr, true, false, some, [], ◌∷◌, arith, if◌then◌else◌, Bool-cases,
}
use panopti_dns.Config.{IpAddr}
use panopti_dns.Upstream.{Upstream}
use panopti_dns.Server.{ip_eq, Clients, get_client, put_client}
use panopti_dns.Server.Clients.{ip_eq→eq, ip_eq_refl}

ip_eq-false : (a b c : IpAddr) → ip_eq a b ≡ true → ip_eq b c ≡ false → ip_eq a c ≡ false
ip_eq-false a b c same other = subst (λ x. ip_eq x c ≡ false) (sym (ip_eq→eq a b same)) other

pub get_client-put_client :
    (addr other : IpAddr) (u : Upstream) (cs : Clients)
    → get_client other (put_client addr u cs)
      ≡ (if ip_eq addr other then some u else get_client other cs)
unfolding get_client put_client
get_client-put_client addr other u [] = refl
get_client-put_client addr other u ((a, v) ∷ rest) =
    let later = get_client-put_client addr other u rest in
    elim (Bool-cases (ip_eq a addr)) [
      | inr differs ↦ (elim (Bool-cases (ip_eq addr other)) [
        | inr apart ↦ ground arith
        | inl hit ↦
            let apart : ip_eq a other ≡ false =
              subst (λ x. ip_eq a x ≡ false) (ip_eq→eq addr other hit) differs in
            ground arith
      ])
      | inl same ↦
          let e : ip_eq a other ≡ ip_eq addr other =
            ap (λ x. ip_eq x other) (ip_eq→eq a addr same) in
          ground arith
    ]

pub get_client-put_same :
    (addr : IpAddr) (u : Upstream) (cs : Clients) → get_client addr (put_client addr u cs) ≡ some u
get_client-put_same addr u cs = get_client-put_client addr addr u cs ∙ rw (ip_eq_refl addr) refl

pub put_client-put_client :
    (addr : IpAddr) (u v : Upstream) (cs : Clients)
    → put_client addr v (put_client addr u cs) ≡ put_client addr v cs
unfolding put_client
put_client-put_client addr u v [] = rw (ip_eq_refl addr) refl
put_client-put_client addr u v ((a, w) ∷ rest) =
    let later = put_client-put_client addr u v rest in
    elim (Bool-cases (ip_eq a addr)) [ inl same ↦ ground arith | inr differs ↦ ground arith ]
