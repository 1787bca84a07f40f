-- ===== src/Start/Listen.antt =====
-- Where the server listens.
use mathlib.Core.Path.{subst}
use panopti_dns.Prelude.{
  ◌≤◌, ◌≡◌, refl, sym, ap, ◌∙◌, true, false, List, [], ◌∷◌, length, arith, is_empty, inl, inr, ◌⊎◌,
  none, some, Option-cases, if◌then◌else◌,
}
use panopti_dns.Bytes.{Bytes}
use panopti_dns.Hickory.{Result, ok, err}
use panopti_dns.Config.{v4, v6, ListenAddr, Config, default_port}
use panopti_dns.Config.Compile.{AddressText}
use panopti_dns.Server.Bind.{default_listen}
use panopti_dns.Start.Trim.{trim}
use panopti_dns.Start.{Cli, parse_listen, parse_listens, cons_result, effective_listen}

module _ (text : AddressText) where
  -- A text names an address with its port; or it is no such text, and names an address alone, on port 53.
  abbrev pub IsNamed : Bytes → ListenAddr → Type 0
  IsNamed s a =
      (text.socket_from_str s ≡ some a)
      ⊎ ((text.socket_from_str s ≡ none) × (text.ip_from_str s ≡ some a.addr) × (a.port ≡ 53))

  parse_listen-IsNamed : (s : Bytes) (a : ListenAddr) → parse_listen text s ≡ ok a → IsNamed s a
  unfolding parse_listen
  parse_listen-IsNamed s a e = elim (Option-cases (text.socket_from_str s)) [
    | inr (sock, found) ↦ inl (ground arith)
    | inl other ↦ (elim (Option-cases (text.ip_from_str s)) [
      | inr (addr, found) ↦ inr (other, ground arith, ground arith)
      | inl neither ↦ ground arith
    ])
  ]

  -- Each text, without the white space around it, names the address in its place.
  abbrev pub AreRead : List Bytes → List ListenAddr → Type 0
  AreRead [] [] = Unit {0}
  AreRead [] (a ∷ addrs) = ⊥
  AreRead (s ∷ ss) [] = ⊥
  AreRead (s ∷ ss) (a ∷ addrs) = IsNamed (trim s) a × AreRead ss addrs

  parse_listens-AreRead :
      (ss : List Bytes) (addrs : List ListenAddr)
      → parse_listens text ss ≡ ok addrs
      → AreRead ss addrs
  unfolding parse_listens
  parse_listens-AreRead [] [] e = tt
  parse_listens-AreRead [] (a ∷ addrs) e = cc
  parse_listens-AreRead (s ∷ ss) addrs e =
      first (parse_listen text (trim s)) refl (parse_listens text ss) refl addrs
        (λ bs others. parse_listens-AreRead ss bs others) e
    where
      first :
          (r : Result ListenAddr Bytes)
          → parse_listen text (trim s) ≡ r
          → (rest : Result (List ListenAddr) Bytes) → parse_listens text ss ≡ rest
          → (addrs : List ListenAddr)
          → ((bs : List ListenAddr) → parse_listens text ss ≡ ok bs → AreRead ss bs)
          → ◌≡◌ {A = Result (List ListenAddr) Bytes}
              (elim r [ ok a ↦ cons_result text a rest | err x ↦ err x ])
              (ok addrs)
          → AreRead (s ∷ ss) addrs
      first (err x) made rest others addrs again e = cc
      first (ok a) made (err x) others addrs again e = cc
      first (ok a) made (ok as') others [] again e = cc
      first (ok a) made (ok as') others (b ∷ bs) again e = (
        parse_listen-IsNamed (trim s) b (made ∙ ap (λ x. ok x) cc),
        again bs (others ∙ ap (λ x. ok x) cc),
      )

  -- 0.0.0.0 and ::, on port 53.
  abbrev pub both_wildcards : List ListenAddr
  both_wildcards = record { addr = v4 0; port = 53 } ∷ record { addr = v6 0; port = 53 } ∷ []

  -- The addresses are those of the command line, if it names any; else those of the configuration, if it
  -- names any; else both wildcards on port 53.
  abbrev pub IsSource : List Bytes → List ListenAddr → List ListenAddr → Type 0
  IsSource given set addrs =
      ((is_empty given ≡ false) × AreRead given addrs)
      ⊎ (((is_empty given ≡ true) × (is_empty set ≡ false) × (addrs ≡ set))
          ⊎ ((is_empty given ≡ true) × (is_empty set ≡ true) × (addrs ≡ both_wildcards)))

  sources :
      (given : List Bytes) (set addrs : List ListenAddr)
      → (if is_empty given
          then (if is_empty set then ok (default_listen default_port) else ok set)
          else parse_listens text given)
        ≡ ok addrs
      → (1 ≤ length addrs) × IsSource given set addrs
  unfolding default_listen
  sources [] [] addrs e =
      let same : both_wildcards ≡ addrs = cc in
      (
        subst (λ (l : List ListenAddr). 1 ≤ length l) same (omega arith),
        inr (inr (refl, refl, sym same)),
      )
  sources [] (l ∷ ls) addrs e =
      let same : l ∷ ls ≡ addrs = cc in
      (
        subst (λ (l : List ListenAddr). 1 ≤ length l) same (omega arith),
        inr (inl (refl, refl, sym same)),
      )
  sources (s ∷ ss) set [] e = absurd (parse_listens-AreRead (s ∷ ss) [] e)
  sources (s ∷ ss) set (a ∷ addrs) e =
      (omega arith, inl (refl, parse_listens-AreRead (s ∷ ss) (a ∷ addrs) e))

  -- If `effective_listen` does not fail, it gives one address at least: in their order those that the
  -- command line names, each without the white space around it and on port 53 where it names none, if
  -- it names any; else those of the configuration, if it names any; else 0.0.0.0 and :: on port 53.
  pub effective_listen_sources :
      {Name : Type 0} (cli : Cli) (config : Config Name) (addrs : List ListenAddr)
      → effective_listen text cli config ≡ ok addrs
      → (1 ≤ length addrs) × IsSource cli.listen config.listen addrs
  unfolding effective_listen
  effective_listen_sources cli config addrs e = sources cli.listen config.listen addrs e
