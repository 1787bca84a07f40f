-- ===== src/Start.antt =====
-- src/main.rs: the command line, the configuration file, and the way to a server that listens.
pub mod Trim
pub mod Lifecycle
pub mod Health
pub mod Begin
pub mod Invariant
pub mod Promises
pub mod Listen
use panopti_dns.Prelude.{
  ℕ, Bool, true, false, Option, none, some, List, [], ◌∷◌, ◌++◌, if◌then◌else◌, length, is_empty,
}
use panopti_dns.Bytes.{Bytes, codes}
use panopti_dns.Hickory.{Hickory, Result, ok, err}
use panopti_dns.Config.{IpAddr, ListenAddr, Config, Warning, warnings, default_port}
use panopti_dns.Config.Error.Message.{to_string}
use panopti_dns.Config.Error.Display.{new_errors, with_path, display}
use panopti_dns.Config.Compile.{AddressText}
use panopti_dns.Config.Zones.{parse_config}
use panopti_dns.Rrl.{Governor}
use panopti_dns.Rrl
use panopti_dns.Server.{Zones, new_zones}
use panopti_dns.Server.Bind.{Os, Bound, Io, pure, ◌>>=◌, default_listen, bind_all}
use panopti_dns.Handler.{State}
use panopti_dns.Start.Trim.{trim}

-- The fields of `Cli` beside those of its logging; a path is its text.
pub record Cli : Type 0 where
  pub config : Bytes
  pub check_config : Bool
  pub listen : List Bytes
  pub healthcheck : Bool
  pub healthcheck_port : ℕ

-- What is outside of the program at a moment: the text of a file, or of the error that reading it gives,
-- and the resolvers that can be built, with the text of the error where one cannot.
pub record Surroundings : Type 0 where
  pub read_to_string : Bytes → Result Bytes Bytes
  pub builds : IpAddr → Bool
  pub no_resolver : Bytes

-- The em dash, in UTF-8.
abbrev dash : Bytes
dash = 0xe2 ∷ 0x80 ∷ 0x94 ∷ []

module _ (text : AddressText) where
  unfoldable pub parse_listen : Bytes → Result ListenAddr Bytes
  parse_listen s = elim (text.socket_from_str s) [
    | some sock ↦ ok sock
    | none ↦ (elim (text.ip_from_str s) [
      | some addr ↦ ok (record { addr = addr; port = default_port })
      | none ↦ err (codes "--listen " ++ (s ++ codes ": not an IP address or address:port"))
    ])
  ]

  -- `collect` into a result: the first error, or all the addresses.
  abbrev cons_result : ListenAddr → Result (List ListenAddr) Bytes → Result (List ListenAddr) Bytes
  cons_result a (ok rest) = ok (a ∷ rest)
  cons_result a (err e) = err e

  unfoldable pub parse_listens : List Bytes → Result (List ListenAddr) Bytes
  parse_listens [] = ok []
  parse_listens (s ∷ ss) =
      let rest = parse_listens ss in
      elim (parse_listen (trim s)) [ ok a ↦ cons_result a rest | err e ↦ err e ]

  unfoldable pub effective_listen :
      {Name : Type 0} → Cli → Config Name → Result (List ListenAddr) Bytes
  effective_listen cli config =
      if is_empty cli.listen
      then (if is_empty config.listen then ok (default_listen default_port) else ok config.listen)
      else parse_listens cli.listen

-- What `run` comes to, where it does not fail: a probe of a port, the text of a check, or a server, with
-- the sockets that it listens on.
pub data Started (h : Hickory) (g : Governor) (os : Os) : Type 0 where
  probing : ℕ → Started h g os
  checked : List Warning → Bytes → Started h g os
  serving : Bound os → State h g → Started h g os

module _ (h : Hickory) (text : AddressText) (lossy : Bytes → Bytes) where
  unfoldable pub load_config : Surroundings → Bytes → Result (Config h.Name) Bytes
  load_config around path = elim (around.read_to_string path) [
    | err e ↦ err (codes "cannot read " ++ (path ++ (codes ": " ++ e)))
    | ok body ↦ (elim (parse_config h text lossy body) [
      | ok config ↦ ok config
      | err errors ↦ err (display (with_path (new_errors errors) path))
    ])
  ]

  -- `Zones::new`, with the text of its error.
  unfoldable pub zones_of : Surroundings → Config h.Name → Result (Zones h.Name) Bytes
  zones_of around config = elim (new_zones around.builds config) [
    | some zones ↦ ok zones
    | none ↦ err around.no_resolver
  ]

  -- `load_config(..).and_then(Zones::new)`
  unfoldable pub load_zones : Surroundings → Bytes → Result (Zones h.Name) Bytes
  load_zones around path = elim (load_config around path) [
    | ok config ↦ zones_of around config
    | err e ↦ err e
  ]

  -- What `--check-config` prints.
  unfoldable pub check_text : Bytes → Config h.Name → Bytes
  check_text path config =
      path
      ++ (codes ": OK "
          ++ (dash
              ++ (codes " "
                  ++ (to_string (length config.zones)
                      ++ (codes " zone(s), "
                          ++ (to_string (length config.listen) ++ codes " listen address(es)"))))))

  module _ (g : Governor) (os : Os) where
    -- `serve`, up to the server that runs.
    unfoldable pub serve : Surroundings → Cli → Config h.Name → Io os (Started h g os)
    serve around cli config s = elim (effective_listen text cli config) [
      | err e ↦ (err e, s)
      | ok listen ↦ (elim (zones_of around config) [
        | err e ↦ (err e, s)
        | ok zones ↦
            ◌>>=◌ os (bind_all os listen)
              (λ bound.
                pure os
                  (serving bound (record { zones = zones; rrl = Rrl.new g config.params.rrl })))
              s
      ])
    ]

    unfoldable pub run : Surroundings → Cli → Io os (Started h g os)
    run around cli s =
        if cli.healthcheck
        then (ok (probing cli.healthcheck_port), s)
        else (elim (load_config around cli.config) [
          | err e ↦ (err e, s)
          | ok config ↦
              if cli.check_config
              then (ok (checked (warnings config) (check_text cli.config config)), s)
              else serve around cli config s
        ])
