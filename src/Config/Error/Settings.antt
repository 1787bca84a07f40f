-- ===== src/Config/Error/Settings.antt =====
-- Where the compiler of the global directives reports: within the lines of the values that were read.
use panopti_dns.Prelude.{
  ◌||◌, Option, none, some, List, [], ◌∷◌, arith, All, All-find_first, find_first, inl, inr,
  Option-cases,
}
use panopti_dns.Bytes.{Bytes}
use panopti_dns.Hickory.{Hickory}
use panopti_dns.Config.Error.{ConfigError, RawValue}
use panopti_dns.Config.Error.Located.{
  IsLocated, IsPlaced, error-IsLocated, All-snoc, Locates, Locates-pass, Locates-reject,
}
use panopti_dns.Config.Error.Reports.{
  parse_name-Locates, number_in-Locates, policy_of-Locates, parse_u32-Locates,
}
use panopti_dns.Config.Parse.{
  RawZone, RawGlobal, RawConfig, GlobalKey, primary, hostmaster, ns, ttl, out_of_zone,
  max_udp_payload, upstream_timeout, rrl_off, rrl_rps, rrl_burst, rrl_slip, key_eq,
}
use panopti_dns.Config.Compile.{AddressText}
use panopti_dns.Config.Globals.{
  Settings, settle, compile_listen, compile_listens, apply_global, apply_globals,
  missing_pair_error, pair_soa, compile_globals, first_settings,
}

-- Where there is a value, it is placed.
abbrev pub IsPlacedOption : Option RawValue → Type 0
IsPlacedOption none = Unit {0}
IsPlacedOption (some v) = IsPlaced v

abbrev pub IsPlacedZone : RawZone → Type 0
IsPlacedZone z = IsPlaced z.network × IsPlacedOption z.resolves_to × IsPlacedOption z.upstream

abbrev pub IsPlacedGlobal : RawGlobal → Type 0
IsPlacedGlobal g = IsPlaced g.value

-- Every value that was read stands in its line.
abbrev pub IsPlacedConfig : RawConfig → Type 0
IsPlacedConfig raw =
    All IsPlaced raw.listen × All IsPlacedGlobal raw.globals × All IsPlacedZone raw.zones

compile_listen-Locates :
    (text : AddressText) (v : RawValue) → IsPlaced v → Locates (compile_listen text v)
unfolding compile_listen
compile_listen-Locates text v placed = elim (Option-cases (text.socket_from_str v.value)) [
  | inr sock ↦ rw (compile_listen, sock.1) (Locates-pass _)
  | inl no_sock ↦
      rw (compile_listen, no_sock)
        (elim (Option-cases (text.ip_from_str v.value)) [
          | inr addr ↦ rw addr.1 (Locates-pass _)
          | inl no_addr ↦ rw no_addr (Locates-reject _ _ (error-IsLocated v _ placed))
        ])
]

pub compile_listens-IsLocated :
    (text : AddressText) (vs : List RawValue) (errors : List ConfigError)
    → All IsPlaced vs
    → All IsLocated errors
    → All IsLocated (compile_listens text vs errors).1
unfolding compile_listens Locates
compile_listens-IsLocated text [] errors placed all = all
compile_listens-IsLocated text (v ∷ vs) errors (one, placed) all =
    compile_listens-IsLocated text vs (compile_listen text v errors).1 placed
      (compile_listen-Locates text v one errors all)

settle-IsLocated :
    {A S : Type 0} (f : A → S) (s : S) (r : Option A × List ConfigError)
    → All IsLocated r.1
    → All IsLocated (settle f s r).1
settle-IsLocated f s (none, errors) all = all
settle-IsLocated f s (some a, errors) all = all

module _ (h : Hickory) where
  apply_global-IsLocated :
      (key : GlobalKey) (v : RawValue) (s : Settings h.Name) (errors : List ConfigError)
      → IsPlaced v
      → All IsLocated errors
      → All IsLocated (apply_global h key v s errors).1
  unfolding apply_global Locates
  apply_global-IsLocated primary v s errors placed all = parse_name-Locates h v _ placed errors all
  apply_global-IsLocated hostmaster v s errors placed all =
      parse_name-Locates h v _ placed errors all
  apply_global-IsLocated ns v s errors placed all =
      settle-IsLocated _ s _ (parse_name-Locates h v _ placed errors all)
  apply_global-IsLocated ttl v s errors placed all =
      settle-IsLocated _ s _ (number_in-Locates v _ _ _ placed errors all)
  apply_global-IsLocated out_of_zone v s errors placed all =
      settle-IsLocated _ s _ (policy_of-Locates v placed errors all)
  apply_global-IsLocated max_udp_payload v s errors placed all =
      settle-IsLocated _ s _ (number_in-Locates v _ _ _ placed errors all)
  apply_global-IsLocated upstream_timeout v s errors placed all =
      settle-IsLocated _ s _ (number_in-Locates v _ _ _ placed errors all)
  apply_global-IsLocated rrl_off v s errors placed all = all
  apply_global-IsLocated rrl_rps v s errors placed all =
      settle-IsLocated _ s _ (number_in-Locates v _ _ _ placed errors all)
  apply_global-IsLocated rrl_burst v s errors placed all =
      settle-IsLocated _ s _ (number_in-Locates v _ _ _ placed errors all)
  apply_global-IsLocated rrl_slip v s errors placed all =
      settle-IsLocated _ s _ (parse_u32-Locates v _ _ placed errors all)

  apply_globals-IsLocated :
      (gs : List RawGlobal) (s : Settings h.Name) (errors : List ConfigError)
      → All IsPlacedGlobal gs
      → All IsLocated errors
      → All IsLocated (apply_globals h gs s errors).1
  unfolding apply_globals
  apply_globals-IsLocated [] s errors placed all = all
  apply_globals-IsLocated (g ∷ gs) s errors (one, placed) all =
      apply_globals-IsLocated gs (apply_global h g.key g.value s errors).0
        (apply_global h g.key g.value s errors).1 placed
        (apply_global-IsLocated g.key g.value s errors one all)

  missing_pair_error-IsLocated :
      (raw : RawConfig) (missing present : Bytes)
      → All IsPlacedGlobal raw.globals
      → IsLocated (missing_pair_error h raw missing present)
  unfolding missing_pair_error
  missing_pair_error-IsLocated raw missing present placed =
      elim (Option-cases (
        find_first (λ (g : RawGlobal). key_eq g.key primary || key_eq g.key hostmaster)
          raw.globals)) [
            | inl absent ↦ rw (missing_pair_error, absent) (unfold IsLocated in (omega arith, tt))
            | inr found ↦
                rw (missing_pair_error, found.1)
                  (error-IsLocated found.0.value _
                    (All-find_first IsPlacedGlobal _ raw.globals found.0 placed found.1))
          ]

  pair_soa-IsLocated :
      (raw : RawConfig) (p m : Option h.Name) (errors : List ConfigError)
      → All IsPlacedGlobal raw.globals
      → All IsLocated errors
      → All IsLocated (pair_soa h raw p m errors).1
  unfolding pair_soa
  pair_soa-IsLocated raw (some p) (some m) errors placed all = all
  pair_soa-IsLocated raw (some p) none errors placed all =
      All-snoc errors _ all (missing_pair_error-IsLocated raw _ _ placed)
  pair_soa-IsLocated raw none (some m) errors placed all =
      All-snoc errors _ all (missing_pair_error-IsLocated raw _ _ placed)
  pair_soa-IsLocated raw none none errors placed all = all

  pub compile_globals-IsLocated :
      (raw : RawConfig) (errors : List ConfigError)
      → All IsPlacedGlobal raw.globals
      → All IsLocated errors
      → All IsLocated (compile_globals h raw errors).1
  unfolding compile_globals
  compile_globals-IsLocated raw errors placed all =
      pair_soa-IsLocated raw _ _ _ placed
        (apply_globals-IsLocated raw.globals (first_settings h) errors placed all)
