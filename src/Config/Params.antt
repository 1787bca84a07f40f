-- ===== src/Config/Params.antt =====
-- The numbers among the global directives are within the ranges that the error messages name.
use panopti_dns.Prelude.{
  ℕ, ◌^◌, ◌≤◌, ◌<◌, ◌≡◌, refl, Bool, true, ◌&&◌, Option, none, some, List, [], ◌∷◌, arith, leb, ltb,
}
use panopti_dns.Bytes.{Bytes}
use panopti_dns.Hickory.{Hickory, ok}
use panopti_dns.Config.{ServerParams, default_server_params, Config}
use panopti_dns.Config.Error.{ConfigError, RawValue}
use panopti_dns.Config.Parse.{
  GlobalKey, primary, hostmaster, ns, ttl, out_of_zone, max_udp_payload, upstream_timeout, rrl_off,
  rrl_rps, rrl_burst, rrl_slip, RawGlobal,
}
use panopti_dns.Config.Compile.{AddressText}
use panopti_dns.Config.Globals.{
  Settings, settle, number_in, set_params, apply_global, apply_globals, first_settings,
  compile_globals,
}
use panopti_dns.Config.Zones.{compile, parse_config}
use panopti_dns.Config.Order.{parse_config-ok}

unfoldable pub IsInRange : ServerParams → Type 0
IsInRange p =
    (512 ≤ p.max_udp_payload)
    × (p.max_udp_payload < 2 ^ 16)
    × (1 ≤ p.upstream_timeout)
    × (p.upstream_timeout ≤ 10000)
    × (1 ≤ p.rrl.responses_per_second)
    × (1 ≤ p.rrl.burst)

number_in-range :
    (v : RawValue) (what allowed : Bytes) (t : ℕ → Bool) (errors : List ConfigError) (n : ℕ)
    → (number_in v what allowed t errors).0 ≡ some n
    → t n ≡ true
unfolding number_in
number_in-range v what allowed t errors n e = ground arith

settle-keeps :
    {A S : Type 0} (P : S → Type 0) (f : A → S) (s : S) (r : Option A × List ConfigError)
    → P s
    → ((a : A) → r.0 ≡ some a → P (f a))
    → P (settle f s r).0
settle-keeps P f s (none, errors) ps step = ps
settle-keeps P f s (some a, errors) ps step = step a refl

module _ (h : Hickory) where
  apply_global-IsInRange :
      (key : GlobalKey) (v : RawValue) (s : Settings h.Name) (errors : List ConfigError)
      → IsInRange s.params
      → IsInRange (apply_global h key v s errors).0.params
  unfolding apply_global IsInRange
  apply_global-IsInRange primary v s errors i = i
  apply_global-IsInRange hostmaster v s errors i = i
  apply_global-IsInRange ns v s errors i = settle-keeps (λ s. IsInRange s.params) _ s _ i (λ a e. i)
  apply_global-IsInRange ttl v s errors i =
      settle-keeps (λ s. IsInRange s.params) _ s _ i (λ a e. i)
  apply_global-IsInRange out_of_zone v s errors i =
      settle-keeps (λ s. IsInRange s.params) _ s _ i (λ a e. i)
  apply_global-IsInRange max_udp_payload v s errors i =
      settle-keeps (λ s. IsInRange s.params)
        (λ n. set_params h s (record (s.params) { max_udp_payload = n })) s _ i
        (λ n e. ground (arith, number_in-range v _ _ (λ n. ltb n (2 ^ 16) && leb 512 n) errors n e))
  apply_global-IsInRange upstream_timeout v s errors i =
      settle-keeps (λ s. IsInRange s.params)
        (λ n. set_params h s (record (s.params) { upstream_timeout = n })) s _ i
        (λ n e. ground (arith, number_in-range v _ _ (λ n. leb 1 n && leb n 10000) errors n e))
  apply_global-IsInRange rrl_off v s errors i = i
  apply_global-IsInRange rrl_rps v s errors i =
      settle-keeps (λ s. IsInRange s.params)
        (λ n.
          set_params h s
            (record (s.params) { rrl = record (s.params.rrl) { responses_per_second = n } }))
        s _ i (λ n e. ground (arith, number_in-range v _ _ (λ n. leb 1 n) errors n e))
  apply_global-IsInRange rrl_burst v s errors i =
      settle-keeps (λ s. IsInRange s.params)
        (λ n. set_params h s (record (s.params) { rrl = record (s.params.rrl) { burst = n } })) s _
        i (λ n e. ground (arith, number_in-range v _ _ (λ n. leb 1 n) errors n e))
  apply_global-IsInRange rrl_slip v s errors i =
      settle-keeps (λ s. IsInRange s.params) _ s _ i (λ a e. i)

  apply_globals-IsInRange :
      (gs : List RawGlobal) (s : Settings h.Name) (errors : List ConfigError)
      → IsInRange s.params
      → IsInRange (apply_globals h gs s errors).0.params
  unfolding apply_globals
  apply_globals-IsInRange [] s errors i = i
  apply_globals-IsInRange (g ∷ gs) s errors i =
      apply_globals-IsInRange gs (apply_global h g.key g.value s errors).0
        (apply_global h g.key g.value s errors).1 (apply_global-IsInRange g.key g.value s errors i)

  -- The parameters of a configuration that was read are within their ranges: a UDP payload from 512
  -- to 65535, an upstream timeout from 1 to 10000 milliseconds, a rate and a burst of 1 at least.
  pub parse_config-IsInRange :
      (text : AddressText) (lossy : Bytes → Bytes) (input : Bytes) (config : Config h.Name)
      → parse_config h text lossy input ≡ ok config
      → IsInRange config.params
  unfolding compile compile_globals
  parse_config-IsInRange text lossy input config e =
      rw (← parse_config-ok h text lossy input config e)
        (apply_globals-IsInRange _ (first_settings h) _ first_in_range)
    where
      first_in_range : IsInRange default_server_params
      first_in_range =
          unfold IsInRange in
          (omega arith, omega arith, omega arith, omega arith, omega arith, omega arith)
