-- ===== src/Tasks/Accepted.antt =====
-- The configurations of a server with requests in flight.
use mathlib.Core.Path.{subst}
use panopti_dns.Prelude.{ℕ, suc, ◌≡◌, sym, List}
use panopti_dns.Bytes.{Bytes}
use panopti_dns.Hickory.{Hickory, ok}
use panopti_dns.Config.Compile.{AddressText}
use panopti_dns.Rrl.{Governor}
use panopti_dns.Server.{Zones}
use panopti_dns.Server.Bind.{Os, Bound}
use panopti_dns.Handler.{State}
use panopti_dns.Start.{Cli, Surroundings, run, serving}
use panopti_dns.Start.Begin.{run-zones}
use panopti_dns.Start.Invariant.{IsAcceptedConfig, load_zones-IsAcceptedConfig}
use panopti_dns.Tasks.{
  Running, Event, arrives, advances, reloads, sweeps, put_version, opened, arrive, step,
  after_events,
}
use panopti_dns.Tasks.Steps.{put_version_ind, advance_cases, reload_cases, after_events-Inv}
use panopti_dns.Tasks.Versions.{
  config_at, put_version-config, begin_question-config, advance_task-config,
}

module _ (h : Hickory) (text : AddressText) (lossy : Bytes → Bytes) (g : Governor) where
  -- A text was accepted for every configuration of the server.
  unfoldable pub IsAccepted : Running h g → Type 0
  IsAccepted s = (v : ℕ) → IsAcceptedConfig h text lossy (config_at h s.versions v)

  module _ (path : Bytes) where
    pub step-IsAccepted :
        (event : Event h) (s : Running h g)
        → IsAccepted s
        → IsAccepted (step h text lossy g path event s).1
    unfolding step IsAccepted arrive put_version
    step-IsAccepted (arrives w request) s all v =
        subst (IsAcceptedConfig h text lossy)
          (sym (
            put_version-config h s.versions s.current _ v
              (begin_question-config h g w s request request.question)))
          (all v)
    step-IsAccepted (advances k w) s all v =
        advance_cases h g (λ x. IsAccepted x.1) k w s all
          (λ before rest t e n.
            subst (IsAcceptedConfig h text lossy) (sym (advance_task-config h g w t s n).0) (all n))
          v
    step-IsAccepted (reloads around) s all v =
        reload_cases h text lossy g path IsAccepted around s all
          (λ next e n.
            put_version_ind (λ (z : Zones h.Name). IsAcceptedConfig h text lossy z.config)
              (suc s.current) n next s.versions
              (load_zones-IsAcceptedConfig h text lossy around path next e) (all n))
          v
    step-IsAccepted sweeps s all v = all v

  pub opened-IsAccepted :
      (os : Os) (cli : Cli) (around : Surroundings) (sys sys' : os.Sys) (bound : Bound os)
      (st : State h g)
      → run h text lossy g os around cli sys ≡ (ok (serving bound st), sys')
      → IsAccepted (opened h g st)
  unfolding IsAccepted opened
  opened-IsAccepted os cli around sys sys' bound st e v =
      load_zones-IsAcceptedConfig h text lossy around cli.config st.zones
        (run-zones h text lossy g os cli around sys sys' bound st e).0

  -- After any events of a server that was just started, requests, steps of their tasks, reloads that succeed
  -- or fail and sweeps in any order, a text was accepted for the configuration of every version of the
  -- zones, the current one and those that tasks in flight still have.
  pub after_events-IsAccepted :
      (os : Os) (cli : Cli) (around : Surroundings) (sys sys' : os.Sys) (bound : Bound os)
      (st : State h g) (events : List (Event h))
      → run h text lossy g os around cli sys ≡ (ok (serving bound st), sys')
      → IsAccepted (after_events h text lossy g cli.config events (opened h g st)).1
  after_events-IsAccepted os cli around sys sys' bound st events e =
      after_events-Inv h text lossy g cli.config IsAccepted
        (λ event s all. step-IsAccepted cli.config event s all) events (opened h g st)
        (opened-IsAccepted os cli around sys sys' bound st e)
