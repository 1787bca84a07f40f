-- ===== src/Start/Lifecycle.antt =====
-- src/main.rs: the server that runs, by its events: requests, reloads and sweeps of the rate limiter.
use panopti_dns.Prelude.{List, [], ◌∷◌, ◌++◌, ◌≡◌}
use panopti_dns.Bytes.{Bytes, codes}
use panopti_dns.Hickory.{Hickory, Result, ok, err}
use panopti_dns.Config.Compile.{AddressText}
use panopti_dns.Rrl.{Governor}
use panopti_dns.Rrl
use panopti_dns.Server.Bind.{Os, Bound}
use panopti_dns.Handler.{State, World, Request, Message, handle_request}
use panopti_dns.Start.{Cli, Surroundings, serving, load_zones, run}

module _ (h : Hickory) (g : Governor) where
  -- What a running server meets: a request, with the world it meets, SIGHUP, and the sweeper's tick.
  pub data Event : Type 0 where
    arrived : World h → Request h.Name → Event
    hangup : Surroundings → Event
    tick : Event

module _ (h : Hickory) (text : AddressText) (lossy : Bytes → Bytes) (g : Governor) where
  -- One round of the loop of the reloader: where the file is not accepted, the state is kept.
  unfoldable pub reload : Bytes → Surroundings → State h g → State h g
  reload path around st = elim (load_zones h text lossy around path) [
    | ok next ↦ record st { zones = next }
    | err e ↦ st
  ]

  -- The messages of an event, and the state after it.
  unfoldable pub step : Bytes → Event h g → State h g → List (Message h.Record) × State h g
  step path (arrived w request) st = handle_request h g w st request
  step path (hangup around) st = ([], reload path around st)
  step path tick st = ([], record st { rrl = Rrl.sweep g st.rrl })

  unfoldable pub after_events : Bytes → List (Event h g) → State h g → State h g
  after_events path [] st = st
  after_events path (event ∷ events) st = after_events path events (step path event st).1

  -- The states of a server that `run` started, in any order of its events.
  pub data Reach (os : Os) (cli : Cli) : State h g → Type 0 where
    start :
        {st : State h g} (bound : Bound os) (sys sys' : os.Sys) (around : Surroundings)
        → run h text lossy g os around cli sys ≡ (ok (serving bound st), sys')
        → Reach os cli st
    later :
        {st : State h g} (event : Event h g)
        → Reach os cli st
        → Reach os cli (step cli.config event st).1

-- Why the server ends: by itself, or by a signal.
pub data End : Type 0 where
  done_by_itself : Result (Unit {0}) Bytes → End
  terminated interrupted : End

-- What `serve` returns: only a server that stops with an error is a failure.
unfoldable pub outcome : End → Result (Unit {0}) Bytes
outcome (done_by_itself (ok u)) = ok u
outcome (done_by_itself (err e)) = err (codes "server stopped: " ++ e)
outcome terminated = ok tt
outcome interrupted = ok tt
