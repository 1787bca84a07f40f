-- ===== src/Start/Invariant.antt =====
-- A running server has a configuration that some file was accepted for.
use mathlib.Core.Path.{subst}
use panopti_dns.Prelude.{
  ◌≤◌, List, [], ◌∷◌, ◌≡◌, refl, sym, ◌∙◌, Option, none, some, inl, inr, Bool, arith,
}
use panopti_dns.Bytes.{Bytes}
use panopti_dns.Hickory.{Hickory, ok, Result-cases}
use panopti_dns.Config.{IpAddr, Config}
use panopti_dns.Config.Compile.{AddressText}
use panopti_dns.Config.Params.{IsInRange, parse_config-IsInRange}
use panopti_dns.Config.Zones.{parse_config}
use panopti_dns.Rrl.{Governor, Rrl, Kind, answer_kind, negative_kind}
use panopti_dns.Rrl
use panopti_dns.Server.{Zones, decide}
use panopti_dns.Server.Bind.{Os, Bound}
use panopti_dns.Server.Clients.{decide-config}
use panopti_dns.Handler.{
  State, World, Request, Question, answer_query, handle_question, handle_inner, handle_request,
}
use panopti_dns.Start.{Cli, Surroundings, serving, load_config, load_zones, run}
use panopti_dns.Start.Begin.{zones_of-config, run-zones}
use panopti_dns.Start.Lifecycle.{
  Event, arrived, hangup, tick, reload, step, after_events, Reach, start, later,
}

module _ (g : Governor) where
  pub decide-params :
      (r : Rrl g) (addr : IpAddr) (kind : Kind) (is_tcp : Bool)
      → (Rrl.decide g r addr kind is_tcp).1.params ≡ r.params
  unfolding Rrl.decide Rrl.suppress Rrl.with_limiter
  decide-params r addr answer_kind is_tcp = ground arith
  decide-params r addr negative_kind is_tcp = ground arith

module _ (h : Hickory) (g : Governor) where
  handle_request-setup :
      (w : World h) (st : State h g) (request : Request h.Name)
      → ((handle_request h g w st request).1.zones.config ≡ st.zones.config)
        × ((handle_request h g w st request).1.rrl.params ≡ st.rrl.params)
  unfolding handle_request handle_inner handle_question answer_query
  handle_request-setup w st request = by_question request.question
    where
      by_question :
          (q : Option (Question h.Name))
          → ((handle_question h g w st request q).2.zones.config ≡ st.zones.config)
            × ((handle_question h g w st request q).2.rrl.params ≡ st.rrl.params)
      by_question none = (refl, refl)
      by_question (some q) =
          let reply = decide h w.network st.zones q.qname q.qtype q.qclass in
          ground (
            arith,
            decide-config h w.network st.zones q.qname q.qtype q.qclass,
            decide-params g st.rrl request.src reply.0.kind request.is_tcp,
          )

-- What holds of a running server: its configuration is one that a text was accepted for, and its limits
-- are those that it started with.
module _ (h : Hickory) (text : AddressText) (lossy : Bytes → Bytes) where
  unfoldable pub IsAcceptedConfig : Config h.Name → Type 0
  IsAcceptedConfig config = (body : Bytes) × (parse_config h text lossy body ≡ ok config)

  pub payload_fits :
      (config : Config h.Name) → IsAcceptedConfig config → 512 ≤ config.params.max_udp_payload
  unfolding IsAcceptedConfig IsInRange
  payload_fits config (body, e) = (parse_config-IsInRange h text lossy body config e).0

  load_config-IsAcceptedConfig :
      (around : Surroundings) (path : Bytes) (config : Config h.Name)
      → load_config h text lossy around path ≡ ok config
      → IsAcceptedConfig config
  unfolding load_config IsAcceptedConfig
  load_config-IsAcceptedConfig around path config e =
      elim (Result-cases (around.read_to_string path)) [
        | inr missing ↦ ground arith
        | inl found ↦ (elim (Result-cases (parse_config h text lossy found.0)) [
          | inr bad ↦ ground arith
          | inl good ↦ (found.0, ground arith)
        ])
      ]

  pub load_zones-IsAcceptedConfig :
      (around : Surroundings) (path : Bytes) (zones : Zones h.Name)
      → load_zones h text lossy around path ≡ ok zones
      → IsAcceptedConfig zones.config
  unfolding load_zones
  load_zones-IsAcceptedConfig around path zones e =
      elim (Result-cases (load_config h text lossy around path)) [
        | inr bad ↦ ground arith
        | inl good ↦
            subst IsAcceptedConfig
              (sym (zones_of-config h text lossy around good.0 zones (ground arith)))
              (load_config-IsAcceptedConfig around path good.0 good.1)
      ]

  module _ (g : Governor) (os : Os) (cli : Cli) where
    run-serving :
        (around : Surroundings) (sys sys' : os.Sys) (bound : Bound os) (st : State h g)
        → run h text lossy g os around cli sys ≡ (ok (serving bound st), sys')
        → IsAcceptedConfig st.zones.config × (st.rrl.params ≡ st.zones.config.params.rrl)
    run-serving around sys sys' bound st e =
        let (made, limits) = run-zones h text lossy g os cli around sys sys' bound st e in
        (load_zones-IsAcceptedConfig around cli.config st.zones made, limits)

    -- The configuration of every state that a server comes to, over requests, reloads that succeed or
    -- fail, and sweeps, in any order, is one that a text was accepted for.
    pub Reach-IsAcceptedConfig :
        (st : State h g) → Reach h text lossy g os cli st → IsAcceptedConfig st.zones.config
    unfolding step reload
    Reach-IsAcceptedConfig st (start bound sys sys' around e) =
        (run-serving around sys sys' bound st e).0
    Reach-IsAcceptedConfig st (later {st = before} (arrived w request) r) =
        subst IsAcceptedConfig (sym (handle_request-setup h g w before request).0)
          (Reach-IsAcceptedConfig before r)
    Reach-IsAcceptedConfig st (later {st = before} tick r) = Reach-IsAcceptedConfig before r
    Reach-IsAcceptedConfig st (later {st = before} (hangup around) r) =
        let kept = Reach-IsAcceptedConfig before r in
        elim (Result-cases (load_zones h text lossy around cli.config)) [
          | inl next ↦
              rw (step, reload, next.1)
                (load_zones-IsAcceptedConfig around cli.config next.0 next.1)
          | inr bad ↦ rw (step, reload, bad.1) kept
        ]

  -- Whatever a server meets, in any order, its limits stay those that it started with: a reload does not
  -- change them, whatever the new configuration says.
  pub after_events-limits :
      (g : Governor) (path : Bytes) (events : List (Event h g)) (st : State h g)
      → (after_events h text lossy g path events st).rrl.params ≡ st.rrl.params
  unfolding after_events step reload Rrl.sweep
  after_events-limits g path [] st = refl
  after_events-limits g path (arrived w request ∷ events) st =
      after_events-limits g path events (handle_request h g w st request).1
      ∙ (handle_request-setup h g w st request).1
  after_events-limits g path (tick ∷ events) st =
      after_events-limits g path events (record st { rrl = Rrl.sweep g st.rrl })
  after_events-limits g path (hangup around ∷ events) st =
      after_events-limits g path events (reload h text lossy g path around st)
      ∙ elim (Result-cases (load_zones h text lossy around path)) [
        | inl next ↦ rw (reload, next.1) refl
        | inr bad ↦ rw (reload, bad.1) refl
      ]
