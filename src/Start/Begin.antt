-- ===== src/Start/Begin.antt =====
-- What `run` starts a server with.
use mathlib.Core.Path.{subst}
use panopti_dns.Prelude.{◌≡◌, refl, sym, ap, ◌∙◌, inl, inr, List, [], Option-cases, arith}
use panopti_dns.Bytes.{Bytes}
use panopti_dns.Hickory.{Hickory, Result, ok, err, Result-cases}
use panopti_dns.Config.{ListenAddr, Config}
use panopti_dns.Config.Compile.{AddressText}
use panopti_dns.Rrl.{Governor, Rrl}
use panopti_dns.Rrl
use panopti_dns.Server.{Zones, new_zones, clients_loop}
use panopti_dns.Server.Bind.{Os, Bound, bind_all, ◌>>=◌, pure, after_io}
use panopti_dns.Handler.{State}
use panopti_dns.Start.{
  Cli, Surroundings, Started, serving, load_config, zones_of, load_zones, effective_listen, serve,
  run,
}

module _ (h : Hickory) (text : AddressText) (lossy : Bytes → Bytes) where
  pub zones_of-config :
      (around : Surroundings) (config : Config h.Name) (zones : Zones h.Name)
      → zones_of h text lossy around config ≡ ok zones
      → zones.config ≡ config
  unfolding zones_of new_zones
  zones_of-config around config zones e =
      elim (Option-cases
        (clients_loop around.builds config.params.upstream_timeout config.zones [])) [
          | inl failed ↦ ground arith
          | inr made ↦ ground arith
        ]

  module _ (g : Governor) (os : Os) (cli : Cli) where
    state_of :
        (made st : State h g) (bound : Bound os) (sys' : os.Sys)
        (r : Result (Bound os) Bytes × os.Sys)
        → ◌≡◌ {A = Result (Started h g os) Bytes × os.Sys}
            (after_io os (λ b s. (ok (serving b made), s)) r)
            (ok (serving bound st), sys')
        → made ≡ st
    state_of made st bound sys' (ok b, t) e = cc
    state_of made st bound sys' (err x, t) e = cc

    serve_binds :
        (around : Surroundings) (config : Config h.Name) (sys : os.Sys) (listen : List ListenAddr)
        (zones : Zones h.Name)
        → effective_listen text cli config ≡ ok listen
        → zones_of h text lossy around config ≡ ok zones
        → serve h text lossy g os around cli config sys
          ≡ after_io os
              (λ b s.
                (ok (serving b (record { zones = zones; rrl = Rrl.new g config.params.rrl })), s))
              (bind_all os listen sys)
    unfolding serve pure ◌>>=◌
    serve_binds around config sys listen zones e1 e2 = rw (serve, e1, e2) refl

    -- A server that `serve` started has the zones of the configuration, and a limiter of its own.
    serve-serving :
        (around : Surroundings) (config : Config h.Name) (sys sys' : os.Sys) (bound : Bound os)
        (st : State h g)
        → serve h text lossy g os around cli config sys ≡ (ok (serving bound st), sys')
        → (zones_of h text lossy around config ≡ ok st.zones)
          × (st.rrl ≡ Rrl.new g config.params.rrl)
    unfolding serve pure ◌>>=◌
    serve-serving around config sys sys' bound st e =
        elim (Result-cases (effective_listen text cli config)) [
          | inr bad ↦ ground arith
          | inl listen ↦ (elim (Result-cases (zones_of h text lossy around config)) [
            | inr failed ↦ ground arith
            | inl zones ↦
                let made : State h g = record {
                  zones = zones.0;
                  rrl = Rrl.new g config.params.rrl;
                } in
                let same : made ≡ st =
                  state_of made st bound sys' (bind_all os listen.0 sys)
                    (sym (serve_binds around config sys listen.0 zones.0 listen.1 zones.1) ∙ e) in
                subst
                  (λ (x : State h g).
                    (zones_of h text lossy around config ≡ ok x.zones)
                    × (x.rrl ≡ Rrl.new g config.params.rrl))
                  same (zones.1, refl)
          ])
        ]

    -- The zones of a server that `run` started are those of the file, as they are after a reload.
    pub run-zones :
        (around : Surroundings) (sys sys' : os.Sys) (bound : Bound os) (st : State h g)
        → run h text lossy g os around cli sys ≡ (ok (serving bound st), sys')
        → (load_zones h text lossy around cli.config ≡ ok st.zones)
          × (st.rrl.params ≡ st.zones.config.params.rrl)
    unfolding run load_zones Rrl.new
    run-zones around sys sys' bound st e =
        elim (Result-cases (load_config h text lossy around cli.config)) [
          | inr bad ↦ ground arith
          | inl read ↦
              let (made, limits) = serve-serving around read.0 sys sys' bound st (ground arith) in
              let same = zones_of-config around read.0 st.zones made in
              (
                rw (load_zones, read.1) made,
                ap (λ (r : Rrl g). r.params) limits
                    ∙ ap (λ (c : Config h.Name). c.params.rrl) (sym same),
              )
        ]
