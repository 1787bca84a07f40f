-- ===== src/Tasks/Versions.antt =====
-- The versions of the zones that reloads make, and the configuration that a request is answered from.
use panopti_dns.Prelude.{
  ℕ, suc, ◌≤◌, ◌≡◌, refl, ap, ◌∙◌, inl, inr, Option, none, some, List, arith, ◌==◌, Bool-cases,
  ==_iff,
}
use panopti_dns.Bytes.{Bytes}
use panopti_dns.Hickory.{Hickory}
use panopti_dns.Config.{IpAddr, v4, Config}
use panopti_dns.Config.Compile.{AddressText}
use panopti_dns.Rrl.{Governor}
use panopti_dns.Server.{Zones, answer_reply}
use panopti_dns.Server.Awaiting.Taken.{begin_decide-taken}
use panopti_dns.Server.Awaiting.Served.{IsServed, finish_decide-IsServed}
use panopti_dns.Handler.{Request, Question, World}
use panopti_dns.Tasks.{
  Task, rejected, asking, decided, sending, Running, Event, arrives, advances, reloads, sweeps,
  put_version, begin_question, arrive, advance_task, step, after_events,
}
use panopti_dns.Tasks.Steps.{advance_cases, reload_cases, after_events-Inv}

module _ (h : Hickory) where
  -- The configuration of a version.
  abbrev pub config_at : (ℕ → Zones h.Name) → ℕ → Config h.Name
  config_at versions v = (versions v).config

  pub put_version-config :
      (versions : ℕ → Zones h.Name) (n : ℕ) (zones : Zones h.Name) (v : ℕ)
      → zones.config ≡ config_at versions n
      → config_at (put_version n zones versions) v ≡ config_at versions v
  unfolding put_version
  put_version-config versions n zones v e = elim (Bool-cases (v == n)) [
    | inl same ↦ (let ev = (==_iff v n).0 same in ground arith)
    | inr other ↦ ground arith
  ]

  module _ (g : Governor) where
    pub begin_question-config :
        (w : World h) (s : Running h g) (request : Request h.Name) (o : Option (Question h.Name))
        → (begin_question h g w s request o).1.config ≡ config_at s.versions s.current
    unfolding begin_question
    begin_question-config w s request none = refl
    begin_question-config w s request (some q) =
        let kept =
          begin_decide-taken h w.network.now (s.versions s.current) q.qname q.qtype q.qclass
            (v4 0) in
        ground arith

    pub advance_task-config :
        (w : World h) (t : Task h) (s : Running h g) (v : ℕ)
        → let s' = (advance_task h g w t s).2 in
          (config_at s'.versions v ≡ config_at s.versions v) × (s'.current ≡ s.current)
    unfolding advance_task
    advance_task-config w (rejected request) s v = (refl, refl)
    advance_task-config w (decided request reply) s v = (refl, refl)
    advance_task-config w (sending request reply d) s v = (refl, refl)
    advance_task-config w (asking request qname version asked up_qname records) s v =
        let done =
          finish_decide-IsServed h w.network.later (s.versions version) qname asked up_qname records
            (w.network.ask asked up_qname) in
        (put_version-config s.versions version _ v done.0, refl)

    module _ (text : AddressText) (lossy : Bytes → Bytes) (path : Bytes) where
      -- The versions up to the current one keep their configurations.
      unfoldable pub IsLater : Running h g → Running h g → Type 0
      IsLater s s' =
          (s.current ≤ s'.current)
          × ((v : ℕ) → v ≤ s.current → config_at s'.versions v ≡ config_at s.versions v)

      step-IsLater :
          (s : Running h g) (event : Event h) (s' : Running h g)
          → IsLater s s'
          → IsLater s (step h text lossy g path event s').1
      unfolding step IsLater arrive put_version
      step-IsLater s (arrives w request) s' (le, same) = (
        le,
        λ v below.
            put_version-config s'.versions s'.current _ v
              (begin_question-config w s' request request.question)
            ∙ same v below,
      )
      step-IsLater s (advances k w) s' (le, same) =
          advance_cases h g (λ x. IsLater s x.1) k w s' (le, same)
            (λ before rest t e. (
              omega (arith, le, (advance_task-config w t s' 0).1),
              λ v below. (advance_task-config w t s' v).0 ∙ same v below,
            ))
      step-IsLater s (reloads around) s' (le, same) =
          reload_cases h text lossy g path (IsLater s) around s' (le, same)
            (λ next e. (
              omega (arith, le),
              λ v below. elim (Bool-cases (v == suc s'.current)) [
                | inl new ↦
                    (let ev = (==_iff v (suc s'.current)).0 new in
                      absurd (omega (arith, ev, below, le)))
                | inr old ↦ (let kept = same v below in ground arith)
              ],
            ))
      step-IsLater s sweeps s' later = later

      -- Whatever events come between, reloads too: what a task that waits for an upstream of a version up to
      -- the current one decides is an answer made from the configuration that this version has now, with the
      -- records of the upstream, relayed, or with those that were found before the wait.
      pub after_events-answer :
          (s : Running h g) (events : List (Event h)) (w : World h) (request : Request h.Name)
          (qname : h.Name) (version : ℕ) (asked : IpAddr) (up_qname : h.Name)
          (records : List h.Record)
          → version ≤ s.current
          → let s' = (after_events h text lossy g path events s).1 in
            let t = asking request qname version asked up_qname records in
            (rs : List h.Record) × ((advance_task h g w t s').1
              ≡ some (decided request (answer_reply h (s.versions version).config qname rs)))
            × IsServed h qname up_qname records (w.network.ask asked up_qname) rs
      unfolding advance_task IsLater
      after_events-answer s events w request qname version asked up_qname records below =
          let s' = (after_events h text lossy g path events s).1 in
          let (le, same) =
            after_events-Inv h text lossy g path (IsLater s)
              (λ event t later. step-IsLater s event t later) events s (omega arith, λ v e. refl) in
          let (kept, (rs, answer, served)) =
            finish_decide-IsServed h w.network.later (s'.versions version) qname asked up_qname
              records (w.network.ask asked up_qname) in
          (
            rs,
            ap (λ r. some (decided request r)) answer
                ∙ ap (λ (c : Config h.Name). some (decided request (answer_reply h c qname rs)))
                    (same version below),
            served,
          )
