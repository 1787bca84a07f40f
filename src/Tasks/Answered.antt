-- ===== src/Tasks/Answered.antt =====
-- How many messages go out for the requests that arrived, over every list of events.
use mathlib.Core.Path.{subst}
use panopti_dns.Prelude.{
  ℕ, ◌+◌, ◌*◌, ◌≤◌, ◌≡◌, refl, ap, ◌∙◌, List, [], ◌∷◌, ◌++◌, arith, length, length-append, All,
  All-append,
}
use panopti_dns.Bytes.{Bytes}
use panopti_dns.Hickory.{Hickory, ok}
use panopti_dns.Config.{RrlParams}
use panopti_dns.Server.Bind.{Os, Bound}
use panopti_dns.Start.{Cli, Surroundings, run, serving}
use panopti_dns.Config.Compile.{AddressText}
use panopti_dns.Rrl.{Governor, Rrl, Decision, allow, drop_it}
use panopti_dns.Rrl
use panopti_dns.Handler.{Request, State, Message, World}
use panopti_dns.Start.Invariant.{payload_fits}
use panopti_dns.Tasks.{
  Running, Event, arrives, advances, reloads, sweeps, opened, to_list, served, begin_question,
  arrive, advance_task, advance, step, after_events,
}
use panopti_dns.Tasks.Steps.{advance_cases, reload_cases}
use panopti_dns.Tasks.Accepted.{IsAccepted, opened-IsAccepted, step-IsAccepted}
use panopti_dns.Tasks.Sure.{
  IsExempt, IsSure, arrivals, IsExemptEvent, begin_question-IsSure, advance_task-count,
}

pub All-parts {ℓ κ} :
    {A : Type ℓ} (P : A → Type κ) (before rest : List A) (t : A)
    → All P (before ++ t ∷ rest)
    → All P before × P t × All P rest
All-parts P [] rest t (p, all) = (tt, p, all)
All-parts P (b ∷ before) rest t (p, all) =
    let (first, mine, others) = All-parts P before rest t all in ((p, first), mine, others)

module _ (h : Hickory) (text : AddressText) (lossy : Bytes → Bytes) (g : Governor)
    (path : Bytes) where
  -- What a step adds to the messages, against the requests and tasks: two at most for each; one at least
  -- where all are sure, and they stay sure.
  unfoldable pub IsCounted :
      Running h g → ℕ → (Type 0) → List (Message h.Record) × Running h g → Type 0
  IsCounted s new exempt x =
      let enabled = s.rrl.params.enabled in
      (length x.0 + 2 * length x.1.tasks ≤ 2 * (new + length s.tasks))
      × (x.1.rrl.params ≡ s.rrl.params)
      × (exempt
          → All (IsSure h enabled) s.tasks
          → (new + length s.tasks ≤ length x.0 + length x.1.tasks)
            × All (IsSure h enabled) x.1.tasks)

  arrive-IsCounted :
      (w : World h) (request : Request h.Name) (s : Running h g)
      → IsCounted s 1 (IsExempt s.rrl.params.enabled request) ([], arrive h g w request s)
  unfolding arrive IsCounted
  arrive-IsCounted w request s =
      let x = begin_question h g w s request request.question in
      let more = length-append s.tasks (x.0 ∷ []) in
      (
        omega (arith, more),
        refl,
        λ exempt sure. (
          omega (arith, more),
          All-append (IsSure h s.rrl.params.enabled) s.tasks (x.0 ∷ []) sure (
            begin_question-IsSure h g s.rrl.params.enabled w s request request.question exempt,
            tt,
          ),
        ),
      )

  advance-IsCounted :
      (k : ℕ) (w : World h) (s : Running h g)
      → 512 ≤ (served h g s).config.params.max_udp_payload
      → IsCounted s 0 (Unit {0}) (advance h g k w s)
  unfolding IsCounted
  advance-IsCounted k w s fits =
      advance_cases h g (IsCounted s 0 (Unit {0})) k w s
        (omega arith, refl, λ exempt sure. (omega arith, sure))
        (λ before rest t e.
          let (most, kept, least) = advance_task-count h g w t s fits in
          let next = to_list (advance_task h g w t s).1 in
          let enabled = s.rrl.params.enabled in
          let was = ap (λ ts. length ts) e ∙ length-append before (t ∷ rest) in
          let now = length-append before (next ++ rest) in
          let tail = length-append next rest in
          (
            omega (arith, most, was, now, tail),
            kept,
            λ exempt sure.
                let (first, mine, others) =
                  All-parts (IsSure h enabled) before rest t
                    (subst (All (IsSure h enabled)) e sure) in
                let (one, still) = least mine in
                (
                  omega (arith, one, was, now, tail),
                  All-append (IsSure h enabled) before (next ++ rest) first
                      (All-append (IsSure h enabled) next rest still others),
                ),
          ))

  pub step-IsCounted :
      (event : Event h) (s : Running h g)
      → IsAccepted h text lossy g s
      → IsCounted s
          (arrivals h (event ∷ []))
          (IsExemptEvent h s.rrl.params.enabled event)
          (step h text lossy g path event s)
  unfolding step IsCounted IsAccepted arrivals Rrl.sweep
  step-IsCounted (arrives w request) s accepted = arrive-IsCounted w request s
  step-IsCounted (advances k w) s accepted =
      advance-IsCounted k w s (payload_fits h text lossy (served h g s).config (accepted s.current))
  step-IsCounted (reloads around) s accepted =
      reload_cases h text lossy g path (λ s'. IsCounted s 0 (Unit {0}) ([], s')) around s
        (omega arith, refl, λ exempt sure. (omega arith, sure))
        (λ next e. (omega arith, refl, λ exempt sure. (omega arith, sure)))
  step-IsCounted sweeps s accepted = (omega arith, refl, λ exempt sure. (omega arith, sure))

  arrivals-cons :
      (event : Event h) (events : List (Event h))
      → arrivals h (event ∷ events) ≡ arrivals h (event ∷ []) + arrivals h events
  unfolding arrivals
  arrivals-cons (arrives w request) events = omega arith
  arrivals-cons (advances k w) events = omega arith
  arrivals-cons (reloads around) events = omega arith
  arrivals-cons sweeps events = omega arith

  events-IsCounted :
      (events : List (Event h)) (s : Running h g)
      → IsAccepted h text lossy g s
      → IsCounted s
          (arrivals h events)
          (All (IsExemptEvent h s.rrl.params.enabled) events)
          (after_events h text lossy g path events s)
  unfolding after_events IsCounted arrivals
  events-IsCounted [] s accepted = (omega arith, refl, λ exempt sure. (omega arith, sure))
  events-IsCounted (event ∷ events) s accepted =
      let x = step h text lossy g path event s in
      let y = after_events h text lossy g path events x.1 in
      let (most, kept, least) = step-IsCounted event s accepted in
      let (most', kept', least') =
        events-IsCounted events x.1 (step-IsAccepted h text lossy g path event s accepted) in
      let total = length-append x.0 y.0 in
      let all = arrivals-cons event events in
      (
        omega (arith, most, most', total, all),
        kept' ∙ kept,
        λ exempt sure.
            let (some_left, still) = least exempt.0 sure in
            let (more, end) =
              subst
                (λ (p : RrlParams).
                  All (IsExemptEvent h p.enabled) events
                  → All (IsSure h p.enabled) x.1.tasks
                  → (arrivals h events + length x.1.tasks ≤ length y.0 + length y.1.tasks)
                    × All (IsSure h p.enabled) y.1.tasks)
                kept least' exempt.1 still in
            (omega (arith, some_left, more, total, all), end),
      )

  module _ (os : Os) (cli : Cli) (around : Surroundings) (sys sys' : os.Sys) (bound : Bound os)
      (st : State h g) (events : List (Event h)) where
    pub opened-IsCounted :
        run h text lossy g os around cli sys ≡ (ok (serving bound st), sys')
        → IsCounted
            (opened h g st)
            (arrivals h events)
            (All (IsExemptEvent h st.rrl.params.enabled) events)
            (after_events h text lossy g path events (opened h g st))
    unfolding opened
    opened-IsCounted e =
        events-IsCounted events (opened h g st)
          (opened-IsAccepted h text lossy g os cli around sys sys' bound st e)

    -- After any events of a server that was just started, requests, steps of their tasks, reloads and
    -- sweeps in any order, no more than two messages went out for each request that arrived and has no task
    -- any more.
    pub after_events-count :
        run h text lossy g os around cli sys ≡ (ok (serving bound st), sys')
        → let x = after_events h text lossy g path events (opened h g st) in
          length x.0 + 2 * length x.1.tasks ≤ 2 * arrivals h events
    unfolding IsCounted opened
    after_events-count e = omega (arith, (opened-IsCounted e).0)
