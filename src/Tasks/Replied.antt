-- ===== src/Tasks/Replied.antt =====
-- Which messages went out for which of the requests that arrived, over every list of events.
use mathlib.Core.List.{Perm, append-nil, append_assoc, map-append}
use mathlib.Core.List.Perm
use mathlib.Core.Path.{subst}
use panopti_dns.Prelude.{
  ℕ, ◌+◌, ◌*◌, ◌≤◌, ◌≡◌, refl, sym, ap, ◌∙◌, inl, inr, Bool-cases, Option, none, some, List, [],
  ◌∷◌, ◌++◌, map, arith, ltb, length, All, All-append,
}
use panopti_dns.Bytes.{Bytes}
use panopti_dns.Hickory.{Hickory, ok}
use panopti_dns.Config.{RrlParams}
use panopti_dns.Config.Compile.{AddressText}
use panopti_dns.Rrl.{Governor}
use panopti_dns.Server.Awaiting.{Progress, ready, waits}
use panopti_dns.Server.Bind.{Os, Bound}
use panopti_dns.Start.{Cli, Surroundings, run, serving}
use panopti_dns.Handler.{Request, Question, State, Message, World, is_query}
use panopti_dns.Start.Invariant.{payload_fits}
use panopti_dns.Tasks.{
  Task, Running, Event, arrives, advances, reloads, sweeps, opened, to_list, served, task_of,
  begin_question, arrive, advance_task, reload, step, after_events,
}
use panopti_dns.Tasks.Steps.{reload_cases}
use panopti_dns.Tasks.Accepted.{IsAccepted, opened-IsAccepted, step-IsAccepted}
use panopti_dns.Tasks.Sure.{IsSure, IsExemptEvent, advance_task-count}
use panopti_dns.Tasks.Answered.{IsCounted, All-parts, step-IsCounted}
use panopti_dns.Tasks.Ledger.{
  Answer, request_of, requests, messages, arrived, answer_of, answered, answered_cases, IsKept,
  requests-append, messages-append, advance-IsKept,
}

module _ (h : Hickory) (g : Governor) where
  task_of-request :
      (request : Request h.Name) (qname : h.Name) (version : ℕ) (p : Progress h)
      → request_of h (task_of h g request qname version p) ≡ request
  task_of-request request qname version (ready reply) = refl
  task_of-request request qname version (waits asked up_qname records) = refl

  begin_question-request :
      (w : World h) (s : Running h g) (request : Request h.Name) (o : Option (Question h.Name))
      → request_of h (begin_question h g w s request o).0 ≡ request
  unfolding begin_question
  begin_question-request w s request none = refl
  begin_question-request w s request (some q) =
      elim (Bool-cases (is_query h g request.metadata.op_code)) [
        | inr other ↦ rw other refl
        | inl query ↦ (elim (Bool-cases (ltb 0 request.edns_version)) [
          | inl newer ↦ rw (query, newer) refl
          | inr zeroth ↦ rw (query, zeroth) (task_of-request request q.qname s.current _)
        ])
      ]

  -- A request that arrives is in flight, behind the others.
  arrive-requests :
      (w : World h) (request : Request h.Name) (s : Running h g)
      → map (request_of h) (arrive h g w request s).tasks
        ≡ map (request_of h) s.tasks ++ request ∷ []
  unfolding arrive
  arrive-requests w request s =
      map-append (request_of h) s.tasks _
      ∙ ap (λ r. map (request_of h) s.tasks ++ r ∷ [])
          (begin_question-request w s request request.question)

  -- One or two messages are sent for a request.
  abbrev pub IsReplied : Answer h → Type 0
  IsReplied (request, sent) = (1 ≤ length sent) × (length sent ≤ 2)

  answer_of-IsReplied :
      (request : Request h.Name) (sent : List (Message h.Record)) (next : Option (Task h))
      → length sent + 2 * length (to_list next) ≤ 2
      → 1 ≤ length sent + length (to_list next)
      → All IsReplied (answer_of h request sent next)
  answer_of-IsReplied request sent none most least =
      ((omega (arith, least), omega (arith, most)), tt)
  answer_of-IsReplied request sent (some t) most least = tt

  advance-IsReplied :
      (k : ℕ) (w : World h) (s : Running h g)
      → 512 ≤ (served h g s).config.params.max_udp_payload
      → All (IsSure h s.rrl.params.enabled) s.tasks
      → All IsReplied (answered h g (advances k w) s)
  advance-IsReplied k w s fits sure =
      answered_cases h g (λ x. All IsReplied x.0) k w s tt
        (λ before rest t e.
          let (most, kept, least) = advance_task-count h g w t s fits in
          let enabled = s.rrl.params.enabled in
          let (first, mine, others) =
            All-parts (IsSure h enabled) before rest t (subst (All (IsSure h enabled)) e sure) in
          let x = advance_task h g w t s in
          answer_of-IsReplied (request_of h t) x.0 x.1 most (least mine).0)

module _ (h : Hickory) (text : AddressText) (lossy : Bytes → Bytes) (g : Governor)
    (path : Bytes) where
  -- The requests that were answered over a list of events, each with the messages that were sent for it.
  unfoldable pub ledger : List (Event h) → Running h g → List (Answer h)
  ledger [] s = []
  ledger (event ∷ events) s =
      answered h g event s ++ ledger events (step h text lossy g path event s).1

  step-IsKept :
      (event : Event h) (s : Running h g)
      → let x = step h text lossy g path event s in
        IsKept h g
          (answered h g event s, x.0, x.1)
          (map (request_of h) s.tasks ++ arrived h (event ∷ []))
  unfolding step answered arrived IsKept
  step-IsKept (arrives w request) s = (
    subst (λ l. Perm l (map (request_of h) s.tasks ++ request ∷ []))
        (sym (arrive-requests h g w request s)) Perm.rfl,
    refl,
  )
  step-IsKept (advances k w) s =
      let (kept, sent) = advance-IsKept h g k w s in
      (subst (Perm _) (sym (append-nil (map (request_of h) s.tasks))) kept, sent)
  step-IsKept (reloads around) s = (
    subst (Perm (map (request_of h) (reload h text lossy g path around s).tasks))
        (sym (append-nil (map (request_of h) s.tasks)))
        (reload_cases h text lossy g path
          (λ s'. Perm (map (request_of h) s'.tasks) (map (request_of h) s.tasks)) around s Perm.rfl
          (λ next e. Perm.rfl)),
    refl,
  )
  step-IsKept sweeps s = (
    subst (Perm (map (request_of h) s.tasks)) (sym (append-nil (map (request_of h) s.tasks)))
        Perm.rfl,
    refl,
  )

  step-IsReplied :
      (event : Event h) (s : Running h g)
      → IsAccepted h text lossy g s
      → All (IsSure h s.rrl.params.enabled) s.tasks
      → All (IsReplied h g) (answered h g event s)
  unfolding answered IsAccepted
  step-IsReplied (arrives w request) s accepted sure = tt
  step-IsReplied (advances k w) s accepted sure =
      advance-IsReplied h g k w s
        (payload_fits h text lossy (served h g s).config (accepted s.current)) sure
  step-IsReplied (reloads around) s accepted sure = tt
  step-IsReplied sweeps s accepted sure = tt

  arrived-cons :
      (event : Event h) (events : List (Event h))
      → arrived h (event ∷ events) ≡ arrived h (event ∷ []) ++ arrived h events
  unfolding arrived
  arrived-cons (arrives w request) events = refl
  arrived-cons (advances k w) events = refl
  arrived-cons (reloads around) events = refl
  arrived-cons sweeps events = refl

  ledger-IsKept :
      (events : List (Event h)) (s : Running h g)
      → let x = after_events h text lossy g path events s in
        IsKept h g (ledger events s, x.0, x.1) (map (request_of h) s.tasks ++ arrived h events)
  unfolding ledger after_events arrived IsKept
  ledger-IsKept [] s = (
    subst (Perm (map (request_of h) s.tasks)) (sym (append-nil (map (request_of h) s.tasks)))
        Perm.rfl,
    refl,
  )
  ledger-IsKept (event ∷ events) s =
      let x = step h text lossy g path event s in
      let (first, sent) = step-IsKept event s in
      let (others, more) = ledger-IsKept events x.1 in
      let y = after_events h text lossy g path events x.1 in
      let a = answered h g event s in
      let l = ledger events x.1 in
      let tasks = map (request_of h) s.tasks in
      let waiting = map (request_of h) x.1.tasks in
      let first_moved : Perm (requests h a ++ (waiting ++ arrived h events))
          (tasks ++ arrived h (event ∷ events)) =
        rw
          (
            sym (append_assoc (requests h a) waiting (arrived h events)),
            arrived-cons event events,
            sym (append_assoc tasks (arrived h (event ∷ [])) (arrived h events)),
          )
          (Perm.append_right (arrived h events) first) in
      (
        rw
            (
              requests-append h a l,
              append_assoc (requests h a) (requests h l) (map (request_of h) y.1.tasks),
            )
            (Perm.trans (Perm.append_left (requests h a) others) first_moved),
        ap (λ m. m ++ y.0) sent ∙ ap (λ m. messages h a ++ m) more ∙ sym (messages-append h a l),
      )

  ledger-IsReplied :
      (events : List (Event h)) (s : Running h g)
      → IsAccepted h text lossy g s
      → All (IsExemptEvent h s.rrl.params.enabled) events
      → All (IsSure h s.rrl.params.enabled) s.tasks
      → All (IsReplied h g) (ledger events s)
  unfolding ledger IsCounted
  ledger-IsReplied [] s accepted exempt sure = tt
  ledger-IsReplied (event ∷ events) s accepted exempt sure =
      let x = step h text lossy g path event s in
      let (most, kept, least) = step-IsCounted h text lossy g path event s accepted in
      let (n, still) = least exempt.0 sure in
      All-append (IsReplied h g) (answered h g event s) (ledger events x.1)
        (step-IsReplied event s accepted sure)
        (ledger-IsReplied events x.1 (step-IsAccepted h text lossy g path event s accepted)
          (subst (λ (p : RrlParams). All (IsExemptEvent h p.enabled) events) (sym kept) exempt.1)
          (subst (λ (p : RrlParams). All (IsSure h p.enabled) x.1.tasks) (sym kept) still))

  -- Let a server have just been started and any events follow, in any order, where every request is over
  -- TCP or the rate limiter is off. Then the messages that went out are, in order, those of a list of
  -- requests with one or two messages for each; and those requests, with the requests whose tasks are still
  -- there, are the requests that arrived, each as often as it arrived.
  pub after_events-IsReplied :
      (os : Os) (cli : Cli) (around : Surroundings) (sys sys' : os.Sys) (bound : Bound os)
      (st : State h g) (events : List (Event h))
      → run h text lossy g os around cli sys ≡ (ok (serving bound st), sys')
      → All (IsExemptEvent h st.rrl.params.enabled) events
      → let x = after_events h text lossy g path events (opened h g st) in
        let answers = ledger events (opened h g st) in
        (x.0 ≡ messages h answers)
        × All (IsReplied h g) answers
        × Perm (requests h answers ++ map (request_of h) x.1.tasks) (arrived h events)
  unfolding opened IsKept
  after_events-IsReplied os cli around sys sys' bound st events e exempt =
      let (kept, sent) = ledger-IsKept events (opened h g st) in
      (
        sent,
        ledger-IsReplied events (opened h g st)
            (opened-IsAccepted h text lossy g os cli around sys sys' bound st e) exempt tt,
        kept,
      )
