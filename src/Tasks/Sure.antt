-- ===== src/Tasks/Sure.antt =====
-- The messages that a step of one task sends.
use panopti_dns.Prelude.{
  ℕ, suc, ◌+◌, ◌*◌, ◌≤◌, ◌≡◌, refl, ap, ◌⊎◌, inl, inr, Bool, true, false, Option, none, some, List,
  [], ◌∷◌, arith, ltb, length, All, Bool-cases,
}
use panopti_dns.Hickory.{Hickory}
use panopti_dns.Rrl.{Governor, allow}
use panopti_dns.Rrl.Budgets.{decide_exempt}
use panopti_dns.Server.Awaiting.{Progress, ready, waits}
use panopti_dns.Handler.{Request, Question, World, is_query}
use panopti_dns.Handler.Sending.{limited-count}
use panopti_dns.Start.Invariant.{decide-params}
use panopti_dns.Tasks.{
  Task, rejected, asking, decided, sending, Running, Event, arrives, advances, reloads, sweeps,
  to_list, served, task_of, begin_question, advance_task,
}

-- TCP, or a limiter that is off.
abbrev pub IsExempt : {Name : Type 0} → Bool → Request Name → Type 0
IsExempt enabled request = (request.is_tcp ≡ true) ⊎ (enabled ≡ false)

module _ (h : Hickory) where
  -- A task that the limiter does not stop.
  abbrev pub IsSure : Bool → Task h → Type 0
  IsSure enabled (rejected request) = Unit {0}
  IsSure enabled (asking request qname version asked up_qname records) = IsExempt enabled request
  IsSure enabled (decided request reply) = IsExempt enabled request
  IsSure enabled (sending request reply decision) = decision ≡ allow

  -- The requests of a list of events, and whether each is exempt.
  unfoldable pub arrivals : List (Event h) → ℕ
  arrivals [] = 0
  arrivals (arrives w request ∷ events) = suc (arrivals events)
  arrivals (advances k w ∷ events) = arrivals events
  arrivals (reloads around ∷ events) = arrivals events
  arrivals (sweeps ∷ events) = arrivals events

  abbrev pub IsExemptEvent : Bool → Event h → Type 0
  IsExemptEvent enabled (arrives w request) = IsExempt enabled request
  IsExemptEvent enabled (advances k w) = Unit {0}
  IsExemptEvent enabled (reloads around) = Unit {0}
  IsExemptEvent enabled sweeps = Unit {0}

  module _ (g : Governor) where
    task_of-IsSure :
        (enabled : Bool) (request : Request h.Name) (qname : h.Name) (version : ℕ) (p : Progress h)
        → IsExempt enabled request
        → IsSure enabled (task_of h g request qname version p)
    task_of-IsSure enabled request qname version (ready reply) e = e
    task_of-IsSure enabled request qname version (waits asked up_qname records) e = e

    pub begin_question-IsSure :
        (enabled : Bool) (w : World h) (s : Running h g) (request : Request h.Name)
        (o : Option (Question h.Name))
        → IsExempt enabled request
        → IsSure enabled (begin_question h g w s request o).0
    unfolding begin_question
    begin_question-IsSure enabled w s request none e = tt
    begin_question-IsSure enabled w s request (some q) e =
        elim (Bool-cases (is_query h g request.metadata.op_code)) [
          | inr other ↦ rw other refl
          | inl query ↦ (elim (Bool-cases (ltb 0 request.edns_version)) [
            | inl newer ↦ rw (query, newer) refl
            | inr zeroth ↦ rw (query, zeroth) (task_of-IsSure enabled request q.qname s.current _ e)
          ])
        ]

    -- A step of a task sends two messages at most when it ends, and none before; a sure task ends with one
    -- message at least, and stays sure.
    pub advance_task-count :
        (w : World h) (t : Task h) (s : Running h g)
        → 512 ≤ (served h g s).config.params.max_udp_payload
        → let x = advance_task h g w t s in
          let next = to_list x.1 in
          (length x.0 + 2 * length next ≤ 2)
          × (x.2.rrl.params ≡ s.rrl.params)
          × (IsSure s.rrl.params.enabled t
              → (1 ≤ length x.0 + length next) × All (IsSure s.rrl.params.enabled) next)
    unfolding advance_task
    advance_task-count w (rejected request) s fits = (omega arith, refl, λ sure. (omega arith, tt))
    advance_task-count w (asking request qname version asked up_qname records) s fits =
        (omega arith, refl, λ sure. (omega arith, (sure, tt)))
    advance_task-count w (decided request reply) s fits = (
      omega arith,
      decide-params g s.rrl request.src reply.kind request.is_tcp,
      λ sure. (
        omega arith,
        (ap (λ x. x.0) (decide_exempt g s.rrl request.src reply.kind request.is_tcp sure), tt),
      ),
    )
    advance_task-count w (sending request reply d) s fits =
        let (most, least) = limited-count h g w (served h g s) request reply d fits in
        (omega (arith, most), refl, λ sure. (omega (arith, least (λ e. cc)), tt))
