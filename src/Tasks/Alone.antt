-- ===== src/Tasks/Alone.antt =====
-- A request that is alone: its steps, one after the other, are `handle_request`.
use mathlib.Core.Path.{subst}
use panopti_dns.Prelude.{
  ℕ, ◌≡◌, refl, ap, inl, inr, Option, none, some, List, [], ◌∷◌, ◌++◌, ltb, ◌∙◌, Bool-cases,
  replicate, ==_iff,
}
use panopti_dns.Bytes.{Bytes}
use panopti_dns.Hickory.{Hickory}
use panopti_dns.Config.Compile.{AddressText}
use panopti_dns.Rrl.{Governor, Rrl, Decision, allow}
use panopti_dns.Rrl
use panopti_dns.Server.{Reply, Zones}
use panopti_dns.Server.Awaiting.{Progress, ready, waits, begin_decide, finish_decide}
use panopti_dns.Server.Awaiting.Whole.{settled, decide_whole}
use panopti_dns.Handler.{
  Request, Question, Message, State, World, is_query, limited, after, answer_query, handle_question,
  handle_inner, handle_request,
}
use panopti_dns.Tasks.{
  Task, decided, sending, Running, arrives, advances, put_version, select, served, task_of,
  begin_question, arrive, advance_task, advance, step, after_events,
}

append_nil {ℓ} : {A : Type ℓ} (xs : List A) → xs ++ [] ≡ xs
append_nil [] = refl
append_nil (x ∷ xs) = ap (◌∷◌ x) (append_nil xs)

module _ (h : Hickory) (g : Governor) where
  -- The state that a request would meet.
  abbrev pub state_now : Running h g → State h g
  state_now s = record { zones = served h g s; rrl = s.rrl }

  -- The same messages and the same state, with no task left.
  unfoldable pub IsSame :
      List (Message h.Record) × Running h g → List (Message h.Record) × State h g → Type 0
  IsSame x y = (x.0 ≡ y.0) × (x.1.tasks ≡ []) × (state_now x.1 ≡ y.1)

module _ (h : Hickory) (text : AddressText) (lossy : Bytes → Bytes) (g : Governor) (path : Bytes)
    (w : World h) where
  open h use {Name, Record}

  -- Three steps of the only task.
  unfoldable three : Task h → Running h g → List (Message Record) × Running h g
  three t s =
      after_events h text lossy g path (replicate 3 (advances 0 w)) (record s { tasks = t ∷ [] })

  sending_lem :
      (request : Request Name) (reply : Reply Record) (d : Decision) (s : Running h g)
      → IsSame h g (three (sending request reply d) s) (
          let x = limited h g w (served h g s) request reply d in
          (after h g request x.0 x.1, state_now h g s))
  unfolding IsSame three after_events step advance select advance_task
  sending_lem request reply d s = (append_nil _, refl, refl)

  decided_lem :
      (request : Request Name) (reply : Reply Record) (s : Running h g)
      → IsSame h g (three (decided request reply) s) (
          let (d, r) = Rrl.decide g s.rrl request.src reply.kind request.is_tcp in
          let x = limited h g w (served h g s) request reply d in
          (after h g request x.0 x.1, record { zones = served h g s; rrl = r }))
  unfolding IsSame three after_events step advance select advance_task
  decided_lem request reply s = (append_nil _, refl, refl)

  same_version :
      (n : ℕ) (z : Zones Name) (versions : ℕ → Zones Name) → put_version n z versions n ≡ z
  unfolding put_version
  same_version n z versions = rw ((==_iff n n).1 refl) refl

  -- What is left of `answer_query` once there is a reply.
  unfoldable answered :
      Request Name → Rrl g → Reply Record × Zones Name → List (Message Record) × State h g
  answered request rrl (reply, zones) =
      let (d, r) = Rrl.decide g rrl request.src reply.kind request.is_tcp in
      let x = limited h g w zones request reply d in
      (after h g request x.0 x.1, record { zones = zones; rrl = r })

  asking_lem :
      (request : Request Name) (qname : Name) (p : Progress h) (s : Running h g)
      → IsSame h g
          (three (task_of h g request qname s.current p) s)
          (answered request s.rrl (settled h w.network qname (p, served h g s)))
  unfolding IsSame three after_events step advance select advance_task settled answered
  asking_lem request qname (ready reply) s = (append_nil _, refl, refl)
  asking_lem request qname (waits addr up_qname records) s =
      let (reply, zones) =
        finish_decide h w.network.later (served h g s) qname addr up_qname records
          (w.network.ask addr up_qname) in
      rw (same_version s.current zones s.versions) (append_nil _, refl, refl)

  -- The state right after a request has arrived, beside its task.
  abbrev stored : Zones Name → Running h g → Running h g
  stored zones s = record s { versions = put_version s.current zones s.versions }

  by_query :
      (request : Request Name) (q : Question Name) (s : Running h g)
      → let x = begin_decide h w.network.now (served h g s) q.qname q.qtype q.qclass in
        IsSame h g (three (task_of h g request q.qname s.current x.0) (stored x.1 s)) (
          let y = answer_query h g w (state_now h g s) request q in
          (after h g request y.0 y.1, y.2))
  unfolding answered answer_query
  by_query request q s =
      let x = begin_decide h w.network.now (served h g s) q.qname q.qtype q.qclass in
      subst
        (λ r.
          IsSame h g (three (task_of h g request q.qname s.current x.0) (stored x.1 s))
            (answered request s.rrl r))
        (ap (λ z. settled h w.network q.qname (x.0, z)) (same_version s.current x.1 s.versions)
          ∙ decide_whole h w.network (served h g s) q.qname q.qtype q.qclass)
        (asking_lem request q.qname x.0 (stored x.1 s))

  by_question :
      (request : Request Name) (s : Running h g) (o : Option (Question Name))
      → IsSame h g
          (three
            (begin_question h g w s request o).0
            (stored (begin_question h g w s request o).1 s))
          (let x = handle_question h g w (state_now h g s) request o in
            (after h g request x.0 x.1, x.2))
  unfolding IsSame three after_events step advance select advance_task begin_question
      handle_question limited
  by_question request s none =
      rw (same_version s.current (served h g s) s.versions) (append_nil _, refl, refl)
  by_question request s (some q) = elim (Bool-cases (is_query h g request.metadata.op_code)) [
    | inr other ↦
        rw (other, same_version s.current (served h g s) s.versions) (append_nil _, refl, refl)
    | inl query ↦ (elim (Bool-cases (ltb 0 request.edns_version)) [
      | inl newer ↦
          rw (query, newer, same_version s.current (served h g s) s.versions)
            (append_nil _, refl, refl)
      | inr zeroth ↦ rw (query, zeroth) (by_query request q s)
    ])
  ]

  -- If no task is in flight and no other event comes in between, a request that arrives and three steps of
  -- its task send the messages of `handle_request` and leave its state, and no task is left, whatever
  -- the request is.
  alone-handle_request :
      (request : Request Name) (s : Running h g)
      → s.tasks ≡ []
      → IsSame h g
          (after_events h text lossy g path (arrives w request ∷ replicate 3 (advances 0 w)) s)
          (handle_request h g w (state_now h g s) request)
  unfolding after_events step arrive handle_request handle_inner three begin_question
  alone-handle_request request s idle =
      rw (step, arrive, idle) (by_question request s request.question)
