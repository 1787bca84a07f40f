-- ===== src/Tasks/Permits.antt =====
-- The permits of every client, whichever requests are in flight.
use panopti_dns.Prelude.{
  ℕ, suc, ◌+◌, ◌≤◌, ◌<◌, ◌≡◌, refl, inl, inr, Option, none, some, List, [], ◌∷◌, ◌++◌, arith, ◌==◌,
  if◌then◌else◌, Bool-cases, ==_iff,
}
use panopti_dns.Bytes.{Bytes}
use panopti_dns.Hickory.{Hickory, ok}
use panopti_dns.Config.{IpAddr}
use panopti_dns.Config.Compile.{AddressText}
use panopti_dns.Rrl.{Governor, Rrl}
use panopti_dns.Rrl
use panopti_dns.Server.Awaiting.{Progress, ready, waits, begin_decide, finish_decide}
use panopti_dns.Server.Awaiting.Taken.{left_of, taken, begin_decide-taken, finish_decide-taken}
use panopti_dns.Handler.{Request, Question, World, State}
use panopti_dns.Tasks.{
  Task, rejected, asking, decided, sending, Running, Event, arrives, advances, reloads, sweeps,
  put_version, to_list, opened, task_of, begin_question, arrive, advance_task, advance, step,
  after_events, reload,
}
use panopti_dns.Server.Bind.{Os, Bound}
use panopti_dns.Start.Begin.{run-zones}
use panopti_dns.Start.{Cli, Surroundings, run, serving}
use panopti_dns.Tasks.Fresh.{load_zones-IsFresh}
use panopti_dns.Tasks.Held.{
  holds, held, held-append, tasks-held, holds_self, one_waits, stored-left,
}
use panopti_dns.Tasks.Steps.{advance_cases, reload_cases, after_events-Inv}

module _ (h : Hickory) where
  module _ (g : Governor) where
    -- At a version and an address: the permits left and those held are 64, and none is held of a version
    -- that is not in use yet.
    abbrev IsBalancedAt : Running h g → ℕ → IpAddr → Type 0
    IsBalancedAt s v addr =
        (left_of (s.versions v) addr + held h v addr s.tasks ≡ 64)
        × (s.current < v → held h v addr s.tasks ≡ 0)

    unfoldable pub IsBalanced : Running h g → Type 0
    IsBalanced s = (v : ℕ) (addr : IpAddr) → IsBalancedAt s v addr

    task_of-holds :
        (request : Request h.Name) (qname : h.Name) (p : Progress h) (v current : ℕ) (addr : IpAddr)
        → holds h v addr (task_of h g request qname current p)
          ≡ (if v == current then taken h addr p else 0)
    unfolding holds
    task_of-holds request qname (ready reply) v current addr = ground arith
    task_of-holds request qname (waits asked up_qname records) v current addr = refl

    begin_question-holds :
        (w : World h) (s : Running h g) (request : Request h.Name) (o : Option (Question h.Name))
        (v : ℕ) (addr : IpAddr)
        → let x = begin_question h g w s request o in
          (left_of (put_version s.current x.1 s.versions v) addr + holds h v addr x.0
            ≡ left_of (s.versions v) addr)
          × (s.current < v → holds h v addr x.0 ≡ 0)
    unfolding begin_question holds put_version
    begin_question-holds w s request none v addr = elim (Bool-cases (v == s.current)) [
      | inl same ↦ (let e = (==_iff v s.current).0 same in ground arith)
      | inr other ↦ ground arith
    ]
    begin_question-holds w s request (some q) v addr =
        let now = s.versions s.current in
        let x = begin_decide h w.network.now now q.qname q.qtype q.qclass in
        let took = begin_decide-taken h w.network.now now q.qname q.qtype q.qclass addr in
        let mine = task_of-holds request q.qname x.0 v s.current addr in
        elim (Bool-cases (v == s.current)) [
          | inl same ↦ (let e = (==_iff v s.current).0 same in ground arith)
          | inr other ↦ ground arith
        ]

    arrive-IsBalanced :
        (w : World h) (request : Request h.Name) (s : Running h g)
        → IsBalanced s
        → IsBalanced (arrive h g w request s)
    unfolding IsBalanced arrive held
    arrive-IsBalanced w request s b v addr =
        let x = begin_question h g w s request request.question in
        let begun = begin_question-holds w s request request.question v addr in
        let more = held-append h v addr s.tasks (x.0 ∷ []) in
        let (total, unused) = b v addr in
        (
          omega (arith, begun.0, more, total),
          λ above. omega (arith, begun.1 above, more, unused above),
        )

    -- A step of a task that is not the end of a wait.
    same_clients :
        (s : Running h g) (v : ℕ) (addr : IpAddr) (before rest next : List (Task h)) (t : Task h)
        → IsBalancedAt s v addr
        → s.tasks ≡ before ++ t ∷ rest
        → held h v addr (t ∷ []) ≡ held h v addr next
        → (left_of (s.versions v) addr + held h v addr (before ++ (next ++ rest)) ≡ 64)
          × (s.current < v → held h v addr (before ++ (next ++ rest)) ≡ 0)
    unfolding held
    same_clients s v addr before rest next t (total, unused) e same =
        let was = tasks-held h v addr before rest s.tasks t e in
        let now = held-append h v addr before (next ++ rest) in
        let tail = held-append h v addr next rest in
        (
          omega (arith, was, now, tail, same, total),
          λ above. omega (arith, was, now, tail, same, unused above),
        )

    advance-IsBalanced :
        (k : ℕ) (w : World h) (s : Running h g) → IsBalanced s → IsBalanced (advance h g k w s).1
    unfolding IsBalanced advance_task held holds put_version
    advance-IsBalanced k w s b =
        advance_cases h g (λ x. IsBalanced x.1) k w s b (λ before rest t e. moved before rest t e)
      where
        moved :
            (before rest : List (Task h)) (t : Task h)
            → s.tasks ≡ before ++ t ∷ rest
            → let x = advance_task h g w t s in
              IsBalanced (record x.2 { tasks = before ++ (to_list x.1 ++ rest) })
        moved before rest (rejected request) e v addr =
            same_clients s v addr before rest [] (rejected request) (b v addr) e refl
        moved before rest (decided request reply) e v addr =
            same_clients s v addr before rest
              (sending request reply (Rrl.decide g s.rrl request.src reply.kind request.is_tcp).0
                ∷ [])
              (decided request reply) (b v addr) e refl
        moved before rest (sending request reply d) e v addr =
            same_clients s v addr before rest [] (sending request reply d) (b v addr) e refl
        moved before rest (asking request qname version asked up_qname records) e v addr =
            let t = asking request qname version asked up_qname records in
            let waiting : left_of (s.versions version) asked ≤ 63 =
              one_waits h version asked before rest s.tasks t
                (holds_self h request qname version asked up_qname records) e (b version asked).0 in
            let x =
              finish_decide h w.network.later (s.versions version) qname asked up_qname records
                (w.network.ask asked up_qname) in
            let back =
              finish_decide-taken h w.network.later (s.versions version) qname asked up_qname
                records (w.network.ask asked up_qname) addr waiting in
            let next = decided request x.0 in
            let was = tasks-held h v addr before rest s.tasks t e in
            let now = held-append h v addr before (next ∷ rest) in
            let given =
              stored-left h s.versions x.1 request qname version asked up_qname records v addr
                back.1 in
            let (total, unused) = b v addr in
            (omega (arith, was, now, given, total), λ above. omega (arith, was, now, unused above))

    reload-IsBalanced :
        (text : AddressText) (lossy : Bytes → Bytes) (path : Bytes) (around : Surroundings)
        (s : Running h g)
        → IsBalanced s
        → IsBalanced (reload h text lossy g path around s)
    unfolding IsBalanced put_version
    reload-IsBalanced text lossy path around s b =
        reload_cases h text lossy g path IsBalanced around s b (λ next e v addr.
          let (total, unused) = b v addr in
          let fresh = load_zones-IsFresh h text lossy around path next e addr in
          elim (Bool-cases (v == suc s.current)) [
            | inl same ↦ (let ev = (==_iff v (suc s.current)).0 same in ground arith)
            | inr other ↦ ground arith
          ])

    step-IsBalanced :
        (text : AddressText) (lossy : Bytes → Bytes) (path : Bytes) (event : Event h)
        (s : Running h g)
        → IsBalanced s
        → IsBalanced (step h text lossy g path event s).1
    unfolding step IsBalanced
    step-IsBalanced text lossy path (arrives w request) s b = arrive-IsBalanced w request s b
    step-IsBalanced text lossy path (advances k w) s b = advance-IsBalanced k w s b
    step-IsBalanced text lossy path (reloads around) s b =
        reload-IsBalanced text lossy path around s b
    step-IsBalanced text lossy path sweeps s b = b

    -- After any events of a server that was just started, requests, steps of their tasks, reloads and
    -- sweeps in any order: for every version of the zones and every address, the permits that are left to its
    -- client, or 64 where it has none, and those that tasks in flight hold are 64 together; so never more
    -- than 64 queries wait, and none without a client.
    pub after_events-permits :
        (os : Os) (cli : Cli) (text : AddressText) (lossy : Bytes → Bytes) (around : Surroundings)
        (sys sys' : os.Sys) (bound : Bound os) (st : State h g) (events : List (Event h)) (v : ℕ)
        (addr : IpAddr)
        → run h text lossy g os around cli sys ≡ (ok (serving bound st), sys')
        → let s = (after_events h text lossy g cli.config events (opened h g st)).1 in
          (left_of (s.versions v) addr + held h v addr s.tasks ≡ 64) × (held h v addr s.tasks ≤ 64)
    unfolding IsBalanced opened held
    after_events-permits os cli text lossy around sys sys' bound st events v addr e =
        let fresh =
          load_zones-IsFresh h text lossy around cli.config st.zones
            (run-zones h text lossy g os cli around sys sys' bound st e).0 in
        let begun : IsBalanced (opened h g st) = (λ n a. (omega (arith, fresh a), λ above. refl)) in
        let s = (after_events h text lossy g cli.config events (opened h g st)).1 in
        let (total, unused) =
          after_events-Inv h text lossy g cli.config IsBalanced
            (λ event t b. step-IsBalanced text lossy cli.config event t b) events (opened h g st)
            begun v addr in
        (total, omega (arith, total))
