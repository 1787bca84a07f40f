-- ===== src/Tasks.antt =====
-- Requests in flight at once: src/server/handler.rs with its awaits, and the reloader and the sweeper of
-- src/main.rs, which run in between. Each request is a task; what it does from one await to the next is
-- one step, and the tasks' steps come in any order.
pub mod Alone
pub mod Steps
pub mod Fresh
pub mod Held
pub mod Permits
pub mod Versions
pub mod Accepted
pub mod Sure
pub mod Ledger
pub mod Answered
pub mod Replied
pub mod Pointers
use panopti_dns.Prelude.{
  ℕ, zero, suc, ◌+◌, Bool, not, Option, none, some, List, [], ◌∷◌, ◌++◌, ltb, ◌==◌, if◌then◌else◌,
}
use panopti_dns.Bytes.{Bytes}
use panopti_dns.Hickory.{Hickory, Result, ok, err}
use panopti_dns.Config.{IpAddr}
use panopti_dns.Config.Compile.{AddressText}
use panopti_dns.Rrl.{Governor, Rrl, Decision, allow}
use panopti_dns.Rrl
use panopti_dns.Server.{Reply, error_reply, not_imp, bad_vers, Zones, Network}
use panopti_dns.Server.Awaiting.{Progress, ready, waits, begin_decide, finish_decide}
use panopti_dns.Handler.{
  Request, Question, Message, Outcome, failed, State, World, is_query, limited, after,
}
use panopti_dns.Start.{Surroundings, load_zones}

-- Where the task of a request is: `request_info` was an error; it waits for an upstream of a version of
-- the zones; its reply is decided; the limiter has decided too.
pub data Task (h : Hickory) : Type 0 where
  rejected : Request h.Name → Task h
  asking : Request h.Name → h.Name → ℕ → IpAddr → h.Name → List h.Record → Task h
  decided : Request h.Name → Reply h.Record → Task h
  sending : Request h.Name → Reply h.Record → Decision → Task h

-- The zones of each number, the number of those that are served now, the limiter, and the tasks. A
-- task keeps the zones that it has loaded alive: the numbers above the current one are not in use yet.
pub record Running (h : Hickory) (g : Governor) : Type 0 where
  pub versions : ℕ → Zones h.Name
  pub current : ℕ
  pub rrl : Rrl g
  pub tasks : List (Task h)

-- What the server meets: a request; the next step of the task at a position; SIGHUP; the sweeper's tick.
pub data Event (h : Hickory) : Type 0 where
  arrives : World h → Request h.Name → Event h
  advances : ℕ → World h → Event h
  reloads : Surroundings → Event h
  sweeps : Event h

unfoldable pub put_version {ℓ} : {A : Type ℓ} → ℕ → A → (ℕ → A) → ℕ → A
put_version n z versions i = if i == n then z else versions i

-- The element at a position, between those before and after it.
unfoldable pub select {ℓ} : {A : Type ℓ} → ℕ → List A → Option (List A × A × List A)
select k [] = none
select zero (t ∷ ts) = some ([], t, ts)
select (suc k) (t ∷ ts) = elim (select k ts) [
  | none ↦ none
  | some (before, u, rest) ↦ some (t ∷ before, u, rest)
]

abbrev pub to_list {ℓ} : {A : Type ℓ} → Option A → List A
to_list none = []
to_list (some a) = a ∷ []

module _ (h : Hickory) (g : Governor) where
  open h use {Name, Record}

  -- `self.zones.load()`
  abbrev pub served : Running h g → Zones Name
  served s = s.versions s.current

  -- A server that has just started.
  unfoldable pub opened : State h g → Running h g
  opened st = record { versions = λ i. st.zones; current = 0; rrl = st.rrl; tasks = [] }

  abbrev pub task_of : Request Name → Name → ℕ → Progress h → Task h
  task_of request qname version (ready reply) = decided request reply
  task_of request qname version (waits addr up_qname records) =
      asking request qname version addr up_qname records

  -- `handle_inner`, up to its first await.
  unfoldable pub begin_question :
      World h → Running h g → Request Name → Option (Question Name) → Task h × Zones Name
  begin_question w s request none = (rejected request, served s)
  begin_question w s request (some q) =
      if not (is_query h g request.metadata.op_code)
      then (sending request (error_reply not_imp) allow, served s)
      else if ltb 0 request.edns_version
      then (sending request (error_reply bad_vers) allow, served s)
      else (let (progress, zones) =
            begin_decide h w.network.now (served s) q.qname q.qtype q.qclass in
          (task_of request q.qname s.current progress, zones))

  unfoldable pub arrive : World h → Request Name → Running h g → Running h g
  arrive w request s =
      let (task, zones) = begin_question w s request request.question in
      record s { versions = put_version s.current zones s.versions; tasks = s.tasks ++ task ∷ [] }

  -- One step of a task: the messages that it sends, and the task that is left of it.
  unfoldable pub advance_task :
      World h → Task h → Running h g → List (Message Record) × Option (Task h) × Running h g
  advance_task w (rejected request) s = (after h g request failed [], none, s)
  advance_task w (asking request qname version addr up_qname records) s =
      let (reply, zones) =
        finish_decide h w.network.later (s.versions version) qname addr up_qname records
          (w.network.ask addr up_qname) in
      (
        [],
        some (decided request reply),
        record s { versions = put_version version zones s.versions },
      )
  advance_task w (decided request reply) s =
      let (decision, rrl) = Rrl.decide g s.rrl request.src reply.kind request.is_tcp in
      ([], some (sending request reply decision), record s { rrl = rrl })
  advance_task w (sending request reply decision) s =
      let (outcome, sent) = limited h g w (served s) request reply decision in
      (after h g request outcome sent, none, s)

  unfoldable pub advance : ℕ → World h → Running h g → List (Message Record) × Running h g
  advance k w s = elim (select k s.tasks) [
    | none ↦ ([], s)
    | some (before, task, rest) ↦
        (let (sent, next, s') = advance_task w task s in
          (sent, record s' { tasks = before ++ (to_list next ++ rest) }))
  ]

module _ (h : Hickory) (text : AddressText) (lossy : Bytes → Bytes) (g : Governor) where
  -- The zones that a reload stores have a number of their own.
  unfoldable pub reload : Bytes → Surroundings → Running h g → Running h g
  reload path around s = elim (load_zones h text lossy around path) [
    | ok next ↦ record s {
      versions = put_version (suc s.current) next s.versions;
      current = suc s.current;
    }
    | err e ↦ s
  ]

  unfoldable pub step : Bytes → Event h → Running h g → List (Message h.Record) × Running h g
  step path (arrives w request) s = ([], arrive h g w request s)
  step path (advances k w) s = advance h g k w s
  step path (reloads around) s = ([], reload path around s)
  step path sweeps s = ([], record s { rrl = Rrl.sweep g s.rrl })

  -- The messages that go out over a list of events, and the server after them.
  unfoldable pub after_events :
      Bytes → List (Event h) → Running h g → List (Message h.Record) × Running h g
  after_events path [] s = ([], s)
  after_events path (event ∷ events) s =
      let (sent, s') = step path event s in
      let (others, s'') = after_events path events s' in (sent ++ others, s'')
