-- ===== src/Tasks/Pointers.antt =====
-- A PTR query for a name that a zone has, among other requests in flight.
use mathlib.Core.Path.{subst}
use panopti_dns.Prelude.{
  ℕ, sym, ◌^◌, ◌≤◌, ◌<◌, ◌≡◌, refl, ap, true, false, ◌⊎◌, none, some, List, [], ◌∷◌, ◌++◌, arith,
}
use panopti_dns.Bytes.{Bytes}
use panopti_dns.Hickory.{Hickory, IsDocumented, ok, ptr, ptr_data, same_labels}
use panopti_dns.Nibble.Ptr.{ptr_labels}
use panopti_dns.Config.{Zone, RrlParams}
use panopti_dns.Config.Compile.{AddressText}
use panopti_dns.Rrl.{Governor, allow}
use panopti_dns.Rrl.Budgets.{decide_exempt}
use panopti_dns.Zone.{answer, resolve, zone_for_addr, match_zone_forward}
use panopti_dns.Zone.RoundTrip.{parse_config-round_trip}
use panopti_dns.Zone.Compiled.{is_plain}
use panopti_dns.Server.{Reply, no_error, answer_reply, apex_of}
use panopti_dns.Server.Awaiting.{begin_decide, begin_resolved, begin_override}
use panopti_dns.Server.Bind.{Os, Bound}
use panopti_dns.Start.{Cli, Surroundings, run, serving}
use panopti_dns.Start.Invariant.{IsAcceptedConfig, payload_fits}
use panopti_dns.Handler.{Request, State, Message, World, limited}
use panopti_dns.Handler.Payload.{send_once}
use panopti_dns.Handler.Pointers.{IsPlainPtr}
use panopti_dns.Tasks.{
  decided, sending, Running, Event, opened, served, begin_question, arrive, advance_task,
  after_events,
}
use panopti_dns.Tasks.Accepted.{IsAccepted, after_events-IsAccepted}
use panopti_dns.Tasks.Answered.{IsCounted, opened-IsCounted}

module _ (h : Hickory) (g : Governor) where
  begin_question_ptr :
      (w : World h) (s : Running h g) (request : Request h.Name) (qname : h.Name) (z : Zone h.Name)
      (r : h.Record)
      → IsPlainPtr request qname
      → resolve h (served h g s).config qname ptr ≡ answer z (r ∷ [])
      → z.upstream ≡ none
      → (begin_question h g w s request request.question).0
        ≡ decided request (answer_reply h (served h g s).config qname (r ∷ []))
  unfolding begin_question begin_decide begin_resolved begin_override apex_of
  begin_question_ptr w s request qname z r (asked, query, version) found alone =
      rw (asked, query, version, found, alone) refl

  -- The step in which the rate limiter is asked about a request that is exempt.
  decided_allowed :
      (w : World h) (s : Running h g) (request : Request h.Name) (reply : Reply h.Record)
      → (request.is_tcp ≡ true) ⊎ (s.rrl.params.enabled ≡ false)
      → (advance_task h g w (decided request reply) s).1 ≡ some (sending request reply allow)
  unfolding advance_task
  decided_allowed w s request reply exempt =
      ap (λ x. some (sending request reply (x.0)))
        (decide_exempt g s.rrl request.src reply.kind request.is_tcp exempt)

  -- The step in which a reply that is allowed is sent.
  sending_once :
      (w : World h) (s : Running h g) (request : Request h.Name) (reply : Reply h.Record)
      → 512 ≤ (served h g s).config.params.max_udp_payload
      → ((m : Message h.Record) → w.delivers m ≡ true)
      → (m : Message h.Record) × ((advance_task h g w (sending request reply allow) s).0 ≡ m ∷ [])
        × (m.answers ≡ reply.answers)
        × (m.metadata.response_code ≡ reply.code)
  unfolding advance_task limited
  sending_once w s request reply fits delivered =
      let (m, sent, answers, authority, code, recursion, authentic, opt) =
        send_once h g w (served h g s) request reply fits in
      (m, ground (arith, delivered m), answers, code)

module _ (h : Hickory) (text : AddressText) (lossy : Bytes → Bytes) (g : Governor) (os : Os)
    (cli : Cli) (around : Surroundings) (sys sys' : os.Sys) (bound : Bound os)
    (st : State h g) where
  abbrev after_start : List (Event h) → Running h g
  after_start events = (after_events h text lossy g cli.config events (opened h g st)).1

  -- The limiter's parameters are those of the start.
  after_start-params :
      (events : List (Event h))
      → run h text lossy g os around cli sys ≡ (ok (serving bound st), sys')
      → (after_start events).rrl.params ≡ st.rrl.params
  unfolding IsCounted opened
  after_start-params events e =
      (opened-IsCounted h text lossy g cli.config os cli around sys sys' bound st events e).1

  after_start-IsAcceptedConfig :
      (events : List (Event h))
      → run h text lossy g os around cli sys ≡ (ok (serving bound st), sys')
      → IsAcceptedConfig h text lossy (served h g (after_start events)).config
  unfolding IsAccepted
  after_start-IsAcceptedConfig events e =
      after_events-IsAccepted h text lossy g os cli around sys sys' bound st events e
        (after_start events).current

  -- Let a PTR query of class IN with the opcode of a query and version 0 of EDNS, over TCP or with the
  -- rate limiter off, arrive after any events of a server that was just started, for the reverse name,
  -- in any case, of an address below 2 ^ 128 that is in a zone of the configuration then in force, the
  -- zone without an upstream and its template without a literal `*` in front. Then it gets a task behind
  -- the others, with its reply; in the task's first step, whatever events of the server came before it,
  -- the limiter allows the reply; and in its second, whatever events came before that one, reloads too,
  -- if messages go out, one message is sent, without an error, with one PTR record owned by the name
  -- that was asked for, whose target the zone of the configuration in force at the arrival maps back to
  -- the address.
  pub after_events-round_trip :
      (doc : IsDocumented h) (before between behind : List (Event h)) (w w' w'' : World h)
      (request : Request h.Name) (qname : h.Name) (z : Zone h.Name) (addr : ℕ)
      → run h text lossy g os around cli sys ≡ (ok (serving bound st), sys')
      → ((m : Message h.Record) → w''.delivers m ≡ true)
      → IsPlainPtr request qname
      → (request.is_tcp ≡ true) ⊎ (st.rrl.params.enabled ≡ false)
      → addr < 2 ^ 128
      → same_labels (h.iter qname) (ptr_labels addr) ≡ true
      → zone_for_addr h (served h g (after_start before)).config addr ≡ some z
      → z.upstream ≡ none
      → is_plain z.fwd.labels ≡ true
      → (reply : Reply h.Record) × (target : h.Name) × (m : Message h.Record) × ((arrive h g w
            request
            (after_start before)).tasks
          ≡ (after_start before).tasks ++ decided request reply ∷ [])
        × ((advance_task h g w' (decided request reply) (after_start between)).1
            ≡ some (sending request reply allow))
        × ((advance_task h g w'' (sending request reply allow) (after_start behind)).0 ≡ m ∷ [])
        × (m.answers ≡ h.from_rdata qname z.ttl (ptr_data target) ∷ [])
        × (m.metadata.response_code ≡ no_error)
        × (match_zone_forward h z target ≡ some addr)
  unfolding IsAcceptedConfig arrive answer_reply
  after_events-round_trip doc before between behind w w' w'' request qname z addr e delivered query
        exempt below reverse chosen alone plain =
      let s = after_start before in
      let s' = after_start between in
      let s'' = after_start behind in
      let accepted = after_start-IsAcceptedConfig before e in
      let config = (served h g s).config in
      let (target, found, back) =
        parse_config-round_trip h doc text lossy accepted.0 config z qname addr accepted.1 below
          reverse chosen plain in
      let reply = answer_reply h config qname (h.from_rdata qname z.ttl (ptr_data target) ∷ []) in
      let begun = begin_question_ptr h g w s request qname z _ query found alone in
      let exempt' =
        subst (λ (p : RrlParams). (request.is_tcp ≡ true) ⊎ (p.enabled ≡ false))
          (sym (after_start-params between e)) exempt in
      let (m, sent, answers, code) =
        sending_once h g w'' s'' request reply
          (payload_fits h text lossy (served h g s'').config
            (after_start-IsAcceptedConfig behind e))
          delivered in
      (
        reply,
        target,
        m,
        ap (λ t. s.tasks ++ t ∷ []) begun,
        decided_allowed h g w' s' request reply exempt',
        sent,
        answers,
        code,
        back,
      )
