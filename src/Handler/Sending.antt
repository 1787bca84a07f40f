-- ===== src/Handler/Sending.antt =====
-- How many messages a request gets, and what it changes.
use panopti_dns.Prelude.{
  ◌≤◌, ◌≡◌, ◌≢◌, refl, ◌⊎◌, Bool, true, false, not, Option, none, some, List, [], ◌∷◌, arith, ltb,
  if◌then◌else◌, length, All,
}
use panopti_dns.Hickory.{Hickory}
use panopti_dns.Rrl.{Governor, Rrl, Decision, allow, drop_it, truncate}
use panopti_dns.Rrl
use panopti_dns.Rrl.Budgets.{decide_exempt}
use panopti_dns.Server.Clients.{decide-config}
use panopti_dns.Server.{ResponseCode, Zones, Reply, decide, error_reply, not_imp, bad_vers}
use panopti_dns.Handler.{
  Request, Question, Message, Outcome, done, failed, World, State, send_response, send, limited,
  truncated_message, is_query, answer_query, handle_question, handle_inner, servfail_message, after,
  handle_request,
}
use panopti_dns.Handler.Payload.{send_once}

-- A response with nothing in its sections.
abbrev pub IsBare : {Record : Type 0} → Message Record → Type 0
IsBare m = (m.answers ≡ []) × (m.authority ≡ [])

module _ (h : Hickory) (g : Governor) where
  -- One message, and the outcome that its transport gave.
  unfoldable pub IsAttempt :
      World h → (Message h.Record → Type 0) → Outcome × List (Message h.Record) → Type 0
  IsAttempt w P x =
      (m : Message h.Record) × (x ≡ ((if w.delivers m then done else failed), m ∷ [])) × P m

  pub send-IsAttempt :
      (w : World h) (zones : Zones h.Name) (request : Request h.Name) (reply : Reply h.Record)
      → 512 ≤ zones.config.params.max_udp_payload
      → IsAttempt w
          (λ m. (m.answers ≡ reply.answers) × (m.authority ≡ reply.authority))
          (send h g w zones request reply)
  unfolding IsAttempt
  send-IsAttempt w zones request reply le =
      let s = send_once h g w zones request reply le in (s.0, s.1, (s.2, s.3))

  after-count :
      (w : World h) (P : Message h.Record → Type 0) (request : Request h.Name)
      (x : Outcome × List (Message h.Record))
      → IsAttempt w P x
      → (1 ≤ length (after h g request x.0 x.1)) × (length (after h g request x.0 x.1) ≤ 2)
  unfolding IsAttempt
  after-count w P request x (m, e, p) = rw e (settled (w.delivers m))
    where
      settled :
          (b : Bool)
          → (1 ≤ length (after h g request (if b then done else failed) (m ∷ [])))
            × (length (after h g request (if b then done else failed) (m ∷ [])) ≤ 2)
      settled true = ground arith
      settled false = ground arith

  pub after-IsBare :
      (w : World h) (request : Request h.Name) (x : Outcome × List (Message h.Record))
      → IsAttempt w IsBare x
      → All IsBare (after h g request x.0 x.1)
  unfolding IsAttempt servfail_message
  after-IsBare w request x (m, e, p) = rw e (settled (w.delivers m))
    where
      settled : (b : Bool) → All IsBare (after h g request (if b then done else failed) (m ∷ []))
      settled true = (p, tt)
      settled false = (p, ((refl, refl), tt))

  pub limited-count :
      (w : World h) (zones : Zones h.Name) (request : Request h.Name) (reply : Reply h.Record)
      (d : Decision)
      → 512 ≤ zones.config.params.max_udp_payload
      → (let x = limited h g w zones request reply d in
          (length (after h g request x.0 x.1) ≤ 2)
          × ((d ≢ drop_it) → 1 ≤ length (after h g request x.0 x.1)))
  unfolding limited send_response IsAttempt
  limited-count w zones request reply allow le =
      let c =
        after-count w _ request (send h g w zones request reply)
          (send-IsAttempt w zones request reply le) in
      (c.1, λ e. c.0)
  limited-count w zones request reply drop_it le = (ground arith, λ e. absurd (e refl))
  limited-count w zones request reply truncate le =
      let m = truncated_message h g w request in
      let c = after-count w (λ m. Unit {0}) request (send_response h g w m) (m, refl, tt) in
      (c.1, λ e. c.0)

  -- TCP, or a limiter that is off.
  abbrev IsExempt : State h g → Request h.Name → Type 0
  IsExempt st request = (request.is_tcp ≡ true) ⊎ (st.rrl.params.enabled ≡ false)

  allow_ne_drop : allow ≢ drop_it
  allow_ne_drop = λ e. cc

  IsCounted : State h g → Request h.Name → Outcome × List (Message h.Record) × State h g → Type 0
  IsCounted st request x =
      (length (after h g request x.0 x.1) ≤ 2)
      × (IsExempt st request → 1 ≤ length (after h g request x.0 x.1))

  if-IsCounted :
      (st : State h g) (request : Request h.Name) (b : Bool)
      (x y : Outcome × List (Message h.Record) × State h g)
      → IsCounted st request x
      → IsCounted st request y
      → IsCounted st request (if b then x else y)
  if-IsCounted st request true x y hx hy = hx
  if-IsCounted st request false x y hx hy = hy

  answer_query-count :
      (w : World h) (st : State h g) (request : Request h.Name) (q : Question h.Name)
      → 512 ≤ st.zones.config.params.max_udp_payload
      → IsCounted st request (answer_query h g w st request q)
  unfolding answer_query IsCounted
  answer_query-count w st request q le =
      let r = decide h w.network st.zones q.qname q.qtype q.qclass in
      let d = Rrl.decide g st.rrl request.src r.0.kind request.is_tcp in
      let ceiling : 512 ≤ r.1.config.params.max_udp_payload =
        rw (decide-config h w.network st.zones q.qname q.qtype q.qclass) le in
      let c = limited-count w r.1 request r.0 d.0 ceiling in
      (
        c.0,
        λ e. c.1 (rw (decide_exempt g st.rrl request.src r.0.kind request.is_tcp e) allow_ne_drop),
      )

  handle_question-count :
      (w : World h) (st : State h g) (request : Request h.Name) (q : Option (Question h.Name))
      → 512 ≤ st.zones.config.params.max_udp_payload
      → IsCounted st request (handle_question h g w st request q)
  unfolding handle_question IsCounted
  handle_question-count w st request none le = (ground arith, λ e. ground arith)
  handle_question-count w st request (some q) le =
      if-IsCounted st request (not (is_query h g request.metadata.op_code)) _ _ (by_reply not_imp) (
        if-IsCounted st request (ltb 0 request.edns_version) _ _ (by_reply bad_vers)
          (answer_query-count w st request q le))
    where
      by_reply :
          (c : ResponseCode)
          → IsCounted st request (
            (send h g w st.zones request (error_reply c)).0,
            (send h g w st.zones request (error_reply c)).1,
            st,
          )
      by_reply c =
          let k =
            after-count w _ request _ (send-IsAttempt w st.zones request (error_reply c) le) in
          (k.1, λ e. k.0)

  -- If the configured payload is at least 512, every request is answered with two messages at most;
  -- over TCP, and with the rate limiter off, with one at least, whatever the request asks for.
  pub handle_request_count :
      (w : World h) (st : State h g) (request : Request h.Name)
      → 512 ≤ st.zones.config.params.max_udp_payload
      → (length (handle_request h g w st request).0 ≤ 2)
        × ((request.is_tcp ≡ true) ⊎ (st.rrl.params.enabled ≡ false)
            → 1 ≤ length (handle_request h g w st request).0)
  unfolding handle_request handle_inner IsCounted
  handle_request_count w st request le = handle_question-count w st request request.question le
