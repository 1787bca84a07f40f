-- ===== src/Handler/Unserved.antt =====
-- Requests that get no records: of another kind or version than the server's, or over budget.
use panopti_dns.Prelude.{
  ◌≤◌, ◌<◌, ◌≡◌, ◌≢◌, refl, ap, ◌⊎◌, inl, inr, [], ◌∷◌, if◌then◌else◌, Bool, true, false, some,
  arith, ltb, All,
}
use panopti_dns.Hickory.{Hickory}
use panopti_dns.Rrl.{Governor, Decision, allow, drop_it, truncate}
use panopti_dns.Rrl
use panopti_dns.Server.{Zones, Reply, ResponseCode, decide, error_reply, not_imp, bad_vers}
use panopti_dns.Handler.{
  OpCode, query_op, other_op, Message, servfail_message, done, failed, Request, Question, World,
  State, send_response, send, limited, truncated_message, is_query, answer_query, handle_question,
  handle_inner, after, handle_request,
}
use panopti_dns.Handler.Payload.{send_once}
use panopti_dns.Handler.Sending.{IsBare, IsAttempt, send-IsAttempt, after-IsBare}

module _ (h : Hickory) (g : Governor) where
  send-error-IsBare :
      (w : World h) (zones : Zones h.Name) (request : Request h.Name) (c : ResponseCode)
      → 512 ≤ zones.config.params.max_udp_payload
      → All IsBare (
          after h g request
            (send h g w zones request (error_reply c)).0
            (send h g w zones request (error_reply c)).1)
  send-error-IsBare w zones request c le =
      after-IsBare h g w request _ (send-IsAttempt h g w zones request (error_reply c) le)

  limited-IsBare :
      (w : World h) (zones : Zones h.Name) (request : Request h.Name) (reply : Reply h.Record)
      (d : Decision)
      → d ≢ allow
      → All IsBare (
          after h g request
            (limited h g w zones request reply d).0
            (limited h g w zones request reply d).1)
  unfolding limited send_response IsAttempt truncated_message
  limited-IsBare w zones request reply allow differs = absurd (differs refl)
  limited-IsBare w zones request reply drop_it differs = tt
  limited-IsBare w zones request reply truncate differs =
      after-IsBare h g w request (send_response h g w (truncated_message h g w request))
        (truncated_message h g w request, refl, (refl, refl))

  -- `handle_request` for a request with a question.
  asked_request :
      (w : World h) (st : State h g) (request : Request h.Name) (q : Question h.Name)
      → request.question ≡ some q
      → (let x = handle_question h g w st request (some q) in
          handle_request h g w st request ≡ (after h g request x.0 x.1, x.2))
  unfolding handle_request handle_inner
  asked_request w st request q asked =
      ap
        (λ o. (
          after h g request (handle_question h g w st request o).0
              (handle_question h g w st request o).1,
          (handle_question h g w st request o).2,
        ))
        asked

  after-sent :
      (request : Request h.Name) (m : Message h.Record) (b : Bool)
      → after h g request (if b then done else failed) (m ∷ [])
        ≡ m ∷ (if b then [] else servfail_message h g request ∷ [])
  after-sent request m true = refl
  after-sent request m false = refl

  -- NOTIMP for another opcode, else BADVERS.
  abbrev pub refusal : OpCode → ResponseCode
  refusal query_op = bad_vers
  refusal (other_op n) = not_imp

  -- Another opcode than QUERY, or a version of EDNS other than 0.
  abbrev pub IsUnsupported : Request h.Name → Type 0
  IsUnsupported request = (request.metadata.op_code ≢ query_op) ⊎ (0 < request.edns_version)

  handle_question-unsupported :
      (w : World h) (st : State h g) (request : Request h.Name) (q : Question h.Name)
      → IsUnsupported request
      → (let x = send h g w st.zones request (error_reply (refusal request.metadata.op_code)) in
          handle_question h g w st request (some q) ≡ (x.0, x.1, st))
  unfolding handle_question
  handle_question-unsupported w st request q e = by_op request.metadata.op_code refl
    where
      by_op :
          (op : OpCode)
          → request.metadata.op_code ≡ op
          → (let x = send h g w st.zones request (error_reply (refusal request.metadata.op_code)) in
              handle_question h g w st request (some q) ≡ (x.0, x.1, st))
      by_op (other_op n) o = rw (handle_question, ap (is_query h g) o, ap refusal o) refl
      by_op query_op o =
          let newer : ltb 0 request.edns_version ≡ true = (elim e [
            | inl other ↦ absurd (other o)
            | inr lt ↦ ground arith
          ]) in
          rw (handle_question, ap (is_query h g) o, ap refusal o, newer) refl

  handle_question-query :
      (w : World h) (st : State h g) (request : Request h.Name) (q : Question h.Name)
      → request.metadata.op_code ≡ query_op
      → request.edns_version ≡ 0
      → handle_question h g w st request (some q) ≡ answer_query h g w st request q
  unfolding handle_question
  handle_question-query w st request q op version =
      let query : is_query h g request.metadata.op_code ≡ true = ap (is_query h g) op in
      let old : ltb 0 request.edns_version ≡ false = ground arith in rw (query, old) refl

  -- If the configured payload is at least 512, a request with a question that is not a QUERY, or whose
  -- version of EDNS is not 0, gets one message with the code NOTIMP if it is not a QUERY and BADVERS
  -- otherwise, with empty sections; a SERVFAIL behind it exactly if that message is not delivered; and
  -- the server's state stays as it was.
  pub handle_request_unsupported :
      (w : World h) (st : State h g) (request : Request h.Name) (q : Question h.Name)
      → 512 ≤ st.zones.config.params.max_udp_payload
      → request.question ≡ some q
      → IsUnsupported request
      → (m : Message h.Record) × ((handle_request h g w st request).0
          ≡ m ∷ (if w.delivers m then [] else servfail_message h g request ∷ []))
        × (m.metadata.response_code ≡ refusal request.metadata.op_code)
        × (m.answers ≡ [])
        × (m.authority ≡ [])
        × ((handle_request h g w st request).1 ≡ st)
  handle_request_unsupported w st request q le asked e =
      let x = handle_question-unsupported w st request q e in
      let (m, sent, answers, authority, code, recursion, authentic, opt) =
        send_once h g w st.zones request (error_reply (refusal request.metadata.op_code)) le in
      let whole = asked_request w st request q asked in
      (
        m,
        rw (whole, x, sent) (after-sent request m (w.delivers m)),
        code,
        answers,
        authority,
        rw (whole, x) refl,
      )

  -- A query that the rate limiter does not allow is answered, if at all, with messages whose sections
  -- are empty.
  pub handle_request_over_budget :
      (w : World h) (st : State h g) (request : Request h.Name) (q : Question h.Name)
      → request.question ≡ some q
      → request.metadata.op_code ≡ query_op
      → request.edns_version ≡ 0
      → (Rrl.decide g st.rrl request.src
          (decide h w.network st.zones q.qname q.qtype q.qclass).0.kind
          request.is_tcp).0
        ≢ allow
      → All IsBare (handle_request h g w st request).0
  unfolding answer_query
  handle_request_over_budget w st request q asked op version over =
      let r = decide h w.network st.zones q.qname q.qtype q.qclass in
      rw (asked_request w st request q asked, handle_question-query w st request q op version)
        (limited-IsBare w r.1 request r.0
          (Rrl.decide g st.rrl request.src r.0.kind request.is_tcp).0 over)
