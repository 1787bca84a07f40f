-- ===== src/Handler/Pointers.antt =====
-- A PTR query for a name that a zone has, from its arrival to the message that answers it.
use panopti_dns.Prelude.{◌≤◌, ◌≡◌, refl, none, some, true, false, ◌⊎◌, [], ◌∷◌, arith}
use panopti_dns.Hickory.{Hickory, ptr, in_class}
use panopti_dns.Config.{Zone}
use panopti_dns.Rrl.{Governor}
use panopti_dns.Rrl.Budgets.{decide_exempt}
use panopti_dns.Zone.{answer, resolve}
use panopti_dns.Server.{
  Zones, Network, no_error, decide, decide_resolved, override, answer_reply, apex_of,
}
use panopti_dns.Handler.{
  State, World, Request, Message, query_op, handle_request, handle_inner, handle_question,
  answer_query, limited,
}
use panopti_dns.Handler.Payload.{send_once}

-- A plain PTR query over TCP or with the limiter off: an opcode of a query, and no later version of EDNS.
abbrev pub IsPlainPtr : {Name : Type 0} → Request Name → Name → Type 0
IsPlainPtr request qname =
    (request.question ≡ some (record { qname = qname; qtype = ptr; qclass = in_class }))
    × (request.metadata.op_code ≡ query_op)
    × (request.edns_version ≡ 0)

module _ (h : Hickory) (g : Governor) where
  decide_ptr :
      (net : Network h) (zones : Zones h.Name) (qname : h.Name) (z : Zone h.Name) (r : h.Record)
      → resolve h zones.config qname ptr ≡ answer z (r ∷ [])
      → z.upstream ≡ none
      → decide h net zones qname ptr in_class ≡ (answer_reply h zones.config qname (r ∷ []), zones)
  unfolding decide decide_resolved override apex_of
  decide_ptr net zones qname z r found alone = rw (found, alone) refl

  -- If a zone without an upstream has one record for a plain PTR query that the limiter exempts, the
  -- payload is at least 512 and messages go out, then one message is sent: no error, and that record.
  pub handle_request_ptr :
      (w : World h) (st : State h g) (request : Request h.Name) (qname : h.Name) (z : Zone h.Name)
      (r : h.Record)
      → 512 ≤ st.zones.config.params.max_udp_payload
      → IsPlainPtr request qname
      → (request.is_tcp ≡ true) ⊎ (st.rrl.params.enabled ≡ false)
      → ((m : Message h.Record) → w.delivers m ≡ true)
      → resolve h st.zones.config qname ptr ≡ answer z (r ∷ [])
      → z.upstream ≡ none
      → (m : Message h.Record) × ((handle_request h g w st request).0 ≡ m ∷ [])
        × (m.answers ≡ r ∷ [])
        × (m.metadata.response_code ≡ no_error)
  unfolding handle_request handle_inner handle_question answer_query limited answer_reply
  handle_request_ptr w st request qname z r fits (asked, query, version) exempt delivered found
        alone =
      let reply = answer_reply h st.zones.config qname (r ∷ []) in
      let (m, sent, answers, authority, code, recursion, authentic, opt) =
        send_once h g w st.zones request reply fits in
      let decided = decide_ptr w.network st.zones qname z r found alone in
      let allowed = decide_exempt g st.rrl request.src reply.kind request.is_tcp exempt in
      (m, ground (arith, delivered m), answers, code)
