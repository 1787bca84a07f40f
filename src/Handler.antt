-- ===== src/Handler.antt =====
-- src/server/handler.rs: the way of one request, from its arrival to the messages that are sent.
pub mod Payload
pub mod Sending
pub mod Unserved
pub mod Pointers
use panopti_dns.Prelude.{
  ℕ, zero, suc, ◌+◌, min, max, Bool, true, false, not, ◌&&◌, Option, none, some, List, [], ◌∷◌,
  ◌++◌, ltb, leb, ◌==◌, if◌then◌else◌,
}
use panopti_dns.Hickory.{Hickory, RecordType, DnsClass}
use panopti_dns.Config.{IpAddr}
use panopti_dns.Rrl.{Governor, Rrl, Decision, allow, drop_it, truncate}
use panopti_dns.Rrl
use panopti_dns.Server.{
  ResponseCode, serv_fail, not_imp, bad_vers, Reply, error_reply, Zones, Network, decide,
}

pub data OpCode : Type 0 where
  query_op : OpCode
  other_op : ℕ → OpCode

-- The fields of hickory's `Metadata` that the handler sets.
pub record Metadata : Type 0 where
  pub id : ℕ
  pub op_code : OpCode
  pub response_code : ResponseCode
  pub authoritative : Bool
  pub truncation : Bool
  pub recursion_available : Bool
  pub authentic_data : Bool

-- A response: `edns` is the payload that its OPT record advertises.
pub record Message (Record : Type 0) : Type 0 where
  pub metadata : Metadata
  pub edns : Option ℕ
  pub answers : List Record
  pub authority : List Record

-- What `request_info` returns, beside the metadata.
pub record Question (Name : Type 0) : Type 0 where
  pub qname : Name
  pub qtype : RecordType
  pub qclass : DnsClass

pub record Request (Name : Type 0) : Type 0 where
  pub src : IpAddr
  pub is_tcp : Bool
  -- `none` where `request_info` is an error
  pub question : Option (Question Name)
  pub metadata : Metadata
  pub edns_version : ℕ
  pub has_edns : Bool
  pub max_payload : ℕ

-- What `handle_inner` came to: `Ok`, `Err`, or a panic.
pub data Outcome : Type 0 where
  done failed panicked : Outcome

-- `Ord::clamp` panics where the range is empty.
unfoldable pub clamp : ℕ → ℕ → ℕ → Option ℕ
clamp lo hi n = if leb lo hi then some (max lo (min n hi)) else none

pub record State (h : Hickory) (g : Governor) : Type 0 where
  pub zones : Zones h.Name
  pub rrl : Rrl g

-- The server beside its state: how hickory starts a response, whether a message goes out, and the
-- network.
pub record World (h : Hickory) : Type 0 where
  pub response_from_request : Metadata → Metadata
  pub delivers : Message h.Record → Bool
  pub network : Network h

module _ (h : Hickory) (g : Governor) where
  open h use {Name, Record}

  unfoldable pub send_response : World h → Message Record → Outcome × List (Message Record)
  send_response w m = ((if w.delivers m then done else failed), m ∷ [])

  unfoldable pub advertised : ℕ → Request Name → Option (Option ℕ)
  advertised ceiling request =
      if not request.has_edns
      then some none
      else if request.is_tcp
      then some (some ceiling)
      else (elim (clamp 512 ceiling request.max_payload) [ none ↦ none | some n ↦ some (some n) ])

  unfoldable pub message_of : World h → Request Name → Reply Record → Option ℕ → Message Record
  message_of w request reply edns = record {
    metadata = record (w.response_from_request request.metadata) {
      response_code = reply.code;
      authoritative = reply.authoritative;
      recursion_available = false;
      authentic_data = false;
    };
    edns = edns;
    answers = reply.answers;
    authority = reply.authority;
  }

  unfoldable pub send :
      World h → Zones Name → Request Name → Reply Record → Outcome × List (Message Record)
  send w zones request reply = elim (advertised zones.config.params.max_udp_payload request) [
    | none ↦ (panicked, [])
    | some edns ↦ send_response w (message_of w request reply edns)
  ]

  -- The empty truncated response of a rate-limited request.
  unfoldable pub truncated_message : World h → Request Name → Message Record
  truncated_message w request = record {
    metadata = record (w.response_from_request request.metadata) { truncation = true };
    edns = none;
    answers = [];
    authority = [];
  }

  unfoldable pub limited :
      World h
      → Zones Name
      → Request Name
      → Reply Record
      → Decision
      → Outcome × List (Message Record)
  limited w zones request reply allow = send w zones request reply
  limited w zones request reply drop_it = (done, [])
  limited w zones request reply truncate = send_response w (truncated_message w request)

  abbrev pub is_query : OpCode → Bool
  is_query query_op = true
  is_query (other_op n) = false

  unfoldable pub answer_query :
      World h
      → State h g
      → Request Name
      → Question Name
      → Outcome × List (Message Record) × State h g
  answer_query w st request q =
      let (reply, zones) = decide h w.network st.zones q.qname q.qtype q.qclass in
      let (decision, rrl) = Rrl.decide g st.rrl request.src reply.kind request.is_tcp in
      let (outcome, sent) = limited w zones request reply decision in
      (outcome, sent, record { zones = zones; rrl = rrl })

  unfoldable pub handle_question :
      World h
      → State h g
      → Request Name
      → Option (Question Name)
      → Outcome × List (Message Record) × State h g
  handle_question w st request none = (failed, [], st)
  handle_question w st request (some q) =
      if not (is_query request.metadata.op_code)
      then (let (outcome, sent) = send w st.zones request (error_reply not_imp) in
          (outcome, sent, st))
      else if ltb 0 request.edns_version
      then (let (outcome, sent) = send w st.zones request (error_reply bad_vers) in
          (outcome, sent, st))
      else answer_query w st request q

  unfoldable pub handle_inner :
      World h → State h g → Request Name → Outcome × List (Message Record) × State h g
  handle_inner w st request = handle_question w st request request.question

  -- The message of `servfail`, sent whether or not it is delivered.
  unfoldable pub servfail_message : Request Name → Message Record
  servfail_message request = record {
    metadata = record {
      id = request.metadata.id;
      op_code = query_op;
      response_code = serv_fail;
      authoritative = false;
      truncation = false;
      recursion_available = false;
      authentic_data = false;
    };
    edns = none;
    answers = [];
    authority = [];
  }

  abbrev pub after : Request Name → Outcome → List (Message Record) → List (Message Record)
  after request done sent = sent
  after request failed sent = sent ++ servfail_message request ∷ []
  after request panicked sent = sent ++ servfail_message request ∷ []

  -- The messages handed to the transport for one request, and the state after it.
  unfoldable pub handle_request :
      World h → State h g → Request Name → List (Message Record) × State h g
  handle_request w st request =
      let (outcome, sent, st') = handle_inner w st request in (after request outcome sent, st')
