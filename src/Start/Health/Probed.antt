-- ===== src/Start/Health/Probed.antt =====
-- The health check against the server itself.
use panopti_dns.Prelude.{ℕ, ◌≤◌, ◌≡◌, ◌≢◌, refl, ◌∙◌, false, some, List, [], ◌∷◌, length, arith}
use panopti_dns.Bytes.{Bytes, codes}
use panopti_dns.Hickory.{Hickory, ok, soa, in_class}
use panopti_dns.Rrl.{Governor, Decision, allow, drop_it, truncate}
use panopti_dns.Rrl
use panopti_dns.Server.{decide, no_error}
use panopti_dns.Server.Clients.{decide-config}
use panopti_dns.Handler.{
  State, World, Request, Message, query_op, limited, answer_query, handle_question, handle_inner,
  handle_request, after,
}
use panopti_dns.Handler.Sending.{limited-count}
use panopti_dns.Start.Health.{
  ExitCode, Received, received, timed_out, Probe, or_text, localhost, probe_name, judge,
  healthcheck, success, failure, exit_of,
}

-- What the health check ends with, by what the rate limiter decides on the reply.
abbrev pub exit_for : Decision → ExitCode × Bytes
exit_for allow = (success, [])
exit_for drop_it = (failure, codes "health check timed out\n")
exit_for truncate = (success, [])

module _ (h : Hickory) where
  -- The request that the probe's message is: over UDP, from this host, with opcode QUERY and without
  -- EDNS. `Message::query` chooses the id.
  abbrev pub probe_request : ℕ → h.Name → Request h.Name
  probe_request id name = record {
    src = localhost;
    is_tcp = false;
    question = some (record { qname = name; qtype = soa; qclass = in_class });
    metadata = record {
      id = id;
      op_code = query_op;
      response_code = no_error;
      authoritative = false;
      truncation = false;
      recursion_available = false;
      authentic_data = false;
    };
    edns_version = 0;
    has_edns = false;
    max_payload = 512;
  }

  -- What the probe receives where messages go out in this order, or none does.
  abbrev pub first_of : (Message h.Record → Bytes) → List (Message h.Record) → Received
  first_of encode [] = timed_out
  first_of encode (m ∷ ms) = received (length (encode m))

  module _ (g : Governor) where
    -- The decision of the limiter on the reply to the probe.
    abbrev pub probe_decision : World h → State h g → h.Name → Decision
    probe_decision w st name =
        (Rrl.decide g st.rrl localhost (decide h w.network st.zones name soa in_class).0.kind
          false).0

    first_of-count :
        (encode : Message h.Record → Bytes) (ms : List (Message h.Record))
        → ((m : Message h.Record) → 1 ≤ length (encode m))
        → 1 ≤ length ms
        → judge (first_of encode ms) ≡ ok tt
    unfolding judge
    first_of-count encode [] full some_sent = absurd (omega arith)
    first_of-count encode (m ∷ ms) full some_sent = ground (arith, full m)

    handle_request-probe :
        (w : World h) (st : State h g) (id : ℕ) (name : h.Name)
        → (handle_request h g w st (probe_request id name)).0 ≡ (
            let r = decide h w.network st.zones name soa in_class in
            let x = limited h g w r.1 (probe_request id name) r.0 (probe_decision w st name) in
            after h g (probe_request id name) x.0 x.1)
    unfolding handle_request handle_inner handle_question answer_query
    handle_request-probe w st id name = refl

    probe_counted :
        (w : World h) (st : State h g) (id : ℕ) (name : h.Name)
        → 512 ≤ st.zones.config.params.max_udp_payload
        → (probe_decision w st name ≢ drop_it)
        → 1 ≤ length (handle_request h g w st (probe_request id name)).0
    probe_counted w st id name fits passed =
        let r = decide h w.network st.zones name soa in_class in
        let ceiling : 512 ≤ r.1.config.params.max_udp_payload =
          rw (decide-config h w.network st.zones name soa in_class) fits in
        let c =
          limited-count h g w r.1 (probe_request id name) r.0 (probe_decision w st name) ceiling in
        rw (handle_request-probe w st id name) (c.1 passed)

    probe_dropped :
        (w : World h) (st : State h g) (id : ℕ) (name : h.Name)
        → (probe_decision w st name ≡ drop_it)
        → (handle_request h g w st (probe_request id name)).0 ≡ []
    unfolding limited
    probe_dropped w st id name dropped =
        handle_request-probe w st id name ∙ rw (limited, dropped) refl

    -- If the configured payload is at least 512, no call of the probe fails, each message has a byte at
    -- least, and the probe receives the first of the messages that the server sends for its request, or
    -- nothing where there is none: the health check ends with success if the rate limiter allows or
    -- truncates the reply, whatever that reply is, REFUSED too; and with failure, saying that it timed out,
    -- if the limiter drops it.
    pub healthcheck-handle_request :
        (p : Probe h.Name) (port : ℕ) (encode : Message h.Record → Bytes) (w : World h)
        (st : State h g) (id : ℕ) (name : h.Name) (bytes : Bytes) (socket : p.Socket)
        → p.from_ascii probe_name ≡ ok name
        → p.to_bytes name soa in_class ≡ ok bytes
        → p.bind localhost 0 ≡ ok socket
        → p.send_to socket bytes localhost port ≡ ok tt
        → p.recv_from socket ≡ first_of encode (handle_request h g w st (probe_request id name)).0
        → ((m : Message h.Record) → 1 ≤ length (encode m))
        → 512 ≤ st.zones.config.params.max_udp_payload
        → exit_of (healthcheck p port) ≡ exit_for (probe_decision w st name)
    unfolding healthcheck or_text judge exit_of
    healthcheck-handle_request p port encode w st id name bytes socket named encoded bound sent
          received_first full fits =
        let judged : healthcheck p port
            ≡ judge (first_of encode (handle_request h g w st (probe_request id name)).0) =
          rw (healthcheck, named, encoded, bound, sent, received_first) refl in
        by_decision (probe_decision w st name) refl judged
      where
        by_decision :
            (d : Decision)
            → probe_decision w st name ≡ d
            → healthcheck p port
              ≡ judge (first_of encode (handle_request h g w st (probe_request id name)).0)
            → exit_of (healthcheck p port) ≡ exit_for d
        by_decision drop_it e judged = rw (judged, probe_dropped w st id name e) refl
        by_decision allow e judged =
            rw (judged, first_of-count encode _ full (probe_counted w st id name fits (λ d. cc)))
              refl
        by_decision truncate e judged =
            rw (judged, first_of-count encode _ full (probe_counted w st id name fits (λ d. cc)))
              refl
