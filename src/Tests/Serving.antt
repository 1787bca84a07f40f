-- ===== src/Tests/Serving.antt =====
-- The theorems on the rate limiter, the upstream clients and the handler, applied.
use panopti_dns.Prelude.{
  map, is_empty, ℕ, ◌+◌, ◌*◌, ◌≤◌, ◌<◌, ◌≡◌, ◌≢◌, ◌↔◌, refl, min, ◌⊎◌, inl, true, false, none, some,
  List, [], ◌∷◌, arith, length, keep_if, All, find_first, find_map, if◌then◌else◌,
}
use panopti_dns.Bytes.{codes, to_lower}
use panopti_dns.Hickory.{ptr_data, ptr, aaaa, in_class}
use panopti_dns.Config.{Zone, v4, v6, default_rrl_params, apexes}
use panopti_dns.Zone.{
  resolve, resolve_forward, resolve_none, match_forward, match_zone_forward, match_labels,
  match_label, zone_containing, reverse_has_type,
}
use panopti_dns.Rrl.{
  clear_low, Kind, answer_kind, negative_kind, Decision, allow, drop_it, truncate, Rrl, client_key,
  limiter_of, suppress, slip_decision, with_limiter,
}
use panopti_dns.Rrl
use panopti_dns.Rrl.Keys.{SharesPrefix, client_key_iff}
use panopti_dns.Rrl.Budgets.{decide_charged, truncations, truncations_share}
use panopti_dns.Upstream.{
  found, begin_lookup, try_acquire, new_upstream, upstream_qname, Breaker, closed_breaker, is_open,
  is_open_at, record_failure, record_success, Upstream, Lookup, elapsed, is_allowed,
  filter_upstream,
}
use panopti_dns.Upstream.Filter.{IsRelayable, filter_upstream-IsRelayable}
use panopti_dns.Upstream.Circuit.{failures_at, counting, record_failure_trips}
use panopti_dns.Upstream.Blackout.{Call, IsAskable, timed_out, all_timed_out, begin_lookup-blackout}
use panopti_dns.Server.{
  override, Zones, error_reply, not_imp, no_error, Network, decide, apex_of, decide_resolved,
  no_zone_reply, no_name_reply, new_zones,
}
use panopti_dns.Server.Clients.{IsCovered, new_zones_total}
use panopti_dns.Server.Override.{override_safe}
use panopti_dns.Server.Replies.{IsCoherent, decide-IsCoherent}
use panopti_dns.Handler.{
  OpCode, query_op, other_op, Metadata, Message, Question, Request, done, failed, State, World,
  send, handle_request,
}
use panopti_dns.Handler.Payload.{IsAdvertisable, send_once}
use panopti_dns.Handler.Sending.{IsBare}
use panopti_dns.Handler.Unserved.{handle_request_unsupported, handle_request_over_budget}
use panopti_dns.Tests.Instances.{SmallName, SmallRecord, small, small-IsDocumented, counter}
use panopti_dns.Tests.Names.{lab, two_zones, relative}

abbrev limiter : Rrl counter
limiter = record { params = default_rrl_params; answers = 1; negatives = 0; suppressed = 0 }

client_key_iff_example :
    (client_key (v4 0xc0000201) 24 64 ≡ client_key (v4 0xc00002ff) 24 64)
    ↔ SharesPrefix 24 64 (v4 0xc0000201) (v4 0xc00002ff)
client_key_iff_example =
    client_key_iff (v4 0xc0000201) (v4 0xc00002ff) 24 64 (omega arith) (omega arith)

decide_charged_example :
    (((Rrl.decide counter limiter (v4 1) negative_kind false).0 ≡ allow) ↔ (
      (counter.check_key (limiter_of counter negative_kind limiter) (client_key (v4 1) 24 64)).0
      ≡ true))
    × (limiter_of counter negative_kind (Rrl.decide counter limiter (v4 1) negative_kind false).1
        ≡ (counter.check_key
            (limiter_of counter negative_kind limiter)
            (client_key (v4 1) 24 64)).1)
    × (limiter_of counter answer_kind (Rrl.decide counter limiter (v4 1) negative_kind false).1
        ≡ limiter_of counter answer_kind limiter)
decide_charged_example = decide_charged counter limiter (v4 1) negative_kind refl

truncations_share_example :
    (5 ≤ 2 * truncations counter 5 limiter) × (2 * truncations counter 5 limiter < 5 + 2)
truncations_share_example = truncations_share counter limiter 5 refl (omega arith) (omega arith)

abbrev overridden : SmallRecord
overridden = record {
  name = relative (codes "a" ∷ codes "upstream" ∷ []);
  ttl = 5;
  content = ptr_data (relative (codes "b" ∷ []));
}

filter_upstream-IsRelayable_example :
    All (IsRelayable small (relative (codes "a" ∷ []))) (
      filter_upstream small
        (relative (codes "a" ∷ []))
        (relative (codes "a" ∷ codes "upstream" ∷ []))
        (overridden ∷ []))
    × (length (
          filter_upstream small
            (relative (codes "a" ∷ []))
            (relative (codes "a" ∷ codes "upstream" ∷ []))
            (overridden ∷ []))
        ≡ min 8 (
            length (
              keep_if
                (is_allowed small (relative (codes "a" ∷ codes "upstream" ∷ [])))
                (overridden ∷ []))))
filter_upstream-IsRelayable_example =
    filter_upstream-IsRelayable small small-IsDocumented (relative (codes "a" ∷ []))
      (relative (codes "a" ∷ codes "upstream" ∷ [])) (overridden ∷ [])

abbrev seven_times : List ℕ
seven_times = 1 ∷ 2 ∷ 3 ∷ 4 ∷ 5 ∷ 6 ∷ 7 ∷ []

record_failure_trips_example :
    (failures_at seven_times closed_breaker ≡ counting 7)
    × (record_failure 8 (failures_at seven_times closed_breaker)
        ≡ (true, record { poisoned = false; consecutive_failures = 8; open_until = some 10008 }))
    × (record_success (failures_at seven_times closed_breaker) ≡ closed_breaker)
record_failure_trips_example = record_failure_trips seven_times 8 refl

abbrev tripped : Breaker
tripped = record { poisoned = false; consecutive_failures = 8; open_until = some 10008 }

abbrev client : Upstream
client = record { addr = v6 1; permits = 64; breaker = tripped; timeout = 300 }

abbrev answers_nothing : SmallName → Lookup SmallRecord
answers_nothing n = elapsed

abbrev call : ℕ → Call small
call n = record { now = n; later = n + 300; qname = relative [] }

root_asked : upstream_qname small (relative []) ≡ some (relative (codes "upstream" ∷ []))
unfolding upstream_qname
root_asked = refl

abbrev root_askable : IsAskable small (relative [])
root_askable = (relative (codes "upstream" ∷ []), root_asked)

begin_lookup-blackout_example :
    let u =
      timed_out small
        (call 8)
        (all_timed_out small (map call seven_times) (new_upstream (v6 1) 300)) in
    (begin_lookup small 10307 (relative []) u ≡ (none, u))
    × (begin_lookup small 10308 (relative []) u ≡ (
      some (relative (codes "upstream" ∷ [])),
      record {
        addr = v6 1;
        permits = 63;
        breaker = record { poisoned = false; consecutive_failures = 0; open_until = none };
        timeout = 300;
      },
    ))
begin_lookup-blackout_example =
    begin_lookup-blackout small (v6 1) 300 (map call seven_times) (call 8) 10307 10308 (relative [])
      (relative []) (relative (codes "upstream" ∷ [])) refl
      (
        root_askable,
        (
          root_askable,
          (root_askable, (root_askable, (root_askable, (root_askable, (root_askable, tt))))),
        ),
      )
      root_askable (omega arith) (omega arith) root_asked

abbrev network : Network small
network = record { ask = λ a. answers_nothing; now = 0; later = 300 }

abbrev zones : Zones SmallName
zones = record { config = two_zones; upstreams = [] }

decide-IsCoherent_example :
    IsCoherent small two_zones (decide small network zones (relative []) ptr in_class).0
decide-IsCoherent_example = decide-IsCoherent small network zones (relative []) ptr in_class

abbrev pub world : World small
world = record { response_from_request = λ m. m; delivers = λ m. true; network = network }

abbrev pub metadata_of : OpCode → Metadata
metadata_of op = record {
  id = 7;
  op_code = op;
  response_code = no_error;
  authoritative = false;
  truncation = false;
  recursion_available = false;
  authentic_data = false;
}

abbrev question : Question SmallName
question = record { qname = relative (codes "nowhere" ∷ []); qtype = aaaa; qclass = in_class }

abbrev request : OpCode → Request SmallName
request op = record {
  src = v4 1;
  is_tcp = false;
  question = some question;
  metadata = metadata_of op;
  edns_version = 0;
  has_edns = true;
  max_payload = 4096;
}

abbrev state : State small counter
state = record { zones = zones; rrl = limiter }

send_once_example :
    (m : Message SmallRecord) × (send small counter world zones
        (request query_op)
        (error_reply not_imp)
      ≡ ((if world.delivers m then done else failed), m ∷ []))
    × (m.answers ≡ [])
    × (m.authority ≡ [])
    × (m.metadata.response_code ≡ not_imp)
    × (m.metadata.recursion_available ≡ false)
    × (m.metadata.authentic_data ≡ false)
    × IsAdvertisable 1232 true m.edns
send_once_example =
    send_once small counter world zones (request query_op) (error_reply not_imp) (omega arith)

handle_request_unsupported_example :
    let x = handle_request small counter world state (request (other_op 5)) in
    (m : Message SmallRecord) × (x.0 ≡ m ∷ [])
    × (m.metadata.response_code ≡ not_imp)
    × (m.answers ≡ [])
    × (m.authority ≡ [])
    × (x.1 ≡ state)
handle_request_unsupported_example =
    handle_request_unsupported small counter world state (request (other_op 5)) question
      (omega arith) refl (inl (λ e. cc))

unknown_name : (decide small network zones question.qname aaaa in_class).0.kind ≡ negative_kind
unfolding decide apex_of apexes decide_resolved resolve resolve_forward resolve_none match_forward
    match_zone_forward match_labels match_label zone_containing find_first find_map reverse_has_type
    no_zone_reply no_name_reply to_lower
unknown_name = refl

truncated :
    Rrl.decide counter limiter (v4 1) negative_kind false
    ≡ (truncate, record limiter { suppressed = 1 })
unfolding Rrl.decide client_key clear_low limiter_of with_limiter suppress slip_decision
truncated = refl

unanswered :
    (Rrl.decide counter limiter
      (v4 1)
      (decide small network zones question.qname aaaa in_class).0.kind
      false).0
    ≢ allow
unanswered = rw (unknown_name, truncated) (λ e. cc)

handle_request_over_budget_example :
    All IsBare (handle_request small counter world state (request query_op)).0
handle_request_over_budget_example =
    handle_request_over_budget small counter world state (request query_op) question refl refl refl
      unanswered

abbrev fresh : Upstream
fresh = new_upstream (v6 1) 300

first_sent :
    (begin_lookup small 5 (relative (codes "a" ∷ [])) fresh).0
    ≡ some (relative (codes "a" ∷ codes "upstream" ∷ []))
unfolding begin_lookup is_open is_open_at try_acquire new_upstream upstream_qname
first_sent = refl

-- A network whose upstream names the host, and a zone with that upstream.
abbrev helpful : Network small
helpful = record { ask = λ a n. found (overridden ∷ []); now = 0; later = 20 }

abbrev lab_with_upstream : Zone SmallName
lab_with_upstream = record lab { upstream = some (v6 1) }

override_safe_example :
    (((override small helpful lab_with_upstream
          (relative (codes "a" ∷ []))
          (overridden ∷ [])
          ((v6 1, fresh) ∷ [])).0
        ≡ overridden ∷ [])
      ⊎ All
          (IsRelayable small (relative (codes "a" ∷ [])))
          (override small helpful lab_with_upstream
            (relative (codes "a" ∷ []))
            (overridden ∷ [])
            ((v6 1, fresh) ∷ [])).0)
    × (false ≡ false
        → is_empty
            (override small helpful lab_with_upstream
              (relative (codes "a" ∷ []))
              (overridden ∷ [])
              ((v6 1, fresh) ∷ [])).0
          ≡ false)
override_safe_example =
    override_safe small small-IsDocumented helpful lab_with_upstream (relative (codes "a" ∷ []))
      (overridden ∷ []) ((v6 1, fresh) ∷ [])

new_zones_total_example :
    (made : Zones SmallName) × (new_zones (λ a. true) two_zones ≡ some made)
    × (made.config ≡ two_zones)
    × All (IsCovered made.upstreams) two_zones.zones
new_zones_total_example = new_zones_total (λ a. true) two_zones (λ a. refl)
