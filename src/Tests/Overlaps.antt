-- ===== src/Tests/Overlaps.antt =====
-- The theorems on requests in flight at once, applied to a server with an upstream.
use mathlib.Core.List.{Perm}
use panopti_dns.Prelude.{
  ◌++◌, All, inl, ◌+◌, ◌*◌, ◌≤◌, ◌≡◌, refl, some, List, [], ◌∷◌, arith, length, map,
}
use panopti_dns.Bytes.{codes}
use panopti_dns.Hickory.{ok, ptr_data}
use panopti_dns.Config.{v6}
use panopti_dns.Rrl
use panopti_dns.Upstream.{new_upstream}
use panopti_dns.Server.{
  new_zones, clients_loop, add_upstream, add_client, get_client, put_client, answer_reply, Reply,
  no_error,
}
use panopti_dns.Server.Bind.{
  keep_v6_apart, configure, bind_one, bind_loop, bind_all, or_fail, pure, ◌>>=◌,
}
use panopti_dns.Server.Awaiting.Served.{IsServed}
use panopti_dns.Handler.{Message, State}
use panopti_dns.Start.{
  Surroundings, serving, parse_listen, parse_listens, effective_listen, load_config, zones_of,
  serve, run,
}
use panopti_dns.Start.Trim.{trim, trim_start, trim_end, trim_loop, drop_space}
use panopti_dns.Tasks.{
  Running, Event, arrives, advances, reloads, sweeps, asking, decided, opened, advance_task,
  after_events, arrive, sending, served, step,
}
use panopti_dns.Tasks.Held.{held}
use panopti_dns.Tasks.Permits.{after_events-permits}
use panopti_dns.Tasks.Accepted.{IsAccepted, after_events-IsAccepted}
use panopti_dns.Rrl.{allow}
use panopti_dns.Zone.{match_zone_forward, zone_for_addr}
use panopti_dns.Tasks.Pointers.{after_events-round_trip}
use panopti_dns.Tests.Instances.{SmallName, small-IsDocumented, SmallRecord, small, texts, counter}
use panopti_dns.Tests.Names.{address, reverse_name_same, reverse_name}
use panopti_dns.Tests.Configs.{
  network_zone, chosen_zone, same, relayed_input, relayed, relayed_input_reads,
}
use panopti_dns.Tests.Starting.{
  started, runs, numbering, on_command_line, default_wildcard, around, started_bound, asks_ptr,
}
use panopti_dns.Tasks.Versions.{after_events-answer}
use panopti_dns.Tasks.Sure.{arrivals}
use panopti_dns.Server.Awaiting.Taken.{left_of}
use panopti_dns.Tasks.Answered.{after_events-count}
use panopti_dns.Tasks.Ledger.{request_of, requests, messages, arrived}
use panopti_dns.Tasks.Replied.{ledger, IsReplied, after_events-IsReplied}
use panopti_dns.Tests.Serving.{world}

abbrev nearby : Surroundings
nearby = record around { read_to_string = λ path. ok relayed_input }

abbrev relaying : State small counter
relaying = record {
  zones = record {
    config = relayed;
    upstreams = (v6 0, new_upstream (v6 0) relayed.params.upstream_timeout) ∷ [];
  };
  rrl = Rrl.new counter relayed.params.rrl;
}

relayed_listens : effective_listen texts on_command_line relayed ≡ ok default_wildcard
unfolding effective_listen parse_listens parse_listen trim trim_start trim_end trim_loop drop_space
relayed_listens = refl

relayed_loaded : load_config small texts same nearby (codes "panoptidns.conf") ≡ ok relayed
unfolding load_config
relayed_loaded = rw (load_config, relayed_input_reads) refl

relaying_runs :
    run small texts same counter numbering nearby on_command_line 0
    ≡ (ok (serving started_bound relaying), 2)
unfolding serve zones_of new_zones clients_loop add_upstream add_client get_client put_client
    keep_v6_apart configure bind_one bind_loop bind_all or_fail pure ◌>>=◌ run Rrl.new
relaying_runs = rw (run, relayed_loaded, serve, relayed_listens) refl

-- Two requests wait for the upstream while the file is read again; then the first of them goes on.
abbrev overlapping : List (Event small)
overlapping =
    arrives world asks_ptr
    ∷ arrives world asks_ptr
    ∷ reloads nearby
    ∷ advances 0 world
    ∷ sweeps
    ∷ advances 0 world
    ∷ []

abbrev overlapped : Running small counter
overlapped =
    (after_events small texts same counter (codes "panoptidns.conf") overlapping
      (opened small counter relaying)).1

after_events-permits_example :
    (left_of (overlapped.versions 0) (v6 0) + held small 0 (v6 0) overlapped.tasks ≡ 64)
    × (held small 0 (v6 0) overlapped.tasks ≤ 64)
after_events-permits_example =
    after_events-permits small counter numbering on_command_line texts same nearby 0 2 started_bound
      relaying overlapping 0 (v6 0) relaying_runs

after_events-IsAccepted_example : IsAccepted small texts same counter overlapped
after_events-IsAccepted_example =
    after_events-IsAccepted small texts same counter numbering on_command_line nearby 0 2
      started_bound relaying overlapping relaying_runs

abbrev overlapped_messages : List (Message SmallRecord)
overlapped_messages =
    (after_events small texts same counter (codes "panoptidns.conf") overlapping
      (opened small counter relaying)).0

after_events-count_example :
    length overlapped_messages + 2 * length overlapped.tasks ≤ 2 * arrivals small overlapping
after_events-count_example =
    after_events-count small texts same counter (codes "panoptidns.conf") numbering on_command_line
      nearby 0 2 started_bound relaying overlapping relaying_runs

after_events-IsReplied_example :
    let answers =
      ledger small texts same counter
        (codes "panoptidns.conf")
        overlapping
        (opened small counter relaying) in
    (overlapped_messages ≡ messages small answers)
    × All (IsReplied small counter) answers
    × Perm
        (requests small answers ++ map (request_of small) overlapped.tasks)
        (asks_ptr ∷ asks_ptr ∷ [])
unfolding arrived
after_events-IsReplied_example =
    after_events-IsReplied small texts same counter (codes "panoptidns.conf") numbering
      on_command_line nearby 0 2 started_bound relaying overlapping relaying_runs
      (inl refl, (inl refl, (tt, (tt, (tt, (tt, tt))))))

-- After a reload, a request that waits for the upstream of the first version.
after_events-answer_example :
    let s' =
      (after_events small texts same counter
        (codes "panoptidns.conf")
        overlapping
        (opened small counter relaying)).1 in
    let t = asking asks_ptr reverse_name 0 (v6 0) reverse_name [] in
    (rs : List SmallRecord) × ((advance_task small counter world t s').1
      ≡ some (decided asks_ptr (answer_reply small relayed reverse_name rs)))
    × IsServed small reverse_name reverse_name [] (world.network.ask (v6 0) reverse_name) rs
unfolding opened
after_events-answer_example =
    after_events-answer small counter texts same (codes "panoptidns.conf")
      (opened small counter relaying) overlapping world asks_ptr reverse_name 0 (v6 0) reverse_name
      [] (omega arith)

abbrev started_after : List (Event small) → Running small counter
started_after events =
    (after_events small texts same counter (codes "panoptidns.conf") events
      (opened small counter started)).1

chosen_after :
    zone_for_addr small (served small counter (started_after (sweeps ∷ []))).config address
    ≡ some network_zone
unfolding after_events step opened
chosen_after = chosen_zone

-- The limiter is swept before the query arrives, and the file is read again before it is answered.
after_events-round_trip_example :
    (reply : Reply SmallRecord) × (target : SmallName) × (m : Message SmallRecord) × ((arrive small
        counter world asks_ptr
        (started_after (sweeps ∷ []))).tasks
      ≡ (started_after (sweeps ∷ [])).tasks ++ decided asks_ptr reply ∷ [])
    × ((advance_task small counter world (decided asks_ptr reply) (started_after [])).1
        ≡ some (sending asks_ptr reply allow))
    × ((advance_task small counter world
          (sending asks_ptr reply allow)
          (started_after (sweeps ∷ reloads nearby ∷ []))).0
        ≡ m ∷ [])
    × (m.answers ≡ record { name = reverse_name; ttl = 3600; content = ptr_data target } ∷ [])
    × (m.metadata.response_code ≡ no_error)
    × (match_zone_forward small network_zone target ≡ some address)
after_events-round_trip_example =
    after_events-round_trip small texts same counter numbering on_command_line around 0 2
      started_bound started small-IsDocumented (sweeps ∷ []) [] (sweeps ∷ reloads nearby ∷ []) world
      world world asks_ptr reverse_name network_zone address runs (λ m. refl) (refl, refl, refl)
      (inl refl) (omega arith) reverse_name_same chosen_after refl refl
