-- ===== src/Tests/Starting.antt =====
-- The theorems on the start of the server and on its life, and on the reports of problems, applied.
use panopti_dns.Prelude.{
  ℕ, ◌+◌, ◌≤◌, ◌≡◌, refl, inl, true, false, some, List, [], ◌∷◌, arith, length, map,
}
use panopti_dns.Bytes.{codes}
use panopti_dns.Hickory.{Result, ok, err, ptr, ptr_data, in_class}
use panopti_dns.Config.{v4, v6, ListenAddr, default_rrl_params}
use panopti_dns.Config.Error.{ConfigError, placeholder_missing}
use panopti_dns.Zone.{match_zone_forward}
use panopti_dns.Rrl
use panopti_dns.Server.{new_zones, clients_loop, add_upstream, no_error}
use panopti_dns.Server.Bind.{
  Os, Bound, other_kind, keep_v6_apart, configure, bind_one, bind_loop, bind_all, or_fail, pure,
  ◌>>=◌,
}
use panopti_dns.Server.BindCalls.{Placed, logged, note, all_calls, bind_all_calls}
use panopti_dns.Handler.{State, Request, Message, query_op, handle_request}
use panopti_dns.Start.{
  Cli, Surroundings, serving, parse_listen, parse_listens, effective_listen, load_config, zones_of,
  serve, run,
}
use panopti_dns.Start.Trim.{trim, trim_start, trim_end, trim_loop, drop_space}
use panopti_dns.Start.Lifecycle.{Event, hangup, tick, after_events, Reach, start}
use panopti_dns.Start.Listen.{IsSource, effective_listen_sources}
use panopti_dns.Start.Invariant.{IsAcceptedConfig, Reach-IsAcceptedConfig, after_events-limits}
use panopti_dns.Start.Promises.{Reach-answered, Reach-round_trip}
use panopti_dns.Tests.Instances.{SmallName, SmallRecord, small, small-IsDocumented, texts, counter}
use panopti_dns.Tests.Names.{address, reverse_name, reverse_name_same}
use panopti_dns.Tests.Configs.{input, same, read, input_reads, network_zone, chosen_zone}
use panopti_dns.Tests.Serving.{world, metadata_of}

abbrev success : ℕ → Result (Unit {0}) (Unit {0}) × ℕ
success n = (ok tt, n)

-- A system that numbers its sockets, and gives out port 5300.
abbrev pub numbering : Os
numbering = record {
  Sys = ℕ;
  Socket = ℕ;
  UdpSocket = ℕ;
  TcpListener = ℕ;
  IoError = Unit {0};
  io_text = λ e. codes "failed";
  kind = λ e. other_kind 0;
  addr_text = λ a. codes "address";
  new_socket = λ d t n. (ok n, n + 1);
  set_only_v6 = λ k b. success;
  set_reuse_address = λ k b. success;
  set_nonblocking = λ k b. success;
  bind = λ k a. success;
  listen = λ k b. success;
  udp_from_std = λ k n. (ok k, n);
  tcp_from_std = λ k n. (ok k, n);
  local_addr = λ k n. (ok (record { addr = v6 0; port = 5300 }), n);
}

abbrev wildcard : ListenAddr
wildcard = record { addr = v6 0; port = 0 }

abbrev one_placed : Placed numbering
one_placed = record {
  udp_socket = 0;
  udp = 0;
  actual = record { addr = v6 0; port = 5300 };
  tcp_socket = 1;
  tcp = 1;
}

abbrev one_bound : Bound (logged numbering)
one_bound = record { udp = 0 ∷ []; tcp = 1 ∷ []; addrs = record { addr = v6 0; port = 5300 } ∷ [] }

one_binds :
    bind_all (logged numbering) (wildcard ∷ []) ([], 0)
    ≡ (ok one_bound, (all_calls numbering (wildcard ∷ []) (one_placed ∷ []), 2))
unfolding keep_v6_apart configure bind_one bind_loop bind_all or_fail pure ◌>>=◌ note
one_binds = refl

bind_all_calls_example :
    (placed : List (Placed numbering)) × (length placed ≡ 1)
    × (0 ∷ [] ≡ map Placed.udp placed)
    × (1 ∷ [] ≡ map Placed.tcp placed)
    × (record { addr = v6 0; port = 5300 } ∷ [] ≡ map Placed.actual placed)
    × (all_calls numbering (wildcard ∷ []) (one_placed ∷ [])
        ≡ all_calls numbering (wildcard ∷ []) placed)
bind_all_calls_example =
    bind_all_calls numbering (wildcard ∷ []) 0 2 one_bound
      (all_calls numbering (wildcard ∷ []) (one_placed ∷ [])) one_binds

-- A blank, the wildcard, and a no-break space.
abbrev pub on_command_line : Cli
on_command_line = record {
  config = codes "panoptidns.conf";
  check_config = false;
  listen = (32 ∷ 58 ∷ 58 ∷ 0xc2 ∷ 0xa0 ∷ []) ∷ [];
  healthcheck = false;
  healthcheck_port = 53;
}

abbrev pub default_wildcard : List ListenAddr
default_wildcard = record { addr = v6 0; port = 53 } ∷ []

wildcard_listens : effective_listen texts on_command_line read ≡ ok default_wildcard
unfolding effective_listen parse_listens parse_listen trim trim_start trim_end trim_loop drop_space
wildcard_listens = refl

effective_listen_sources_example :
    (1 ≤ 1) × IsSource texts on_command_line.listen read.listen default_wildcard
effective_listen_sources_example =
    effective_listen_sources texts on_command_line read default_wildcard wildcard_listens

abbrev pub around : Surroundings
around = record {
  read_to_string = λ path. ok input;
  builds = λ a. true;
  no_resolver = codes "no resolver";
}

-- A file that is not there.
abbrev gone : Surroundings
gone = record around { read_to_string = λ path. err (codes "no such file") }

abbrev pub started : State small counter
started = record {
  zones = record { config = read; upstreams = [] };
  rrl = Rrl.new counter default_rrl_params;
}

abbrev pub started_bound : Bound numbering
started_bound = record {
  udp = 0 ∷ [];
  tcp = 1 ∷ [];
  addrs = record { addr = v6 0; port = 5300 } ∷ [];
}

loaded : load_config small texts same around (codes "panoptidns.conf") ≡ ok read
unfolding load_config
loaded = rw (load_config, input_reads) refl

pub runs :
    run small texts same counter numbering around on_command_line 0
    ≡ (ok (serving started_bound started), 2)
unfolding serve zones_of new_zones clients_loop add_upstream keep_v6_apart configure bind_one
    bind_loop bind_all or_fail pure ◌>>=◌ run Rrl.new
runs = rw (run, loaded, serve, wildcard_listens) refl

-- The state in which the server starts is one that it comes to.
reached : Reach small texts same counter numbering on_command_line started
reached = start started_bound 0 2 around runs

Reach-IsAcceptedConfig_example : IsAcceptedConfig small texts same read
Reach-IsAcceptedConfig_example =
    Reach-IsAcceptedConfig small texts same counter numbering on_command_line started reached

-- A reload that fails, one that does not, and a sweep.
abbrev some_events : List (Event small counter)
some_events = hangup gone ∷ hangup around ∷ tick ∷ []

after_events-limits_example :
    (after_events small texts same counter (codes "panoptidns.conf") some_events started).rrl.params
    ≡ started.rrl.params
after_events-limits_example =
    after_events-limits small texts same counter (codes "panoptidns.conf") some_events started

abbrev pub asks_ptr : Request SmallName
asks_ptr = record {
  src = v4 1;
  is_tcp = true;
  question = some (record { qname = reverse_name; qtype = ptr; qclass = in_class });
  metadata = metadata_of query_op;
  edns_version = 0;
  has_edns = true;
  max_payload = 4096;
}

Reach-answered_example :
    (1 ≤ length (handle_request small counter world started asks_ptr).0)
    × (length (handle_request small counter world started asks_ptr).0 ≤ 2)
Reach-answered_example =
    Reach-answered small texts same counter numbering on_command_line started world asks_ptr reached
      (inl refl)

Reach-round_trip_example :
    (target : SmallName) × (m : Message SmallRecord) × ((handle_request small counter world started
        asks_ptr).0
      ≡ m ∷ [])
    × (m.answers ≡ record { name = reverse_name; ttl = 3600; content = ptr_data target } ∷ [])
    × (m.metadata.response_code ≡ no_error)
    × (match_zone_forward small network_zone target ≡ some address)
Reach-round_trip_example =
    Reach-round_trip small texts same counter numbering on_command_line small-IsDocumented started
      world asks_ptr reverse_name network_zone address reached (λ m. refl) (refl, refl, refl)
      (inl refl) (omega arith) reverse_name_same chosen_zone refl refl

abbrev without_digits : ConfigError
without_digits = record {
  line = 12;
  snippet = 9 ∷ codes "resolves to a.example";
  span = some (13, 22);
  kind = placeholder_missing;
}
