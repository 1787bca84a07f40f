-- ===== src/Lib.antt =====
-- PanoptiDNS, an authoritative DNS server that synthesizes reverse (PTR) and forward (AAAA) records
-- for whole IPv6 networks from templates.
--
-- A configuration text is read into directives (config/parse.rs) and compiled into zones and
-- parameters (config/compile.rs). A request reaches the handler (server/handler.rs), which resolves
-- its name against the zones (zone/), may let an upstream override a PTR record (upstream.rs), asks
-- the rate limiter whether the reply may go out (rrl.rs), and sends it. Addresses and names are
-- converted nibble by nibble (nibble.rs).
--
-- The files, and the code that they model (paths from the repository's root):
--   Nibble        src/nibble.rs; its children prove each function exact
--   Config        src/config/mod.rs: the types, FwdTemplate::render and parent, apexes, warnings
--   Config.Error  src/config/error.rs: the values; Message their texts, Display the report
--   Config.Text   the standard library's text operations that the parser calls, on ASCII bytes
--   Config.Parse  src/config/parse.rs; Keywords, Table and Written are about it
--   Config.Compile, Config.Globals, Config.Zones  src/config/compile.rs
--   Zone          src/zone/: lookup.rs, synth.rs, mod.rs
--   Rrl           src/rrl.rs
--   Upstream      src/upstream.rs
--   Server        src/server/handler.rs: Zones::new, Handler::decide
--   Handler       src/server/handler.rs: handle_inner, send, handle_request, servfail
--   Server.Bind   src/server/bind.rs, over an operating system that is a parameter
--   Start         src/main.rs: run, load_config, effective_listen, serve
--   Start.Lifecycle  src/main.rs: requests, reloads and sweeps of a server that runs, in any order
--   Start.Health  src/main.rs: the probe of the health check, and main's exit code
--   Server.Awaiting  src/server/handler.rs: decide, before and after the await of an upstream
--   Tasks         src/server/handler.rs and src/main.rs: requests in flight at once, with reloads
--   Prelude, Bits, Bytes  shared helpers on tests, lists, bit fields and byte strings
--   Hickory       the DNS library, as parameters and documented laws
--   Tests         a concrete library, and the theorems applied
--
-- How it is modelled: u128 and the other machine integers are natural numbers with their wrap-around
-- or their range test written out; text is a list of bytes; a function that can fail returns an
-- Option, and the compiler's functions also hand on the list of errors that they add to. Shared state
-- (the limiter, the clients of the upstreams, the counter of suppressed responses) is passed and
-- returned. Loops are recursion on the list or on the number of rounds; format_hex has fuel 32, one
-- round for each hex digit of a u128, and to_string 20, one for each decimal digit of a u64; trim
-- has one round for each byte.
--
-- Parameters: the libraries hickory (names, records) and governor (token buckets), the standard
-- library's address parsers and lossy decoding, the transport, what an upstream replies and when, the
-- sockets of the operating system (`Server.Bind.Os`, `Start.Health.Probe`), files and resolvers
-- (`Start.Surroundings`).
-- `Hickory.IsDocumented` has the laws of hickory that proofs use; Tests.Instances has an instance.
--
-- In Start.Lifecycle a request is one step of the server. In Tasks it is a task: it runs from its
-- arrival to the await of an upstream or to its reply, and then has up to three steps, what the
-- upstream replies, the decision of the limiter, and the sending, for which the zones are loaded a
-- second time. The steps of all tasks, reloads and sweeps come in any order, given as a list of
-- events; Tasks.Alone is about a run of one task alone. Each reload makes a new version of the zones,
-- and a task keeps the version that it loaded first. What is between two of these points runs as one
-- step: the breaker's mutex and the semaphore of one begin or end of a lookup are taken together,
-- and decisions of the limiter do not overlap.
--
-- Not modelled: the parser of the command line (the library clap), logging, the tokio runtime, the
-- loss of tasks when the server shuts down, the failure to install the signal handlers, and the
-- closing of sockets after a bind that failed.
pub mod Prelude
pub mod Bits
pub mod Bytes
pub mod Hickory
pub mod Nibble
pub mod Config
pub mod Zone
pub mod Rrl
pub mod Upstream
pub mod Server
pub mod Start
pub mod Handler
pub mod Tasks
pub mod Tests
