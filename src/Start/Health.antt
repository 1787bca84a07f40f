-- ===== src/Start/Health.antt =====
-- src/main.rs: the probe of the health check, and what the process ends with.
pub mod Probed
use panopti_dns.Prelude.{ℕ, ltb, if◌then◌else◌, ◌++◌}
use panopti_dns.Bytes.{Bytes, codes}
use panopti_dns.Hickory.{Result, ok, err, RecordType, soa, DnsClass, in_class}
use panopti_dns.Config.{IpAddr, v4}

-- What comes of waiting two seconds for a datagram: its length, an error, or nothing.
pub data Received : Type 0 where
  received : ℕ → Received
  receive_failed : Bytes → Received
  timed_out : Received

-- The DNS library and the sockets, as the probe calls them; an error is its text.
pub record Probe (Name : Type 0) : Type 1 where
  pub Socket : Type 0
  pub from_ascii : Bytes → Result Name Bytes
  -- `Message::query` with one query, encoded
  pub to_bytes : Name → RecordType → DnsClass → Result Bytes Bytes
  pub bind : IpAddr → ℕ → Result Socket Bytes
  pub send_to : Socket → Bytes → IpAddr → ℕ → Result (Unit {0}) Bytes
  pub recv_from : Socket → Received

-- `map_err(|e| format!("..: {e}"))?`
unfoldable pub or_text {ℓ κ} :
    {A : Type ℓ} {B : Type κ} → Bytes → Result A Bytes → (A → Result B Bytes) → Result B Bytes
or_text what (ok a) next = next a
or_text what (err e) next = err (what ++ (codes ": " ++ e))

-- 127.0.0.1
abbrev pub localhost : IpAddr
localhost = v4 0x7f000001

abbrev pub probe_name : Bytes
probe_name = codes "health-check.panoptidns.invalid."

unfoldable pub judge : Received → Result (Unit {0}) Bytes
judge (received len) = if ltb 0 len then ok tt else err (codes "health check got an empty response")
judge (receive_failed e) = err (codes "health check receive failed: " ++ e)
judge timed_out = err (codes "health check timed out")

module _ {Name : Type 0} (p : Probe Name) where
  unfoldable pub healthcheck : ℕ → Result (Unit {0}) Bytes
  healthcheck port =
      or_text (codes "cannot build health-check name") (p.from_ascii probe_name) (λ name.
        or_text (codes "cannot encode health-check query") (p.to_bytes name soa in_class) (λ bytes.
          or_text (codes "health check cannot bind a socket") (p.bind localhost 0) (λ socket.
            or_text (codes "health check cannot send") (p.send_to socket bytes localhost port)
              (λ sent. judge (p.recv_from socket)))))

pub data ExitCode : Type 0 where
  success failure : ExitCode

-- `main`, after `run`: the code, and what goes to standard error.
unfoldable pub exit_of : Result (Unit {0}) Bytes → ExitCode × Bytes
exit_of (ok u) = (success, codes "")
exit_of (err message) = (failure, message ++ codes "\n")
