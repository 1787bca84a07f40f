-- ===== src/Server/Bind.antt =====
-- src/server/bind.rs: the sockets that the server listens on. The operating system is an `Os`, and a
-- socket address the record of an address and a port.
use panopti_dns.Prelude.{ℕ, Bool, true, false, List, [], ◌∷◌, ◌++◌, ltb, if◌then◌else◌}
use panopti_dns.Bytes.{Bytes, codes}
use panopti_dns.Hickory.{Result, ok, err}
use panopti_dns.Config.{IpAddr, v4, v6, ListenAddr}

abbrev pub tcp_backlog : ℕ
tcp_backlog = 128

pub data Domain : Type 0 where
  ipv4_domain ipv6_domain : Domain

pub data SockType : Type 0 where
  dgram stream : SockType

-- The variants of `std::io::ErrorKind` that the source names.
pub data ErrorKind : Type 0 where
  permission_denied addr_not_available : ErrorKind
  other_kind : ℕ → ErrorKind

-- The calls of socket2, of tokio and of the standard library. `Sys` is what they change.
pub record Os : Type 1 where
  pub Sys : Type 0
  pub Socket : Type 0
  pub UdpSocket : Type 0
  pub TcpListener : Type 0
  pub IoError : Type 0
  pub io_text : IoError → Bytes
  pub kind : IoError → ErrorKind
  pub addr_text : ListenAddr → Bytes
  -- the protocol is UDP for `dgram`, and TCP for `stream`
  pub new_socket : Domain → SockType → Sys → Result Socket IoError × Sys
  pub set_only_v6 : Socket → Bool → Sys → Result (Unit {0}) IoError × Sys
  pub set_reuse_address : Socket → Bool → Sys → Result (Unit {0}) IoError × Sys
  pub set_nonblocking : Socket → Bool → Sys → Result (Unit {0}) IoError × Sys
  pub bind : Socket → ListenAddr → Sys → Result (Unit {0}) IoError × Sys
  pub listen : Socket → ℕ → Sys → Result (Unit {0}) IoError × Sys
  pub udp_from_std : Socket → Sys → Result UdpSocket IoError × Sys
  pub tcp_from_std : Socket → Sys → Result TcpListener IoError × Sys
  pub local_addr : UdpSocket → Sys → Result ListenAddr IoError × Sys

pub record Bound (os : Os) : Type 0 where
  pub udp : List os.UdpSocket
  pub tcp : List os.TcpListener
  pub addrs : List ListenAddr

abbrev pub domain_of : IpAddr → Domain
domain_of (v4 a) = ipv4_domain
domain_of (v6 a) = ipv6_domain

abbrev pub is_ipv6 : IpAddr → Bool
is_ipv6 (v4 a) = false
is_ipv6 (v6 a) = true

-- The dash, in UTF-8.
abbrev dash : Bytes
dash = 0xe2 ∷ 0x80 ∷ 0x94 ∷ []

unfoldable pub bind_hint : ErrorKind → ℕ → Bytes
bind_hint permission_denied port =
    if ltb port 1024
    then codes " (binding a port below 1024 needs CAP_NET_BIND_SERVICE, or run with "
      ++ (codes "--sysctl net.ipv4.ip_unprivileged_port_start=0, or pick a high port "
          ++ codes "and publish it)")
    else []
bind_hint addr_not_available port =
    codes " (the address does not exist on this host "
    ++ (dash
        ++ (codes " a config copied from "
            ++ codes "elsewhere often hardcodes addresses; override with --listen)"))
bind_hint (other_kind n) port = []

module _ (os : Os) where
  open os use {Sys, Socket, IoError}

  -- A computation on the system that may fail with a text.
  abbrev pub Io : Type 0 → Type 0
  Io A = Sys → Result A Bytes × Sys

  abbrev pub after_io : {A B : Type 0} → (A → Io B) → Result A Bytes × Sys → Result B Bytes × Sys
  after_io f (ok a, s) = f a s
  after_io f (err e, s) = (err e, s)

  infixl 5 ◌>>=◌
  unfoldable pub ◌>>=◌ : {A B : Type 0} → Io A → (A → Io B) → Io B
  ◌>>=◌ m f s = after_io f (m s)

  unfoldable pub pure : {A : Type 0} → A → Io A
  pure a s = (ok a, s)

  -- `map_err`
  abbrev pub explain :
      {A : Type 0} → (IoError → Bytes) → Result A IoError × Sys → Result A Bytes × Sys
  explain f (ok a, s) = (ok a, s)
  explain f (err e, s) = (err (f e), s)

  unfoldable pub or_fail : {A : Type 0} → (Sys → Result A IoError × Sys) → (IoError → Bytes) → Io A
  or_fail call f s = explain f (call s)

  -- `format!("{what} {addr}: {e}")`
  abbrev pub problem : Bytes → ListenAddr → IoError → Bytes
  problem what addr e = what ++ (codes " " ++ (os.addr_text addr ++ (codes ": " ++ os.io_text e)))

  unfoldable pub bind_error : ListenAddr → IoError → Bytes
  bind_error addr e = problem (codes "cannot bind") addr e ++ bind_hint (os.kind e) addr.port

  unfoldable pub keep_v6_apart : ListenAddr → Socket → Io (Unit {0})
  keep_v6_apart addr socket =
      if is_ipv6 addr.addr
      then or_fail (os.set_only_v6 socket true) (problem (codes "cannot set IPV6_V6ONLY on") addr)
      else pure tt

  unfoldable pub configure : ListenAddr → SockType → Io Socket
  configure addr type = do
    socket ←
        or_fail (os.new_socket (domain_of addr.addr) type)
          (problem (codes "cannot create socket for") addr)
    _ ← keep_v6_apart addr socket
    _ ←
        or_fail (os.set_reuse_address socket true)
          (problem (codes "cannot set SO_REUSEADDR on") addr)
    _ ← or_fail (os.set_nonblocking socket true) (problem (codes "cannot set O_NONBLOCK on") addr)
    _ ← or_fail (os.bind socket addr) (bind_error addr)
    pure socket

  -- One round of the loop of `bind_all`.
  unfoldable pub bind_one : ListenAddr → Bound os → Io (Bound os)
  bind_one target bound = do
    udp_socket ← configure target dgram
    udp ←
        or_fail (os.udp_from_std udp_socket)
          (problem (codes "cannot register UDP socket for") target)
    actual ← or_fail (os.local_addr udp) (problem (codes "cannot read local address of") target)
    let tcp_target = record target { port = actual.port }
    tcp_socket ← configure tcp_target stream
    _ ← or_fail (os.listen tcp_socket tcp_backlog) (problem (codes "cannot listen on") tcp_target)
    tcp ←
        or_fail (os.tcp_from_std tcp_socket)
          (problem (codes "cannot register TCP listener for") tcp_target)
    pure (record {
      udp = bound.udp ++ udp ∷ [];
      tcp = bound.tcp ++ tcp ∷ [];
      addrs = bound.addrs ++ actual ∷ [];
    })

  unfoldable pub bind_loop : List ListenAddr → Bound os → Io (Bound os)
  bind_loop [] bound = pure bound
  bind_loop (target ∷ targets) bound = bind_one target bound >>= bind_loop targets

  unfoldable pub bind_all : List ListenAddr → Io (Bound os)
  bind_all listen = bind_loop listen (record { udp = []; tcp = []; addrs = [] })

-- Both wildcards.
unfoldable pub default_listen : ℕ → List ListenAddr
default_listen port = record { addr = v4 0; port = port } ∷ record { addr = v6 0; port = port } ∷ []
