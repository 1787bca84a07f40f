-- ===== src/Server/BindCalls.antt =====
-- The system calls of `bind_all`, in their order.
use mathlib.Core.List.{append-nil, append_assoc}
use panopti_dns.Prelude.{
  ℕ, suc, Bool, true, List, [], ◌∷◌, ◌++◌, map, ◌≡◌, refl, sym, ap, ◌∙◌, length, if◌then◌else◌, inl,
  inr, Bool-cases,
}
use panopti_dns.Bytes.{Bytes}
use panopti_dns.Hickory.{Result, ok, err}
use panopti_dns.Config.{ListenAddr}
use panopti_dns.Server.Bind.{
  Os, Bound, Domain, SockType, dgram, stream, domain_of, is_ipv6, tcp_backlog, keep_v6_apart,
  configure, bind_one, bind_loop, bind_all, Io, after_io, explain, or_fail, pure,
}
use panopti_dns.Server.Bind

-- A call that succeeded, with what it gave.
pub data Call (os : Os) : Type 0 where
  opened : Domain → SockType → os.Socket → Call os
  v6_only reuse_address nonblocking : os.Socket → Bool → Call os
  bound_to : os.Socket → ListenAddr → Call os
  listening : os.Socket → ℕ → Call os
  udp_adopted : os.Socket → os.UdpSocket → Call os
  tcp_adopted : os.Socket → os.TcpListener → Call os
  named : os.UdpSocket → ListenAddr → Call os

-- What is bound for one address.
pub record Placed (os : Os) : Type 0 where
  pub udp_socket : os.Socket
  pub udp : os.UdpSocket
  pub actual : ListenAddr
  pub tcp_socket : os.Socket
  pub tcp : os.TcpListener

module _ (os : Os) where
  abbrev note_result :
      {A : Type 0}
      → (A → Call os)
      → List (Call os)
      → Result A os.IoError × os.Sys
      → Result A os.IoError × (List (Call os) × os.Sys)
  note_result c log (ok a, s) = (ok a, (log ++ c a ∷ [], s))
  note_result c log (err e, s) = (err e, (log, s))

  -- A call that is written down if it succeeds.
  unfoldable pub note :
      {A : Type 0}
      → (A → Call os)
      → (os.Sys → Result A os.IoError × os.Sys)
      → List (Call os) × os.Sys
      → Result A os.IoError × (List (Call os) × os.Sys)
  note c call (log, s) = note_result c log (call s)

  -- The system that keeps a log of its calls.
  abbrev pub logged : Os
  logged = record {
    Sys = List (Call os) × os.Sys;
    Socket = os.Socket;
    UdpSocket = os.UdpSocket;
    TcpListener = os.TcpListener;
    IoError = os.IoError;
    io_text = os.io_text;
    kind = os.kind;
    addr_text = os.addr_text;
    new_socket = λ d t. note (opened d t) (os.new_socket d t);
    set_only_v6 = λ k b. note (λ u. v6_only k b) (os.set_only_v6 k b);
    set_reuse_address = λ k b. note (λ u. reuse_address k b) (os.set_reuse_address k b);
    set_nonblocking = λ k b. note (λ u. nonblocking k b) (os.set_nonblocking k b);
    bind = λ k a. note (λ u. bound_to k a) (os.bind k a);
    listen = λ k n. note (λ u. listening k n) (os.listen k n);
    udp_from_std = λ k. note (udp_adopted k) (os.udp_from_std k);
    tcp_from_std = λ k. note (tcp_adopted k) (os.tcp_from_std k);
    local_addr = λ u. note (named u) (os.local_addr u);
  }

  -- The calls that configure a socket: IPV6_V6ONLY before it is bound, and only for IPv6.
  abbrev pub setup_calls : ListenAddr → SockType → os.Socket → List (Call os)
  setup_calls addr type socket =
      opened (domain_of addr.addr) type socket
        ∷ (if is_ipv6 addr.addr then v6_only socket true ∷ [] else [])
      ++ reuse_address socket true ∷ nonblocking socket true ∷ bound_to socket addr ∷ []

  -- The calls for one address: TCP is bound on the port that UDP was given.
  abbrev pub target_calls : ListenAddr → Placed os → List (Call os)
  target_calls target p =
      setup_calls target dgram p.udp_socket
      ++ udp_adopted p.udp_socket p.udp
        ∷ named p.udp p.actual
        ∷ setup_calls (record target { port = p.actual.port }) stream p.tcp_socket
      ++ listening p.tcp_socket tcp_backlog ∷ tcp_adopted p.tcp_socket p.tcp ∷ []

  abbrev pub all_calls : List ListenAddr → List (Placed os) → List (Call os)
  all_calls [] ps = []
  all_calls (t ∷ ts) [] = []
  all_calls (t ∷ ts) (p ∷ ps) = target_calls t p ++ all_calls ts ps

  -- If `m` succeeds, it adds calls to the log that are as `P` says of its result.
  unfoldable Emits : {A : Type 0} → Io logged A → (A → List (Call os) → Type 0) → Type 0
  Emits {A} m P =
      (log : List (Call os)) (s : os.Sys) (a : A) (log' : List (Call os)) (s' : os.Sys)
      → m (log, s) ≡ (ok a, (log', s'))
      → (calls : List (Call os)) × (log' ≡ log ++ calls) × P a calls

  Emits-bind :
      {A B : Type 0} (m : Io logged A) (f : A → Io logged B) (P : A → List (Call os) → Type 0)
      (Q : B → List (Call os) → Type 0)
      → Emits m P
      → ((a : A) (calls : List (Call os)) → P a calls → Emits (f a) (λ b more. Q b (calls ++ more)))
      → Emits (Bind.◌>>=◌ logged m f) Q
  unfolding Emits Bind.◌>>=◌
  Emits-bind {A = A} {B = B} m f P Q hm hf log s b log' s' e = split (m (log, s)) refl e
    where
      split :
          (r : Result A Bytes × (List (Call os) × os.Sys))
          → m (log, s) ≡ r
          → after_io logged f r ≡ (ok b, (log', s'))
          → (calls : List (Call os)) × (log' ≡ log ++ calls) × Q b calls
      split (err x, t) made run = cc
      split (ok a, (log1, s1)) made run =
          let (calls, e1, p) = hm log s a log1 s1 made in
          let (more, e2, q) = hf a calls p log1 s1 b log' s' run in
          (calls ++ more, e2 ∙ ap (λ l. l ++ more) e1 ∙ append_assoc log calls more, q)

  ok_inv :
      {A : Type 0} (a : A) (s : os.Sys) (b : A) (log log' : List (Call os)) (s' : os.Sys)
      → ◌≡◌ {A = Result A Bytes × (List (Call os) × os.Sys)} (ok a, (log, s)) (ok b, (log', s'))
      → (a ≡ b) × (log ≡ log')
  ok_inv a s b log log' s' e = (cc, cc)

  Emits-pure : {A : Type 0} (a : A) → Emits (pure logged a) (λ b calls. (a ≡ b) × (calls ≡ []))
  unfolding Emits pure
  Emits-pure a log s b log' s' e =
      let (same, log_same) = ok_inv a s b log log' s' e in
      ([], sym log_same ∙ sym (append-nil log), (same, refl))

  Emits-note :
      {A : Type 0} (c : A → Call os) (call : os.Sys → Result A os.IoError × os.Sys)
      (f : os.IoError → Bytes)
      → Emits (or_fail logged (note c call) f) (λ a calls. calls ≡ c a ∷ [])
  unfolding Emits or_fail note
  Emits-note {A = A} c call f log s a log' s' e = split (call s) e
    where
      split :
          (r : Result A os.IoError × os.Sys)
          → explain logged f (note_result c log r) ≡ (ok a, (log', s'))
          → (calls : List (Call os)) × (log' ≡ log ++ calls) × (calls ≡ c a ∷ [])
      split (ok b, t) run =
          let (same, log_same) = ok_inv b t a (log ++ c b ∷ []) log' s' run in
          (c a ∷ [], sym log_same ∙ ap (λ x. log ++ c x ∷ []) same, refl)
      split (err x, t) run = cc

  Emits-implies :
      {A : Type 0} (m : Io logged A) (P Q : A → List (Call os) → Type 0)
      → Emits m P
      → ((a : A) (calls : List (Call os)) → P a calls → Q a calls)
      → Emits m Q
  unfolding Emits
  Emits-implies m P Q hm step log s a log' s' e =
      let (calls, same, p) = hm log s a log' s' e in (calls, same, step a calls p)

  keep_v6_apart-Emits :
      (addr : ListenAddr) (socket : os.Socket)
      → Emits
          (keep_v6_apart logged addr socket)
          (λ u calls. calls ≡ (if is_ipv6 addr.addr then v6_only socket true ∷ [] else []))
  unfolding keep_v6_apart
  keep_v6_apart-Emits addr socket = elim (Bool-cases (is_ipv6 addr.addr)) [
    | inl sixth ↦ rw sixth (Emits-note _ _ _)
    | inr fourth ↦ rw fourth (Emits-implies _ _ _ (Emits-pure tt) (λ u calls e. e.1))
  ]

  configure-Emits :
      (addr : ListenAddr) (type : SockType)
      → Emits (configure logged addr type) (λ socket calls. calls ≡ setup_calls addr type socket)
  unfolding configure
  configure-Emits addr type = Emits-bind _ _ _ _ (Emits-note _ _ _) (λ socket c0 e0.
      Emits-bind _ _ _ _ (keep_v6_apart-Emits addr socket) (λ u1 c1 e1.
        Emits-bind _ _ _ _ (Emits-note _ _ _) (λ u2 c2 e2.
          Emits-bind _ _ _ _ (Emits-note _ _ _) (λ u3 c3 e3.
            Emits-bind _ _ _ _ (Emits-note _ _ _) (λ u4 c4 e4.
              Emits-implies _ _ _ (Emits-pure socket)
                (λ s c e. rw (← e.0, e0, e1, e2, e3, e4, e.1) refl))))))

  abbrev extended : Bound logged → Placed os → Bound logged
  extended bound p = record {
    udp = bound.udp ++ p.udp ∷ [];
    tcp = bound.tcp ++ p.tcp ∷ [];
    addrs = bound.addrs ++ p.actual ∷ [];
  }

  bind_one-Emits :
      (target : ListenAddr) (bound : Bound logged)
      → Emits (bind_one logged target bound) (λ next calls.
        (p : Placed os) × (next ≡ extended bound p) × (calls ≡ target_calls target p))
  unfolding bind_one
  bind_one-Emits target bound = Emits-bind _ _ _ _ (configure-Emits target dgram) (λ k c0 e0.
      Emits-bind _ _ _ _ (Emits-note _ _ _) (λ u c1 e1.
        Emits-bind _ _ _ _ (Emits-note _ _ _) (λ actual c2 e2.
          Emits-bind _ _ _ _ (configure-Emits (record target { port = actual.port }) stream)
            (λ k' c3 e3. Emits-bind _ _ _ _ (Emits-note _ _ _) (λ v c4 e4.
              Emits-bind _ _ _ _ (Emits-note _ _ _) (λ t c5 e5.
                Emits-implies _ _ _ (Emits-pure _) (λ next c e. (
                  record { udp_socket = k; udp = u; actual = actual; tcp_socket = k'; tcp = t },
                  sym e.0,
                  rw (e0, e1, e2, e3, e4, e5, e.1)
                      (elim (Bool-cases (is_ipv6 target.addr)) [
                        | inl sixth ↦ rw sixth refl
                        | inr fourth ↦ rw fourth refl
                      ]),
                ))))))))

  -- What the calls for all addresses come to.
  unfoldable IsBound : List ListenAddr → Bound logged → Bound logged → List (Call os) → Type 0
  IsBound targets bound next calls =
      (placed : List (Placed os)) × (length placed ≡ length targets)
      × (next.udp ≡ bound.udp ++ map Placed.udp placed)
      × (next.tcp ≡ bound.tcp ++ map Placed.tcp placed)
      × (next.addrs ≡ bound.addrs ++ map Placed.actual placed)
      × (calls ≡ all_calls targets placed)

  bind_loop-Emits :
      (targets : List ListenAddr) (bound : Bound logged)
      → Emits (bind_loop logged targets bound) (IsBound targets bound)
  unfolding bind_loop IsBound
  bind_loop-Emits [] bound = Emits-implies _ _ _ (Emits-pure bound) (λ next calls e. (
    [],
    refl,
    sym (ap Bound.udp e.0) ∙ sym (append-nil bound.udp),
    sym (ap Bound.tcp e.0) ∙ sym (append-nil bound.tcp),
    sym (ap Bound.addrs e.0) ∙ sym (append-nil bound.addrs),
    e.1,
  ))
  bind_loop-Emits (target ∷ targets) bound =
      Emits-bind _ _ _ _ (bind_one-Emits target bound) (λ next calls one.
        Emits-implies _ _ _ (bind_loop-Emits targets next) (λ last more rest.
          let (p, grown, own) = one in
          let (ps, as_many, udps, tcps, addresses, others) = rest in
          (
            p ∷ ps,
            ap suc as_many,
            udps
                ∙ ap (λ (b : Bound logged). b.udp ++ map Placed.udp ps) grown
                ∙ append_assoc bound.udp (p.udp ∷ []) _,
            tcps
                ∙ ap (λ (b : Bound logged). b.tcp ++ map Placed.tcp ps) grown
                ∙ append_assoc bound.tcp (p.tcp ∷ []) _,
            addresses
                ∙ ap (λ (b : Bound logged). b.addrs ++ map Placed.actual ps) grown
                ∙ append_assoc bound.addrs (p.actual ∷ []) _,
            rw (own, others) refl,
          )))

-- On a system that keeps a log of its calls: if `bind_all` succeeds, it bound for each address, in the
-- order of the request, a UDP socket and a TCP listener, and reports the address that the UDP socket has;
-- its calls were those that set up, bind and adopt the two sockets of each address, IPV6_V6ONLY set before
-- an IPv6 socket is bound, and TCP bound on the port that UDP was given.
pub bind_all_calls :
    (os : Os) (targets : List ListenAddr) (s s' : os.Sys) (bound : Bound (logged os))
    (log : List (Call os))
    → bind_all (logged os) targets ([], s) ≡ (ok bound, (log, s'))
    → (placed : List (Placed os)) × (length placed ≡ length targets)
      × (bound.udp ≡ map Placed.udp placed)
      × (bound.tcp ≡ map Placed.tcp placed)
      × (bound.addrs ≡ map Placed.actual placed)
      × (log ≡ all_calls os targets placed)
unfolding bind_all IsBound Emits
bind_all_calls os targets s s' bound log e =
    let (calls, same, (placed, many, udps, tcps, addresses, own)) =
      bind_loop-Emits os targets (record { udp = []; tcp = []; addrs = [] }) [] s bound log s' e in
    (placed, many, udps, tcps, addresses, same ∙ own)
