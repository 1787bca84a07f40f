-- ===== src/Start/Promises.antt =====
-- What a running server does for its clients.
use panopti_dns.Prelude.{ℕ, ◌^◌, ◌<◌, ◌≤◌, ◌≡◌, none, some, true, false, ◌⊎◌, [], ◌∷◌, length}
use panopti_dns.Bytes.{Bytes}
use panopti_dns.Hickory.{Hickory, IsDocumented, same_labels, ptr_data}
use panopti_dns.Nibble.Ptr.{ptr_labels}
use panopti_dns.Config.{Zone}
use panopti_dns.Config.Compile.{AddressText}
use panopti_dns.Rrl.{Governor}
use panopti_dns.Zone.{zone_for_addr, match_zone_forward}
use panopti_dns.Zone.RoundTrip.{parse_config-round_trip}
use panopti_dns.Zone.Compiled.{is_plain}
use panopti_dns.Server.{no_error}
use panopti_dns.Server.Bind.{Os}
use panopti_dns.Handler.{State, World, Request, Message, handle_request}
use panopti_dns.Handler.Sending.{handle_request_count}
use panopti_dns.Handler.Pointers.{IsPlainPtr, handle_request_ptr}
use panopti_dns.Start.{Cli}
use panopti_dns.Start.Lifecycle.{Reach}
use panopti_dns.Start.Invariant.{IsAcceptedConfig, Reach-IsAcceptedConfig, payload_fits}

module _ (h : Hickory) (text : AddressText) (lossy : Bytes → Bytes) (g : Governor) (os : Os)
    (cli : Cli) where
  -- In every state that a server comes to, every request over TCP, and every request while the rate
  -- limiter is off, is answered with one message at least and two at most, whatever it asks for.
  pub Reach-answered :
      (st : State h g) (w : World h) (request : Request h.Name)
      → Reach h text lossy g os cli st
      → (request.is_tcp ≡ true) ⊎ (st.rrl.params.enabled ≡ false)
      → (1 ≤ length (handle_request h g w st request).0)
        × (length (handle_request h g w st request).0 ≤ 2)
  Reach-answered st w request r exempt =
      let (most, least) = handle_request_count h g w st request (
        payload_fits h text lossy st.zones.config
          (Reach-IsAcceptedConfig h text lossy g os cli st r)) in
      (least exempt, most)

  -- In every state that a server comes to, if messages go out: a PTR query of class IN with the opcode
  -- of a query and version 0 of EDNS, over TCP or with the rate limiter off, for the reverse name of an
  -- address below 2 ^ 128, in any case, that is in one of the configured zones, the zone without an
  -- upstream and its template without a literal `*` in front, is answered with one message, without an
  -- error, with one PTR record, owned by the name that was asked for, whose target the zone's template
  -- maps back to the address.
  pub Reach-round_trip :
      (doc : IsDocumented h) (st : State h g) (w : World h) (request : Request h.Name)
      (qname : h.Name) (z : Zone h.Name) (addr : ℕ)
      → Reach h text lossy g os cli st
      → ((m : Message h.Record) → w.delivers m ≡ true)
      → IsPlainPtr request qname
      → (request.is_tcp ≡ true) ⊎ (st.rrl.params.enabled ≡ false)
      → addr < 2 ^ 128
      → same_labels (h.iter qname) (ptr_labels addr) ≡ true
      → zone_for_addr h st.zones.config addr ≡ some z
      → z.upstream ≡ none
      → is_plain z.fwd.labels ≡ true
      → (target : h.Name) × (m : Message h.Record) × ((handle_request h g w st request).0 ≡ m ∷ [])
        × (m.answers ≡ h.from_rdata qname z.ttl (ptr_data target) ∷ [])
        × (m.metadata.response_code ≡ no_error)
        × (match_zone_forward h z target ≡ some addr)
  unfolding IsAcceptedConfig
  Reach-round_trip doc st w request qname z addr r delivered query exempt below reverse chosen alone
        plain =
      let accepted = Reach-IsAcceptedConfig h text lossy g os cli st r in
      let (target, found, back) =
        parse_config-round_trip h doc text lossy accepted.0 st.zones.config z qname addr accepted.1
          below reverse chosen plain in
      let (m, sent, answers, code) =
        handle_request_ptr h g w st request qname z _
          (payload_fits h text lossy st.zones.config accepted) query exempt delivered found alone in
      (target, m, sent, answers, code, back)
