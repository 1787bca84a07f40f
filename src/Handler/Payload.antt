-- ===== src/Handler/Payload.antt =====
-- The payload that a response advertises, and that no configuration with a payload of 512 or more
-- makes the handler panic.
use panopti_dns.Prelude.{
  ℕ, ◌≤◌, ◌≡◌, refl, ap, min, max, inl, inr, Bool, true, false, Option, none, some, List, [], ◌∷◌,
  arith, if◌then◌else◌, Bool-cases,
}
use panopti_dns.Hickory.{Hickory}
use panopti_dns.Rrl.{Governor}
use panopti_dns.Server.{Zones, Reply}
use panopti_dns.Handler.{
  Request, Message, Outcome, done, failed, panicked, clamp, World, send_response, advertised,
  message_of, send,
}

-- What the OPT record of a response may advertise: none for a request that had none, and otherwise
-- from 512 to the configured ceiling.
unfoldable pub IsAdvertisable : ℕ → Bool → Option ℕ → Type 0
IsAdvertisable ceiling has_edns none = has_edns ≡ false
IsAdvertisable ceiling has_edns (some n) = (has_edns ≡ true) × (512 ≤ n) × (n ≤ ceiling)

module _ (h : Hickory) (g : Governor) where
  advertised_total :
      (ceiling : ℕ) (request : Request h.Name)
      → 512 ≤ ceiling
      → (o : Option ℕ) × (advertised h g ceiling request ≡ some o)
        × IsAdvertisable ceiling request.has_edns o
  unfolding advertised clamp IsAdvertisable
  advertised_total ceiling request le = elim (Bool-cases request.has_edns) [
    | inr plain ↦ (none, ground arith, ground arith)
    | inl edns ↦ elim (Bool-cases request.is_tcp) [
      | inl tcp ↦ (some ceiling, ground arith, ground arith)
      | inr udp ↦ (
        some (max 512 (min request.max_payload ceiling)),
        ground arith,
        (edns, omega arith, omega arith),
      )
    ]
  ]

  -- If the configured payload is at least 512, `send` does not panic, for any request and reply: it
  -- sends one message, with the reply's answers, code and authority section, neither recursion nor
  -- authentic data, and an OPT record exactly if the request had one, whose payload is between 512
  -- and the configured one.
  pub send_once :
      (w : World h) (zones : Zones h.Name) (request : Request h.Name) (reply : Reply h.Record)
      → 512 ≤ zones.config.params.max_udp_payload
      → (m : Message h.Record) × (send h g w zones request reply
          ≡ ((if w.delivers m then done else failed), m ∷ []))
        × (m.answers ≡ reply.answers)
        × (m.authority ≡ reply.authority)
        × (m.metadata.response_code ≡ reply.code)
        × (m.metadata.recursion_available ≡ false)
        × (m.metadata.authentic_data ≡ false)
        × IsAdvertisable zones.config.params.max_udp_payload request.has_edns m.edns
  unfolding send send_response message_of
  send_once w zones request reply le =
      let (o, sent, fits) = advertised_total zones.config.params.max_udp_payload request le in
      (message_of h g w request reply o, ap send_as sent, refl, refl, refl, refl, refl, fits)
    where
      send_as : Option (Option ℕ) → Outcome × List (Message h.Record)
      send_as o = elim o [
        | none ↦ (panicked, [])
        | some edns ↦ send_response h g w (message_of h g w request reply edns)
      ]
