-- ===== src/Upstream/Filter.antt =====
-- Which records of an upstream's response are relayed, and in which form.
use panopti_dns.Prelude.{
  ℕ, ◌≤◌, ◌≡◌, ◌∙◌, min, true, List, arith, length, All, take, keep_if, length-map, All-keep_if,
  All-take, All-map, length-take,
}
use panopti_dns.Hickory.{Hickory, IsDocumented, in_class}
use panopti_dns.Upstream.{
  clamp_ttl, is_ptr_data, is_allowed, relay, filter_upstream, max_relayed_records,
}

-- In a response to `qname`: owned by it, of the Internet's class, with a PTR target as its data and
-- a lifetime between 30 and 3600 seconds.
unfoldable pub IsRelayable : (h : Hickory) → h.Name → h.Record → Type 0
IsRelayable h qname r =
    (h.owner r ≡ qname)
    × (h.dns_class r ≡ in_class)
    × (is_ptr_data (h.rdata r) ≡ true)
    × (30 ≤ h.record_ttl r)
    × (h.record_ttl r ≤ 3600)

clamp_ttl-bounds : (n : ℕ) → (30 ≤ clamp_ttl n) × (clamp_ttl n ≤ 3600)
unfolding clamp_ttl
clamp_ttl-bounds n = omega arith

module _ (h : Hickory) (doc : IsDocumented h) where
  is_allowed-is_ptr_data :
      (up : h.Name) (r : h.Record) → is_allowed h up r ≡ true → is_ptr_data (h.rdata r) ≡ true
  unfolding is_allowed
  is_allowed-is_ptr_data up r e = ground arith

  relay-IsRelayable :
      (qname up : h.Name) (r : h.Record)
      → is_allowed h up r ≡ true
      → IsRelayable h qname (relay h qname r)
  unfolding IsRelayable relay
  relay-IsRelayable qname up r e =
      let t = clamp_ttl (h.record_ttl r) in
      let d = h.rdata r in
      let lifetime = clamp_ttl-bounds (h.record_ttl r) in
      (
        doc.owner-from_rdata qname t d,
        doc.class-from_rdata qname t d,
        rw (doc.rdata-from_rdata qname t d) (is_allowed-is_ptr_data up r e),
        rw (doc.ttl-from_rdata qname t d) lifetime.0,
        rw (doc.ttl-from_rdata qname t d) lifetime.1,
      )

  -- Every record that is relayed is owned by the name that was asked for, has the Internet's class, a
  -- PTR target as its data, and a lifetime between 30 and 3600 seconds; and as many are relayed as
  -- the response has allowed records, but 8 at most.
  pub filter_upstream-IsRelayable :
      (qname up_qname : h.Name) (answers : List h.Record)
      → All (IsRelayable h qname) (filter_upstream h qname up_qname answers)
        × (length (filter_upstream h qname up_qname answers)
            ≡ min 8 (length (keep_if (is_allowed h up_qname) answers)))
  unfolding filter_upstream
  filter_upstream-IsRelayable qname up answers =
      let kept = keep_if (is_allowed h up) answers in
      (
        All-map (λ r. is_allowed h up r ≡ true) (IsRelayable h qname) (relay h qname)
            (relay-IsRelayable qname up) (take max_relayed_records kept)
            (All-take (λ r. is_allowed h up r ≡ true) max_relayed_records kept
              (All-keep_if (is_allowed h up) answers)),
        length-map (take max_relayed_records kept) (relay h qname)
            ∙ length-take max_relayed_records kept,
      )
