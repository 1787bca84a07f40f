-- ===== src/Rrl/Budgets.antt =====
-- What a decision changes, and how often a suppressed response is answered truncated.
use native.Mathlib.Nat.{mod-eq_of_lt, div-add-mod, mul-mod_right, add-zero, add_assoc, zero-add}
use panopti_dns.Prelude.{
  ℕ, zero, suc, ◌+◌, ◌*◌, ◌%◌, ◌^◌, ◌≤◌, ◌<◌, ◌≡◌, ◌≢◌, ◌↔◌, refl, ap, ◌⊎◌, inl, inr, Bool, true,
  false, arith, ◌==◌, if◌then◌else◌, Bool-cases,
}
use panopti_dns.Config.{IpAddr}
use panopti_dns.Rrl.{
  Kind, answer_kind, negative_kind, allow, drop_it, truncate, Governor, Rrl, client_key, limiter_of,
  with_limiter, slip_decision, suppress, decide,
}

abbrev pub other_kind : Kind → Kind
other_kind answer_kind = negative_kind
other_kind negative_kind = answer_kind

-- Whether the response behind `k` suppressed ones is truncated, as a number.
abbrev pub due : ℕ → ℕ → ℕ
due k s = if k % s == 0 then 1 else 0

due_multiple : (k c s : ℕ) → k ≤ suc s * c → suc s * c < k + suc s → k % suc s ≡ 0 → suc s * c ≡ k
due_multiple k c s lo hi e = grind (arith, div-add-mod k (suc s))

due_between : (k c s : ℕ) → suc s * c ≡ k → k % suc s ≡ 0
due_between k c s e = rw (← e) (mul-mod_right (suc s) c)

due_step :
    (k c s : ℕ)
    → k ≤ suc s * c
    → suc s * c < k + suc s
    → (k + 1 ≤ suc s * (c + due k (suc s))) × (suc s * (c + due k (suc s)) < k + 1 + suc s)
due_step k c s lo hi = elim (Bool-cases (k % suc s == 0)) [
  | inl now ↦ rw now (omega (arith, due_multiple k c s lo hi (ground arith)))
  | inr later ↦ rw (later, add-zero c) (grind (arith, due_between k c s))
]

due_regroup :
    (k n c d e t s : ℕ)
    → e ≡ d
    → (k + 1 + n ≤ s * (c + d + t)) × (s * (c + d + t) < k + 1 + n + s)
    → (k + suc n ≤ s * (c + (e + t))) × (s * (c + (e + t)) < k + suc n + s)
due_regroup k n c d e t s same h = rw (same, ← add_assoc c d t) (ground arith)

module _ (g : Governor) where
  limiter_of-with_limiter :
      (kind : Kind) (r : Rrl g) (l : g.Limiter)
      → limiter_of g (other_kind kind) (with_limiter g kind r l) ≡ limiter_of g (other_kind kind) r
  unfolding limiter_of with_limiter
  limiter_of-with_limiter answer_kind r l = refl
  limiter_of-with_limiter negative_kind r l = refl

  limiter_of-with_limiter_self :
      (kind : Kind) (r : Rrl g) (l : g.Limiter) → limiter_of g kind (with_limiter g kind r l) ≡ l
  unfolding limiter_of with_limiter
  limiter_of-with_limiter_self answer_kind r l = refl
  limiter_of-with_limiter_self negative_kind r l = refl

  limiter_of-suppress :
      (kind : Kind) (r : Rrl g) → limiter_of g kind (suppress g r).1 ≡ limiter_of g kind r
  unfolding limiter_of suppress
  limiter_of-suppress answer_kind r = refl
  limiter_of-suppress negative_kind r = refl

  suppress-ne-allow : (r : Rrl g) → (suppress g r).0 ≢ allow
  unfolding suppress
  suppress-ne-allow r = slip_decision-ne-allow r.params.slip r.suppressed
    where
      slip_decision-ne-allow : (slip n : ℕ) → slip_decision g slip n ≢ allow
      slip_decision-ne-allow zero n = unfold slip_decision in λ e. cc
      slip_decision-ne-allow (suc s) n = unfold slip_decision in ground arith

  -- A decision of one kind leaves the budget of the other kind as it was.
  decide-other_budget :
      (r : Rrl g) (addr : IpAddr) (kind : Kind) (is_tcp : Bool)
      → limiter_of g (other_kind kind) (decide g r addr kind is_tcp).1
        ≡ limiter_of g (other_kind kind) r
  unfolding decide
  decide-other_budget r addr kind is_tcp =
      let key = client_key addr r.params.ipv4_prefix r.params.ipv6_prefix in
      let l = (g.check_key (limiter_of g kind r) key).1 in
      ground (
        arith,
        limiter_of-with_limiter kind r l,
        limiter_of-suppress (other_kind kind) (with_limiter g kind r l),
      )

  -- TCP, and a limiter that is off: every response is allowed, and nothing changes.
  pub decide_exempt :
      (r : Rrl g) (addr : IpAddr) (kind : Kind) (is_tcp : Bool)
      → (is_tcp ≡ true) ⊎ (r.params.enabled ≡ false)
      → decide g r addr kind is_tcp ≡ (allow, r)
  unfolding decide
  decide_exempt r addr kind is_tcp h = ground arith

  decide_own_budget :
      (r : Rrl g) (addr : IpAddr) (kind : Kind)
      → r.params.enabled ≡ true
      → (((decide g r addr kind false).0 ≡ allow) ↔ (
          (g.check_key
            (limiter_of g kind r)
            (client_key addr r.params.ipv4_prefix r.params.ipv6_prefix)).0
          ≡ true))
        × (limiter_of g kind (decide g r addr kind false).1
            ≡ (g.check_key
                (limiter_of g kind r)
                (client_key addr r.params.ipv4_prefix r.params.ipv6_prefix)).1)
  unfolding decide
  decide_own_budget r addr kind on =
      let key = client_key addr r.params.ipv4_prefix r.params.ipv6_prefix in
      let l = (g.check_key (limiter_of g kind r) key).1 in
      ground (
        arith,
        limiter_of-with_limiter_self kind r l,
        limiter_of-suppress kind (with_limiter g kind r l),
        suppress-ne-allow (with_limiter g kind r l),
      )

  -- Over UDP with the limiter on, a response is allowed exactly if the bucket of its client and
  -- kind has room, the bucket is charged in any case, and the budget of the other kind stays as it was.
  pub decide_charged :
      (r : Rrl g) (addr : IpAddr) (kind : Kind)
      → r.params.enabled ≡ true
      → (((decide g r addr kind false).0 ≡ allow) ↔ (
          (g.check_key
            (limiter_of g kind r)
            (client_key addr r.params.ipv4_prefix r.params.ipv6_prefix)).0
          ≡ true))
        × (limiter_of g kind (decide g r addr kind false).1
            ≡ (g.check_key
                (limiter_of g kind r)
                (client_key addr r.params.ipv4_prefix r.params.ipv6_prefix)).1)
        × (limiter_of g (other_kind kind) (decide g r addr kind false).1
            ≡ limiter_of g (other_kind kind) r)
  decide_charged r addr kind on =
      let (allowed, charged) = decide_own_budget r addr kind on in
      (allowed, charged, decide-other_budget r addr kind false)

  -- The truncated answers among `n` suppressed responses in a row.
  abbrev pub truncations : ℕ → Rrl g → ℕ
  truncations zero r = 0
  truncations (suc n) r =
      (elim (suppress g r).0 [ truncate ↦ 1 | _ ↦ 0 ]) + truncations n (suppress g r).1

  slip_decision-due :
      (s k : ℕ)
      → (elim (slip_decision g (suc s) k) as (λ d. ℕ) [ allow ↦ 0 | drop_it ↦ 0 | truncate ↦ 1 ])
        ≡ due k (suc s)
  unfolding slip_decision
  slip_decision-due s k = elim (Bool-cases (k % suc s == 0)) [
    | inl now ↦ rw now refl
    | inr later ↦ rw later refl
  ]

  truncations_from :
      (n k c s : ℕ) (r : Rrl g)
      → r.suppressed ≡ k
      → r.params.slip ≡ suc s
      → k + n < 2 ^ 64
      → k ≤ suc s * c
      → suc s * c < k + suc s
      → (k + n ≤ suc s * (c + truncations n r)) × (suc s * (c + truncations n r) < k + n + suc s)
  unfolding suppress
  truncations_from zero k c s r hk hs lt lo hi = rw (add-zero k, add-zero c) (lo, hi)
  truncations_from (suc n) k c s r hk hs lt lo hi =
      let r' : Rrl g = (suppress g r).1 in
      let next : r'.suppressed ≡ k + 1 = rw (ap (λ x. x + 1) hk) (mod-eq_of_lt (ground arith)) in
      let d = due_step k c s lo hi in
      let rest =
        truncations_from n (k + 1) (c + due k (suc s)) s r' next hs (ground arith) d.0 d.1 in
      let same : (elim (slip_decision g r.params.slip r.suppressed) as (λ d. ℕ) [
        | allow ↦ 0
        | drop_it ↦ 0
        | truncate ↦ 1
      ])
          ≡ due k (suc s) =
        rw (hs, hk) (slip_decision-due s k) in
      due_regroup k n c (due k (suc s)) _ (truncations n r') (suc s) same rest

  -- If `slip` is not 0 and nothing was suppressed yet: of the first `n` suppressed responses, `n` below
  -- 2 ^ 64, the number that is answered truncated, times `slip`, is `n` rounded up to a multiple of
  -- `slip`.
  pub truncations_share :
      (r : Rrl g) (n : ℕ)
      → r.suppressed ≡ 0
      → n < 2 ^ 64
      → 0 < r.params.slip
      → (n ≤ r.params.slip * truncations n r)
        × (r.params.slip * truncations n r < n + r.params.slip)
  truncations_share r n h lt pos = share r.params.slip refl pos
    where
      share :
          (s : ℕ)
          → r.params.slip ≡ s
          → 0 < s
          → (n ≤ s * truncations n r) × (s * truncations n r < n + s)
      share zero e p = ground arith
      share (suc s) e p =
          simp (zero-add n, zero-add (truncations n r)) at
            (truncations_from n 0 0 s r h e (ground arith) (ground arith) (ground arith))
