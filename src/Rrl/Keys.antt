-- ===== src/Rrl/Keys.antt =====
-- Clients share a bucket exactly if their addresses agree on the configured prefix.
use native.Mathlib.Nat.{mod-eq_of_lt, mul-div_cancel, div-eq_of_lt, div-mul-le_self}
use panopti_dns.Prelude.{
  ℕ, ◌-◌, ◌*◌, ◌/◌, ◌^◌, ◌≤◌, ◌<◌, min, ◌≡◌, sym, ap, ◌∙◌, ◌↔◌, inl, inr, arith, leb, Bool-cases,
}
use panopti_dns.Bits.{two-pow-pos}
use panopti_dns.Config.{IpAddr, v4, v6}
use panopti_dns.Rrl.{clear_low, key_v4, key_v6, client_key}

-- Below the full width the cleared word is the quotient at its place.
clear_low-quotient :
    (width bits shift : ℕ)
    → bits < 2 ^ width
    → shift ≤ width
    → clear_low width bits shift ≡ bits / 2 ^ shift * 2 ^ shift
unfolding clear_low
clear_low-quotient width bits shift lt h = elim (Bool-cases (leb width shift)) [
  | inl all ↦ let e : shift ≡ width = ground arith in rw (all, e, div-eq_of_lt lt) (omega arith)
  | inr some' ↦ rw some' (mod-eq_of_lt (omega (arith, div-mul-le_self bits (2 ^ shift))))
]

pub clear_low_iff :
    (width a b shift : ℕ)
    → a < 2 ^ width
    → b < 2 ^ width
    → shift ≤ width
    → (clear_low width a shift ≡ clear_low width b shift) ↔ (a / 2 ^ shift ≡ b / 2 ^ shift)
clear_low_iff width a b shift ha hb h = (
  λ e.
      sym (mul-div_cancel (a / 2 ^ shift) (two-pow-pos shift))
      ∙ ap (λ (t : ℕ). t / 2 ^ shift) (sym qa ∙ e ∙ qb)
      ∙ mul-div_cancel (b / 2 ^ shift) (two-pow-pos shift),
  λ e. qa ∙ ap (λ (t : ℕ). t * 2 ^ shift) e ∙ sym qb,
)
  where
    qa : clear_low width a shift ≡ a / 2 ^ shift * 2 ^ shift
    qa = clear_low-quotient width a shift ha h

    qb : clear_low width b shift ≡ b / 2 ^ shift * 2 ^ shift
    qb = clear_low-quotient width b shift hb h

-- Two IPv4 addresses have one key exactly if they agree on their first `ipv4_prefix` bits (all 32,
-- if the prefix is longer), whatever the IPv6 prefix.
client_key-v4_iff :
    (a b ipv4_prefix ipv6_prefix : ℕ)
    → a < 2 ^ 32
    → b < 2 ^ 32
    → (client_key (v4 a) ipv4_prefix ipv6_prefix ≡ client_key (v4 b) ipv4_prefix ipv6_prefix)
      ↔ (a / 2 ^ (32 - min ipv4_prefix 32) ≡ b / 2 ^ (32 - min ipv4_prefix 32))
unfolding client_key
client_key-v4_iff a b p q ha hb =
    let keys = clear_low_iff 32 a b (32 - min p 32) ha hb (omega arith) in
    (λ e. keys.0 (cc e), λ e. ap key_v4 (keys.1 e))

-- Two IPv6 addresses have one key exactly if they agree on their first `ipv6_prefix` bits, of which
-- 64 count at most.
client_key-v6_iff :
    (a b ipv4_prefix ipv6_prefix : ℕ)
    → a < 2 ^ 128
    → b < 2 ^ 128
    → (client_key (v6 a) ipv4_prefix ipv6_prefix ≡ client_key (v6 b) ipv4_prefix ipv6_prefix)
      ↔ (a / 2 ^ 64 / 2 ^ (64 - min ipv6_prefix 64) ≡ b / 2 ^ 64 / 2 ^ (64 - min ipv6_prefix 64))
unfolding client_key
client_key-v6_iff a b p q ha hb =
    let high =
      λ (x : ℕ) (lt : x < 2 ^ 128). mod-eq_of_lt {n = x / 2 ^ 64} {m = 2 ^ 64} (omega arith) in
    let keys =
      clear_low_iff 64 (a / 2 ^ 64) (b / 2 ^ 64) (64 - min q 64) (omega arith) (omega arith)
        (omega arith) in
    rw (high a ha, high b hb) (λ e. keys.0 (cc e), λ e. ap key_v6 (keys.1 e))

-- An address of its family's width.
abbrev pub IsAddress : IpAddr → Type 0
IsAddress (v4 a) = a < 2 ^ 32
IsAddress (v6 a) = a < 2 ^ 128

-- Addresses of one family that agree on its prefix.
unfoldable pub SharesPrefix : ℕ → ℕ → IpAddr → IpAddr → Type 0
SharesPrefix p q (v4 a) (v4 b) = a / 2 ^ (32 - min p 32) ≡ b / 2 ^ (32 - min p 32)
SharesPrefix p q (v6 a) (v6 b) = a / 2 ^ 64 / 2 ^ (64 - min q 64) ≡ b / 2 ^ 64 / 2 ^ (64 - min q 64)
SharesPrefix p q (v4 a) (v6 b) = ⊥
SharesPrefix p q (v6 a) (v4 b) = ⊥

-- Two addresses have one key exactly if both are IPv4 and agree on their first `ipv4_prefix` bits, of
-- which 32 count at most, or both are IPv6 and agree on their first `ipv6_prefix` bits, of which 64
-- count at most.
pub client_key_iff :
    (a b : IpAddr) (ipv4_prefix ipv6_prefix : ℕ)
    → IsAddress a
    → IsAddress b
    → (client_key a ipv4_prefix ipv6_prefix ≡ client_key b ipv4_prefix ipv6_prefix)
      ↔ SharesPrefix ipv4_prefix ipv6_prefix a b
unfolding client_key SharesPrefix
client_key_iff (v4 a) (v4 b) p q ha hb = client_key-v4_iff a b p q ha hb
client_key_iff (v6 a) (v6 b) p q ha hb = client_key-v6_iff a b p q ha hb
client_key_iff (v4 a) (v6 b) p q ha hb = (λ e. cc, λ e. absurd e)
client_key_iff (v6 a) (v4 b) p q ha hb = (λ e. cc, λ e. absurd e)
