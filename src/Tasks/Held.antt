-- ===== src/Tasks/Held.antt =====
-- The permits that the tasks in flight hold.
use panopti_dns.Prelude.{
  ℕ, ◌+◌, ◌≤◌, ◌≡◌, refl, ap, ◌∙◌, inl, inr, List, [], ◌∷◌, ◌++◌, arith, ◌==◌, if◌then◌else◌,
  Bool-cases, ==_iff,
}
use panopti_dns.Hickory.{Hickory}
use panopti_dns.Config.{IpAddr}
use panopti_dns.Server.{Zones}
use panopti_dns.Server.Clients.{ip_eq_refl}
use panopti_dns.Server.Awaiting.Taken.{left_of, one_for}
use panopti_dns.Handler.{Request}
use panopti_dns.Tasks.{Task, rejected, asking, decided, sending, put_version}

module _ (h : Hickory) where
  -- Whether a task holds a permit of the client of an address, in a version of the zones.
  unfoldable pub holds : ℕ → IpAddr → Task h → ℕ
  holds v addr (asking request qname version asked up_qname records) =
      if v == version then one_for asked addr else 0
  holds v addr (rejected request) = 0
  holds v addr (decided request reply) = 0
  holds v addr (sending request reply decision) = 0

  -- How many of the tasks do.
  unfoldable pub held : ℕ → IpAddr → List (Task h) → ℕ
  held v addr [] = 0
  held v addr (t ∷ ts) = holds v addr t + held v addr ts

  pub held-append :
      (v : ℕ) (addr : IpAddr) (ts us : List (Task h))
      → held v addr (ts ++ us) ≡ held v addr ts + held v addr us
  unfolding held
  held-append v addr [] us = omega arith
  held-append v addr (t ∷ ts) us = omega (arith, held-append v addr ts us)

  pub tasks-held :
      (v : ℕ) (addr : IpAddr) (before rest ts : List (Task h)) (t : Task h)
      → ts ≡ before ++ t ∷ rest
      → held v addr ts ≡ held v addr before + (holds v addr t + held v addr rest)
  unfolding held
  tasks-held v addr before rest ts t e = ap (held v addr) e ∙ held-append v addr before (t ∷ rest)

  pub holds_self :
      (request : Request h.Name) (qname : h.Name) (version : ℕ) (asked : IpAddr) (up_qname : h.Name)
      (records : List h.Record)
      → holds version asked (asking request qname version asked up_qname records) ≡ 1
  unfolding holds
  holds_self request qname version asked up_qname records =
      rw ((==_iff version version).1 refl, ip_eq_refl asked) refl

  pub one_waits :
      (v : ℕ) (addr : IpAddr) (before rest ts : List (Task h)) (t : Task h) {n : ℕ}
      → holds v addr t ≡ 1
      → ts ≡ before ++ t ∷ rest
      → n + held v addr ts ≡ 64
      → n ≤ 63
  one_waits v addr before rest ts t one e total =
      omega (arith, tasks-held v addr before rest ts t e, one, total)

  pub stored-left :
      (versions : ℕ → Zones h.Name) (zones : Zones h.Name) (request : Request h.Name)
      (qname : h.Name) (version : ℕ) (asked : IpAddr) (up_qname : h.Name) (records : List h.Record)
      (v : ℕ) (addr : IpAddr)
      → left_of zones addr ≡ left_of (versions version) addr + one_for asked addr
      → left_of (put_version version zones versions v) addr
        ≡ left_of (versions v) addr
          + holds v addr (asking request qname version asked up_qname records)
  unfolding put_version holds
  stored-left versions zones request qname version asked up_qname records v addr e =
      elim (Bool-cases (v == version)) [
        | inl same ↦ (let ev = (==_iff v version).0 same in ground arith)
        | inr other ↦ ground arith
      ]
