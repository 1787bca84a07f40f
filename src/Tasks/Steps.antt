-- ===== src/Tasks/Steps.antt =====
-- The cases of a step, and what holds after every list of events.
use panopti_dns.Prelude.{
  Bool, true, false, ◌==◌, if◌then◌else◌, ℕ, zero, suc, ◌≡◌, inl, inr, some, List, [], ◌∷◌, ◌++◌,
  arith, Option-cases,
}
use panopti_dns.Bytes.{Bytes}
use panopti_dns.Hickory.{Hickory, Result-cases, ok}
use panopti_dns.Config.Compile.{AddressText}
use panopti_dns.Rrl.{Governor}
use panopti_dns.Server.{Zones}
use panopti_dns.Handler.{Message, World}
use panopti_dns.Start.{Surroundings, load_zones}
use panopti_dns.Tasks.{
  Task, Running, Event, put_version, select, to_list, advance_task, advance, reload, step,
  after_events,
}

pub select-append {ℓ} :
    {A : Type ℓ} (k : ℕ) (ts before rest : List A) (t : A)
    → select k ts ≡ some (before, t, rest)
    → ts ≡ before ++ t ∷ rest
unfolding select
select-append k [] before rest t e = cc
select-append zero (u ∷ us) before rest t e = ground arith
select-append (suc k) (u ∷ us) before rest t e = elim (Option-cases (select k us)) [
  | inl missing ↦ ground arith
  | inr ((b, v, r), found) ↦ (let again = select-append k us b r v found in ground arith)
]

pub put_version_ind {ℓ κ} :
    {A : Type ℓ} (P : A → Type κ) (n i : ℕ) (z : A) (versions : ℕ → A)
    → P z
    → P (versions i)
    → P (put_version n z versions i)
unfolding put_version
put_version_ind P n i z versions new old = choose (i == n)
  where
    choose : (b : Bool) → P (if b then z else versions i)
    choose true = new
    choose false = old

module _ (h : Hickory) (g : Governor) where
  -- A step of a task is none, or that of a task in flight.
  pub advance_cases {ℓ} :
      (P : List (Message h.Record) × Running h g → Type ℓ) (k : ℕ) (w : World h) (s : Running h g)
      → P ([], s)
      → ((before rest : List (Task h)) (t : Task h)
          → s.tasks ≡ before ++ t ∷ rest
          → let x = advance_task h g w t s in
            P (x.0, record x.2 { tasks = before ++ (to_list x.1 ++ rest) }))
      → P (advance h g k w s)
  unfolding advance
  advance_cases P k w s nothing taken = elim (Option-cases (select k s.tasks)) [
    | inl missing ↦ rw (missing, advance) nothing
    | inr ((before, t, rest), found) ↦
        rw (found, advance) (taken before rest t (select-append k s.tasks before rest t found))
  ]

module _ (h : Hickory) (text : AddressText) (lossy : Bytes → Bytes) (g : Governor)
    (path : Bytes) where
  pub reload_cases {ℓ} :
      (P : Running h g → Type ℓ) (around : Surroundings) (s : Running h g)
      → P s
      → ((next : Zones h.Name)
          → load_zones h text lossy around path ≡ ok next
          → P (record s {
            versions = put_version (suc s.current) next s.versions;
            current = suc s.current;
          }))
      → P (reload h text lossy g path around s)
  unfolding reload
  reload_cases P around s kept stored = elim (Result-cases (load_zones h text lossy around path)) [
    | inl (next, e) ↦ rw (e, reload) (stored next e)
    | inr (x, e) ↦ rw (e, reload) kept
  ]

  -- What every event preserves holds after any events.
  pub after_events-Inv {ℓ} :
      (P : Running h g → Type ℓ)
      → ((event : Event h) (s : Running h g) → P s → P (step h text lossy g path event s).1)
      → (events : List (Event h)) (s : Running h g) → P s
      → P (after_events h text lossy g path events s).1
  unfolding after_events
  after_events-Inv P preserved [] s p = p
  after_events-Inv P preserved (event ∷ events) s p =
      after_events-Inv P preserved events (step h text lossy g path event s).1 (preserved event s p)
