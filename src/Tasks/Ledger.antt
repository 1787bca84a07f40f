-- ===== src/Tasks/Ledger.antt =====
-- The requests that were answered, each with the messages that were sent for it.
use mathlib.Core.List.{Perm, perm_middle, append-nil, append_assoc, map-append}
use mathlib.Core.List.Perm
use mathlib.Core.Path.{subst}
use panopti_dns.Prelude.{
  ℕ, ◌≡◌, refl, sym, ap, ◌∙◌, Option, none, some, List, [], ◌∷◌, ◌++◌, map, Option-cases, inl, inr,
}
use panopti_dns.Hickory.{Hickory}
use panopti_dns.Rrl.{Governor}
use panopti_dns.Handler.{Request, Message, World}
use panopti_dns.Tasks.{
  Task, rejected, asking, decided, sending, Running, Event, arrives, advances, reloads, sweeps,
  select, to_list, advance_task, advance,
}
use panopti_dns.Tasks.Steps.{select-append}

-- The elements of the first list may stand behind those of the second.
perm_shift : {A : Type 0} (xs ys zs : List A) → Perm (xs ++ (ys ++ zs)) (ys ++ (xs ++ zs))
perm_shift [] ys zs = Perm.rfl
perm_shift (x ∷ xs) ys zs =
    Perm.trans (Perm.cons x (perm_shift xs ys zs)) (Perm.symm (perm_middle ys (xs ++ zs)))

module _ (h : Hickory) where
  abbrev pub request_of : Task h → Request h.Name
  request_of (rejected request) = request
  request_of (asking request qname version asked up_qname records) = request
  request_of (decided request reply) = request
  request_of (sending request reply decision) = request

  -- A request, and the messages that were sent for it.
  abbrev pub Answer : Type 0
  Answer = Request h.Name × List (Message h.Record)

  abbrev pub requests : List Answer → List (Request h.Name)
  requests [] = []
  requests ((request, sent) ∷ answers) = request ∷ requests answers

  abbrev pub messages : List Answer → List (Message h.Record)
  messages [] = []
  messages ((request, sent) ∷ answers) = sent ++ messages answers

  -- The requests of a list of events.
  unfoldable pub arrived : List (Event h) → List (Request h.Name)
  arrived [] = []
  arrived (arrives w request ∷ events) = request ∷ arrived events
  arrived (advances k w ∷ events) = arrived events
  arrived (reloads around ∷ events) = arrived events
  arrived (sweeps ∷ events) = arrived events

  -- What a step of a task comes to: an answer, where no task is left.
  abbrev pub answer_of : Request h.Name → List (Message h.Record) → Option (Task h) → List Answer
  answer_of request sent none = (request, sent) ∷ []
  answer_of request sent (some t) = []

  pub requests-append : (xs ys : List Answer) → requests (xs ++ ys) ≡ requests xs ++ requests ys
  requests-append [] ys = refl
  requests-append ((request, sent) ∷ xs) ys = ap (◌∷◌ request) (requests-append xs ys)

  pub messages-append : (xs ys : List Answer) → messages (xs ++ ys) ≡ messages xs ++ messages ys
  messages-append [] ys = refl
  messages-append ((request, sent) ∷ xs) ys =
      ap (λ ms. sent ++ ms) (messages-append xs ys)
      ∙ sym (append_assoc sent (messages xs) (messages ys))

  module _ (g : Governor) where
    -- The answer that an event comes to, if it does.
    unfoldable pub answered : Event h → Running h g → List Answer
    answered (arrives w request) s = []
    answered (advances k w) s = elim (select k s.tasks) [
      | none ↦ []
      | some (before, t, rest) ↦
          (let (sent, next, s') = advance_task h g w t s in answer_of (request_of t) sent next)
    ]
    answered (reloads around) s = []
    answered sweeps s = []

    -- A step of a task gives the messages of its answer, and either the answer or the rest of the task
    -- is for its request.
    answer_of-whole :
        (w : World h) (t : Task h) (s : Running h g)
        → let x = advance_task h g w t s in
          let a = answer_of (request_of t) x.0 x.1 in
          (x.0 ≡ messages a) × (requests a ++ map request_of (to_list x.1) ≡ request_of t ∷ [])
    unfolding advance_task
    answer_of-whole w (rejected request) s = (sym (append-nil _), refl)
    answer_of-whole w (asking request qname version asked up_qname records) s = (refl, refl)
    answer_of-whole w (decided request reply) s = (refl, refl)
    answer_of-whole w (sending request reply d) s = (sym (append-nil _), refl)

    -- An event is none of a task, or one of a task in flight.
    pub answered_cases :
        (P : List Answer × List (Message h.Record) × Running h g → Type 0) (k : ℕ) (w : World h)
        (s : Running h g)
        → P ([], [], s)
        → ((before rest : List (Task h)) (t : Task h)
            → s.tasks ≡ before ++ t ∷ rest
            → let x = advance_task h g w t s in
              P (
                answer_of (request_of t) x.0 x.1,
                x.0,
                record x.2 { tasks = before ++ (to_list x.1 ++ rest) },
              ))
        → (let y = advance h g k w s in P (answered (advances k w) s, y.0, y.1))
    unfolding advance answered
    answered_cases P k w s nothing taken = elim (Option-cases (select k s.tasks)) [
      | inl missing ↦ rw (missing, answered, advance) nothing
      | inr ((before, t, rest), found) ↦
          rw (found, answered, advance)
            (taken before rest t (select-append k s.tasks before rest t found))
    ]

    requests_moved :
        (before rest : List (Task h)) (t : Task h) (next : List (Task h)) (a : List Answer)
        → requests a ++ map request_of next ≡ request_of t ∷ []
        → Perm
            (requests a ++ map request_of (before ++ (next ++ rest)))
            (map request_of (before ++ t ∷ rest))
    requests_moved before rest t next a whole =
        let kept = map request_of before in
        let others = map request_of rest in
        let split : map request_of (before ++ (next ++ rest))
            ≡ kept ++ (map request_of next ++ others) =
          map-append request_of before (next ++ rest)
          ∙ ap (λ l. kept ++ l) (map-append request_of next rest) in
        let joined : requests a ++ (map request_of next ++ others) ≡ request_of t ∷ others =
          sym (append_assoc (requests a) (map request_of next) others)
          ∙ ap (λ l. l ++ others) whole in
        rw (split, map-append request_of before (t ∷ rest))
          (Perm.trans (perm_shift (requests a) kept (map request_of next ++ others))
            (subst (λ l. Perm (kept ++ l) (kept ++ (request_of t ∷ others))) (sym joined) Perm.rfl))

    -- What a step of a task leaves: its request is answered or still in flight, as every other.
    unfoldable pub IsKept :
        List Answer × List (Message h.Record) × Running h g → List (Request h.Name) → Type 0
    IsKept x asked = Perm (requests x.0 ++ map request_of x.2.tasks) asked × (x.1 ≡ messages x.0)

    pub advance-IsKept :
        (k : ℕ) (w : World h) (s : Running h g)
        → let y = advance h g k w s in
          IsKept (answered (advances k w) s, y.0, y.1) (map request_of s.tasks)
    unfolding IsKept
    advance-IsKept k w s =
        answered_cases (λ x. IsKept x (map request_of s.tasks)) k w s (Perm.rfl, refl)
          (λ before rest t e.
            let x = advance_task h g w t s in
            let (sent, whole) = answer_of-whole w t s in
            (
              subst
                  (λ ts.
                    Perm
                      (requests (answer_of (request_of t) x.0 x.1)
                        ++ map request_of (before ++ (to_list x.1 ++ rest)))
                      (map request_of ts))
                  (sym e)
                  (requests_moved before rest t (to_list x.1) (answer_of (request_of t) x.0 x.1)
                    whole),
              sent,
            ))
