-- ===== src/Context/Finalize/Thrown.antt =====
-- The end of a service with a transaction that is tied to a descriptor that is not in use.
use casual.Base.{
  ◌∙◌, ap, sym, ◌⊎◌, inl, inr, ℕ, ◌≡◌, refl, Bool, true, false, Bool-cases, Option-cases, some,
  List, [], ◌∷◌, ◌++◌, any_of, find_if, ◌==◌, arith,
}
use mathlib.Core.Path.{subst}
use casual.Run
use casual.Run.{bind_ok}
use casual.Context.State.{
  State, Exception, Transaction, Descriptor, CallReply, is_associated_with, discarded,
}
use casual.Context.Monad.{
  Environment, Action, ok, throw, pure, raise, gets, modify, continue, case_of, ◌>>=◌, require,
  record_event,
}
use casual.Context.Pending.{
  cancel, get_descriptor, unreserve, has_descriptor, associated, active_found, active_descriptor,
}
use casual.Context.Finalize.{
  return_error, cancel_each, checked_reply, check_pending, settle_all, finalize, checked,
}
use casual.Context.Finalize.Cancelled.{freed, find_if-freed, cancel_found}
use casual.Context.Pending.Used.{freed_inactive}

unfoldable pub is_ok : {A : Type 0} → Run.Result Exception A → Bool
is_ok (ok a) = true
is_ok (throw e) = false

module _ {A B : Type 0} (act : Action A) (next : A → Action B) (s : State) where
  throws_first : is_ok (act s).0 ≡ false → is_ok ((act >>= next) s).0 ≡ false
  unfolding ◌>>=◌ continue is_ok
  throws_first h = by_result (act s).0 h
    where
      by_result :
          (r : Run.Result Exception A)
          → is_ok r ≡ false
          → is_ok (continue r next (act s).1).0 ≡ false
      by_result (ok a) h = absurd (ground arith)
      by_result (throw e) h = refl

-- No transaction is in the context, and the descriptor is not in use.
abbrev Unused : ℕ → State → Type 0
Unused d s = (s.transactions ≡ []) × (active_descriptor d s ≡ false)

-- A cancellation throws, or frees the descriptor that it is asked for.
cancel_splits :
    (e : ℕ) (s : State)
    → s.transactions ≡ []
    → (is_ok (cancel e s).0 ≡ false)
      ⊎ ((c : ℕ) × (cancel e s
            ≡ (ok tt, record s { pending = freed e s.pending; events = discarded c ∷ s.events })))
unfolding cancel associated any_of get_descriptor unreserve record_event ◌>>=◌ gets continue case_of
    require pure raise modify active_found is_ok
cancel_splits e s empty = elim (Option-cases (find_if (has_descriptor e) s.pending)) [
  | inl h ↦ inl (rw (empty, h) refl)
  | inr (c, h) ↦ elim (Bool-cases c.is_active) [
    | inl active ↦ inr (cancel_found e s (some c) empty h active)
    | inr free ↦ inl (rw (empty, h, free) refl)
  ]
]

freed_unused :
    (d e : ℕ) (pending : List Descriptor)
    → active_found (find_if (has_descriptor d) pending) ≡ false
    → active_found (find_if (has_descriptor d) (freed e pending)) ≡ false
freed_unused d e pending h = elim (Bool-cases (d == e)) [
  | inl same ↦
      let equal : e ≡ d = ground arith in
      subst (λ e. active_found (find_if (has_descriptor d) (freed e pending)) ≡ false) (sym equal)
        (freed_inactive d pending)
  | inr other ↦ ap active_found (find_if-freed d e pending other) ∙ h
]

-- The cancellation of the descriptor itself throws.
cancel_refuses : (d : ℕ) (s : State) → Unused d s → is_ok (cancel d s).0 ≡ false
unfolding cancel associated any_of get_descriptor unreserve record_event ◌>>=◌ gets continue case_of
    require pure raise modify active_found is_ok active_descriptor
cancel_refuses d s (empty, unused) = elim (Option-cases (find_if (has_descriptor d) s.pending)) [
  | inl h ↦ rw (empty, h) refl
  | inr (c, h) ↦
      let free : c.is_active ≡ false = ap active_found (sym h) ∙ unused in rw (empty, h, free) refl
]

-- What a list of cancellations comes to: it throws, or the descriptor stays out of use.
abbrev Split : {A : Type 0} → ℕ → Action A → State → Type 0
Split {A} d act s =
    (is_ok (act s).0 ≡ false) ⊎ ((a : A) × (left : State) × (act s ≡ (ok a, left)) × Unused d left)

cancel_each_splits : (d : ℕ) (ds : List ℕ) (s : State) → Unused d s → Split d (cancel_each ds) s
unfolding cancel_each pure active_descriptor
cancel_each_splits d [] s unused = inr (tt, s, refl, unused)
cancel_each_splits d (e ∷ es) s unused = elim (cancel_splits e s unused.0) [
  | inl thrown ↦ inl (throws_first (cancel e) (λ _. cancel_each es) s thrown)
  | inr (c, run) ↦
      let next : State = record s {
        pending = freed e s.pending;
        events = discarded c ∷ s.events;
      } in
      elim (cancel_each_splits d es next (unused.0, freed_unused d e s.pending unused.1)) [
        | inl thrown ↦
            inl (
              ap (λ r. is_ok r.0) (bind_ok (cancel e) (λ _. cancel_each es) s next tt run) ∙ thrown)
        | inr (a, left, rest, unused') ↦
            inr (a, left, bind_ok (cancel e) (λ _. cancel_each es) s next tt run ∙ rest, unused')
      ]
]

cancel_each_throws :
    (d : ℕ) (ds : List ℕ) (s : State)
    → Unused d s
    → any_of (λ e. e == d) ds ≡ true
    → is_ok (cancel_each ds s).0 ≡ false
unfolding cancel_each any_of active_descriptor
cancel_each_throws d [] s unused tied = absurd (ground arith)
cancel_each_throws d (e ∷ es) s unused tied = elim (Bool-cases (e == d)) [
  | inl same ↦
      let equal : d ≡ e = ground arith in
      throws_first (cancel e) (λ _. cancel_each es) s
        (subst (λ e. is_ok (cancel e s).0 ≡ false) equal (cancel_refuses d s unused))
  | inr other ↦
      let later : any_of (λ e. e == d) es ≡ true = ground arith in
      elim (cancel_splits e s unused.0) [
        | inl thrown ↦ throws_first (cancel e) (λ _. cancel_each es) s thrown
        | inr (c, run) ↦
            let next : State = record s {
              pending = freed e s.pending;
              events = discarded c ∷ s.events;
            } in
            ap (λ r. is_ok r.0) (bind_ok (cancel e) (λ _. cancel_each es) s next tt run)
            ∙ cancel_each_throws d es next (unused.0, freed_unused d e s.pending unused.1) later
      ]
]

check_pending_throws :
    (d : ℕ) (ts us : List Transaction) (t : Transaction) (m : CallReply) (s : State)
    → Unused d s
    → is_associated_with d t ≡ true
    → is_ok (check_pending (ts ++ t ∷ us) m s).0 ≡ false
unfolding check_pending is_associated_with
check_pending_throws d [] us t m s unused tied =
    throws_first (cancel_each t.descriptors) _ s (cancel_each_throws d t.descriptors s unused tied)
check_pending_throws d (u ∷ ts) us t m s unused tied =
    elim (cancel_each_splits d u.descriptors s unused) [
      | inl thrown ↦ throws_first (cancel_each u.descriptors) _ s thrown
      | inr (a, left, run, unused') ↦
          let rest : List Transaction = ts ++ t ∷ us in
          ap (λ r. is_ok r.0)
            (bind_ok (cancel_each u.descriptors)
              (λ _. check_pending rest (checked_reply u m) >>= λ r. pure (checked u ∷ r.0, r.1)) s
              left a run)
          ∙ throws_first (check_pending rest (checked_reply u m)) _ left
              (check_pending_throws d ts us t (checked_reply u m) left unused' tied)
    ]

-- Some transaction of a service that ends is tied to a descriptor that is not in use. Then the end of
-- the service throws, whatever the service returns and whatever the manager and the resources answer.
pub finalize_unused_throws :
    (env : Environment) (m : CallReply) (state d : ℕ) (ts us : List Transaction) (t : Transaction)
    (s : State)
    → s.transactions ≡ ts ++ t ∷ us
    → is_associated_with d t ≡ true
    → active_descriptor d s ≡ false
    → is_ok (finalize env m state s).0 ≡ false
unfolding finalize ◌>>=◌ gets modify continue active_descriptor
finalize_unused_throws env m state d ts us t s stack tied unused =
    throws_first (check_pending s.transactions (return_error state m))
      (λ rest. settle_all env state rest.0 rest.1) (record s { transactions = [] })
      (subst
        (λ l.
          is_ok (check_pending l (return_error state m) (record s { transactions = [] })).0 ≡ false)
        (sym stack)
        (check_pending_throws d ts us t (return_error state m) (record s { transactions = [] })
          (refl, unused) tied))
