-- ===== src/Context/Finalize/Cancelled.antt =====
-- The calls that wait when a service ends are cancelled.
use casual.Base.{
  ◌∙◌, ap, sym, ℕ, ◌≡◌, refl, Bool, true, false, Bool-cases, inl, inr, Option, none, some, List, [],
  ◌∷◌, ◌++◌, append_assoc, map, any_of, find_if, update_first, ◌==◌, how_many, how_many-append,
  arith,
}
use casual.Run.{bind_ok}
use casual.Context.State.{State, Event, Transaction, Descriptor, CallReply, discarded}
use casual.Context.Monad.{ok, pure, gets, modify, continue, case_of, ◌>>=◌, require, record_event}
use casual.Context.Pending.{
  cancel, get_descriptor, unreserve, has_descriptor, associated, active_found,
}
use casual.Context.Finalize.{cancel_each, checked, checked_reply, check_pending}

abbrev pub freed : ℕ → List Descriptor → List Descriptor
freed d pending = update_first (has_descriptor d) (λ e. record e { is_active = false }) pending

-- Each of the descriptors is in use, and none is listed twice.
abbrev pub InUse : List ℕ → List Descriptor → Type 0
InUse [] pending = Unit
InUse (d ∷ ds) pending =
    (active_found (find_if (has_descriptor d) pending) ≡ true)
    × (any_of (λ e. e == d) ds ≡ false)
    × InUse ds pending

-- The descriptors of the transactions, in order.
unfoldable pub descriptors_of : List Transaction → List ℕ
descriptors_of [] = []
descriptors_of (t ∷ ts) = t.descriptors ++ descriptors_of ts

pub find_if-freed :
    (e d : ℕ) (pending : List Descriptor)
    → (e == d) ≡ false
    → find_if (has_descriptor e) (freed d pending) ≡ find_if (has_descriptor e) pending
unfolding find_if update_first has_descriptor
find_if-freed e d [] other = refl
find_if-freed e d (c ∷ cs) other = elim (Bool-cases (c.descriptor == d)) [
  | inl h ↦ let out : (c.descriptor == e) ≡ false = ground arith in rw (h, out) refl
  | inr h ↦ elim (Bool-cases (c.descriptor == e)) [
    | inl k ↦ rw (h, k) refl
    | inr k ↦ rw (h, k) (find_if-freed e d cs other)
  ]
]

InUse-freed :
    (d : ℕ) (ds : List ℕ) (pending : List Descriptor)
    → any_of (λ e. e == d) ds ≡ false
    → InUse ds pending
    → InUse ds (freed d pending)
unfolding any_of
InUse-freed d [] pending other held = tt
InUse-freed d (e ∷ es) pending other held =
    let out : (e == d) ≡ false = ground arith in
    let rest : any_of (λ e. e == d) es ≡ false = ground arith in
    (
      ap active_found (find_if-freed e d pending out) ∙ held.0,
      held.1,
      InUse-freed d es pending rest held.2,
    )

pub cancel_found :
    (d : ℕ) (s : State) (o : Option Descriptor)
    → s.transactions ≡ []
    → find_if (has_descriptor d) s.pending ≡ o
    → active_found o ≡ true
    → (c : ℕ) × (cancel d s
        ≡ (ok tt, record s { pending = freed d s.pending; events = discarded c ∷ s.events }))
unfolding cancel associated any_of get_descriptor unreserve record_event ◌>>=◌ gets continue case_of
    require pure modify active_found
cancel_found d s none empty found active = absurd (ground arith)
cancel_found d s (some e) empty found active =
    (e.correlation, rw (empty, found, active, found) refl)

-- A run that frees descriptors, and discards as many messages.
abbrev pub Frees : (Event → Bool) → State → List Descriptor → List Event → State → Type 0
Frees p s pending news left =
    (left ≡ record s { pending = pending; events = news ++ s.events }) × (how_many p news ≡ 0)

module _ (p : Event → Bool) (quiet : (c : ℕ) → p (discarded c) ≡ false) where
  cancel_each_lem :
      (ds es : List ℕ) (s : State)
      → s.transactions ≡ []
      → InUse (ds ++ es) s.pending
      → (pending : List Descriptor) × (news : List Event) × (left : State) × (cancel_each ds s
          ≡ (ok tt, left))
        × Frees p s pending news left
        × InUse es pending
  unfolding cancel_each pure how_many
  cancel_each_lem [] es s empty held = (s.pending, [], s, refl, (refl, refl), held)
  cancel_each_lem (d ∷ ds) es s empty held =
      let (c, e) = cancel_found d s _ empty refl held.0 in
      let (pending, news, left, f, frees, rest) =
        cancel_each_lem ds es
          (record s { pending = freed d s.pending; events = discarded c ∷ s.events }) empty
          (InUse-freed d (ds ++ es) s.pending held.1 held.2) in
      let sum : how_many p (news ++ discarded c ∷ []) ≡ 0 =
        how_many-append p news (discarded c ∷ []) ∙ rw (quiet c) (omega (arith, frees.1)) in
      (
        pending,
        news ++ discarded c ∷ [],
        left,
        bind_ok (cancel d) (λ _. cancel_each ds) s _ tt e ∙ f,
        (
          frees.0
              ∙ ap (λ l. record s { pending = pending; events = l })
                  (sym (append_assoc news (discarded c ∷ []) s.events)),
          sum,
        ),
        rest,
      )

  pub check_pending_lem :
      (ts : List Transaction) (m : CallReply) (s : State)
      → s.transactions ≡ []
      → InUse (descriptors_of ts) s.pending
      → (pending : List Descriptor) × (news : List Event) × (reply : CallReply) × (left : State)
        × (check_pending ts m s ≡ (ok (map checked ts, reply), left))
        × Frees p s pending news left
  unfolding check_pending pure how_many descriptors_of
  check_pending_lem [] m s empty held = (s.pending, [], m, s, refl, (refl, refl))
  check_pending_lem (t ∷ ts) m s empty held =
      let (pending, news, left, e, frees, rest) =
        cancel_each_lem t.descriptors (descriptors_of ts) s empty held in
      let after : State = record s { pending = pending; events = news ++ s.events } in
      let (pending', news', reply, left', f, frees') =
        check_pending_lem ts (checked_reply t m) after empty rest in
      let sum : how_many p (news' ++ news) ≡ 0 =
        how_many-append p news' news ∙ omega (arith, frees.1, frees'.1) in
      (
        pending',
        news' ++ news,
        reply,
        left',
        bind_ok (cancel_each t.descriptors) _ s after tt (e ∙ ap (λ l. (ok tt, l)) frees.0)
            ∙ bind_ok (check_pending ts (checked_reply t m))
                (λ rest. pure (checked t ∷ rest.0, rest.1)) after left' (map checked ts, reply) f,
        (
          frees'.0
              ∙ ap (λ l. record s { pending = pending'; events = l })
                  (sym (append_assoc news' news s.events)),
          sum,
        ),
      )
