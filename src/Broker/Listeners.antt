-- ===== src/Broker/Listeners.antt =====
-- What becomes of a message to all listeners.
use casual.Base.{
  ◌∙◌, ap, sym, ℕ, ◌+◌, ◌≡◌, refl, Bool, true, false, List, [], ◌∷◌, ◌++◌, append_assoc, arith,
  how_many, how_many-append, if◌then◌else◌,
}
use casual.Ipc.{Outcome, delivered, full, gone}
use casual.Run.{bind_ok}
use casual.Broker.Message.{Message}
use casual.Broker.State.{State, Event, sent, refused, lost}
use casual.Broker.Monad.{
  Environment, ok, pure, offer, non_blocking_send, ◌>>=◌, gets, modify, continue, record_event,
  recover, caught, raise,
}
use casual.Broker.Handle.Dead.{count_as_sent, send_all}

-- A message with `p` left for a queue with `p`, or the queue was gone.
unfoldable pub is_settled : (ℕ → Message → Bool) → Event → Bool
is_settled p (sent q m) = p q m
is_settled p (lost q m) = p q m
is_settled p e = false

-- The queue was full.
unfoldable pub is_refused : (ℕ → Message → Bool) → Event → Bool
is_refused p (refused q m) = p q m
is_refused p e = false

how_many_if :
    {A : Type 0} (p : A → Bool) (b : Bool) (q : A) (qs : List A)
    → how_many p (if b then qs else q ∷ qs) ≡ how_many p (if b then [] else q ∷ []) + how_many p qs
unfolding how_many
how_many_if p true q qs = omega arith
how_many_if p false q qs = omega arith

-- The event settles the queue or refuses it, as the result tells.
abbrev Settles : Message → ℕ → Bool → Event → Type 0
Settles m q taken e =
    (p : ℕ → Message → Bool)
    → ((if is_settled p e then 1 else 0) + how_many (λ r. p r m) (if taken then [] else q ∷ [])
        ≡ (if p q m then 1 else 0))
      × ((if is_refused p e then 1 else 0) ≡ how_many (λ r. p r m) (if taken then [] else q ∷ []))

module _ (env : Environment) where
  -- One attempt: whether it counts as sent, and the one event that it adds.
  attempt-Settles :
      (m : Message) (o : Outcome) (q : ℕ) (s : State)
      → (taken : Bool) × (e : Event) × (recover count_as_sent (offer q m o) s
          ≡ (ok taken, record s { events = e ∷ s.events }))
        × Settles m q taken e
  unfolding recover caught count_as_sent offer record_event modify ◌>>=◌ pure raise continue
      is_settled is_refused how_many
  attempt-Settles m delivered q s = (true, sent q m, refl, λ p. (omega arith, refl))
  attempt-Settles m full q s = (false, refused q m, refl, λ p. (omega arith, omega arith))
  attempt-Settles m gone q s = (true, lost q m, refl, λ p. (omega arith, refl))

  send-Settles :
      (m : Message) (q : ℕ) (s : State)
      → (taken : Bool) × (e : Event) × (recover count_as_sent (non_blocking_send env q m) s
          ≡ (ok taken, record s { events = e ∷ s.events }))
        × Settles m q taken e
  unfolding non_blocking_send ◌>>=◌ gets recover
  send-Settles m q s = attempt-Settles m (env.push s.events q) q s

  -- A message is sent to all of some queues. Then the call returns and nothing but the events
  -- changes; whichever queues and messages are looked at, the new events that say that such a
  -- message was sent to such a queue or that the queue is gone, and the queues left for this
  -- message, add up to the queues, and the queues left are those that were full.
  pub send_all_settles :
      (m : Message) (qs : List ℕ) (s : State)
      → (left : List ℕ) × (news : List Event) × (send_all env m qs s
          ≡ (ok left, record s { events = news ++ s.events }))
        × ((p : ℕ → Message → Bool)
            → (how_many (is_settled p) news + how_many (λ q. p q m) left ≡ how_many (λ q. p q m) qs)
              × (how_many (is_refused p) news ≡ how_many (λ q. p q m) left))
  unfolding send_all pure how_many
  send_all_settles m [] s = ([], [], refl, λ p. (refl, refl))
  send_all_settles m (q ∷ qs) s =
      let (taken, e, one, settles) = send-Settles m q s in
      let (left, news, rest, all) = send_all_settles m qs (record s { events = e ∷ s.events }) in
      (
        (if taken then left else q ∷ left),
        news ++ e ∷ [],
        bind_ok _ _ s _ taken one
            ∙ bind_ok _ _ _ _ left rest
            ∙ ap (λ l. (ok (if taken then left else q ∷ left), record s { events = l }))
                (sym (append_assoc news (e ∷ []) s.events)),
        λ p.
            let done = how_many-append (is_settled p) news (e ∷ []) in
            let back = how_many-append (is_refused p) news (e ∷ []) in
            let kept = how_many_if (λ r. p r m) taken q left in
            let (first, second) = settles p in
            let (others, refuses) = all p in
            (omega (arith, done, kept, first, others), back ∙ omega (arith, second, refuses, kept)),
      )
