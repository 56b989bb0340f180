-- ===== src/Manager/Pump/Replies.antt =====
-- The persistent replies at the end of a round: each is tried once, and the refused ones are kept.
use casual.Base.{
  ℕ, ◌+◌, ◌≡◌, refl, ap, sym, ◌∙◌, Bool, true, false, List, [], ◌∷◌, ◌++◌, append_assoc, how_many,
  how_many-append, arith, if◌then◌else◌,
}
use casual.Manager.Message.{Message}
use casual.Manager.State.{State, Event, sent, refused, lost, PendingReply}
use casual.Manager.Monad.{Environment, ok, Outcome, delivered, full, gone, ◌>>=◌}
use casual.Manager.Action.{attempt, counts_as_sent, non_blocking_push, send_persistent_reply}
use casual.Manager.Pump.{flush_replies}

-- A message with `p` was pushed to a queue with `p`, whatever became of it.
unfoldable pub is_pushed : (ℕ → Message → Bool) → Event → Bool
is_pushed p (sent q m) = p q m
is_pushed p (refused q m) = p q m
is_pushed p (lost q m) = p q m
is_pushed p e = false

-- A full queue refused it.
unfoldable pub is_refused : (ℕ → Message → Bool) → Event → Bool
is_refused p (refused q m) = p q m
is_refused p e = false

-- The replies with `p`.
abbrev pub is_reply : (ℕ → Message → Bool) → PendingReply → Bool
is_reply p r = p r.target r.message

-- What a push to a queue adds: the event, one attempt, and what is refused is not sent.
attempt-adds :
    (r : PendingReply) (o : Outcome) (s : State)
    → (b : Bool) × (e : Event) × (counts_as_sent (attempt r.target r.message o s).0 ≡ ok b)
      × ((attempt r.target r.message o s).1 ≡ record s { events = e ∷ s.events })
      × ((p : ℕ → Message → Bool)
          → (is_pushed p e ≡ is_reply p r)
            × ((if is_refused p e then 1 else 0)
                ≡ how_many (is_reply p) (if b then [] else r ∷ [])))
unfolding attempt counts_as_sent is_pushed is_refused how_many
attempt-adds r delivered s = (true, sent r.target r.message, refl, refl, λ p. (refl, refl))
attempt-adds r full s = (false, refused r.target r.message, refl, refl, λ p. (refl, omega arith))
attempt-adds r gone s = (true, lost r.target r.message, refl, refl, λ p. (refl, refl))

how_many_if :
    {A : Type 0} (p : A → Bool) (b : Bool) (r : A) (rs : List A)
    → how_many p (if b then rs else r ∷ rs) ≡ how_many p (if b then [] else r ∷ []) + how_many p rs
unfolding how_many
how_many_if p true r rs = omega arith
how_many_if p false r rs = omega arith

-- To send the persistent replies never throws and changes nothing but the events; whichever targets
-- and messages are looked at, as many were pushed as there are such replies, and as many such
-- replies are kept for the next round as full queues have refused.
pub flush_replies_lem :
    (env : Environment) (rs : List PendingReply) (s : State)
    → (kept : List PendingReply) × (news : List Event) × (flush_replies env rs s
        ≡ (ok kept, record s { events = news ++ s.events }))
      × ((p : ℕ → Message → Bool)
          → (how_many (is_pushed p) news ≡ how_many (is_reply p) rs)
            × (how_many (is_refused p) news ≡ how_many (is_reply p) kept))
unfolding flush_replies send_persistent_reply non_blocking_push ◌>>=◌ how_many
flush_replies_lem env [] s = ([], [], refl, λ p. (refl, refl))
flush_replies_lem env (r ∷ rs) s =
    let (b, e, eq, step, one) = attempt-adds r (env.push s.events r.target) s in
    let (kept, news, rest, all) = flush_replies_lem env rs (record s { events = e ∷ s.events }) in
    (
      (if b then kept else r ∷ kept),
      news ++ e ∷ [],
      rw (eq, step, rest)
          (ap (λ l. (ok (if b then kept else r ∷ kept), record s { events = l }))
            (sym (append_assoc news (e ∷ []) s.events))),
      λ p.
          let tried = how_many-append (is_pushed p) news (e ∷ []) in
          let back = how_many-append (is_refused p) news (e ∷ []) in
          let (pushes, refuses) = all p in
          let (push, refuse) = one p in
          (
            tried ∙ rw (push, pushes) (omega arith),
            back ∙ omega (arith, refuse, refuses, how_many_if (is_reply p) b r kept),
          ),
    )
