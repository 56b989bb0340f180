-- ===== src/Context/Finalize/Answered.antt =====
-- A service that has failed ends in rollbacks.
use casual.Base.{
  ◌∙◌, ℕ, ◌+◌, ◌≡◌, refl, Bool, true, false, Option, none, some, List, [], ◌∷◌, ◌++◌, All, how_many,
  how_many-append, ◌==◌, is_empty, if◌then◌else◌, arith,
}
use casual.Base.Int.{ℤ}
use casual.Ipc.{same_process}
use casual.Context.Code.{tp_success, tm_success, xa_to_tx}
use casual.Context.State.{
  State, Event, Exception, Transaction, Message, CallReply, sent, rollback_request, protocol,
  unavailable, same_xid, is_real, has_xid,
}
use casual.Context.Monad.{
  Action, Environment, pure, raise, modify, continue, or_throw, case_of, ◌>>=◌, require,
  record_event, deliver, blocking_send,
}
use casual.Context.Commit.{fixed_ids, rollback_transaction}
use casual.Context.Resources.{resources_end}
use casual.Context.Finalize.{
  is_commit, noted, conclude, conclude_each, tell_involved, hand_back, is_foreign,
}
use casual.Context.Adds.{Adds, Adds-bind, Adds-pure, Adds-gets, Adds-if, Count, resources_end_quiet}

unfoldable pub is_rollback_of : ℕ → Event → Bool
unfolding same_xid
is_rollback_of x (sent (rollback_request p trid ids)) = same_xid trid.xid (some x)
is_rollback_of x e = false

module _ {A : Type 0} {Q : State → List Event → Type 0} where
  Adds-require :
      (b : Bool) (e : Exception) (next : Unit {0} → Action A)
      → b ≡ true
      → Adds Q (next tt)
      → Adds Q (require b e >>= next)
  unfolding ◌>>=◌ require pure raise continue
  Adds-require true e next h adds = record { at = adds.at }
  Adds-require false e next h adds = absurd (ground arith)

  Adds-some :
      {B : Type 0} (o : Option B) (b : B) (e : Exception) (next : B → Action A)
      → o ≡ some b
      → ((b : B) → Adds Q (next b))
      → Adds Q (or_throw o e >>= next)
  unfolding ◌>>=◌ or_throw pure raise continue
  Adds-some none b e next h adds = absurd (ground arith)
  Adds-some (some c) b e next h adds = record { at = (adds c).at }

module _ (p : Event → Bool) where
  record_event-Adds : (e : Event) → Adds (Count p (λ _. if p e then 1 else 0)) (record_event e)
  unfolding record_event modify how_many
  record_event-Adds e = record { at = λ s. (tt, e ∷ [], refl, omega arith) }

  -- Two actions, with the sum of what they add.
  Count-bind :
      {A B : Type 0} (m n k : ℕ) (act : Action A) (next : A → Action B)
      → m + n ≡ k
      → Adds (Count p (λ _. m)) act
      → ((a : A) → Adds (Count p (λ _. n)) (next a))
      → Adds (Count p (λ _. k)) (act >>= next)
  Count-bind m n k act next sum first rest =
      Adds-bind act next first rest
        λ s xs ys e f. how_many-append p ys xs ∙ omega (arith, sum, e, f)

  module _ (env : Environment) (up : (es : List Event) → env.is_up es ≡ true) where
    blocking_send-Adds :
        (m : Message) → Adds (Count p (λ _. if p (sent m) then 1 else 0)) (blocking_send env m)
    unfolding blocking_send deliver
    blocking_send-Adds m = Adds-gets _ _ λ s. rw (up s.events) (record_event-Adds (sent m))

-- Each of the transactions is real and of this process.
abbrev pub Own : Environment → List Transaction → Type 0
Own env ts = All (λ t. (is_real t ≡ true) × (is_foreign env t ≡ false)) ts

module _ (env : Environment) (x : ℕ) (up : (es : List Event) → env.is_up es ≡ true)
    (replies : (es : List Event) → (v : ℤ) × (env.rollback_reply es ≡ some v)) where
  abbrev Rolls : ℕ → {A : Type 0} → Action A → Type 0
  Rolls n act = Adds (Count (is_rollback_of x) (λ _. n)) act

  quiet_end : (t : Transaction) (flags : ℕ) → Rolls 0 (resources_end env t flags)
  unfolding is_rollback_of
  quiet_end t flags = resources_end_quiet env (is_rollback_of x) t flags (λ id v. refl)

  -- The rollback of a transaction of this process sends one request.
  rollback-Adds :
      (t : Transaction)
      → is_real t ≡ true
      → is_foreign env t ≡ false
      → Rolls (if has_xid (some x) t then 1 else 0) (rollback_transaction env t)
  unfolding rollback_transaction is_foreign has_xid is_rollback_of how_many
  rollback-Adds t real own = Adds-require (is_real t) protocol _ real (
      Adds-require (same_process t.trid.owner env.self) protocol _ (ground arith) (
        Count-bind (is_rollback_of x) 0 one one _ _ (omega arith) (quiet_end t tm_success) λ _.
          Adds-gets fixed_ids _ λ s.
            Count-bind (is_rollback_of x) one 0 one _ _ (omega arith)
              (blocking_send-Adds (is_rollback_of x) env up
                (rollback_request env.self t.trid (fixed_ids s ++ t.resources)))
              λ _. Adds-gets _ _ λ later.
                Adds-some _ (replies later.events).0 unavailable _ (replies later.events).1 λ state.
                  Count-bind (is_rollback_of x) 0 0 0 _ _ refl
                    (record_event-Adds (is_rollback_of x) _)
                    λ _. Adds-pure (xa_to_tx state) (λ _. refl)))
    where
      one : ℕ
      one = if same_xid t.trid.xid (some x) then 1 else 0

  conclude-Adds :
      (state : ℕ) (t : Transaction)
      → (state == tp_success) ≡ false
      → is_real t ≡ true
      → is_foreign env t ≡ false
      → Rolls (if has_xid (some x) t then 1 else 0) (conclude env state t)
  unfolding conclude is_commit
  conclude-Adds state t failed real own = rw failed (rollback-Adds t real own)

  pub conclude_each-Adds :
      (state : ℕ) (ts : List Transaction) (m : CallReply)
      → (state == tp_success) ≡ false
      → Own env ts
      → Rolls (how_many (has_xid (some x)) ts) (conclude_each env state ts m)
  unfolding conclude_each how_many
  conclude_each-Adds state [] m failed own = Adds-pure m (λ s. refl)
  conclude_each-Adds state (t ∷ ts) m failed own =
      Count-bind (is_rollback_of x) (if has_xid (some x) t then 1 else 0)
        (how_many (has_xid (some x)) ts) (how_many (has_xid (some x)) (t ∷ ts))
        (conclude env state t) (λ result. conclude_each env state ts (noted result m)) refl
        (conclude-Adds state t failed own.0.0 own.0.1)
        λ result. conclude_each-Adds state ts (noted result m) failed own.1

  hand_back-Adds : (state : ℕ) (m : CallReply) (t : Transaction) → Rolls 0 (hand_back env state m t)
  unfolding hand_back tell_involved is_rollback_of how_many
  hand_back-Adds state m t = Adds-gets fixed_ids _ λ s.
      Count-bind (is_rollback_of x) 0 0 0 _ _ refl
        (Adds-if (is_real t) _ _
          (Adds-if (is_empty (fixed_ids s ++ t.resources)) _ _ (Adds-pure tt (λ _. refl))
            (blocking_send-Adds (is_rollback_of x) env up _))
          (Adds-pure tt (λ _. refl)))
        λ _.
          Count-bind (is_rollback_of x) 0 0 0 _ _ refl (quiet_end t tm_success)
            λ _. Adds-pure _ (λ _. refl)

  pub found-Adds :
      (state : ℕ) (m : CallReply) (o : Option Transaction)
      → Rolls 0 (case_of o (pure m) (hand_back env state m))
  unfolding case_of how_many
  found-Adds state m none = Adds-pure m (λ _. refl)
  found-Adds state m (some t) = hand_back-Adds state m t
