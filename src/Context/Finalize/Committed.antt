-- ===== src/Context/Finalize/Committed.antt =====
-- What a service that ends may commit.
use casual.Base.{
  ap, ℕ, ◌+◌, ◌≤◌, ◌≡◌, refl, Bool, false, Bool-cases, inl, inr, some, List, [], ◌∷◌, ◌++◌, map,
  how_many, not, ◌&&◌, ◌==◌, leb, length, is_empty, find_if, if◌then◌else◌, arith,
}
use casual.Run.Keeps.{
  Keeps, Keeps-bind, Keeps-pure, Keeps-raise, Keeps-gets, Keeps-case_of, Keeps-if, Takes, Takes-seq,
  Takes-Keeps, Yields,
}
use casual.Run.Yields.{Yields-pure, Yields-bind, Keeps-Yields_any}
use casual.Context.Code.{tp_success, tm_success}
use casual.Context.State.{
  State, Event, Transaction, CallReply, called, sent, commit_request, commit_call, discarded,
  invalid_descriptor, transaction_support, aborted, same_xid, is_real, is_associated, has_xid,
  is_active,
}
use casual.Context.Monad.{Environment, modify}
use casual.Context.Pending.{cancel, get_descriptor, unreserve, associated}
use casual.Context.Commit.{fixed_ids, commit_transaction, rollback_transaction}
use casual.Context.Finalize.{
  cancel_each, checked, checked_reply, check_pending, is_commit, noted, conclude, conclude_each,
  tell_involved, hand_back, is_foreign, answer_caller,
}
use casual.Context.Effects.{
  Unmoved, require-Keeps, record_event-Keeps, blocking_send-Keeps, resources_end-Keeps,
  rollback_transaction-Keeps,
}
use casual.Context.Commits.{commit_transaction-Takes}

-- The events that commit what has the xid: a request to the manager, or a call of a resource.
unfoldable pub is_commit_of : ℕ → Event → Bool
unfolding same_xid
is_commit_of x (sent (commit_request p trid ids)) = same_xid trid.xid (some x)
is_commit_of x (called (commit_call id xid flags) v) = same_xid xid (some x)
is_commit_of x e = false

-- What the owner may commit: the service has succeeded, the transaction is active and no call of it
-- waits.
unfoldable pub may_commit : Environment → ℕ → ℕ → Transaction → Bool
unfolding has_xid is_active is_associated is_foreign
may_commit env state x t =
    has_xid (some x) t
    && (not (is_foreign env t)
        && (((state == tp_success) && is_active t.state) && not (is_associated t)))

module _ (x : ℕ) where
  -- No transaction is left, and at most this many commits have happened.
  abbrev pub Within : ℕ → State → Type 0
  Within n s = (s.transactions ≡ []) × (how_many (is_commit_of x) s.events ≤ n)

  Within-Unmoved : (n : ℕ) → Unmoved (is_commit_of x) (Within n)
  unfolding how_many
  Within-Unmoved n s e out held = (held.0, rw out (omega (arith, held.1)))

  of_xid : Transaction → ℕ
  of_xid t = if has_xid (some x) t then 1 else 0

  module _ (env : Environment) where
    commit-Takes :
        (n : ℕ) (t : Transaction)
        → Takes (Within n) (Within (n + of_xid t)) (commit_transaction env t)
    unfolding of_xid has_xid is_commit_of how_many
    commit-Takes n t =
        commit_transaction-Takes env t (is_commit_of x) (Within-Unmoved n)
          (Within-Unmoved (n + of_xid t)) (λ s held. (held.0, omega (arith, held.1)))
          (λ s ids held. (held.0, omega (arith, held.1)))
          (λ s id v held. (held.0, omega (arith, held.1))) (λ v. refl) (λ c. refl) (λ id v. refl)
          (λ ids. refl)

    rollback-Keeps : (n : ℕ) (t : Transaction) → Keeps (Within n) (rollback_transaction env t)
    unfolding is_commit_of
    rollback-Keeps n t =
        rollback_transaction-Keeps (is_commit_of x) (Within-Unmoved n) env (λ v. refl) (λ c. refl) t
          (λ id v. refl) (λ ids. refl) (λ ids. refl)

    abbrev pub counted : ℕ → Transaction → Bool
    counted state t = has_xid (some x) t && is_commit state t

    conclude-Takes :
        (n state : ℕ) (t : Transaction)
        → Takes (Within n) (Within (n + (if counted state t then 1 else 0))) (conclude env state t)
    unfolding conclude of_xid
    conclude-Takes n state t = elim (Bool-cases (is_commit state t)) [
      | inl e ↦ rw e (elim (Bool-cases (has_xid (some x) t)) [
        | inl h ↦ let c = commit-Takes n t in rw h (rw h at c)
        | inr h ↦ let c = commit-Takes n t in rw h (rw h at c)
      ])
      | inr e ↦
          rw e (Takes-Keeps (λ s held. (held.0, omega (arith, held.1))) _ (rollback-Keeps n t))
    ]

    pub conclude_each-Takes :
        (state : ℕ) (ts : List Transaction) (n : ℕ) (m : CallReply)
        → Takes (Within n) (Within (n + how_many (counted state) ts)) (conclude_each env state ts m)
    unfolding conclude_each how_many
    conclude_each-Takes state [] n m =
        Takes-Keeps (λ s held. (held.0, omega (arith, held.1))) _ (Keeps-pure m)
    conclude_each-Takes state (t ∷ ts) n m =
        Takes-seq _ _ (λ s held. (held.0, omega (arith, held.1))) (conclude-Takes n state t)
          λ result. record {
            at = λ s held.
                let (none_left, within) =
                  (conclude_each-Takes state ts (n + (if counted state t then 1 else 0))
                      (noted result m)).at
                    s held in
                (none_left, omega (arith, within));
          }

  module _ (n : ℕ) where
    unreserve-Keeps : (d : ℕ) → Keeps (Within n) (unreserve d)
    unfolding unreserve modify
    unreserve-Keeps d = Keeps-bind _ _ (Keeps-gets _) λ found.
        Keeps-case_of found _ _ (Keeps-raise invalid_descriptor) λ e. record { at = λ s held. held }

    get_descriptor-Keeps : (d : ℕ) → Keeps (Within n) (get_descriptor d)
    unfolding get_descriptor
    get_descriptor-Keeps d = Keeps-bind _ _ (Keeps-gets _) λ found.
        Keeps-case_of found _ _ (Keeps-raise invalid_descriptor)
          λ e. Keeps-bind _ _ (require-Keeps e.is_active invalid_descriptor) λ _. Keeps-pure e

    cancel-Keeps : (d : ℕ) → Keeps (Within n) (cancel d)
    unfolding cancel is_commit_of
    cancel-Keeps d = Keeps-bind _ _ (Keeps-gets (associated d)) λ held.
        Keeps-bind _ _ (require-Keeps (not held) transaction_support) λ _.
          Keeps-bind _ _ (get_descriptor-Keeps d) λ e.
            Keeps-bind _ _
              (record_event-Keeps (is_commit_of x) (Within-Unmoved n) (discarded e.correlation)
                refl)
              λ _. unreserve-Keeps d

    cancel_each-Keeps : (ds : List ℕ) → Keeps (Within n) (cancel_each ds)
    unfolding cancel_each
    cancel_each-Keeps [] = Keeps-pure tt
    cancel_each-Keeps (d ∷ ds) = Keeps-bind _ _ (cancel-Keeps d) (λ _. cancel_each-Keeps ds)

    pub check_pending-Yields :
        (ts : List Transaction) (m : CallReply)
        → Yields (Within n) (λ r. r.0 ≡ map checked ts) (check_pending ts m)
    unfolding check_pending
    check_pending-Yields [] m = Yields-pure ([], m) refl
    check_pending-Yields (t ∷ ts) m =
        Yields-bind _ _ (Keeps-Yields_any _ (cancel_each-Keeps t.descriptors)) λ a any.
          Yields-bind _ _ (check_pending-Yields ts (checked_reply t m))
            λ rest e. Yields-pure (checked t ∷ rest.0, rest.1) (ap (λ l. checked t ∷ l) e)

    module _ (env : Environment) (state : ℕ) where
      hand_back-Keeps :
          (m : CallReply) (t : Transaction) → Keeps (Within n) (hand_back env state m t)
      unfolding hand_back tell_involved is_commit_of
      hand_back-Keeps m t = Keeps-bind _ _ (Keeps-gets fixed_ids) λ ids.
          Keeps-bind _ _
            (Keeps-if (is_real t) _ _
              (Keeps-if (is_empty (ids ++ t.resources)) _ _ (Keeps-pure tt)
                (blocking_send-Keeps (is_commit_of x) (Within-Unmoved n) env _ refl refl))
              (Keeps-pure tt))
            λ _.
              Keeps-bind _ _
                (resources_end-Keeps (is_commit_of x) (Within-Unmoved n) env t tm_success
                  (λ id v. refl))
                λ _. Keeps-pure _

      pub answer_caller-Keeps :
          (m : CallReply) (ts : List Transaction) → Keeps (Within n) (answer_caller env state m ts)
      unfolding answer_caller modify
      answer_caller-Keeps m ts = Keeps-bind _ _ (require-Keeps (leb (length ts) 1) aborted) λ _.
          Keeps-bind _ _ (Keeps-gets _) λ caller.
            Keeps-bind _ _
              (Keeps-case_of (find_if (has_xid caller.xid) ts) _ _ (Keeps-pure m)
                (hand_back-Keeps m))
              λ reply. Keeps-bind _ _ (record { at = λ s held. held }) λ _. Keeps-pure _
