-- ===== src/Context/Commits.antt =====
-- The one event of a commit that counts.
use casual.Base.{
  ℕ, ◌+◌, ◌≡◌, Bool, true, false, Option, none, some, List, [], ◌∷◌, ◌++◌, not, ◌&&◌, leb, length,
}
use casual.Base.Int.{ℤ}
use casual.Ipc.{same_process}
use casual.Run.Keeps.{
  Keeps, Keeps-bind, Keeps-pure, Keeps-raise, Keeps-gets, Keeps-or_throw, Takes, Takes-bind,
  Takes-then, Takes-if, Takes-Keeps,
}
use casual.Manager.Message.{tm_one_phase}
use casual.Context.Code.{tm_success, xa_to_tx}
use casual.Context.State.{
  State, Event, Resource, Transaction, called, sent, lost, answered, discarded, end_call,
  commit_call, commit_request, fixed, is_real, is_active, is_associated, no_begin, protocol,
  tx_error, unavailable,
}
use casual.Context.Monad.{
  Action, Environment, pure, raise, modify, case_of, ◌>>=◌, record_event, call_xa, deliver,
  blocking_send,
}
use casual.Context.Resources.{resource_commit, commit_resource}
use casual.Context.Commit.{
  fixed_ids, check_commit, commit_local, commit_distributed, commit_transaction,
}
use casual.Context.Adds.{after}
use casual.Context.Effects.{
  Unmoved, require-Keeps, record_event-Keeps, resources_end-Keeps, settle-Keeps,
}

-- A commit adds at most one event of the kind, and after that has `Q`.
module _ {P Q : State → Type 0} (env : Environment) (t : Transaction) (p : Event → Bool)
    (still : Unmoved p P) (still_after : Unmoved p Q) (weaken : (s : State) → P s → Q s)
    (requested : (s : State) (ids : List ℕ)
      → P s
      → Q (after (sent (commit_request env.self t.trid ids) ∷ []) s))
    (committed : (s : State) (id : ℕ) (v : ℤ)
      → P s
      → Q (after (called (commit_call id t.trid.xid tm_one_phase) v ∷ []) s))
    (answers : (v : ℤ) → p (answered v) ≡ false) (discards : (c : ℕ) → p (discarded c) ≡ false)
    (ends : (id : ℕ) (v : ℤ) → p (called (end_call id t.trid.xid tm_success) v) ≡ false)
    (gone : (ids : List ℕ) → p (lost (commit_request env.self t.trid ids)) ≡ false) where
  send-Takes : (ids : List ℕ) → Takes P Q (blocking_send env (commit_request env.self t.trid ids))
  unfolding blocking_send deliver record_event modify
  send-Takes ids = Takes-bind weaken _ _ (Keeps-gets _) λ up. by_queue up
    where
      by_queue : (up : Bool) → Takes P Q (deliver (commit_request env.self t.trid ids) up)
      by_queue true = record { at = λ s held. requested s ids held }
      by_queue false =
          Takes-Keeps weaken _ (
            Keeps-bind _ _ (record_event-Keeps p still _ (gone ids)) (λ _. Keeps-raise unavailable))

  resource_commit-Takes : (rm : ℕ) → Takes P Q (resource_commit env rm t tm_one_phase)
  unfolding resource_commit commit_resource call_xa case_of record_event modify
  resource_commit-Takes rm = Takes-bind weaken _ _ (Keeps-gets _) λ found. by_search found
    where
      commits : (r : Resource) → Action ℤ
      commits r = commit_resource env t tm_one_phase r >>= λ code. pure (xa_to_tx code)

      one : (r : Resource) → Takes P Q (commits r)
      one r =
          Takes-then _ _
            (Takes-bind weaken _ _ (Keeps-gets _) λ result.
              Takes-then _ _ (record { at = λ s held. committed s r.id result held })
                λ _. Keeps-pure result)
            λ code. Keeps-pure _

      by_search : (o : Option Resource) → Takes P Q (case_of o (raise tx_error) commits)
      by_search none = Takes-Keeps weaken _ (Keeps-raise tx_error)
      by_search (some r) = one r

  commit_local-Takes :
      (ids : List ℕ) (resources : List Resource) → Takes P Q (commit_local env t ids resources)
  unfolding commit_local
  commit_local-Takes (rm ∷ rms) resources = resource_commit-Takes rm
  commit_local-Takes [] (r ∷ rs) = resource_commit-Takes r.id
  commit_local-Takes [] [] = Takes-Keeps weaken _ (Keeps-pure _)

  commit_distributed-Takes : Takes P Q (commit_distributed env t)
  unfolding commit_distributed
  commit_distributed-Takes = Takes-bind weaken _ _ (Keeps-gets fixed_ids) λ ids.
      Takes-then _ _ (send-Takes (ids ++ t.resources)) λ _. Keeps-bind _ _ (Keeps-gets _) λ answer.
        Keeps-bind _ _ (Keeps-or_throw answer unavailable) λ reply.
          Keeps-bind _ _
            (record_event-Keeps p still_after (answered reply.state) (answers reply.state))
            λ _. Keeps-bind _ _ (Keeps-gets _) λ mode.
              Keeps-bind _ _
                (settle-Keeps p still_after env answers discards reply reply.stage mode)
                λ state. Keeps-pure _

  check_commit-Keeps : Keeps P (check_commit env t)
  unfolding check_commit
  check_commit-Keeps = Keeps-bind _ _ (require-Keeps (is_real t) no_begin) λ _.
      Keeps-bind _ _ (require-Keeps (same_process t.trid.owner env.self) protocol) λ _.
        Keeps-bind _ _ (require-Keeps (is_active t.state) protocol)
          λ _. require-Keeps (not (is_associated t)) protocol

  pub commit_transaction-Takes : Takes P Q (commit_transaction env t)
  unfolding commit_transaction
  commit_transaction-Takes = Takes-bind weaken _ _ check_commit-Keeps λ _.
      Takes-bind weaken _ _ (resources_end-Keeps p still env t tm_success ends) λ _.
        Takes-bind weaken _ _ (Keeps-gets fixed) λ resources.
          Takes-if (t.is_local && leb (length t.resources + length resources) 1) _ _
            (commit_local-Takes t.resources resources) commit_distributed-Takes
