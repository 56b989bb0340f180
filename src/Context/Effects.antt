-- ===== src/Context/Effects.antt =====
-- What a commit and a rollback leave alone, and the one event that counts.
use casual.Base.{ℕ, ◌≡◌, Bool, true, false, List, [], ◌∷◌, ◌++◌, how_many, arith}
use casual.Base.Int.{ℤ}
use casual.Ipc.{same_process}
use casual.Run.Keeps.{Keeps, Keeps-bind, Keeps-pure, Keeps-raise, Keeps-gets, Keeps-or_throw}
use casual.Manager.Message.{CommitStage}
use casual.Context.Code.{tm_success}
use casual.Context.State.{
  State, Event, Exception, Transaction, Message, CommitReply, CommitReturn, completed, logged,
  called, sent, lost, answered, discarded, end_call, rollback_request, is_real, protocol,
  unavailable,
}
use casual.Context.Monad.{Environment, modify, require, record_event, deliver, blocking_send}
use casual.Context.Resources.{resources_end}
use casual.Context.Commit.{fixed_ids, await_commit, settle, rollback_transaction}
use casual.Context.Adds.{after, Adds-Keeps, resources_end_quiet}

pub require-Keeps : {P : State → Type 0} (b : Bool) (e : Exception) → Keeps P (require b e)
unfolding require
require-Keeps true e = Keeps-pure tt
require-Keeps false e = Keeps-raise e

-- The events of a kind do not touch `P`.
abbrev pub Unmoved : (Event → Bool) → (State → Type 0) → Type 0
Unmoved p P = (s : State) (e : Event) → p e ≡ false → P s → P (after (e ∷ []) s)

module _ {P : State → Type 0} (p : Event → Bool) (still : Unmoved p P) where
  pub news_keep : (s : State) (news : List Event) → how_many p news ≡ 0 → P s → P (after news s)
  unfolding how_many
  news_keep s [] none held = held
  news_keep s (e ∷ news) none held =
      let out : p e ≡ false = ground arith in
      let rest : how_many p news ≡ 0 = ground arith in
      still (after news s) e out (news_keep s news rest held)

  pub record_event-Keeps : (e : Event) → p e ≡ false → Keeps P (record_event e)
  unfolding record_event modify
  record_event-Keeps e out = record { at = λ s held. still s e out held }

  deliver-Keeps :
      (m : Message) (up : Bool) → p (sent m) ≡ false → p (lost m) ≡ false → Keeps P (deliver m up)
  unfolding deliver
  deliver-Keeps m true out gone = record_event-Keeps (sent m) out
  deliver-Keeps m false out gone =
      Keeps-bind _ _ (record_event-Keeps (lost m) gone) (λ _. Keeps-raise unavailable)

  module _ (env : Environment) where
    pub blocking_send-Keeps :
        (m : Message) → p (sent m) ≡ false → p (lost m) ≡ false → Keeps P (blocking_send env m)
    unfolding blocking_send
    blocking_send-Keeps m out gone =
        Keeps-bind _ _ (Keeps-gets _) (λ up. deliver-Keeps m up out gone)

    pub resources_end-Keeps :
        (t : Transaction) (flags : ℕ)
        → ((id : ℕ) (v : ℤ) → p (called (end_call id t.trid.xid flags) v) ≡ false)
        → Keeps P (resources_end env t flags)
    resources_end-Keeps t flags out = Adds-Keeps _ (resources_end_quiet env p t flags out) news_keep

    module _ (answers : (v : ℤ) → p (answered v) ≡ false)
        (discards : (c : ℕ) → p (discarded c) ≡ false) where
      pub settle-Keeps :
          (reply : CommitReply) (stage : CommitStage) (mode : CommitReturn)
          → Keeps P (settle env reply stage mode)
      unfolding settle await_commit
      settle-Keeps reply CommitStage.prepare completed = Keeps-bind _ _ (Keeps-gets _) λ final.
          Keeps-bind _ _ (Keeps-or_throw final unavailable) λ state.
            Keeps-bind _ _ (record_event-Keeps (answered state) (answers state))
              λ _. Keeps-pure state
      settle-Keeps reply CommitStage.prepare logged =
          Keeps-bind _ _ (record_event-Keeps _ (discards reply.correlation)) λ _. Keeps-pure _
      settle-Keeps reply CommitStage.commit mode = Keeps-pure _
      settle-Keeps reply CommitStage.error mode = Keeps-pure _

      -- A rollback, when neither its request nor the ends are of the kind.
      pub rollback_transaction-Keeps :
          (t : Transaction)
          → ((id : ℕ) (v : ℤ) → p (called (end_call id t.trid.xid tm_success) v) ≡ false)
          → ((ids : List ℕ) → p (sent (rollback_request env.self t.trid ids)) ≡ false)
          → ((ids : List ℕ) → p (lost (rollback_request env.self t.trid ids)) ≡ false)
          → Keeps P (rollback_transaction env t)
      unfolding rollback_transaction
      rollback_transaction-Keeps t ends out gone =
          Keeps-bind _ _ (require-Keeps (is_real t) protocol) λ _.
            Keeps-bind _ _ (require-Keeps (same_process t.trid.owner env.self) protocol) λ _.
              Keeps-bind _ _ (resources_end-Keeps t tm_success ends) λ _.
                Keeps-bind _ _ (Keeps-gets fixed_ids) λ ids.
                  Keeps-bind _ _
                    (blocking_send-Keeps (rollback_request env.self t.trid (ids ++ t.resources))
                      (out _) (gone _))
                    λ _. Keeps-bind _ _ (Keeps-gets _) λ answer.
                      Keeps-bind _ _ (Keeps-or_throw answer unavailable) λ state.
                        Keeps-bind _ _ (record_event-Keeps _ (answers state)) λ _. Keeps-pure _
