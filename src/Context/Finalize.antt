-- ===== src/Context/Finalize.antt =====
-- transaction/context.cpp: `finalize`, at the end of a service.
pub mod Committed
pub mod Bound
pub mod Cancelled
pub mod Answered
pub mod Failed
pub mod Thrown
use casual.Base.{
  ℕ, Bool, true, false, not, Option, none, some, List, [], ◌∷◌, ◌++◌, ◌==◌, ◌&&◌, leb, is_empty,
  length, find_if, select, reject, if◌then◌else◌,
}
use casual.Base.Int.{ℤ, ◌==ℤ◌}
use casual.Ipc.{same_process}
use casual.Context.Code.{tx_ok, tm_success, tp_success, tpe_svcerr, tpe_svcfail}
use casual.Context.State.{
  State, Transaction, TransactionState, TransactionId, CallReply, involved, moved, is_real,
  is_active, is_associated, has_xid, aborted,
}
use casual.Context.Monad.{
  Action, Environment, pure, gets, modify, case_of, ◌>>=◌, ◌>>◌, require, blocking_send,
}
use casual.Context.Pending.{cancel}
use casual.Context.Resources.{resources_end}
use casual.Context.Commit.{fixed_ids, commit_transaction, rollback_transaction}

-- The switch on what the service returns.
unfoldable pub return_error : ℕ → CallReply → CallReply
return_error state m =
    if state == tpe_svcerr
    then m
    else (if state == tp_success then m else record m { error = tpe_svcfail })

unfoldable pub cancel_each : List ℕ → Action (Unit {0})
unfolding cancel
cancel_each [] = pure tt
cancel_each (d ∷ ds) = cancel d >>= λ _. cancel_each ds

-- `pending_check`: the transaction is to be rolled back, and the reply is an error.
unfoldable pub checked : Transaction → Transaction
unfolding is_associated is_real
checked t =
    if is_associated t && is_real t then record t { state = TransactionState.rollback } else t

unfoldable pub checked_reply : Transaction → CallReply → CallReply
unfolding is_associated is_real
checked_reply t m = if is_associated t && is_real t then record m { error = tpe_svcerr } else m

unfoldable pub check_pending : List Transaction → CallReply → Action (List Transaction × CallReply)
unfolding checked checked_reply cancel_each
check_pending [] m = pure ([], m)
check_pending (t ∷ ts) m = cancel_each t.descriptors >>= λ _.
    check_pending ts (checked_reply t m) >>= λ rest. pure (checked t ∷ rest.0, rest.1)

-- Whether the owner commits.
unfoldable pub is_commit : ℕ → Transaction → Bool
unfolding is_active
is_commit state t = (state == tp_success) && is_active t.state

unfoldable pub noted : ℤ → CallReply → CallReply
noted result m = if result ==ℤ tx_ok then m else record m { error = tpe_svcerr }

module _ (env : Environment) where
  -- `trans_commit_rollback`.
  unfoldable pub conclude : ℕ → Transaction → Action ℤ
  unfolding is_commit commit_transaction rollback_transaction
  conclude state t =
      if is_commit state t then commit_transaction env t else rollback_transaction env t

  unfoldable pub conclude_each : ℕ → List Transaction → CallReply → Action CallReply
  unfolding conclude noted
  conclude_each state [] m = pure m
  conclude_each state (t ∷ ts) m =
      conclude state t >>= λ result. conclude_each state ts (noted result m)

  -- `Context::involved`.
  unfoldable pub tell_involved : TransactionId → List ℕ → Action (Unit {0})
  unfolding blocking_send
  tell_involved trid ids =
      if is_empty ids then pure tt else blocking_send env (involved env.self trid ids)

  -- The transaction of the caller: its state goes back, the manager hears of the resources.
  unfoldable pub hand_back : ℕ → CallReply → Transaction → Action CallReply
  unfolding fixed_ids is_real tell_involved resources_end
  hand_back state m t = do
    ids ← gets fixed_ids
    if is_real t then tell_involved t.trid (ids ++ t.resources) else pure tt
    resources_end env t tm_success
    pure (record m { state = if state == tp_success then t.state else TransactionState.rollback })

  unfoldable pub is_foreign : Transaction → Bool
  is_foreign t = not (same_process t.trid.owner env.self)

  unfoldable pub answer_caller : ℕ → CallReply → List Transaction → Action CallReply
  unfolding has_xid hand_back moved
  answer_caller state m ts = do
    require (leb (length ts) 1) aborted
    caller ← gets λ s. s.caller
    reply ← case_of (find_if (has_xid caller.xid) ts) (pure m) (hand_back state m)
    modify λ s. record s { caller = moved s.caller }
    pure (record reply { trid = caller })

  -- What follows the check of the pending calls.
  unfoldable pub settle_all : ℕ → List Transaction → CallReply → Action CallReply
  unfolding is_real is_foreign conclude_each answer_caller
  settle_all state ts m = conclude_each state (reject is_foreign (select is_real ts)) m >>= λ reply.
      answer_caller state reply (select is_foreign (select is_real ts))

  -- `Context::finalize`.
  unfoldable pub finalize : CallReply → ℕ → Action CallReply
  unfolding return_error check_pending settle_all
  finalize m state = do
    transactions ← gets λ s. s.transactions
    modify λ s. record s { transactions = [] }
    rest ← check_pending transactions (return_error state m)
    settle_all state rest.0 rest.1
