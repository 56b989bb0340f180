-- ===== src/Context/Commit.antt =====
-- transaction/context.cpp: `begin`, `commit`, `rollback`, `pop_transaction` and what they use.
use casual.Base.{
  ℕ, ◌*◌, ◌+◌, Bool, true, false, not, some, List, [], ◌∷◌, ◌++◌, ◌&&◌, is_empty, leb, length, map,
  if◌then◌else◌,
}
use casual.Base.Int.{ℤ, pos, ◌==ℤ◌}
use casual.Ipc.{same_process}
use casual.Manager.Message.{tm_no_flags, tm_one_phase, CommitStage}
use casual.Context.Code.{tx_ok, tm_suspend, tm_resume, tm_success, xa_to_tx}
use casual.Context.State.{
  State, Resource, Transaction, Control, CommitReturn, CommitReply, unchained, chained, stacked,
  completed, logged, created, answered, discarded, commit_request, rollback_request,
  new_transaction, null_id, is_real, is_active, is_associated, fixed, current, update_last,
  drop_last, no_begin, protocol, outside, unavailable, undefined,
}
use casual.Context.Monad.{
  Action, Environment, pure, gets, modify, or_throw, ◌>>=◌, ◌>>◌, require, record_event,
  blocking_send,
}
use casual.Context.Resources.{resources_start, resources_end, resource_commit}

abbrev pub null_transaction : Transaction
null_transaction = new_transaction null_id

-- `Context::resources`.
unfoldable pub fixed_ids : State → List ℕ
unfolding fixed
fixed_ids s = map (λ r. r.id) (fixed s)

unfoldable pub is_stacked : Control → Bool
is_stacked stacked = true
is_stacked unchained = false
is_stacked chained = false

module _ (env : Environment) where
  -- `local::startTransaction`.
  unfoldable pub start_transaction : ℤ → Action Transaction
  unfolding new_transaction record_event
  start_transaction start = do
    seconds ← gets λ s. s.timeout
    xid ← gets λ s. env.make s.events
    record_event (created xid)
    pure (record (new_transaction (record { xid = some xid; owner = env.self })) {
      timeout = record { start = start; timeout = pos (1_000_000 * seconds) };
    })

  -- `Context::start`.
  unfoldable pub start : ℤ → Action (Unit {0})
  unfolding start_transaction resources_start
  start at = do
    t ← start_transaction at
    resources_start env t tm_no_flags
    modify λ s. record s { transactions = s.transactions ++ t ∷ [] }

  -- The tests of `Context::begin`.
  unfoldable pub leave : Transaction → Control → Action (Unit {0})
  unfolding is_real is_stacked resources_end
  leave t control =
      if is_real t
      then (do require (is_stacked control) protocol; resources_end env t tm_suspend)
      else require (is_empty t.resources) outside

  -- `Context::begin`.
  unfoldable pub begin : Action ℤ
  unfolding current leave start
  begin = do
    t ← gets current
    control ← gets λ s. s.control
    leave t control
    now ← gets λ s. env.now s.events
    start now
    pure tx_ok

  -- The tests of `Context::commit( const Transaction&)`.
  unfoldable pub check_commit : Transaction → Action (Unit {0})
  unfolding is_real is_active is_associated
  check_commit t = do
    require (is_real t) no_begin
    require (same_process t.trid.owner env.self) protocol
    require (is_active t.state) protocol
    require (not (is_associated t)) protocol

  -- With at most one resource the commit goes to that resource, if any.
  unfoldable pub commit_local : Transaction → List ℕ → List Resource → Action ℤ
  unfolding resource_commit
  commit_local t (rm ∷ rms) resources = resource_commit env rm t tm_one_phase
  commit_local t [] (r ∷ rs) = resource_commit env r.id t tm_one_phase
  commit_local t [] [] = pure tx_ok

  -- The wait for the commit, after the reply of the prepare.
  unfoldable pub await_commit : CommitReply → CommitReturn → Action ℤ
  unfolding record_event
  await_commit reply logged = do record_event (discarded reply.correlation); pure reply.state
  await_commit reply completed = do
    final ← gets λ s. env.final_reply s.events
    state ← or_throw final unavailable
    record_event (answered state)
    pure state

  -- What the stage of the reply asks for: the state that counts.
  unfoldable pub settle : CommitReply → CommitStage → CommitReturn → Action ℤ
  unfolding await_commit
  settle reply CommitStage.prepare mode = await_commit reply mode
  settle reply CommitStage.commit mode = pure reply.state
  settle reply CommitStage.error mode = pure reply.state

  unfoldable pub commit_distributed : Transaction → Action ℤ
  unfolding fixed_ids blocking_send settle xa_to_tx
  commit_distributed t = do
    ids ← gets fixed_ids
    blocking_send env (commit_request env.self t.trid (ids ++ t.resources))
    answer ← gets λ s. env.commit_reply s.events
    reply ← or_throw answer unavailable
    record_event (answered reply.state)
    mode ← gets λ s. s.commit_return
    state ← settle reply reply.stage mode
    pure (xa_to_tx state)

  -- `Context::commit( const Transaction&)`.
  unfoldable pub commit_transaction : Transaction → Action ℤ
  unfolding check_commit resources_end fixed commit_local commit_distributed
  commit_transaction t = do
    check_commit t
    resources_end env t tm_success
    resources ← gets fixed
    if t.is_local && leb (length t.resources + length resources) 1
        then commit_local t t.resources resources
        else commit_distributed t

  -- `Context::rollback( const Transaction&)`.
  unfoldable pub rollback_transaction : Transaction → Action ℤ
  unfolding is_real resources_end fixed_ids blocking_send record_event xa_to_tx
  rollback_transaction t = do
    require (is_real t) protocol
    require (same_process t.trid.owner env.self) protocol
    resources_end env t tm_success
    ids ← gets fixed_ids
    blocking_send env (rollback_request env.self t.trid (ids ++ t.resources))
    answer ← gets λ s. env.rollback_reply s.events
    state ← or_throw answer unavailable
    record_event (answered state)
    pure (xa_to_tx state)

  -- `m_transactions.back() = Transaction{}`.
  unfoldable pub clear_last : Action (Unit {0})
  unfolding update_last new_transaction
  clear_last = do
    none_left ← gets λ s. is_empty s.transactions
    require (not none_left) undefined
    modify λ s. record s { transactions = update_last (λ _. null_transaction) s.transactions }

  -- `m_transactions.pop_back()`, and what is read of the one below.
  unfoldable pub promote : Action (Unit {0})
  unfolding drop_last current resources_end
  promote = do
    none_left ← gets λ s. is_empty s.transactions
    require (not none_left) undefined
    modify λ s. record s { transactions = drop_last s.transactions }
    none_below ← gets λ s. is_empty s.transactions
    require (not none_below) undefined
    t ← gets current
    resources_end env t tm_resume

  unfoldable pub pop_by : Control → Action ℤ
  unfolding clear_last begin promote
  pop_by unchained = do clear_last; pure tx_ok
  pop_by chained = do clear_last; begin
  pop_by stacked = do promote; pure tx_ok

  -- `Context::pop_transaction`.
  unfoldable pub pop_transaction : Action ℤ
  unfolding pop_by
  pop_transaction = do control ← gets λ s. s.control; pop_by control

  -- What follows a commit or a rollback.
  unfoldable pub pop_if_ok : ℤ → Action ℤ
  unfolding pop_transaction
  pop_if_ok result = if result ==ℤ tx_ok then pop_transaction else pure result

  -- `Context::commit` and `Context::rollback`.
  unfoldable pub commit : Action ℤ
  unfolding current commit_transaction pop_if_ok
  commit = do t ← gets current; result ← commit_transaction t; pop_if_ok result

  unfoldable pub rollback : Action ℤ
  unfolding current rollback_transaction pop_if_ok
  rollback = do t ← gets current; result ← rollback_transaction t; pop_if_ok result
