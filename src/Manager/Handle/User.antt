-- ===== src/Manager/Handle/User.antt =====
-- `basic_commit`, `basic_rollback` and `user_reply_wrapper` of transaction/manager/handle.cpp: the
-- requests of those who own a transaction.
use casual.Base.{List, [], ◌∷◌, is_empty, erase_first, if◌then◌else◌}
use casual.Base.Int.{ℤ}
use casual.Manager.Code.{xa_ok, xa_rdonly, xaer_proto, xaer_rmerr}
use casual.Manager.Model.{
  Stage, not_involved, prepare_requested, commit_requested, rollback_requested, Transaction,
  has_stage, has_trid, stage,
}
use casual.Manager.Model
use casual.Manager.Message.{
  UserRequest, ReplyKind, Reply, commit_reply, rollback_reply, commit_request, prepare_request,
  rollback_request, tm_no_flags, tm_one_phase,
}
use casual.Manager.Message
use casual.Manager.Monad.{
  Action, Result, user_error, terminate, ok, throw, pure, raise, ◌>>=◌, ◌>>◌, modify, Environment,
}
use casual.Manager.Handle.Send.{send_reply, resource_request}
use casual.Manager.Handle.Involved.{involved, find_or_add}

-- `m_state.transactions.erase( std::begin( found))`.
unfoldable pub erase_transaction : Transaction → Action (Unit {0})
erase_transaction t =
    modify λ s. record s { transactions = erase_first (has_trid t.trid) s.transactions }

module _ (env : Environment) where
  -- `transform::reply`, of a request's reverse type.
  abbrev pub user_reply : ReplyKind → ℤ → UserRequest → Reply
  user_reply kind state m = record {
    kind = kind;
    correlation = m.correlation;
    process = env.self;
    trid = m.trid;
    state = state;
  }

  -- The `switch` over the number of resources: nothing to do, one phase, or two.
  unfoldable pub begin_commit : UserRequest → Transaction → List Model.Resource → Action (Unit {0})
  begin_commit m t [] = do
    erase_transaction t
    send_reply env (user_reply (commit_reply Message.CommitStage.commit) xa_rdonly m) m.process
  begin_commit m t (r ∷ []) =
      resource_request env commit_request (record t { correlation = m.correlation })
        (has_stage Stage.involved) commit_requested tm_one_phase
  begin_commit m t (r ∷ q ∷ rs) =
      resource_request env prepare_request (record t { correlation = m.correlation })
        (has_stage Stage.involved) prepare_requested tm_no_flags

  -- The `switch` over the stage: only a transaction that nothing was requested of can commit.
  unfoldable pub commit_at : Stage → UserRequest → Transaction → Action (Unit {0})
  commit_at Stage.involved m t = begin_commit m t t.resources
  commit_at Stage.not_involved m t = begin_commit m t t.resources
  commit_at _ m t = raise (user_error xaer_proto)

  -- `basic_commit::operator ()`; the recursive call on a transaction that was just added is one
  -- call, which finds it.
  unfoldable pub basic_commit : UserRequest → Action (Unit {0})
  basic_commit m = do
    found ← find_or_add m.trid
    t ← involved env m.resources found
    commit_at (stage t) m t

  -- `basic_rollback::operator ()`.
  unfoldable pub basic_rollback : UserRequest → Action (Unit {0})
  basic_rollback m = do
    found ← find_or_add m.trid
    t ← involved env m.resources found
    if is_empty t.resources
        then (do
          erase_transaction t
          send_reply env (user_reply (rollback_reply Message.RollbackStage.rollback) xa_ok m)
              m.process)
        else resource_request env rollback_request (record t { correlation = m.correlation })
            (has_stage Stage.involved) rollback_requested tm_no_flags

  -- The reply of a `catch` clause, to the caller, at the stage `error`.
  unfoldable pub reply_error : ReplyKind → UserRequest → ℤ → Action (Unit {0})
  reply_error kind m code = send_reply env (user_reply kind code m) m.process

  -- The `catch` clauses: an error is replied, but the signal to terminate is thrown on.
  unfoldable pub answer_error : ReplyKind → UserRequest → Result (Unit {0}) → Action (Unit {0})
  unfolding reply_error
  answer_error kind m (ok a) = pure a
  answer_error kind m (throw (user_error code)) = reply_error kind m code
  answer_error kind m (throw terminate) = raise terminate
  answer_error kind m (throw _) = reply_error kind m xaer_rmerr

  -- `user_reply_wrapper`.
  unfoldable pub user_reply_wrapper :
      ReplyKind → (UserRequest → Action (Unit {0})) → UserRequest → Action (Unit {0})
  user_reply_wrapper kind handler m s = let (r, s') = handler m s in answer_error kind m r s'

  -- `handle::Commit` and `handle::Rollback`.
  unfoldable pub commit : UserRequest → Action (Unit {0})
  commit = user_reply_wrapper (commit_reply Message.CommitStage.error) basic_commit

  unfoldable pub rollback : UserRequest → Action (Unit {0})
  rollback = user_reply_wrapper (rollback_reply Message.RollbackStage.error) basic_rollback
