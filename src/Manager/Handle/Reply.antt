-- ===== src/Manager/Handle/Reply.antt =====
-- `resource::reply` of transaction/manager/handle.cpp: the answers of the resource proxies.
use casual.Base.{
  Bool, true, false, ◌&&◌, length, find_if, update_first, erase_first, if◌then◌else◌, leb,
}
use casual.Base.Int.{ℤ}
use casual.Manager.Code.{Result, convert, code, c_xa_ok, c_xa_rdonly, c_xaer_nota, xa_ok, xa_rdonly}
use casual.Manager.Model.{
  not_involved, prepare_replied, prepare_requested, commit_replied, rollback_requested,
  rollback_replied, Resource, Transaction, ◌==ₛ◌, ◌==ᵣ◌, set_stage, has_stage, has_result, has_id,
  has_trid, stage, results,
}
use casual.Manager.Message.{
  ResourceReply, ConnectReply, ReplyKind, Reply, commit_reply, rollback_reply, commit_request,
  rollback_request, Message, tm_no_flags,
}
use casual.Manager.Message
use casual.Manager.State.{log_prepare, log_remove, is_process, update_instance}
use casual.Manager.Monad.{
  Action, pure, ◌>>=◌, ◌>>◌, gets, modify, case_of, record_event, Environment,
}
use casual.Manager.Handle.Send.{put, pend_reply, send_reply, resource_request}
use casual.Manager.Handle.Instances.{get_instance, reply_statistics, done}
use casual.Manager.Handle.Involved.{find_transaction}

-- The reply to the owner, from `transform::message` and the transaction's correlation.
abbrev pub owner_reply : ReplyKind → ℤ → ResourceReply → Transaction → Reply
owner_reply kind state m t = record {
  kind = kind;
  correlation = t.correlation;
  process = m.process;
  trid = m.trid;
  state = state;
}

-- A write through the reference to the transaction's resource that replied.
unfoldable pub update_resource_of :
    ResourceReply → (Resource → Resource) → Transaction → Transaction
update_resource_of m f t = record t { resources = update_first (has_id m.resource) f t.resources }

-- What a resource's answer to prepare makes of it: read only is promoted to not involved.
unfoldable pub vote : ℤ → Resource → Resource
vote state r = record r {
  result = convert state;
  stage = if convert state ==ᵣ c_xa_rdonly then not_involved else prepare_replied;
}

-- The resources that have voted to commit, and only they, are to commit.
abbrev pub is_prepared : Resource → Bool
is_prepared r = has_result c_xa_ok r && has_stage prepare_replied r

-- The transaction is removed if its handler says so.
unfoldable pub conclude : ResourceReply → Action Bool → Action (Unit {0})
conclude m handled = do
  remove ← handled
  if remove
      then modify (λ s. record s { transactions = erase_first (has_trid m.trid) s.transactions })
      else pure tt

-- The part of `Wrapper::operator ()` behind the instance: an answer about a transaction or a
-- resource that is not found is logged and dropped.
unfoldable pub with_transaction :
    (ResourceReply → Transaction → Action Bool) → ResourceReply → Action (Unit {0})
with_transaction handler m = do
  found ← find_transaction m.trid
  case_of found (pure tt) (λ t.
      case_of (find_if (has_id m.resource) t.resources) (pure tt) (λ _. conclude m (handler m t)))

module _ (env : Environment) where
  -- The `switch` of `basic_prepare`, once every resource has answered.
  unfoldable pub decide : ResourceReply → Transaction → Result → Action Bool
  decide m t c_xa_rdonly = do
    record_event (log_remove t.trid)
    send_reply env (owner_reply (commit_reply Message.CommitStage.commit) xa_rdonly m t)
        t.trid.owner
    pure true
  decide m t c_xa_ok = do
    record_event (log_prepare t.trid)
    pend_reply (owner_reply (commit_reply Message.CommitStage.prepare) xa_ok m t) t.trid.owner
    resource_request env commit_request t is_prepared prepare_requested tm_no_flags
    pure false
  decide m t result = do
    resource_request env rollback_request t (has_stage prepare_replied) rollback_requested
        tm_no_flags
    pure false

  -- `basic_prepare::operator ()`, on the transaction and its resource that were found. The result
  -- says whether the transaction is to be removed.
  unfoldable pub prepare_reply : ResourceReply → Transaction → Action Bool
  prepare_reply m t =
      let t' = update_resource_of m (vote m.state) t in
      do put t'; if stage t' ==ₛ prepare_replied then decide m t' (results t') else pure false

  -- The `switch` of `basic_commit`, once every resource has committed.
  unfoldable pub finish_commit : ResourceReply → Transaction → Result → Action Bool
  finish_commit m t c_xa_ok = do
    if leb (length t.resources) 1
        then send_reply env (owner_reply (commit_reply Message.CommitStage.commit) xa_ok m t)
            t.trid.owner
        else pend_reply (owner_reply (commit_reply Message.CommitStage.commit) xa_ok m t)
            t.trid.owner
    record_event (log_remove m.trid)
    pure true
  finish_commit m t result = do
    pend_reply (owner_reply (commit_reply Message.CommitStage.commit) (code result) m t)
        t.trid.owner
    pure false

  -- `basic_commit::operator ()` of a resource's reply. The reply's state is not looked at.
  unfoldable pub resource_commit_reply : ResourceReply → Transaction → Action Bool
  resource_commit_reply m t =
      let t' = update_resource_of m (set_stage commit_replied) t in
      do put t'; if stage t' ==ₛ commit_replied then finish_commit m t' (results t') else pure false

  -- The `switch` of `basic_rollback`, once every resource has rolled back.
  unfoldable pub finish_rollback_ok : ResourceReply → Transaction → Action Bool
  finish_rollback_ok m t = do
    send_reply env (owner_reply (rollback_reply Message.RollbackStage.rollback) xa_ok m t)
        t.trid.owner
    record_event (log_remove m.trid)
    pure true

  unfoldable pub finish_rollback : ResourceReply → Transaction → Result → Action Bool
  finish_rollback m t c_xa_ok = finish_rollback_ok m t
  finish_rollback m t c_xaer_nota = finish_rollback_ok m t
  finish_rollback m t c_xa_rdonly = finish_rollback_ok m t
  finish_rollback m t result = do
    pend_reply (owner_reply (rollback_reply Message.RollbackStage.rollback) (code result) m t)
        t.trid.owner
    pure false

  -- `basic_rollback::operator ()` of a resource's reply. The reply's state is not looked at.
  unfoldable pub resource_rollback_reply : ResourceReply → Transaction → Action Bool
  resource_rollback_reply m t =
      let t' = update_resource_of m (set_stage rollback_replied) t in
      do
        put t'
        if stage t' ==ₛ rollback_replied then finish_rollback m t' (results t') else pure false

  -- `Wrapper::operator ()`.
  unfoldable pub wrapper :
      (ResourceReply → Transaction → Action Bool) → ResourceReply → Action (Unit {0})
  wrapper handler m = do
    now ← gets (λ s. env.now s.events)
    i ← get_instance m.resource m.process.pid
    done env m.resource m.process.pid i
    modify
        (update_instance m.resource (is_process m.process.pid) (reply_statistics m.start m.end now))
    with_transaction handler m
