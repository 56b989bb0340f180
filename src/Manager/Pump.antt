-- ===== src/Manager/Pump.antt =====
-- transaction/manager/manager.cpp: the dispatch of messages, and the rounds of `message::pump` with
-- the writes to the log.
pub mod Rounds
pub mod Replies
use casual.Base.{
  ℕ, ◌-◌, Bool, true, false, not, ◌&&◌, ◌||◌, Option, none, some, List, [], ◌∷◌, ◌++◌, length, ltb,
  is_empty, if◌then◌else◌,
}
use casual.Manager.Message.{UserRequest, ResourceReply, ConnectReply, DomainRequest}
use casual.Manager.State.{PendingReply, PendingRequest, write_begin, write_commit, pending}
use casual.Manager.Monad.{Action, pure, gets, modify, record_event, ◌>>=◌, ◌>>◌, Environment}
use casual.Manager.Action.{send_persistent_reply, request}
use casual.Manager.Handle.Involved.{resource_involved}
use casual.Manager.Handle.Reply.{
  wrapper, prepare_reply, resource_commit_reply, resource_rollback_reply,
}
use casual.Manager.Handle.Connect.{connect_reply}
use casual.Manager.Handle.User
use casual.Manager.Handle.Domain
use casual.Manager.Handle.Exit

-- The messages that the handlers of the pump take. Shutdown ends the pump; the administration
-- calls, ping and the discarded reply do not touch what is modelled.
pub data Inbound : Type 0 where
  process_exit : ℕ → Inbound
  commit_request : UserRequest → Inbound
  rollback_request : UserRequest → Inbound
  resource_involved_by : UserRequest → Inbound
  connect : ConnectReply → Inbound
  resource_prepared : ResourceReply → Inbound
  resource_committed : ResourceReply → Inbound
  resource_rolled_back : ResourceReply → Inbound
  domain_prepare : DomainRequest → Inbound
  domain_commit : DomainRequest → Inbound
  domain_rollback : DomainRequest → Inbound
  domain_resource_prepared : ResourceReply → Inbound
  domain_resource_committed : ResourceReply → Inbound
  domain_resource_rolled_back : ResourceReply → Inbound

module _ (env : Environment) where
  -- `handler( message)`.
  unfoldable pub dispatch : Inbound → Action (Unit {0})
  dispatch (process_exit pid) = Exit.exit env pid
  dispatch (commit_request m) = User.commit env m
  dispatch (rollback_request m) = User.rollback env m
  dispatch (resource_involved_by m) = resource_involved env m
  dispatch (connect m) = connect_reply env m
  dispatch (resource_prepared m) = wrapper env (prepare_reply env) m
  dispatch (resource_committed m) = wrapper env (resource_commit_reply env) m
  dispatch (resource_rolled_back m) = wrapper env (resource_rollback_reply env) m
  dispatch (domain_prepare m) = Domain.prepare env m
  dispatch (domain_commit m) = Domain.commit env m
  dispatch (domain_rollback m) = Domain.rollback env m
  dispatch (domain_resource_prepared m) = wrapper env (Domain.prepare_reply env) m
  dispatch (domain_resource_committed m) = wrapper env (Domain.commit_reply env) m
  dispatch (domain_resource_rolled_back m) = wrapper env Domain.rollback_reply m

  -- The messages of a run, in the order in which they are read. An exception ends it.
  unfoldable pub dispatch_all : List Inbound → Action (Unit {0})
  dispatch_all [] = pure tt
  dispatch_all (m ∷ ms) = do dispatch m; dispatch_all ms

-- `platform::batch::transaction`.
abbrev pub batch_transaction : ℕ
batch_transaction = 100

module _ (env : Environment) where
  -- The inner loop: what `non_blocking_next` finds, one after another, `none` where the queue is
  -- empty, with the `count` of empty looks that are left. The list stands for as many looks as the
  -- loop may make.
  unfoldable pub consume : ℕ → List (Option Inbound) → Action (Unit {0})
  consume count [] = pure tt
  consume count (some m ∷ next) = do
    dispatch env m
    more ← gets (λ s. ltb (length s.persistent_replies) batch_transaction)
    if more then consume count next else pure tt
  consume count (none ∷ next) = do
    more ← gets (λ s. ltb (length s.persistent_replies) batch_transaction)
    if ltb 0 (count - 1) && more then consume (count - 1) next else pure tt

  -- `action::persistent::Send` over the replies: those that are still not sent.
  unfoldable pub flush_replies : List PendingReply → Action (List PendingReply)
  flush_replies [] = pure []
  flush_replies (r ∷ rs) = do
    done ← send_persistent_reply env r
    kept ← flush_replies rs
    pure (if done then kept else r ∷ kept)

  -- `action::persistent::Send` over the requests, with the resources that they still wait for.
  unfoldable pub flush_requests : List PendingRequest → Action (List PendingRequest)
  flush_requests [] = pure []
  flush_requests (r ∷ rs) = do
    left ← request env r.message r.resources
    kept ← flush_requests rs
    pure (if is_empty left then kept else record r { resources = left } ∷ kept)

  -- `range::partition` promises no order in which it tries the replies, and none among those that
  -- are kept: `order` is the order of the library.
  module _ (order : List PendingReply → List PendingReply) where
    -- What follows the inner loop if there is anything persistent to handle.
    unfoldable pub finish_round : Action (Unit {0})
    finish_round = do
      record_event write_commit
      replies ← gets (λ s. s.persistent_replies)
      kept ← flush_replies (order replies)
      modify (λ s. record s { persistent_replies = kept })
      requests ← gets (λ s. s.persistent_requests)
      left ← flush_requests requests
      modify (λ s. record s {
        pending_requests = s.pending_requests ++ left;
        persistent_requests = [];
      })

    -- One round of `message::pump`. The flag is the state `begun` of the `persistent::Writer`, and
    -- `first` the message that `blocking_next` waits for when nothing is pending.
    unfoldable pub round : Bool → Inbound → List (Option Inbound) → Action Bool
    round begun first next = do
      if begun then pure tt else record_event write_begin
      busy ← gets pending
      if busy then pure tt else dispatch env first
      consume batch_transaction next
      due ← gets (λ s. not (is_empty s.persistent_replies) || not (is_empty s.persistent_requests))
      if due then (do finish_round; pure false) else pure true
