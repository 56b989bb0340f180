-- ===== src/Manager/Handle/Domain.antt =====
-- `handle::domain` of transaction/manager/handle.cpp: the manager as a resource of the transaction
-- manager of another domain.
use casual.Base.{Bool, true, false, Option, none, some, is_empty, all_of, if◌then◌else◌}
use casual.Base.Int.{ℤ}
use casual.Manager.Code.{convert, code, xa_rdonly, xaer_nota}
use casual.Manager.Model.{
  Stage, involved, prepare_requested, prepare_replied, commit_requested, commit_replied,
  rollback_requested, Resource, Transaction, has_stage, results,
}
use casual.Manager.Message.{
  DomainRequest, ResourceReply, ReplyKind, Reply, resource_prepare_reply, resource_commit_reply,
  resource_rollback_reply, domain_prepare_request, domain_commit_request,
}
use casual.Manager.Monad.{Action, pure, ◌>>=◌, ◌>>◌, case_of, Environment}
use casual.Manager.Handle.Send.{put, send_reply, resource_request}
use casual.Manager.Handle.Involved.{find_transaction}
use casual.Manager.Handle.Reply.{update_resource_of}

-- `transform::message` of a resource's reply, for the process that sent it.
abbrev pub relayed : ReplyKind → ℤ → ResourceReply → Reply
relayed kind state m = record {
  kind = kind;
  correlation = 0;
  process = m.process;
  trid = m.trid;
  state = state;
}

-- What a resource's reply makes of the resource.
unfoldable pub answer : Stage → ℤ → Resource → Resource
answer s state r = record r { result = convert state; stage = s }

-- `domain::resource::reply::basic_rollback::operator ()`.
unfoldable pub rollback_reply : ResourceReply → Transaction → Action Bool
rollback_reply m t = pure false

module _ (env : Environment) where
  -- `transform::reply`.
  abbrev pub domain_reply : ReplyKind → ℤ → DomainRequest → Reply
  domain_reply kind state m = record {
    kind = kind;
    correlation = m.correlation;
    process = env.self;
    trid = m.trid;
    state = state;
  }

  -- A transaction that is unknown, or has no resources, has nothing to prepare.
  unfoldable pub prepare_found : DomainRequest → Option Transaction → Action (Unit {0})
  prepare_found m none = send_reply env (domain_reply resource_prepare_reply xa_rdonly m) m.process
  prepare_found m (some t) =
      if is_empty t.resources
      then send_reply env (domain_reply resource_prepare_reply xa_rdonly m) m.process
      else resource_request env domain_prepare_request t (has_stage involved) prepare_requested
          m.flags

  -- `domain::Prepare::operator ()`.
  unfoldable pub prepare : DomainRequest → Action (Unit {0})
  prepare m = do found ← find_transaction m.trid; prepare_found m found

  -- `domain::Commit::operator ()`.
  unfoldable pub commit : DomainRequest → Action (Unit {0})
  commit m = do
    found ← find_transaction m.trid
    case_of found (send_reply env (domain_reply resource_commit_reply xaer_nota m) m.process) λ t.
        resource_request env domain_commit_request t (has_stage prepare_replied) commit_requested
          m.flags

  -- `domain::Rollback::operator ()`. The request that it sends to the resources is, as in the
  -- source, a commit request.
  unfoldable pub rollback : DomainRequest → Action (Unit {0})
  rollback m = do
    found ← find_transaction m.trid
    case_of found (send_reply env (domain_reply resource_rollback_reply xaer_nota m) m.process) λ t.
        resource_request env domain_commit_request t (has_stage prepare_replied) rollback_requested
          m.flags

  -- `domain::resource::reply::basic_prepare::operator ()`.
  unfoldable pub prepare_reply : ResourceReply → Transaction → Action Bool
  prepare_reply m t =
      let t' = update_resource_of m (answer prepare_replied m.state) t in
      do
        put t'
        if all_of (has_stage prepare_replied) t'.resources
            then send_reply env (relayed resource_prepare_reply (code (results t')) m) m.process
            else pure tt
        pure false

  -- `domain::resource::reply::basic_commit::operator ()`.
  unfoldable pub commit_reply : ResourceReply → Transaction → Action Bool
  commit_reply m t =
      let t' = update_resource_of m (answer commit_replied m.state) t in
      do
        put t'
        if all_of (has_stage commit_replied) t'.resources
            then (do
              send_reply env (relayed resource_commit_reply (code (results t')) m) m.process
              pure true)
            else pure false
