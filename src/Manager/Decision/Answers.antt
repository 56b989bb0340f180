-- ===== src/Manager/Decision/Answers.antt =====
-- Cases in which the answers of the resources do not have the effect that the source's comments
-- promise, in `resource::reply` and `domain` of transaction/manager/handle.cpp.
use casual.Base.{
  Bool, ◌≢◌, some, find_if, is_empty, if◌then◌else◌, update_first, ==_refl, ℕ, ◌≡◌, refl, true,
  false, List, [], ◌∷◌, All, arith,
}
use casual.Manager.Code.{c_xa_ok, xa_ok}
use casual.Manager.Model.{
  not_involved, commit_requested, commit_replied, Trid, set_stage, prepare_replied,
  rollback_requested, has_stage, has_trid, Stage, Resource, Transaction, least_stage, stage,
  most_severe, results,
}
use casual.Manager.Message
use casual.Manager.Message.{
  ResourceReply, DomainRequest, commit_reply, domain_commit_request, RequestKind,
}
use casual.Manager.State.{State, Event, log_remove}
use casual.Manager.Monad.{Environment, Outcome, ok, pure, record_event, ◌>>=◌, ◌>>◌}
use casual.Manager.Action.{request}
use casual.Manager.Requests.Returns.{Shared, request_returns}
use casual.Manager.Handle.Send.{
  put, send_reply, chosen, move_stage, resource_message, resource_request, pend_request,
}
use casual.Manager.Handle.Involved.{find_transaction, is_known}
use casual.Manager.Handle.Reply.{
  update_resource_of, prepare_reply, owner_reply, finish_commit, resource_commit_reply,
}
use casual.Manager.Handle.Domain
use casual.Manager.Decision.Prepare.{voted}

least_stage-not_involved :
    (rs : List Resource)
    → All (λ r. r.stage ≡ not_involved) rs
    → least_stage not_involved rs ≡ not_involved
unfolding least_stage
least_stage-not_involved [] a = refl
least_stage-not_involved (r ∷ rs) a = ground (arith, least_stage-not_involved rs a.1)

-- When the last resource has answered and all have answered read only, nothing is sent, logged or
-- left to be sent, and the transaction stays in the state: its owner gets no reply.
pub read_only_never_answered :
    (env : Environment) (m : ResourceReply) (t : Transaction) (s : State)
    → All (λ r. r.stage ≡ not_involved) (voted m t).resources
    → prepare_reply env m t s ≡ (ok false, (put (voted m t) s).1)
unfolding prepare_reply ◌>>=◌ put stage
read_only_never_answered env m t s a = rw (least_stage-not_involved (voted m t).resources a)

-- A transaction with one resource, which has not answered to prepare: the state of a one-phase
-- commit.
abbrev pub one_phase : ResourceReply → Trid → ℕ → Transaction
one_phase m trid correlation = record {
  trid = trid;
  resources = record { id = m.resource; stage = commit_requested; result = c_xa_ok } ∷ [];
  correlation = correlation;
}

-- In a one-phase commit the owner is told that the commit went well, and the transaction is
-- finished, whatever return code the resource answers.
pub one_phase_always_ok :
    (env : Environment) (m : ResourceReply) (trid : Trid) (correlation : ℕ) (s : State)
    → let t = one_phase m trid correlation in
      resource_commit_reply env m t s
      ≡ (send_reply env (owner_reply (commit_reply Message.CommitStage.commit) xa_ok m t) trid.owner
            >> (record_event (log_remove m.trid) >> pure true))
          (put (update_resource_of m (set_stage commit_replied) t) s).1
unfolding resource_commit_reply update_resource_of update_first finish_commit stage least_stage
    results most_severe ◌>>=◌ put
one_phase_always_ok env m trid correlation s = rw (==_refl m.resource)

-- The end of a request to resources, by what the loop over them returns.
resource_request_lem :
    (env : Environment) (kind : RequestKind) (t : Transaction) (filter : Resource → Bool)
    (new : Stage) (flags : ℕ) (s : State) (left : List ℕ) (s' : State)
    → request env
        (resource_message env kind t flags)
        (chosen filter t.resources)
        (put (record t { resources = move_stage filter new t.resources }) s).1
      ≡ (ok left, s')
    → resource_request env kind t filter new flags s
      ≡ (if is_empty left then pure tt else pend_request (resource_message env kind t flags) left)
          s'
unfolding resource_request put ◌>>=◌
resource_request_lem env kind t filter new flags s left s' returns = rw returns refl

-- The handler of another domain's rollback request sends the transaction's resources a commit
-- request. The transaction is known, no queue is ever gone, and its resources at the stage
-- `prepare_replied` are all known. Then those that get the inter-domain commit request and those for
-- which that request is left pending are, with multiplicity, these resources, and no other message
-- is delivered.
pub domain_rollback_commits :
    (env : Environment) (m : DomainRequest) (t : Transaction) (s : State)
    → find_if (has_trid m.trid) s.transactions ≡ some t
    → ((events : List Event) (q : ℕ) → env.push events q ≢ Outcome.gone)
    → All (λ id. is_known s.resources id ≡ true) (chosen (has_stage prepare_replied) t.resources)
    → (left : List ℕ) × (s' : State) × Shared
        (resource_message env domain_commit_request t m.flags)
        (chosen (has_stage prepare_replied) t.resources)
        left
        s
        s'
      × (Domain.rollback env m s
          ≡ (if is_empty left
                then pure tt
                else pend_request (resource_message env domain_commit_request t m.flags) left)
              s')
unfolding Domain.rollback find_transaction ◌>>=◌ put
domain_rollback_commits env m t s found reachable known =
    let (left, s', returns, h) =
      request_returns env (resource_message env domain_commit_request t m.flags)
        (chosen (has_stage prepare_replied) t.resources)
        (put
          (record t {
            resources = move_stage (has_stage prepare_replied) rollback_requested t.resources;
          })
          s).1
        reachable known in
    (
      left,
      s',
      record {
        taken = h.taken;
        news = h.news;
        events = h.events;
        split = h.split;
        delivered = h.delivered;
        served = h.served;
        proxies = h.proxies;
      },
      rw
          (
            found,
            resource_request_lem env domain_commit_request t (has_stage prepare_replied)
                rollback_requested m.flags s left s' returns,
          )
          refl,
    )
