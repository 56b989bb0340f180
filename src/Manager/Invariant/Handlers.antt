-- ===== src/Manager/Invariant/Handlers.antt =====
-- Every handler of the transaction manager keeps the invariant.
use casual.Base.{false, List, [], ◌∷◌}
use casual.Manager.State.{State}
use casual.Manager.Monad.{Environment}
use casual.Manager.Keeps.{Keeps, Keeps-pure, Keeps-bind}
use casual.Manager.Invariant.{IsValid}
use casual.Manager.Invariant.Basics.{resource_involved-Keeps}
use casual.Manager.Invariant.Replies.{
  wrapper-Keeps, prepare_reply-Keeps, commit_reply-Keeps, rollback_reply-Keeps,
}
use casual.Manager.Handle.Domain
use casual.Manager.Pump.{Inbound, dispatch, dispatch_all}
use casual.Manager.Invariant.Users.{commit-Keeps, rollback-Keeps, exit-Keeps}
use casual.Manager.Invariant.Others.{
  domain_prepare-Keeps, domain_commit-Keeps, domain_rollback-Keeps, domain_prepare_reply-Keeps,
  domain_commit_reply-Keeps, connect_reply-Keeps,
}

module _ (env : Environment) where
  dispatch-Keeps : (m : Inbound) → Keeps IsValid (dispatch env m)
  unfolding dispatch Domain.rollback_reply
  dispatch-Keeps (Inbound.process_exit pid) = exit-Keeps env pid
  dispatch-Keeps (Inbound.commit_request m) = commit-Keeps env m
  dispatch-Keeps (Inbound.rollback_request m) = rollback-Keeps env m
  dispatch-Keeps (Inbound.resource_involved_by m) = resource_involved-Keeps env m
  dispatch-Keeps (Inbound.connect m) = connect_reply-Keeps env m
  dispatch-Keeps (Inbound.resource_prepared m) = wrapper-Keeps env _ m (prepare_reply-Keeps env m)
  dispatch-Keeps (Inbound.resource_committed m) = wrapper-Keeps env _ m (commit_reply-Keeps env m)
  dispatch-Keeps (Inbound.resource_rolled_back m) =
      wrapper-Keeps env _ m (rollback_reply-Keeps env m)
  dispatch-Keeps (Inbound.domain_prepare m) = domain_prepare-Keeps env m
  dispatch-Keeps (Inbound.domain_commit m) = domain_commit-Keeps env m
  dispatch-Keeps (Inbound.domain_rollback m) = domain_rollback-Keeps env m
  dispatch-Keeps (Inbound.domain_resource_prepared m) =
      wrapper-Keeps env _ m (domain_prepare_reply-Keeps env m)
  dispatch-Keeps (Inbound.domain_resource_committed m) =
      wrapper-Keeps env _ m (domain_commit_reply-Keeps env m)
  dispatch-Keeps (Inbound.domain_resource_rolled_back m) =
      wrapper-Keeps env _ m (λ t simple. Keeps-pure false)

  dispatch_all-Keeps : (ms : List Inbound) → Keeps IsValid (dispatch_all env ms)
  unfolding dispatch_all
  dispatch_all-Keeps [] = Keeps-pure tt
  dispatch_all-Keeps (m ∷ ms) = Keeps-bind _ _ (dispatch-Keeps m) (λ _. dispatch_all-Keeps ms)

-- Through any run of messages, whatever becomes of what is sent and also if an exception ends the
-- run, no transaction is known twice, and no transaction has a resource twice, if that held at the
-- start.
pub dispatch_all-IsValid :
    (env : Environment) (ms : List Inbound) (s : State)
    → IsValid s
    → IsValid (dispatch_all env ms s).1
dispatch_all-IsValid env ms s v = (dispatch_all-Keeps env ms).at s v
