-- ===== src/Manager/Invariant/Users.antt =====
-- The invariant across the requests of the owners of transactions.
use casual.Base.{is_empty, ℕ, List, [], ◌∷◌}
use casual.Manager.Model.{Trid, Stage, Resource, Transaction}
use casual.Manager.Message.{UserRequest, ReplyKind}
use casual.Manager.Monad.{user_error, invalid_argument, unavailable, terminate, Action, Environment}
use casual.Manager.Keeps.{
  Keeps, Keeps-pure, Keeps-raise, Keeps-if, Keeps-bind, Keeps-modify, Keeps-bind_Yields,
  keeps_rules,
}
use casual.Manager.Invariant.{IsSimple, IsValid}
use casual.Manager.Invariant.Updates.{xids-erase, All-erase}
use casual.Manager.Invariant.Basics.{
  involved-Yields, find_or_add-Keeps, send_reply-Valid, resource_request-Valid,
}
use casual.Manager.Monad.{Result as Run, ok, throw}
use casual.Manager.Handle.User.{
  erase_transaction, begin_commit, commit_at, basic_commit, basic_rollback, reply_error,
  answer_error, user_reply_wrapper,
}
use casual.Manager.Handle.User
use casual.Manager.Handle.Exit
use casual.Manager.Handle.Exit.{rollback_all, owned}

erase_transaction-Keeps : (t : Transaction) → Keeps IsValid (erase_transaction t)
unfolding erase_transaction
erase_transaction-Keeps t = Keeps-modify _ λ s v. record {
  distinct = xids-erase t.trid s.transactions v.distinct;
  simple = All-erase t.trid s.transactions v.simple;
}

module _ (env : Environment) where
  begin_commit-Keeps :
      (m : UserRequest) (t : Transaction) (rs : List Resource)
      → IsSimple t
      → Keeps IsValid (begin_commit env m t rs)
  unfolding begin_commit
  begin_commit-Keeps m t [] simple =
      search (keeps_rules, erase_transaction-Keeps, send_reply-Valid env)
  begin_commit-Keeps m t (r ∷ []) simple = resource_request-Valid env _ _ _ _ _ simple
  begin_commit-Keeps m t (r ∷ q ∷ rs) simple = resource_request-Valid env _ _ _ _ _ simple

  commit_at-Keeps :
      (at : Stage) (m : UserRequest) (t : Transaction)
      → IsSimple t
      → Keeps IsValid (commit_at env at m t)
  unfolding commit_at
  commit_at-Keeps Stage.involved m t simple = begin_commit-Keeps m t t.resources simple
  commit_at-Keeps Stage.not_involved m t simple = begin_commit-Keeps m t t.resources simple
  commit_at-Keeps _ m t simple = Keeps-raise _

  basic_commit-Keeps : (m : UserRequest) → Keeps IsValid (basic_commit env m)
  unfolding basic_commit
  basic_commit-Keeps m = Keeps-bind _ _ (find_or_add-Keeps m.trid) λ found.
      Keeps-bind_Yields _ _ (involved-Yields env m.resources found)
        (λ t simple. commit_at-Keeps _ m t simple)

  basic_rollback-Keeps : (m : UserRequest) → Keeps IsValid (basic_rollback env m)
  unfolding basic_rollback
  basic_rollback-Keeps m = Keeps-bind _ _ (find_or_add-Keeps m.trid) λ found.
      Keeps-bind_Yields _ _ (involved-Yields env m.resources found) λ t simple.
        Keeps-if (is_empty t.resources) _ _
          (Keeps-bind _ _ (erase_transaction-Keeps t) (λ _. send_reply-Valid env _ _))
          (resource_request-Valid env _ _ _ _ _ simple)

  answer_error-Keeps :
      (kind : ReplyKind) (m : UserRequest) (r : Run (Unit {0}))
      → Keeps IsValid (answer_error env kind m r)
  unfolding answer_error reply_error
  answer_error-Keeps kind m (ok a) = Keeps-pure a
  answer_error-Keeps kind m (throw (user_error code)) = send_reply-Valid env _ _
  answer_error-Keeps kind m (throw terminate) = Keeps-raise terminate
  answer_error-Keeps kind m (throw invalid_argument) = send_reply-Valid env _ _
  answer_error-Keeps kind m (throw unavailable) = send_reply-Valid env _ _

  user_reply_wrapper-Keeps :
      (kind : ReplyKind) (handler : UserRequest → Action (Unit {0})) (m : UserRequest)
      → Keeps IsValid (handler m)
      → Keeps IsValid (user_reply_wrapper env kind handler m)
  unfolding user_reply_wrapper
  user_reply_wrapper-Keeps kind handler m kept = record {
    at = λ s v. (answer_error-Keeps kind m (handler m s).0).at (handler m s).1 (kept.at s v);
  }

  pub commit-Keeps : (m : UserRequest) → Keeps IsValid (User.commit env m)
  unfolding User.commit
  commit-Keeps m = user_reply_wrapper-Keeps _ _ m (basic_commit-Keeps m)

  pub rollback-Keeps : (m : UserRequest) → Keeps IsValid (User.rollback env m)
  unfolding User.rollback
  rollback-Keeps m = user_reply_wrapper-Keeps _ _ m (basic_rollback-Keeps m)

  rollback_all-Keeps : (trids : List Trid) → Keeps IsValid (rollback_all env trids)
  unfolding rollback_all
  rollback_all-Keeps [] = Keeps-pure tt
  rollback_all-Keeps (trid ∷ trids) =
      Keeps-bind _ _ (rollback-Keeps _) (λ _. rollback_all-Keeps trids)

  pub exit-Keeps : (pid : ℕ) → Keeps IsValid (Exit.exit env pid)
  unfolding Exit.exit
  exit-Keeps pid = search (keeps_rules, rollback_all-Keeps)
