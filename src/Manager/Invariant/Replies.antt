-- ===== src/Manager/Invariant/Replies.antt =====
-- The invariant across the answers of the resource proxies.
use casual.Base.{◌≡◌, refl, Bool, find_if}
use casual.Manager.Code.{Result, c_xa_ok, c_xaer_nota, c_xa_rdonly}
use casual.Manager.Model.{
  commit_replied, rollback_replied, set_stage, Resource, Transaction, has_id,
}
use casual.Manager.Message.{ResourceReply}
use casual.Manager.Monad.{Action, Environment}
use casual.Manager.Keeps.{
  Keeps, Keeps-pure, Keeps-if, Keeps-case_of, Keeps-case_of-some, Keeps-bind, Keeps-modify,
  Keeps-bind_Yields, keeps_rules,
}
use casual.Manager.Keeps.Frame.{
  pend_reply-Keeps, get_instance-Keeps, done-Keeps, update_instance-Keeps,
}
use casual.Manager.Handle.Reply.{
  conclude, with_transaction, wrapper, conclude, with_transaction, wrapper, update_resource_of,
  vote, decide, prepare_reply, finish_commit, resource_commit_reply, finish_rollback_ok,
  finish_rollback, resource_rollback_reply,
}
use casual.Base.Int.{ℤ}
use casual.Manager.Invariant.{IsSimple, IsValid}
use casual.Manager.Invariant.Updates.{update_resource_of-IsSimple, xids-erase, All-erase}
use casual.Manager.Invariant.Basics.{
  all, put-Keeps, log-Keeps, find_transaction-Yields, send_reply-Valid, resource_request-Valid,
}

vote-id : (state : ℤ) (r : Resource) → (vote state r).id ≡ r.id
unfolding vote
vote-id state r = refl

module _ (env : Environment) where
  decide-Keeps :
      (m : ResourceReply) (t : Transaction) (x : Result)
      → IsSimple t
      → Keeps IsValid (decide env m t x)
  unfolding decide
  decide-Keeps m t c_xa_rdonly simple = search (keeps_rules, log-Keeps, send_reply-Valid)
  decide-Keeps m t c_xa_ok simple =
      search (keeps_rules, log-Keeps, pend_reply-Keeps _ IsValid all.frame, resource_request-Valid)
  decide-Keeps m t _ simple = search (keeps_rules, resource_request-Valid)

  pub prepare_reply-Keeps :
      (m : ResourceReply) (t : Transaction) → IsSimple t → Keeps IsValid (prepare_reply env m t)
  unfolding prepare_reply
  prepare_reply-Keeps m t simple =
      let simple' : IsSimple (update_resource_of m (vote m.state) t) =
        update_resource_of-IsSimple m (vote m.state) t (vote-id m.state) simple in
      search (keeps_rules, put-Keeps, decide-Keeps)

  finish_commit-Keeps :
      (m : ResourceReply) (t : Transaction) (x : Result) → Keeps IsValid (finish_commit env m t x)
  unfolding finish_commit
  finish_commit-Keeps m t c_xa_ok =
      search (keeps_rules, log-Keeps, send_reply-Valid, pend_reply-Keeps _ IsValid all.frame)
  finish_commit-Keeps m t _ = search (keeps_rules, pend_reply-Keeps _ IsValid all.frame)

  pub commit_reply-Keeps :
      (m : ResourceReply) (t : Transaction)
      → IsSimple t
      → Keeps IsValid (resource_commit_reply env m t)
  unfolding resource_commit_reply
  commit_reply-Keeps m t simple =
      let simple' : IsSimple (update_resource_of m (set_stage commit_replied) t) =
        update_resource_of-IsSimple m (set_stage commit_replied) t (λ r. refl) simple in
      search (keeps_rules, put-Keeps, finish_commit-Keeps)

  finish_rollback_ok-Keeps :
      (m : ResourceReply) (t : Transaction) → Keeps IsValid (finish_rollback_ok env m t)
  unfolding finish_rollback_ok
  finish_rollback_ok-Keeps m t = search (keeps_rules, log-Keeps, send_reply-Valid)

  finish_rollback-Keeps :
      (m : ResourceReply) (t : Transaction) (x : Result) → Keeps IsValid (finish_rollback env m t x)
  unfolding finish_rollback
  finish_rollback-Keeps m t c_xa_ok = finish_rollback_ok-Keeps m t
  finish_rollback-Keeps m t c_xaer_nota = finish_rollback_ok-Keeps m t
  finish_rollback-Keeps m t c_xa_rdonly = finish_rollback_ok-Keeps m t
  finish_rollback-Keeps m t _ = search (keeps_rules, pend_reply-Keeps _ IsValid all.frame)

  pub rollback_reply-Keeps :
      (m : ResourceReply) (t : Transaction)
      → IsSimple t
      → Keeps IsValid (resource_rollback_reply env m t)
  unfolding resource_rollback_reply
  rollback_reply-Keeps m t simple =
      let simple' : IsSimple (update_resource_of m (set_stage rollback_replied) t) =
        update_resource_of-IsSimple m (set_stage rollback_replied) t (λ r. refl) simple in
      search (keeps_rules, put-Keeps, finish_rollback-Keeps)

  conclude-Keeps :
      (m : ResourceReply) (handled : Action Bool)
      → Keeps IsValid handled
      → Keeps IsValid (conclude m handled)
  unfolding conclude
  conclude-Keeps m handled kept = Keeps-bind _ _ kept λ remove.
      Keeps-if remove _ _
        (Keeps-modify _ λ s v. record {
          distinct = xids-erase m.trid s.transactions v.distinct;
          simple = All-erase m.trid s.transactions v.simple;
        })
        (Keeps-pure tt)

  with_transaction-Keeps :
      (handler : ResourceReply → Transaction → Action Bool) (m : ResourceReply)
      → ((t : Transaction) → IsSimple t → Keeps IsValid (handler m t))
      → Keeps IsValid (with_transaction handler m)
  unfolding with_transaction
  with_transaction-Keeps handler m kept =
      Keeps-bind_Yields _ _ (find_transaction-Yields m.trid) λ found simple.
        Keeps-case_of-some found _ _ (Keeps-pure tt) λ t e.
          Keeps-case_of (find_if (has_id m.resource) t.resources) _ _ (Keeps-pure tt)
            (λ _. conclude-Keeps m (handler m t) (kept t (simple t e)))

  pub wrapper-Keeps :
      (handler : ResourceReply → Transaction → Action Bool) (m : ResourceReply)
      → ((t : Transaction) → IsSimple t → Keeps IsValid (handler m t))
      → Keeps IsValid (wrapper env handler m)
  unfolding wrapper
  wrapper-Keeps handler m kept =
      let last : Keeps IsValid (with_transaction handler m) =
        with_transaction-Keeps handler m kept in
      search
        (
          keeps_rules,
          get_instance-Keeps _ IsValid all.frame,
          done-Keeps env IsValid all,
          update_instance-Keeps _ IsValid all.frame,
        )
        depth 8
