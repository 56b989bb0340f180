-- ===== src/Manager/Invariant/Others.antt =====
-- The invariant across the messages of other domains, and of starting proxies.
use casual.Base.{is_empty, ℕ, refl, Option, none, some}
use casual.Manager.Model.{Stage, commit_replied, Transaction}
use casual.Manager.Message.{ResourceReply, DomainRequest}
use casual.Manager.Monad.{Environment}
use casual.Manager.Keeps.{
  Keeps, Keeps-pure, Keeps-gets, Keeps-if, Keeps-case_of-some, Keeps-bind, Keeps-modify,
  Keeps-bind_Yields, keeps_rules,
}
use casual.Manager.Keeps.Frame.{get_instance-Keeps, done-Keeps, update_instance-Keeps}
use casual.Manager.Handle.Reply.{update_resource_of}
use casual.Manager.Invariant.{IsSimple, IsValid}
use casual.Manager.Invariant.Updates.{update_resource_of-IsSimple}
use casual.Manager.Invariant.Basics.{
  all, put-Keeps, FoundSimple, find_transaction-Yields, send_reply-Valid, resource_request-Valid,
}
use casual.Manager.Message.{ConnectReply}
use casual.Manager.Monad.{gone, Outcome}
use casual.Manager.Handle.Connect.{
  catch_invalid_argument, deliver, blocking_send, connect_instance, announce, connect_reply,
}
use casual.Manager.Handle.Domain
use casual.Manager.Model.{prepare_replied}
use casual.Manager.State.{sent, lost}
use casual.Manager.Message.{Message}

module _ (env : Environment) where
  prepare_found-Keeps :
      (m : DomainRequest) (found : Option Transaction)
      → FoundSimple found
      → Keeps IsValid (Domain.prepare_found env m found)
  unfolding Domain.prepare_found
  prepare_found-Keeps m none simple = send_reply-Valid env _ _
  prepare_found-Keeps m (some t) simple =
      Keeps-if (is_empty t.resources) _ _ (send_reply-Valid env _ _)
        (resource_request-Valid env _ _ _ _ _ (simple t refl))

  pub domain_prepare-Keeps : (m : DomainRequest) → Keeps IsValid (Domain.prepare env m)
  unfolding Domain.prepare
  domain_prepare-Keeps m =
      Keeps-bind_Yields _ _ (find_transaction-Yields m.trid) (prepare_found-Keeps m)

  pub domain_commit-Keeps : (m : DomainRequest) → Keeps IsValid (Domain.commit env m)
  unfolding Domain.commit
  domain_commit-Keeps m = Keeps-bind_Yields _ _ (find_transaction-Yields m.trid) λ found simple.
      Keeps-case_of-some found _ _ (send_reply-Valid env _ _)
        (λ t e. resource_request-Valid env _ _ _ _ _ (simple t e))

  pub domain_rollback-Keeps : (m : DomainRequest) → Keeps IsValid (Domain.rollback env m)
  unfolding Domain.rollback
  domain_rollback-Keeps m = Keeps-bind_Yields _ _ (find_transaction-Yields m.trid) λ found simple.
      Keeps-case_of-some found _ _ (send_reply-Valid env _ _)
        (λ t e. resource_request-Valid env _ _ _ _ _ (simple t e))

  answered-IsSimple :
      (m : ResourceReply) (to : Stage) (t : Transaction)
      → IsSimple t
      → IsSimple (update_resource_of m (Domain.answer to m.state) t)
  unfolding Domain.answer
  answered-IsSimple m to t simple = update_resource_of-IsSimple m _ t (λ r. refl) simple

  pub domain_prepare_reply-Keeps :
      (m : ResourceReply) (t : Transaction)
      → IsSimple t
      → Keeps IsValid (Domain.prepare_reply env m t)
  unfolding Domain.prepare_reply
  domain_prepare_reply-Keeps m t simple =
      let simple' = answered-IsSimple m prepare_replied t simple in
      search (keeps_rules, put-Keeps, send_reply-Valid env)

  pub domain_commit_reply-Keeps :
      (m : ResourceReply) (t : Transaction)
      → IsSimple t
      → Keeps IsValid (Domain.commit_reply env m t)
  unfolding Domain.commit_reply
  domain_commit_reply-Keeps m t simple =
      let simple' = answered-IsSimple m commit_replied t simple in
      search (keeps_rules, put-Keeps, send_reply-Valid env)

  deliver-Keeps : (q : ℕ) (m : Message) (o : Outcome) → Keeps IsValid (deliver q m o)
  unfolding deliver
  deliver-Keeps q m gone = record { at = λ s v. all.frame.event (lost q m) s refl v }
  deliver-Keeps q m _ = record { at = λ s v. all.frame.event (sent q m) s refl v }

  announce-Keeps : Keeps IsValid (announce env)
  unfolding announce blocking_send
  announce-Keeps = Keeps-bind _ _ (Keeps-gets _) λ due.
      Keeps-if due _ _
        (Keeps-bind _ _ (record { at = λ s v. (deliver-Keeps _ _ _).at s v })
          (λ _. Keeps-modify _ (λ s v. record { distinct = v.distinct; simple = v.simple })))
        (Keeps-pure tt)

  connect_instance-Keeps : (m : ConnectReply) → Keeps IsValid (connect_instance env m)
  unfolding connect_instance
  connect_instance-Keeps m =
      search
        (
          keeps_rules,
          get_instance-Keeps _ IsValid all.frame,
          done-Keeps env IsValid all,
          update_instance-Keeps _ IsValid all.frame,
        )
        depth 8

  pub connect_reply-Keeps : (m : ConnectReply) → Keeps IsValid (connect_reply env m)
  unfolding connect_reply catch_invalid_argument
  connect_reply-Keeps m =
      Keeps-bind _ _ (record { at = λ s v. (connect_instance-Keeps m).at s v })
        (λ _. announce-Keeps)
