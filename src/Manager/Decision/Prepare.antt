-- ===== src/Manager/Decision/Prepare.antt =====
-- The decision to commit, in `resource::reply::basic_prepare`.
use mathlib.Core.Path.{subst}
use casual.Base.{
  ℕ, suc, ◌≡◌, ◌≢◌, ◌≤◌, ◌⊎◌, inl, inr, refl, Bool, true, false, List, [], ◌∷◌, All, arith,
  Bool-cases,
}
use casual.Manager.Message
use casual.Manager.Code.{Result, xa_ok, rank, c_xa_ok, c_xa_rdonly}
use casual.Manager.Model.{
  stage_rank, prepare_replied, prepare_requested, ◌==ₛ◌, ◌==ᵣ◌, Resource, Transaction, stage,
  results,
}
use casual.Manager.Model.Severity.{AtLeast, NoWorse, stage_least, results_most_severe}
use casual.Manager.Message.{
  ResourceReply, Message, domain_commit_request, DomainRequest, commit_reply, commit_request,
  tm_no_flags,
}
use casual.Manager.State.{State, log_remove, log_prepare}
use casual.Manager.Monad.{Environment, record_event, ◌>>=◌, ◌>>◌, pure, modify}
use casual.Manager.Keeps.{Keeps, Keeps-pure, Keeps-bind, Keeps-record_event}
use casual.Manager.Keeps.Frame.{pend_reply-Keeps, send_reply-Keeps, resource_request-Keeps}
use casual.Manager.Handle.Send.{put, pend_reply, resource_request}
use casual.Manager.Handle.Reply.{
  owner_reply, is_prepared, update_resource_of, vote, decide, prepare_reply,
}
use casual.Manager.Decision.{log_prepares, handed_out, is_commit_request}
use casual.Manager.Decision.Counts.{Counts, Counts-frame, put-Counts}

-- The transaction once the answer is entered.
abbrev pub voted : ResourceReply → Transaction → Transaction
voted m t = update_resource_of m (vote m.state) t

-- Every resource has answered to prepare, with OK or with read only.
abbrev pub HasVotedToCommit : Resource → Type 0
HasVotedToCommit r =
    (stage_rank prepare_replied ≤ stage_rank r.stage)
    × ((r.result ≡ c_xa_ok) ⊎ (r.result ≡ c_xa_rdonly))

-- The transaction as a whole stands at `prepare_replied` with the result OK.
abbrev pub is_ready : Transaction → Bool
is_ready t = elim (stage t ==ₛ prepare_replied) [ true ↦ results t ==ᵣ c_xa_ok | false ↦ false ]

module _ (env : Environment) (n k : ℕ) where
  decide_other :
      (m : ResourceReply) (t : Transaction) (x : Result)
      → x ≢ c_xa_ok
      → Keeps (Counts is_commit_request n k) (decide env m t x)
  unfolding decide
  decide_other m t c_xa_rdonly h =
      Keeps-bind _ _
        (Keeps-record_event (log_remove t.trid)
          (λ s c. record { log = c.log; requests = omega (arith, c.requests) }))
        λ _.
          Keeps-bind _ _ (send_reply-Keeps env _ _ (Counts-frame is_commit_request n k) _ _ refl)
            (λ _. Keeps-pure true)
  decide_other m t c_xa_ok h = absurd (h refl)
  decide_other m t _ h =
      Keeps-bind _ _
        (resource_request-Keeps env _ _ (Counts-frame is_commit_request n k) _ t _ _ _ refl
          (put-Counts _ _ _ _))
        (λ _. Keeps-pure false)

  prepare_reply_other :
      (m : ResourceReply) (t : Transaction)
      → is_ready (voted m t) ≡ false
      → Keeps (Counts is_commit_request n k) (prepare_reply env m t)
  unfolding prepare_reply
  prepare_reply_other m t h = Keeps-bind _ _ (put-Counts _ _ _ _) λ _.
      elim (Bool-cases (stage (voted m t) ==ₛ prepare_replied)) [
        | inl e ↦ rw e (decide_other m (voted m t) (results (voted m t)) (ground arith))
        | inr e ↦ rw e (Keeps-pure false)
      ]

voted_to_commit :
    (rs : List Resource) → AtLeast prepare_replied rs → NoWorse c_xa_ok rs → All HasVotedToCommit rs
voted_to_commit [] a b = tt
voted_to_commit (r ∷ rs) a b = ((a.0, ok_or_read_only r.result b.0), voted_to_commit rs a.1 b.1)
  where
    ok_or_read_only : (x : Result) → rank c_xa_ok ≤ rank x → (x ≡ c_xa_ok) ⊎ (x ≡ c_xa_rdonly)
    ok_or_read_only x h = ground arith

ready-HasVotedToCommit : (t : Transaction) → is_ready t ≡ true → All HasVotedToCommit t.resources
ready-HasVotedToCommit t h =
    let at : stage t ≡ prepare_replied = ground arith in
    let ok : results t ≡ c_xa_ok = ground arith in
    voted_to_commit t.resources (subst (λ x. AtLeast x t.resources) at (stage_least t).0)
      (subst (λ x. NoWorse x t.resources) ok (results_most_severe t).0)

-- When the handling of a resource's answer to prepare changes the number of log entries for
-- prepared transactions, or the number of commit requests that are handed out to resources, then
-- every resource of the transaction, with the answer entered, is at `prepare_replied` or beyond,
-- and its result is OK or read only.
pub commit_needs_every_vote :
    (env : Environment) (m : ResourceReply) (t : Transaction) (s : State)
    → (log_prepares (prepare_reply env m t s).1.events ≢ log_prepares s.events)
      ⊎ (handed_out is_commit_request (prepare_reply env m t s).1 ≢ handed_out is_commit_request s)
    → All HasVotedToCommit (voted m t).resources
commit_needs_every_vote env m t s changed = elim (Bool-cases (is_ready (voted m t))) [
  | inl h ↦ ready-HasVotedToCommit (voted m t) h
  | inr h ↦ absurd (
      unchanged ((prepare_reply_other env _ _ m t h).at s (record { log = refl; requests = refl }))
        changed)
]
  where
    unchanged :
        Counts is_commit_request
          (log_prepares s.events)
          (handed_out is_commit_request s)
          (prepare_reply env m t s).1
        → (log_prepares (prepare_reply env m t s).1.events ≢ log_prepares s.events)
          ⊎ (handed_out is_commit_request (prepare_reply env m t s).1
              ≢ handed_out is_commit_request s)
        → ⊥
    unchanged c (inl e) = e c.log
    unchanged c (inr e) = e c.requests

module _ (env : Environment) (m : ResourceReply) (t : Transaction) where
  after_log_Keeps :
      (n k : ℕ)
      → Keeps (Counts (λ _. false) n k) (
          pend_reply (owner_reply (commit_reply Message.CommitStage.prepare) xa_ok m t) t.trid.owner
          >> (resource_request env commit_request t is_prepared prepare_requested tm_no_flags
              >> pure false))
  after_log_Keeps n k =
      Keeps-bind _ _ (pend_reply-Keeps _ _ (Counts-frame (λ _. false) n k) _ _) λ _.
        Keeps-bind _ _
          (resource_request-Keeps env _ _ (Counts-frame (λ _. false) n k) _ t _ _ _ refl
            (put-Counts _ _ _ _))
          (λ _. Keeps-pure false)

  decide_logs :
      (s : State) → log_prepares (decide env m t c_xa_ok s).1.events ≡ suc (log_prepares s.events)
  unfolding decide ◌>>=◌ record_event pend_reply
  decide_logs s =
      ((after_log_Keeps _ _).at (record s { events = log_prepare t.trid ∷ s.events })
        (record { log = refl; requests = refl })).log

prepare_reply_ready :
    (env : Environment) (m : ResourceReply) (t : Transaction) (s : State)
    → is_ready (voted m t) ≡ true
    → prepare_reply env m t s ≡ decide env m (voted m t) c_xa_ok (put (voted m t) s).1
unfolding prepare_reply ◌>>=◌ put
prepare_reply_ready env m t s h =
    let at : stage (voted m t) ≡ prepare_replied = ground arith in
    let ok : results (voted m t) ≡ c_xa_ok = ground arith in rw (at, ok)

-- The log grows by one entry.
pub ready_logs :
    (env : Environment) (m : ResourceReply) (t : Transaction) (s : State)
    → is_ready (voted m t) ≡ true
    → log_prepares (prepare_reply env m t s).1.events ≡ suc (log_prepares s.events)
unfolding put modify
ready_logs env m t s h =
    rw (prepare_reply_ready env m t s h) (decide_logs env m (voted m t) (put (voted m t) s).1)
