-- ===== src/Manager/Decision/Logged.antt =====
-- What `resource::reply::basic_prepare` logs when every resource has voted to commit.
use casual.Base.{
  ◌∙◌, ap, sym, ◌≡◌, ◌≤◌, ◌⊎◌, inl, inr, refl, true, false, List, [], ◌∷◌, ◌++◌, All, arith,
}
use casual.Manager.Code.{Result, xa_ok, rank, c_xa_ok, c_xa_rdonly}
use casual.Manager.Message
use casual.Manager.Message.{ResourceReply, commit_reply, commit_request, tm_no_flags}
use casual.Manager.Model.{
  Stage, stage_rank, prepare_replied, prepare_requested, not_involved, Resource, Transaction, stage,
  results,
}
use casual.Manager.Model.Severity.{AtLeast, NoWorse, Has, stage_least, results_most_severe}
use casual.Manager.State.{State, Event, sent, refused, lost, log_prepare}
use casual.Manager.Monad.{Environment, record_event, ◌>>=◌, ◌>>◌, pure, modify}
use casual.Manager.Keeps.{Keeps, Keeps-pure, Keeps-bind}
use casual.Manager.Keeps.Frame.{IsFrame, is_message, pend_reply-Keeps, resource_request-Keeps}
use casual.Manager.Handle.Send.{put, pend_reply, resource_request}
use casual.Manager.Handle.Reply.{
  owner_reply, is_prepared, update_resource_of, decide, prepare_reply,
}
use casual.Manager.Decision.{log_prepares}
use casual.Manager.Decision.Prepare.{voted}

-- The votes: OK, and read only, which is promoted to not involved.
abbrev pub VotedOk : Resource → Type 0
VotedOk r = (r.stage ≡ prepare_replied) × (r.result ≡ c_xa_ok)

abbrev pub VotedReadOnly : Resource → Type 0
VotedReadOnly r = (r.stage ≡ not_involved) × (r.result ≡ c_xa_rdonly)

abbrev pub Voted : Resource → Type 0
Voted r = VotedOk r ⊎ VotedReadOnly r

stage-bound : (s : Stage) (rs : List Resource) → AtLeast s rs → Has VotedOk rs → stage_rank s ≤ 2
stage-bound s [] a h = absurd h
stage-bound s (r ∷ rs) a (inl h) =
    let at : stage_rank r.stage ≡ 2 = ap stage_rank h.0 in omega (arith, a.0, at)
stage-bound s (r ∷ rs) a (inr h) = stage-bound s rs a.1 h

stage-of :
    (s : Stage) (rs : List Resource)
    → All Voted rs
    → Has (λ r. r.stage ≡ s) rs
    → (s ≡ prepare_replied) ⊎ (s ≡ not_involved)
stage-of s [] v h = absurd h
stage-of s (r ∷ rs) (inl o, v) (inl h) = inl (sym h ∙ o.0)
stage-of s (r ∷ rs) (inr o, v) (inl h) = inr (sym h ∙ o.0)
stage-of s (r ∷ rs) v (inr h) = stage-of s rs v.1 h

least :
    (s : Stage)
    → stage_rank s ≤ 2
    → (s ≡ prepare_replied) ⊎ (s ≡ not_involved)
    → s ≡ prepare_replied
least s b (inl e) = e
least s b (inr e) = let at : stage_rank s ≡ 9 = ap stage_rank e in absurd (omega (arith, b, at))

stage-Voted :
    (t : Transaction) → All Voted t.resources → Has VotedOk t.resources → stage t ≡ prepare_replied
stage-Voted t v h =
    let (behind, attained) = stage_least t in
    least (stage t) (stage-bound (stage t) t.resources behind h)
      (elim attained [ inl e ↦ inr e | inr k ↦ stage-of (stage t) t.resources v k ])

result-bound : (x : Result) (rs : List Resource) → NoWorse x rs → Has VotedOk rs → rank x ≤ 22
result-bound x [] a h = absurd h
result-bound x (r ∷ rs) a (inl h) =
    let at : rank r.result ≡ 22 = ap rank h.1 in omega (arith, a.0, at)
result-bound x (r ∷ rs) a (inr h) = result-bound x rs a.1 h

result-of :
    (x : Result) (rs : List Resource)
    → All Voted rs
    → Has (λ r. r.result ≡ x) rs
    → (x ≡ c_xa_ok) ⊎ (x ≡ c_xa_rdonly)
result-of x [] v h = absurd h
result-of x (r ∷ rs) (inl o, v) (inl h) = inl (sym h ∙ o.1)
result-of x (r ∷ rs) (inr o, v) (inl h) = inr (sym h ∙ o.1)
result-of x (r ∷ rs) v (inr h) = result-of x rs v.1 h

severest : (x : Result) → rank x ≤ 22 → (x ≡ c_xa_ok) ⊎ (x ≡ c_xa_rdonly) → x ≡ c_xa_ok
severest x b (inl e) = e
severest x b (inr e) = let at : rank x ≡ 23 = ap rank e in absurd (omega (arith, b, at))

results-Voted :
    (t : Transaction) → All Voted t.resources → Has VotedOk t.resources → results t ≡ c_xa_ok
results-Voted t v h =
    let (worst, attained) = results_most_severe t in
    severest (results t) (result-bound (results t) t.resources worst h)
      (elim attained [ inl e ↦ inr e | inr k ↦ result-of (results t) t.resources v k ])

-- Since some events there are more, but no log entry for a prepared transaction.
record Later (before : List Event) (s : State) : Type 0 where
  pub later : List Event
  pub events : s.events ≡ later ++ before
  pub quiet : log_prepares later ≡ 0

module _ (before : List Event) where
  event-Later :
      (e : Event) (s : State)
      → is_message (λ _. true) e ≡ true
      → Later before s
      → Later before (record s { events = e ∷ s.events })
  event-Later (sent q m) s a h = record {
    later = sent q m ∷ h.later;
    events = ap (λ l. sent q m ∷ l) h.events;
    quiet = h.quiet;
  }
  event-Later (refused q m) s a h = record {
    later = refused q m ∷ h.later;
    events = ap (λ l. refused q m ∷ l) h.events;
    quiet = h.quiet;
  }
  event-Later (lost q m) s a h = record {
    later = lost q m ∷ h.later;
    events = ap (λ l. lost q m ∷ l) h.events;
    quiet = h.quiet;
  }
  event-Later _ s a h = absurd (ground arith)

  Later-frame : IsFrame (λ _. true) (Later before)
  Later-frame = record {
    event = event-Later;
    proxies = λ ps s h. record { later = h.later; events = h.events; quiet = h.quiet };
    replies = λ r s h. record { later = h.later; events = h.events; quiet = h.quiet };
    request = λ r s a h. record { later = h.later; events = h.events; quiet = h.quiet };
  }

  put-Later : (t : Transaction) → Keeps (Later before) (put t)
  unfolding put modify
  put-Later t = record {
    at = λ s h. record { later = h.later; events = h.events; quiet = h.quiet };
  }

  after_log-Later :
      (env : Environment) (m : ResourceReply) (t : Transaction)
      → Keeps (Later before) (
          pend_reply (owner_reply (commit_reply Message.CommitStage.prepare) xa_ok m t) t.trid.owner
          >> (resource_request env commit_request t is_prepared prepare_requested tm_no_flags
              >> pure false))
  after_log-Later env m t = Keeps-bind _ _ (pend_reply-Keeps _ _ Later-frame _ _) λ _.
      Keeps-bind _ _ (resource_request-Keeps env _ _ Later-frame _ t _ _ _ refl (put-Later _))
        (λ _. Keeps-pure false)

decide-Later :
    (env : Environment) (m : ResourceReply) (t : Transaction) (s : State)
    → Later (log_prepare t.trid ∷ s.events) (decide env m t c_xa_ok s).1
unfolding decide ◌>>=◌ record_event
decide-Later env m t s =
    (after_log-Later (log_prepare t.trid ∷ s.events) env m t).at
      (record s { events = log_prepare t.trid ∷ s.events })
      (record { later = []; events = refl; quiet = refl })

prepare_reply-decides :
    (env : Environment) (m : ResourceReply) (t : Transaction) (s : State)
    → stage (voted m t) ≡ prepare_replied
    → results (voted m t) ≡ c_xa_ok
    → prepare_reply env m t s ≡ decide env m (voted m t) c_xa_ok (put (voted m t) s).1
unfolding prepare_reply ◌>>=◌ put
prepare_reply-decides env m t s at good = rw (at, good) refl

-- When, with the answer entered, every resource of the transaction has voted OK or read only, and
-- one at least OK, then the first event of the handler is the log entry that this transaction is
-- prepared, and no other such entry, for this or another transaction, follows.
pub all_votes_log :
    (env : Environment) (m : ResourceReply) (t : Transaction) (s : State)
    → All Voted (voted m t).resources
    → Has VotedOk (voted m t).resources
    → (later : List Event) × ((prepare_reply env m t s).1.events
        ≡ later ++ log_prepare t.trid ∷ s.events)
      × (log_prepares later ≡ 0)
unfolding put modify update_resource_of
all_votes_log env m t s votes one =
    let after = decide-Later env m (voted m t) (put (voted m t) s).1 in
    let decides =
      prepare_reply-decides env m t s (stage-Voted (voted m t) votes one)
        (results-Voted (voted m t) votes one) in
    (after.later, ap (λ r. r.1.events) decides ∙ after.events, after.quiet)
