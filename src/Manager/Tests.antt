-- ===== src/Manager/Tests.antt =====
-- The theorems on a transaction over two resources.
use casual.Manager.Requests.Nothing.{commit_of_nothing}
use casual.Manager.Requests.Returns.{Shared, request_returns}
use casual.Base.{
  arith, none, ◌==◌, if◌then◌else◌, sym, ◌∙◌, any_of, update_first, select, ℕ, ◌≡◌, ◌≢◌, is_empty,
  ◌++◌, how_many, Bool, inl, refl, true, false, [], ◌∷◌, some, All, arith, List, find_if,
}
use mathlib.Core.List.{Pairwise}
use casual.Base.Int.{pos}
use casual.Manager.Code.{xa_ok, xa_rdonly, xa_rbrollback, xaer_proto, convert}
use casual.Manager.Model
use casual.Manager.Model.{
  Process, Trid, Resource, Transaction, Stage, set_stage, stage, results, least_stage, most_severe,
  sort, unique,
}
use casual.Manager.Message
use casual.Manager.Message.{
  Message, UserRequest, ResourceReply, DomainRequest, domain_commit_request, commit_request,
  commit_reply,
}
use casual.Manager.State.{State, log_remove, log_prepare}
use casual.Manager.Monad.{Environment, Outcome, ◌>>◌, ok, pure, record_event}
use casual.Manager.Action.{request}
use casual.Manager.Handle.Send.{send_reply, put, resource_message, chosen, pend_request}
use casual.Manager.Handle.Involved
use casual.Manager.Handle.Involved.{involve}
use casual.Manager.Handle.Reply.{
  prepare_reply, resource_commit_reply, vote, update_resource_of, owner_reply,
}
use casual.Manager.Handle.Domain
use casual.Manager.Handle.User
use casual.Manager.Pump.{Inbound, dispatch_all, finish_round, flush_replies}
use casual.Manager.Pump.Rounds
use casual.Manager.State.{Event}
use casual.Manager.State.{PendingReply}
use casual.Manager.Pump.Replies.{is_pushed, is_refused, is_reply, flush_replies_lem}
use casual.Manager.Pump.Rounds.{commit_before_replies}
use casual.Manager.Invariant.{IsValid}
use casual.Manager.Invariant.Handlers.{dispatch_all-IsValid}
use casual.Manager.Requests.Users.{Wrapped, user_reply_wrapper-Wrapped, commit_in_progress}
use casual.Manager.Decision.{log_prepares}
use casual.Manager.Decision.Prepare.{
  voted, HasVotedToCommit, commit_needs_every_vote, ready_logs, is_ready,
}
use casual.Manager.Decision.Logged.{Voted, VotedOk, all_votes_log}
use casual.Manager.Model.Severity.{Has}
use casual.Manager.Decision.Answers.{
  domain_rollback_commits, read_only_never_answered, one_phase, one_phase_always_ok,
}
use casual.Manager.Sample.{
  reliable, client, trid, two_resources, commit_both, answer_of, half_prepared, half_read,
  in_progress,
}

all_ready : is_ready (voted (answer_of 12 xa_ok) half_prepared) ≡ true
unfolding update_resource_of update_first vote convert stage results least_stage most_severe
all_ready = refl

log_grows :
    log_prepares (prepare_reply reliable (answer_of 12 xa_ok) half_prepared in_progress).1.events
    ≢ log_prepares in_progress.events
log_grows e =
    let h : log_prepares
          (prepare_reply reliable (answer_of 12 xa_ok) half_prepared in_progress).1.events
        ≡ 1 =
      ready_logs reliable (answer_of 12 xa_ok) half_prepared in_progress all_ready in
    omega arith

commit_needs_every_vote_example :
    All HasVotedToCommit (voted (answer_of 12 xa_ok) half_prepared).resources
commit_needs_every_vote_example =
    commit_needs_every_vote reliable (answer_of 12 xa_ok) half_prepared in_progress (inl log_grows)

all_voted : All Voted (voted (answer_of 12 xa_ok) half_prepared).resources
unfolding update_resource_of update_first vote convert
all_voted = (inl (refl, refl), (inl (refl, refl), tt))

one_voted : Has VotedOk (voted (answer_of 12 xa_ok) half_prepared).resources
unfolding update_resource_of update_first vote convert
one_voted = inl (refl, refl)

all_votes_log_example :
    (later : List Event) × ((prepare_reply reliable
        (answer_of 12 xa_ok)
        half_prepared
        in_progress).1.events
      ≡ later ++ log_prepare trid ∷ in_progress.events)
    × (log_prepares later ≡ 0)
all_votes_log_example =
    all_votes_log reliable (answer_of 12 xa_ok) half_prepared in_progress all_voted one_voted

abbrev run : List Inbound
run =
    Inbound.commit_request commit_both
    ∷ Inbound.resource_prepared (answer_of 11 xa_ok)
    ∷ Inbound.resource_prepared (answer_of 12 xa_ok)
    ∷ []

dispatch_all-IsValid_example : IsValid (dispatch_all reliable run two_resources).1
dispatch_all-IsValid_example =
    dispatch_all-IsValid reliable run two_resources
      (record { distinct = Pairwise.nil; simple = tt })

-- A reply and a request wait for the log.
abbrev to_flush : State
to_flush = record two_resources {
  persistent_replies =
      record { target = 70; message = resource_message reliable commit_request half_prepared 0 }
      ∷ [];
  persistent_requests =
      record {
        resources = 11 ∷ [];
        message = resource_message reliable commit_request half_prepared 0;
      }
      ∷ [];
}

commit_before_replies_example : Rounds.SinceCommit [] (finish_round reliable (λ rs. rs) to_flush).1
commit_before_replies_example = commit_before_replies reliable (λ rs. rs) to_flush

reliable_never_gone : (events : List Event) (q : ℕ) → reliable.push events q ≢ Outcome.gone
reliable_never_gone events q e = ground arith

both_known : All (λ id. Involved.is_known two_resources.resources id ≡ true) (11 ∷ 12 ∷ [])
unfolding Involved.is_known any_of
both_known = (refl, (refl, tt))

request_returns_example :
    (left : List ℕ) × (s' : State) × (request reliable
        (resource_message reliable commit_request half_prepared 0)
        (11 ∷ 12 ∷ [])
        two_resources
      ≡ (ok left, s'))
    × Shared
        (resource_message reliable commit_request half_prepared 0)
        (11 ∷ 12 ∷ [])
        left
        two_resources
        s'
request_returns_example =
    request_returns reliable (resource_message reliable commit_request half_prepared 0)
      (11 ∷ 12 ∷ []) two_resources reliable_never_gone both_known

user_reply_wrapper-Wrapped_example :
    Wrapped reliable
      (commit_reply Message.CommitStage.error)
      commit_both
      (User.basic_commit reliable commit_both in_progress)
      (User.user_reply_wrapper reliable
        (commit_reply Message.CommitStage.error)
        (User.basic_commit reliable)
        commit_both
        in_progress)
user_reply_wrapper-Wrapped_example =
    user_reply_wrapper-Wrapped reliable (commit_reply Message.CommitStage.error)
      (User.basic_commit reliable) commit_both in_progress

found : find_if (Model.has_trid trid) in_progress.transactions ≡ some half_prepared
unfolding find_if
found = refl

requested :
    stage (involve reliable.ties in_progress.resources (12 ∷ 11 ∷ []) half_prepared)
    ≡ Stage.prepare_requested
unfolding involve stage least_stage unique sort Model.insert_sorted Involved.known select
    Involved.is_known any_of
requested = refl

requested≢involved : Stage.prepare_requested ≢ Stage.involved
requested≢involved e = ground arith

requested≢not_involved : Stage.prepare_requested ≢ Stage.not_involved
requested≢not_involved e = ground arith

commit_in_progress_example :
    User.commit reliable commit_both in_progress
    ≡ send_reply reliable
        (User.user_reply reliable (commit_reply Message.CommitStage.error) xaer_proto commit_both)
        client
        (put
          (involve reliable.ties in_progress.resources (12 ∷ 11 ∷ []) half_prepared)
          in_progress).1
commit_in_progress_example =
    commit_in_progress reliable commit_both half_prepared in_progress found
      (λ e. requested≢involved (sym requested ∙ e))
      (λ e. requested≢not_involved (sym requested ∙ e))

abbrev from_other_domain : DomainRequest
from_other_domain = record {
  correlation = 9;
  process = record { pid = 3; queue = 30 };
  trid = trid;
  flags = 0;
}

one_prepared :
    All
      (λ id. Involved.is_known in_progress.resources id ≡ true)
      (chosen (Model.has_stage Stage.prepare_replied) half_prepared.resources)
unfolding chosen select Involved.is_known any_of
one_prepared = (refl, tt)

domain_rollback_commits_example :
    (left : List ℕ) × (s' : State) × Shared
      (resource_message reliable domain_commit_request half_prepared from_other_domain.flags)
      (chosen (Model.has_stage Stage.prepare_replied) half_prepared.resources)
      left
      in_progress
      s'
    × (Domain.rollback reliable from_other_domain in_progress
        ≡ (if is_empty left
              then pure tt
              else pend_request
                  (resource_message reliable domain_commit_request half_prepared
                    from_other_domain.flags)
                  left)
            s')
domain_rollback_commits_example =
    domain_rollback_commits reliable from_other_domain half_prepared in_progress found
      reliable_never_gone one_prepared

read_votes :
    All (λ r. r.stage ≡ Stage.not_involved) (voted (answer_of 12 xa_rdonly) half_read).resources
unfolding update_resource_of update_first vote convert
read_votes = (refl, (refl, tt))

read_only_never_answered_example :
    prepare_reply reliable (answer_of 12 xa_rdonly) half_read two_resources
    ≡ (ok false, (put (voted (answer_of 12 xa_rdonly) half_read) two_resources).1)
read_only_never_answered_example =
    read_only_never_answered reliable (answer_of 12 xa_rdonly) half_read two_resources read_votes

one_phase_always_ok_example :
    resource_commit_reply reliable
      (answer_of 11 xa_rbrollback)
      (one_phase (answer_of 11 xa_rbrollback) trid 5)
      two_resources
    ≡ (send_reply reliable
            (owner_reply
              (commit_reply Message.CommitStage.commit)
              xa_ok
              (answer_of 11 xa_rbrollback)
              (one_phase (answer_of 11 xa_rbrollback) trid 5))
            client
          >> (record_event (log_remove trid) >> pure true))
        (put
          (update_resource_of
            (answer_of 11 xa_rbrollback)
            (set_stage Stage.commit_replied)
            (one_phase (answer_of 11 xa_rbrollback) trid 5))
          two_resources).1
one_phase_always_ok_example =
    one_phase_always_ok reliable (answer_of 11 xa_rbrollback) trid 5 two_resources

-- The client's queue is full.
abbrev crowded : Environment
crowded = record {
  push = λ _ queue. if queue == 70 then Outcome.full else Outcome.delivered;
  now = λ _. pos 0;
  self = record { pid = 1; queue = 1 };
  broker = 0;
  ties = λ _ _ _. false;
}

flush_replies_lem_example :
    (kept : List PendingReply) × (news : List Event) × (flush_replies crowded
        to_flush.persistent_replies to_flush
      ≡ (ok kept, record to_flush { events = news ++ to_flush.events }))
    × ((p : ℕ → Message → Bool)
        → (how_many (is_pushed p) news ≡ how_many (is_reply p) to_flush.persistent_replies)
          × (how_many (is_refused p) news ≡ how_many (is_reply p) kept))
flush_replies_lem_example = flush_replies_lem crowded to_flush.persistent_replies to_flush

-- No resource of this request is known.
abbrev commit_unknown : UserRequest
commit_unknown = record { correlation = 5; process = client; trid = trid; resources = 13 ∷ [] }

unknown : find_if (Model.has_trid trid) two_resources.transactions ≡ none
unfolding find_if
unknown = refl

none_known : Involved.known two_resources.resources (13 ∷ []) ≡ []
unfolding Involved.known Involved.is_known select any_of
none_known = refl

commit_of_nothing_example :
    User.commit reliable commit_unknown two_resources
    ≡ send_reply reliable
        (User.user_reply reliable
          (commit_reply Message.CommitStage.commit)
          xa_rdonly
          commit_unknown)
        client
        two_resources
commit_of_nothing_example =
    commit_of_nothing reliable commit_unknown two_resources unknown none_known
