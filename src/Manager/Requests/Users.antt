-- ===== src/Manager/Requests/Users.antt =====
-- `basic_commit`, `basic_rollback` and `user_reply_wrapper` of transaction/manager/handle.cpp.
use casual.Base.{ℕ, ◌⊎◌, false, ◌≡◌, ◌≢◌, refl, Bool, true, some, find_if, Bool-cases, inl, inr}
use casual.Manager.Code.{xaer_proto, xaer_rmerr}
use casual.Base.Int.{ℤ}
use casual.Manager.Model.{Process, Stage, stage, Transaction, has_trid}
use casual.Manager.Message
use casual.Manager.Message.{Message, UserRequest, ReplyKind, Reply, commit_reply}
use casual.Manager.State.{State}
use casual.Manager.Monad.{
  Environment, Action, Outcome, delivered, full, gone, Result, user_error, invalid_argument,
  unavailable, terminate, raise, ok, throw, pure, ◌>>=◌,
}
use casual.Manager.Action.{attempt, counts_as_sent, non_blocking_push, send_persistent_reply}
use casual.Manager.Handle.Send.{put, send_reply, pend_reply}
use casual.Manager.Handle.Involved.{involve, involved, find_transaction, find_or_add}
use casual.Manager.Handle.User.{
  user_reply, reply_error, answer_error, user_reply_wrapper, basic_commit, begin_commit, commit_at,
  erase_transaction,
}
use casual.Manager.Handle.User

counted_ok :
    (q : ℕ) (m : Message) (o : Outcome) (s : State)
    → (b : Bool) × (counts_as_sent (attempt q m o s).0 ≡ ok b)
unfolding counts_as_sent attempt
counted_ok q m delivered s = (true, refl)
counted_ok q m full s = (false, refl)
counted_ok q m gone s = (true, refl)

-- A reply is sent or put with the persistent replies: nothing is thrown.
pub send_reply-ok :
    (env : Environment) (r : Reply) (target : Process) (s : State)
    → (send_reply env r target s).0 ≡ ok tt
unfolding send_reply send_persistent_reply non_blocking_push ◌>>=◌ pend_reply
send_reply-ok env r target s =
    let (b, e) = counted_ok target.queue (Message.reply r) (env.push s.events target.queue) s in
    rw e (elim (Bool-cases b) [ inl t ↦ rw t refl | inr f ↦ rw f refl ])

-- The code for an exception that the wrapper catches.
abbrev pub Caught : ℤ → Result (Unit {0}) → Type 0
Caught code r =
    (r ≡ throw (user_error code))
    ⊎ ((code ≡ xaer_rmerr) × ((r ≡ throw invalid_argument) ⊎ (r ≡ throw unavailable)))

-- What the wrapper makes of what a handler left: the same, or a reply with the code that is caught.
abbrev pub Wrapped :
    Environment
    → ReplyKind
    → UserRequest
    → Result (Unit {0}) × State
    → Result (Unit {0}) × State
    → Type 0
Wrapped env kind m before after =
    (((before.0 ≡ ok tt) ⊎ (before.0 ≡ throw terminate)) × (after ≡ before))
    ⊎ ((code : ℤ) × (Caught code before.0
          × ((after ≡ send_reply env (user_reply env kind code m) m.process before.1)
              × (after.0 ≡ ok tt))))

answer_error-Wrapped :
    (env : Environment) (kind : ReplyKind) (m : UserRequest) (r : Result (Unit {0})) (s : State)
    → Wrapped env kind m (r, s) (answer_error env kind m r s)
unfolding answer_error reply_error pure raise
answer_error-Wrapped env kind m (ok a) s = inl (inl refl, refl)
answer_error-Wrapped env kind m (throw (user_error code)) s =
    inr (code, (inl refl, (refl, send_reply-ok env _ _ s)))
answer_error-Wrapped env kind m (throw terminate) s = inl (inr refl, refl)
answer_error-Wrapped env kind m (throw invalid_argument) s =
    inr (xaer_rmerr, (inr (refl, inl refl), (refl, send_reply-ok env _ _ s)))
answer_error-Wrapped env kind m (throw unavailable) s =
    inr (xaer_rmerr, (inr (refl, inr refl), (refl, send_reply-ok env _ _ s)))

-- Whatever handler is wrapped, one of two things happens. Either the handler returned or threw the
-- signal to terminate, and the wrapper leaves the result and the state as they are; or the handler
-- threw another exception, and the wrapper replies a code to the caller, that of the user error
-- thrown and XAER_RMERR for the others, and returns, whether the reply is taken, refused or lost.
pub user_reply_wrapper-Wrapped :
    (env : Environment) (kind : ReplyKind) (handler : UserRequest → Action (Unit {0}))
    (m : UserRequest) (s : State)
    → Wrapped env kind m (handler m s) (user_reply_wrapper env kind handler m s)
unfolding user_reply_wrapper
user_reply_wrapper-Wrapped env kind handler m s =
    answer_error-Wrapped env kind m (handler m s).0 (handler m s).1

commit_at-throws :
    (env : Environment) (at : Stage) (m : UserRequest) (t : Transaction) (s : State)
    → at ≢ Stage.involved
    → at ≢ Stage.not_involved
    → commit_at env at m t s ≡ (throw (user_error xaer_proto), s)
unfolding commit_at ◌>>=◌
commit_at-throws env Stage.involved m t s a b = absurd (a refl)
commit_at-throws env Stage.not_involved m t s a b = absurd (b refl)
commit_at-throws env _ m t s a b = refl

-- A commit request for a known transaction whose stage, once the resources that the request names
-- are involved, is neither involved nor not involved, is answered by an error reply XAER_PROTO to
-- the caller, and does no more than to involve those resources.
pub commit_in_progress :
    (env : Environment) (m : UserRequest) (t : Transaction) (s : State)
    → find_if (has_trid m.trid) s.transactions ≡ some t
    → stage (involve env.ties s.resources m.resources t) ≢ Stage.involved
    → stage (involve env.ties s.resources m.resources t) ≢ Stage.not_involved
    → User.commit env m s
      ≡ send_reply env
          (user_reply env (commit_reply Message.CommitStage.error) xaer_proto m)
          m.process
          (put (involve env.ties s.resources m.resources t) s).1
unfolding User.commit user_reply_wrapper basic_commit find_or_add find_transaction involved
    answer_error reply_error put ◌>>=◌
commit_in_progress env m t s e a b = rw (e, commit_at-throws env _ m _ _ a b)
