-- ===== src/Context/Tests.antt =====
-- A server with three resources, one of them dynamic, and the theorems at it.
use casual.Base.{
  ℕ, ◌+◌, ◌≤◌, ◌≡◌, ◌⊎◌, refl, true, false, Option, none, some, List, [], ◌∷◌, ◌++◌, ◌==◌, ◌||◌,
  ◌&&◌, if◌then◌else◌, how_many, length, arith, any_of, find_if, reject, select,
}
use casual.Base.Int.{ℤ, pos}
use casual.Ipc.{Process, same_process}
use casual.Manager.Code.{xaer_dupid}
use casual.Manager.Message.{CommitStage}
use casual.Context.Code.{tm_suspend, tm_resume, tp_success, tpe_svcerr}
use casual.Context.State.{
  State, Event, Transaction, TransactionState, Resource, Control, CommitReturn, Descriptor,
  CallReply, XaCall, start_call, fixed, new_transaction, null_id, has_xid, is_real, is_some,
  unavailable, is_associated_with, current,
}
use casual.Context.Monad.{Environment, ok, ◌>>=◌, require, throw}
use casual.Context.Pending.{
  new_pending, reserve, active_descriptor, taken, active_found, has_descriptor, new_descriptor,
}
use casual.Context.Pending.Rising.{Rising, reserve-Rising}
use casual.Context.Commit.{
  null_transaction, begin, commit, rollback, commit_transaction, rollback_transaction,
}
use casual.Context.Controls.Settled.{Ends, commit-rollback-Ends}
use casual.Context.Stack.{suspend, resume}
use casual.Context.Starts.{is_end, is_start, has_rm}
use casual.Context.Suspended.{suspend-resume, resume_rotates}
use casual.Context.Refused.{refused_unchanged}
use casual.Context.Finalize.{finalize, is_foreign}
use casual.Context.Finalize.Committed.{is_commit_of, may_commit}
use casual.Context.Finalize.Bound.{finalize-commits_bounded}
use casual.Context.Finalize.Answered.{is_rollback_of}
use casual.Context.Finalize.Failed.{is_owned, finalize-rolls_back, is_joined}
use casual.Context.Finalize.Cancelled.{descriptors_of}
use casual.Context.Calls.{World, Target, async, is_absent, is_busy}
use casual.Context.Calls.Gone.{async_gone_dangles}
use casual.Context.Finalize.Thrown.{is_ok, finalize_unused_throws}
use casual.Broker.Message.{Availability}

abbrev server : Process
server = record { pid = 7; queue = 70 }

abbrev other : Process
other = record { pid = 8; queue = 80 }

-- The second resource knows every transaction already when it is started without flags.
abbrev answer : XaCall → ℤ
answer (start_call id xid flags) = if (id == 2) && (flags == 0) then xaer_dupid else pos 0
answer c = pos 0

-- The manager answers every commit at once and every rollback; new xids start at 100.
abbrev world : Environment
world = record {
  xa = λ events c. answer c;
  make = λ events. 100 + length events;
  now = λ events. pos (length events);
  is_up = λ events. true;
  commit_reply =
      λ events. some (record { correlation = 5; stage = CommitStage.commit; state = pos 0 });
  final_reply = λ events. none;
  rollback_reply = λ events. some (pos 0);
  self = server;
}

abbrev resource : ℕ → ℕ → Resource
resource flags id = record { key = 1; flags = flags; id = id; openinfo = 0; closeinfo = 0 }

abbrev owned : ℕ → Transaction
owned x = new_transaction (record { xid = some x; owner = server })

-- Begun by a caller; a call of it, with the descriptor 1, waits.
abbrev joined : Transaction
joined = record (new_transaction (record { xid = some 20; owner = other })) {
  descriptors = 1 ∷ [];
  is_local = false;
}

abbrev one_waits : List Descriptor
one_waits = taken 9 (new_descriptor 1) ∷ new_descriptor 2 ∷ []

abbrev with_transactions : List Transaction → State
with_transactions ts = record {
  transactions = ts;
  outside = null_transaction;
  resources = resource 0 1 ∷ resource 0 2 ∷ resource 1 3 ∷ [];
  caller = record { xid = some 20; owner = other };
  control = Control.chained;
  commit_return = CommitReturn.completed;
  timeout = 0;
  pending = one_waits;
  events = [];
}

-- The caller's transaction, one that was suspended for a second, and the second.
abbrev two_levels : State
two_levels = with_transactions (joined ∷ owned 10 ∷ [])

abbrev suspended : State
suspended = with_transactions (joined ∷ owned 10 ∷ owned 11 ∷ null_transaction ∷ [])

abbrev reply : CallReply
reply = record { descriptor = 4; error = 0; trid = null_id; state = TransactionState.active }

suspend-resume_example :
    (news : List Event) × ((suspend world >>= resume world) two_levels
      ≡ (ok tt, record two_levels { events = news ++ two_levels.events }))
    × ((rm : ℕ)
        → (how_many (is_end rm (some 10) tm_suspend) news
            ≡ how_many (has_rm rm) two_levels.resources)
          × (how_many (is_start rm (some 10) tm_resume) news
              ≡ how_many (has_rm rm) (fixed two_levels)))
unfolding new_transaction is_real is_some has_xid any_of
suspend-resume_example = suspend-resume world two_levels (joined ∷ []) (owned 10) refl refl refl

resume_rotates_example :
    (news : List Event) × (resume world (some 10) suspended ≡ (
      ok tt,
      record suspended {
        transactions = joined ∷ owned 11 ∷ owned 10 ∷ [];
        events = news ++ suspended.events;
      },
    ))
    × ((rm : ℕ)
        → how_many (is_start rm (some 10) tm_resume) news ≡ how_many (has_rm rm) (fixed suspended))
unfolding new_transaction is_real is_some has_xid any_of
resume_rotates_example =
    resume_rotates world suspended (joined ∷ []) (owned 11 ∷ []) (owned 10) null_transaction refl
      refl refl refl refl

refused_unchanged_example :
    (((code : ℤ) × ((begin world two_levels).0 ≡ ok code))
      ⊎ ((begin world two_levels).1 ≡ two_levels))
    × (((x : Option ℕ) × ((suspend world two_levels).0 ≡ ok x))
        ⊎ ((suspend world two_levels).1 ≡ two_levels))
    × (((done : Unit {0}) × ((resume world (some 20) two_levels).0 ≡ ok done))
        ⊎ ((resume world (some 20) two_levels).1 ≡ two_levels))
refused_unchanged_example = refused_unchanged world (some 20) two_levels

commit-rollback-Ends_example :
    Ends world two_levels
      (joined ∷ [])
      (commit_transaction world (owned 10) two_levels)
      (commit world two_levels)
    × Ends world two_levels
        (joined ∷ [])
        (rollback_transaction world (owned 10) two_levels)
        (rollback world two_levels)
commit-rollback-Ends_example = commit-rollback-Ends world two_levels (joined ∷ []) (owned 10) refl

finalize-commits_bounded_example :
    ((finalize world reply tp_success two_levels).1.transactions ≡ [])
    × (how_many (is_commit_of 10) (finalize world reply tp_success two_levels).1.events
        ≤ how_many (is_commit_of 10) two_levels.events
          + how_many (may_commit world tp_success 10) two_levels.transactions)
finalize-commits_bounded_example = finalize-commits_bounded world reply tp_success 10 two_levels

finalize-rolls_back_example :
    (answered : CallReply) × (left : State) × (finalize world reply tpe_svcerr two_levels
      ≡ (ok answered, left))
    × (left.transactions ≡ [])
    × (how_many (is_rollback_of 10) left.events
        ≡ how_many (is_rollback_of 10) two_levels.events
          + how_many (is_owned world 10) two_levels.transactions)
    × (answered.trid ≡ two_levels.caller)
unfolding is_joined how_many descriptors_of active_found find_if has_descriptor any_of taken
    new_transaction is_real is_some is_foreign same_process
finalize-rolls_back_example =
    finalize-rolls_back world reply tpe_svcerr 10 two_levels (λ es. refl) (λ es. (pos 0, refl)) refl
      refl (refl, refl, tt)

reserve-Rising_example :
    (d : ℕ) × (left : State) × (reserve 33 two_levels ≡ (ok d, left))
    × (active_descriptor d two_levels ≡ false)
    × Rising 0 left.pending
    × (active_descriptor 1 left ≡ (1 == d) || active_descriptor 1 two_levels)
unfolding taken
reserve-Rising_example = reserve-Rising 33 1 two_levels (omega arith, (omega arith, tt)) refl

-- What the runs come to.
finalize_commits_one :
    how_many (is_commit_of 10) (finalize world reply tp_success two_levels).1.events ≡ 1
unfolding finalize how_many ◌>>=◌ require any_of find_if taken new_transaction reject select
    same_process is_commit_of
finalize_commits_one = refl

new_pending-Rising : Rising 0 new_pending
unfolding new_pending
new_pending-Rising = ground arith

-- A broker that knows an idle instance whose queue is gone.
abbrev far : Target
far = record {
  service = record { name = 5; type = 0; timeout = 0; traffic_monitors = []; transaction = 0 };
  process = record { pid = 9; queue = 90 };
  state = Availability.idle;
}

abbrev nowhere : World
nowhere = record {
  broker_up = λ events. true;
  lookup = λ events. some far;
  takes = λ events queue. false;
  correlate = λ events. 200 + length events;
  now = λ events. pos (length events);
  receive = λ events wanted. none;
  self = server;
}

async_gone_dangles_example :
    (d : ℕ) × (left : State) × (async nowhere 5 0 true two_levels ≡ (throw unavailable, left))
    × (is_associated_with d (current left) ≡ true)
    × (active_descriptor d left ≡ false)
unfolding is_absent is_busy new_transaction is_real is_some taken
async_gone_dangles_example =
    async_gone_dangles nowhere 5 far (joined ∷ []) (owned 10) two_levels (λ es. refl) (λ es. refl)
      (λ es queue. refl) refl refl refl refl (omega arith, (omega arith, tt)) refl

-- The call of the caller's transaction could not be sent.
abbrev dangling : State
dangling = record two_levels { pending = new_descriptor 1 ∷ [] }

finalize_unused_throws_example : is_ok (finalize world reply tpe_svcerr dangling).0 ≡ false
unfolding is_associated_with any_of active_descriptor active_found find_if has_descriptor
finalize_unused_throws_example =
    finalize_unused_throws world reply tpe_svcerr 1 [] (owned 10 ∷ []) joined dangling refl refl
      refl
