-- ===== src/Manager/Invariant/Basics.antt =====
-- The invariant across the steps that the handlers share.
use casual.Base.{refl, ℕ, ◌≡◌, Bool, Option, some, List, find_if, Option-cases, inl, inr}
use casual.Manager.Model.{Process, Trid, Stage, Resource, Transaction, has_trid, new_transaction}
use casual.Manager.Message.{UserRequest, Reply, RequestKind}
use casual.Manager.State.{Event}
use casual.Manager.Monad.{Environment, gets, modify, case_of, record_event, ◌>>=◌}
use casual.Manager.Keeps.{Keeps, Yields, Keeps-pure, Keeps-bind, Keeps-record_event, Keeps-Yields}
use casual.Manager.Keeps.Frame.{IsFrameOfAll, send_reply-Keeps, resource_request-Keeps}
use casual.Manager.Handle.Send.{put, send_reply, resource_request}
use mathlib.Core.List.{Nodup-nil}
use casual.Manager.Handle.Involved.{
  involve, involved, find_transaction, add_transaction, find_or_add, resource_involved,
}
use casual.Manager.Invariant.{IsSimple, IsValid}
use casual.Manager.Invariant.Updates.{
  involve-IsSimple, move_stage-IsSimple, xids-put, All-put, xids-add, All-add, find-IsSimple,
}

pub all : IsFrameOfAll IsValid
all = record {
  frame = record {
    event = λ e s _ v. record { distinct = v.distinct; simple = v.simple };
    proxies = λ ps s v. record { distinct = v.distinct; simple = v.simple };
    replies = λ r s v. record { distinct = v.distinct; simple = v.simple };
    request = λ r s _ v. record { distinct = v.distinct; simple = v.simple };
  };
  requests = λ rs s v. record { distinct = v.distinct; simple = v.simple };
}

pub put-Keeps : (t : Transaction) → IsSimple t → Keeps IsValid (put t)
unfolding put modify
put-Keeps t simple = record {
  at = λ s v. record {
    distinct = rw (xids-put t s.transactions) v.distinct;
    simple = All-put t s.transactions simple v.simple;
  };
}

pub log-Keeps : (e : Event) → Keeps IsValid (record_event e)
log-Keeps e = Keeps-record_event e λ s v. record { distinct = v.distinct; simple = v.simple }

-- What a search has found has no resource twice.
abbrev pub FoundSimple : Option Transaction → Type 0
FoundSimple o = (t : Transaction) → o ≡ some t → IsSimple t

pub find_transaction-Yields : (trid : Trid) → Yields IsValid FoundSimple (find_transaction trid)
unfolding find_transaction gets
find_transaction-Yields trid = record {
  at = λ s v. (v, λ t e. find-IsSimple trid s.transactions t v.simple e);
}

pub involved-Yields :
    (env : Environment) (ids : List ℕ) (t : Transaction)
    → Yields IsValid IsSimple (involved env ids t)
unfolding involved ◌>>=◌ put
involved-Yields env ids t = record {
  at = λ s v. (
    (put-Keeps (involve env.ties s.resources ids t)
          (involve-IsSimple env.ties s.resources ids t)).at
        s v,
    involve-IsSimple env.ties s.resources ids t,
  );
}

pub find_or_add-Keeps : (trid : Trid) → Keeps IsValid (find_or_add trid)
unfolding find_or_add find_transaction add_transaction ◌>>=◌
find_or_add-Keeps trid = record {
  at = λ s v. elim (Option-cases (find_if (has_trid trid) s.transactions)) [
    | inl e ↦
        rw (e, case_of)
          (record {
            distinct = xids-add trid s.transactions e v.distinct;
            simple = All-add (new_transaction trid) s.transactions Nodup-nil v.simple;
          })
    | inr (t, e) ↦ rw (e, case_of) v
  ];
}

pub resource_involved-Keeps :
    (env : Environment) (m : UserRequest) → Keeps IsValid (resource_involved env m)
unfolding resource_involved
resource_involved-Keeps env m =
    Keeps-bind _ _ (find_or_add-Keeps m.trid)
      λ t. Keeps-bind _ _ (Keeps-Yields (involved-Yields env m.resources t)) (λ _. Keeps-pure tt)

module _ (env : Environment) where
  pub send_reply-Valid : (r : Reply) (target : Process) → Keeps IsValid (send_reply env r target)
  send_reply-Valid r target = send_reply-Keeps env _ IsValid all.frame r target refl

  pub resource_request-Valid :
      (kind : RequestKind) (t : Transaction) (filter : Resource → Bool) (new : Stage) (flags : ℕ)
      → IsSimple t
      → Keeps IsValid (resource_request env kind t filter new flags)
  resource_request-Valid kind t filter new flags simple =
      resource_request-Keeps env _ IsValid all.frame kind t filter new flags refl
        (put-Keeps _ (move_stage-IsSimple filter new t simple))
