-- ===== src/Manager/Requests/Nothing.antt =====
-- A commit request for a transaction that no known resource takes part in.
use casual.Base.{
  ◌≡◌, refl, Bool, true, none, List, [], ◌∷◌, ◌++◌, find_if, update_first, erase_first, arith,
  arith, ==_refl,
}
use casual.Manager.Code.{xa_rdonly}
use casual.Manager.Model.{new_transaction, has_trid, stage, least_stage, sort, unique}
use casual.Manager.Message
use casual.Manager.Message.{UserRequest, commit_reply}
use casual.Manager.State.{State}
use casual.Manager.Monad.{Environment, Result, ok, ◌>>=◌}
use casual.Manager.Handle.Send.{put, send_reply}
use casual.Manager.Handle.Involved.{
  known, involve, involved, find_transaction, add_transaction, find_or_add,
}
use casual.Manager.Handle.User
use casual.Manager.Handle.User.{
  user_reply, answer_error, user_reply_wrapper, basic_commit, begin_commit, commit_at,
  erase_transaction,
}
use casual.Manager.Requests.Users.{send_reply-ok}

module _ {A : Type 0} (p : A → Bool) where
  update_first-last :
      (f : A → A) (xs : List A) (x : A)
      → find_if p xs ≡ none
      → p x ≡ true
      → update_first p f (xs ++ x ∷ []) ≡ xs ++ f x ∷ []
  unfolding find_if update_first
  update_first-last f [] x h e = rw e refl
  update_first-last f (y ∷ xs) x h e = ground (arith, update_first-last f xs x)

  erase_first-last :
      (xs : List A) (x : A) → find_if p xs ≡ none → p x ≡ true → erase_first p (xs ++ x ∷ []) ≡ xs
  unfolding find_if erase_first
  erase_first-last [] x h e = rw e refl
  erase_first-last (y ∷ xs) x h e = ground (arith, erase_first-last xs x)

-- The transaction that a request adds, when it is not known.
module _ (env : Environment) (m : UserRequest) (s : State)
    (unknown : find_if (has_trid m.trid) s.transactions ≡ none) where
  abbrev with_new : State
  with_new = record s { transactions = s.transactions ++ new_transaction m.trid ∷ [] }

  put_new : put (new_transaction m.trid) with_new ≡ (ok tt, with_new)
  unfolding put ◌>>=◌
  put_new =
      rw
        (update_first-last (has_trid m.trid) (λ _. new_transaction m.trid) s.transactions
          (new_transaction m.trid) unknown (==_refl m.trid.xid))
        refl

  erase_new : erase_transaction (new_transaction m.trid) with_new ≡ (ok tt, s)
  unfolding erase_transaction ◌>>=◌
  erase_new =
      rw
        (erase_first-last (has_trid m.trid) s.transactions (new_transaction m.trid) unknown
          (==_refl m.trid.xid))
        refl

  involve_none :
      known s.resources m.resources ≡ []
      → involve env.ties s.resources m.resources (new_transaction m.trid) ≡ new_transaction m.trid
  unfolding involve sort unique
  involve_none none_known = rw none_known refl

  commit_none :
      known s.resources m.resources ≡ []
      → basic_commit env m s
        ≡ send_reply env
            (user_reply env (commit_reply Message.CommitStage.commit) xa_rdonly m)
            m.process
            s
  unfolding basic_commit find_or_add find_transaction add_transaction involved commit_at
      begin_commit stage least_stage ◌>>=◌
  commit_none none_known = rw (unknown, involve_none none_known, put_new, erase_new) refl

keeps_ok :
    (env : Environment) (m : UserRequest) (r : Result (Unit {0}) × State)
    → r.0 ≡ ok tt
    → answer_error env (commit_reply Message.CommitStage.error) m r.0 r.1 ≡ r
unfolding answer_error ◌>>=◌
keeps_ok env m (r, s) e = rw e refl

-- A commit request for a transaction that is not known, none of whose resources is known, is
-- answered XA_RDONLY, and does nothing else: the state is that after the reply is sent.
pub commit_of_nothing :
    (env : Environment) (m : UserRequest) (s : State)
    → find_if (has_trid m.trid) s.transactions ≡ none
    → known s.resources m.resources ≡ []
    → User.commit env m s
      ≡ send_reply env
          (user_reply env (commit_reply Message.CommitStage.commit) xa_rdonly m)
          m.process
          s
unfolding User.commit user_reply_wrapper
commit_of_nothing env m s unknown none_known = rw (commit_none env m s unknown none_known) (
    keeps_ok env m
      (send_reply env (user_reply env (commit_reply Message.CommitStage.commit) xa_rdonly m)
        m.process s)
      (send_reply-ok env _ m.process s))
