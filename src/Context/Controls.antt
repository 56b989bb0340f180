-- ===== src/Context/Controls.antt =====
-- What a commit, a rollback and a start leave on the stack.
pub mod Settled
use casual.Base.{
  ◌∙◌, ap, sym, ◌≡◌, refl, Bool, true, false, Option, some, List, [], ◌∷◌, ◌++◌, ◌*◌, is_empty, not,
  arith,
}
use casual.Base.Int.{ℤ, pos}
use casual.Ipc.{Process}
use casual.Run
use casual.Run.{bind_ok}
use casual.Manager.Message.{tm_no_flags}
use casual.Context.Code.{tx_ok, tm_resume}
use casual.Context.State.{
  State, Event, Exception, Transaction, Control, unchained, chained, stacked, created,
  new_transaction, null_id, is_real, is_some, current, last_or, update_last, drop_last, undefined,
}
use casual.Context.Monad.{
  Action, Environment, ok, throw, pure, raise, gets, modify, continue, require, record_event, ◌>>=◌,
}
use casual.Context.Resources.{resources_start, resources_end}
use casual.Context.Commit.{
  null_transaction, start_transaction, start, leave, begin, clear_last, promote, pop_by,
  pop_transaction, pop_if_ok, commit_transaction, rollback_transaction, commit, rollback,
}
use casual.Context.Lists.{last_or-append, drop_last-append}
use casual.Context.Adds.{after, resources_start_quiet, resources_end_quiet}
use casual.Context.Effects.{Unmoved, rollback_transaction-Keeps}
use casual.Context.Commits.{commit_transaction-Takes}

pub update_last-append :
    (f : Transaction → Transaction) (t : Transaction) (ts : List Transaction)
    → update_last f (ts ++ t ∷ []) ≡ ts ++ f t ∷ []
unfolding update_last
update_last-append f t [] = refl
update_last-append f t (u ∷ []) = refl
update_last-append f t (u ∷ v ∷ vs) = ap (λ l. u ∷ l) (update_last-append f t (v ∷ vs))

pub append-not_empty : (t : Transaction) (ts : List Transaction) → is_empty (ts ++ t ∷ []) ≡ false
append-not_empty t [] = refl
append-not_empty t (u ∷ us) = refl

-- The transactions and the control stay as they are.
abbrev pub Frame : List Transaction → Control → State → Type 0
Frame ts control s = (s.transactions ≡ ts) × (s.control ≡ control)

module _ (env : Environment) where
  pub commit_transaction-Frame :
      (t : Transaction) (s : State) → Frame s.transactions s.control (commit_transaction env t s).1
  commit_transaction-Frame t s =
      (commit_transaction-Takes {P = Frame s.transactions s.control}
          {Q = Frame s.transactions s.control} env t (λ _. false) (λ s e out held. held)
          (λ s e out held. held) (λ s held. held) (λ s ids held. held) (λ s id v held. held)
          (λ v. refl) (λ c. refl) (λ id v. refl) (λ ids. refl)).at
        s (refl, refl)

  pub rollback_transaction-Frame :
      (t : Transaction) (s : State)
      → Frame s.transactions s.control (rollback_transaction env t s).1
  rollback_transaction-Frame t s =
      (rollback_transaction-Keeps {P = Frame s.transactions s.control} (λ _. false)
          (λ s e out held. held) env (λ v. refl) (λ c. refl) t (λ id v. refl) (λ ids. refl)
          (λ ids. refl)).at
        s (refl, refl)

  -- A real transaction of this process on top of what was there.
  abbrev pub Started : State → State → Type 0
  Started s left =
      (new : Transaction) × (is_real new ≡ true)
      × (new.trid.owner ≡ env.self)
      × (left.transactions ≡ s.transactions ++ new ∷ [])

  start_lem :
      (at : ℤ) (s : State) → (left : State) × (start env at s ≡ (ok tt, left)) × Started s left
  unfolding start start_transaction ◌>>=◌ gets continue record_event modify pure is_real is_some
      new_transaction
  start_lem at s =
      let new : Transaction = record {
        trid = record { xid = some (env.make s.events); owner = env.self };
        timeout = record { start = at; timeout = pos (1_000_000 * s.timeout) };
        resources = [];
        state = casual.Context.State.active;
        descriptors = [];
        is_local = true;
      } in
      let (a, news, e, q) =
        (resources_start_quiet env (λ _. false) new tm_no_flags (λ id f v. refl)).at
          (after (created (env.make s.events) ∷ []) s) in
      (
        _,
        bind_ok (resources_start env new tm_no_flags) _ (after (created (env.make s.events) ∷ []) s)
            _ tt e,
        (new, refl, refl, refl),
      )

  -- Outside of transactions and of work, `begin` starts one.
  pub begin_outside :
      (s : State)
      → is_real (current s) ≡ false
      → is_empty (current s).resources ≡ true
      → (left : State) × (begin env s ≡ (ok tx_ok, left)) × Started s left
  unfolding begin ◌>>=◌ gets continue leave require pure
  begin_outside s null_top idle =
      let (left, e, started) = start_lem (env.now s.events) s in
      (left, rw (null_top, idle) (bind_ok (start env _) (λ _. pure tx_ok) s left tt e), started)
