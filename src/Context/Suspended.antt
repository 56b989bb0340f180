-- ===== src/Context/Suspended.antt =====
-- A transaction is suspended, and resumed.
use casual.Base.{
  ◌∙◌, ap, sym, ℕ, ◌≡◌, ◌≢◌, refl, Bool, true, false, Option, some, List, [], ◌∷◌, ◌++◌, append-nil,
  append_assoc, how_many, how_many-append, any_of, find_if, is_empty, arith,
}
use casual.Run.{bind_ok}
use Prim.Native.Nat.{bit_or}
use casual.Context.Code.{tm_suspend, tm_resume, tm_join}
use casual.Context.State.{
  State, Event, Transaction, fixed, is_real, is_some, has_xid, current, last_or, drop_last,
  protocol, new_transaction,
}
use casual.Context.Monad.{Environment, ok, gets, modify, continue, case_of, require, pure, ◌>>=◌}
use casual.Context.Resources.{resources_start, resources_end}
use casual.Context.Commit.{null_transaction}
use casual.Context.Stack.{suspend, resume, rotate_found}
use casual.Context.Adds.{
  Adds, Adds-weaken, Adds-Counts, after, resources_end_quiet, resources_start_quiet,
}
use casual.Context.Lists.{
  last_or-append, drop_last-append, rotate_found-last, find_if-first, has_xid_self,
}
use casual.Context.Starts.{is_end, is_start, has_rm, resources_end-told, resources_start-told}

-- The flags of a retry that joins are others.
join_differs : bit_or tm_resume tm_join ≢ tm_resume
join_differs e = ground arith

module _ (env : Environment) where
  suspend_lem :
      (s : State) (t : Transaction) (news : List Event)
      → current s ≡ t
      → is_real t ≡ true
      → resources_end env t tm_suspend s ≡ (ok tt, after news s)
      → suspend env s ≡ (
        ok t.trid.xid,
        record (after news s) { transactions = s.transactions ++ null_transaction ∷ [] },
      )
  unfolding suspend ◌>>=◌ gets continue require modify pure
  suspend_lem s t news on_top real ended = rw on_top (
      bind_ok (require (is_real t) protocol) _ s s tt (rw real refl)
      ∙ bind_ok (resources_end env t tm_suspend) _ s (after news s) tt ended)

  resume_lem :
      (s : State) (xid : Option ℕ) (wanted : Transaction) (news : List Event)
      → is_some xid ≡ true
      → is_real (current s) ≡ false
      → is_empty (current s).resources ≡ true
      → find_if (has_xid xid) s.transactions ≡ some wanted
      → resources_start env wanted tm_resume s ≡ (ok tt, after news s)
      → resume env xid s ≡ (
        ok tt,
        record (after news s) {
          transactions = rotate_found (has_xid xid) (drop_last s.transactions);
        },
      )
  unfolding resume ◌>>=◌ gets continue require modify case_of
  resume_lem s xid wanted news real none_on_top idle found started =
      rw (real, none_on_top, idle, found, started) refl

  -- The state after a suspension and a resumption, which lead back to the transactions.
  back :
      (s : State) (ts : List Transaction) (t : Transaction)
      → s.transactions ≡ ts ++ t ∷ []
      → is_real t ≡ true
      → any_of (has_xid t.trid.xid) ts ≡ false
      → (xs ys : List Event) → resources_end env t tm_suspend s ≡ (ok tt, after xs s)
      → (resources_start env t tm_resume
            (record (after xs s) { transactions = s.transactions ++ null_transaction ∷ [] })
          ≡ (
            ok tt,
            record (after ys (after xs s)) {
              transactions = s.transactions ++ null_transaction ∷ [];
            },
          ))
      → (suspend env >>= resume env) s ≡ (ok tt, record s { events = ys ++ (xs ++ s.events) })
  unfolding current last_or is_some is_real new_transaction
  back s ts t stack real alone xs ys ended started =
      bind_ok (suspend env) (resume env) s _ t.trid.xid (
        suspend_lem s t xs (ap (last_or s.outside) stack ∙ last_or-append s.outside t ts) real
          ended)
      ∙ resume_lem _ t.trid.xid t ys real
          (ap is_real (last_or-append s.outside null_transaction s.transactions))
          (ap (λ u. is_empty u.resources)
            (last_or-append s.outside null_transaction s.transactions))
          (ap (λ l. find_if (has_xid t.trid.xid) (l ++ null_transaction ∷ [])) stack
            ∙ ap (find_if (has_xid t.trid.xid)) (append_assoc ts (t ∷ []) (null_transaction ∷ []))
            ∙ find_if-first (has_xid t.trid.xid) t ts (null_transaction ∷ []) alone
                (has_xid_self t))
          started
      ∙ ap (λ l. (ok tt, record (after ys (after xs s)) { transactions = l })) restored
    where
      restored :
          rotate_found (has_xid t.trid.xid) (drop_last (s.transactions ++ null_transaction ∷ []))
          ≡ s.transactions
      restored =
          ap (rotate_found (has_xid t.trid.xid)) (drop_last-append null_transaction s.transactions)
          ∙ ap (rotate_found (has_xid t.trid.xid)) stack
          ∙ rotate_found-last (has_xid t.trid.xid) t ts [] alone (has_xid_self t)
          ∙ ap (λ l. l ++ t ∷ []) (append-nil ts)
          ∙ sym stack

module _ (env : Environment) (t : Transaction) (real : is_real t ≡ true) where
  -- Each resource is ended once with TMSUSPEND, and none is started.
  ended_once :
      Adds
        (λ s news.
          ((rm : ℕ)
            → how_many (is_end rm t.trid.xid tm_suspend) news ≡ how_many (has_rm rm) s.resources)
          × ((rm : ℕ) → how_many (is_start rm t.trid.xid tm_resume) news ≡ 0))
        (resources_end env t tm_suspend)
  unfolding is_start
  ended_once =
      Adds-weaken _
        (Adds-Counts (λ rm. is_start rm t.trid.xid tm_resume) (λ _ _. 0) _
          (Adds-Counts (λ rm. is_end rm t.trid.xid tm_suspend)
            (λ rm s. how_many (has_rm rm) s.resources) _
            (resources_end-told env t tm_suspend 0 real)
            (λ rm. resources_end-told env t tm_suspend rm real))
          (λ rm.
            resources_end_quiet env (is_start rm t.trid.xid tm_resume) t tm_suspend (λ id v. refl)))
        (λ s news c. (c.0.1, c.1))

  -- Each fixed resource is started once with TMRESUME, and none is ended.
  started_once :
      Adds
        (λ s news.
          ((rm : ℕ)
            → how_many (is_start rm t.trid.xid tm_resume) news ≡ how_many (has_rm rm) (fixed s))
          × ((rm : ℕ) → how_many (is_end rm t.trid.xid tm_suspend) news ≡ 0))
        (resources_start env t tm_resume)
  unfolding is_end
  started_once =
      Adds-weaken _
        (Adds-Counts (λ rm. is_end rm t.trid.xid tm_suspend) (λ _ _. 0) _
          (Adds-Counts (λ rm. is_start rm t.trid.xid tm_resume)
            (λ rm s. how_many (has_rm rm) (fixed s)) _
            (resources_start-told env t tm_resume 0 join_differs real)
            (λ rm. resources_start-told env t tm_resume rm join_differs real))
          (λ rm.
            resources_start_quiet env (is_end rm t.trid.xid tm_suspend) t tm_resume
              (λ id f v. refl)))
        (λ s news c. (c.0.1, c.1))

-- A real transaction is on top and no transaction below it has its xid. Then to suspend it, and to
-- resume it with the xid that was given back, returns and leaves everything but the events as it
-- was; the new events tell each resource id as often as it is configured to end its work for that
-- xid with TMSUSPEND, and as often as it is configured among the fixed resources to start it again
-- with TMRESUME.
pub suspend-resume :
    (env : Environment) (s : State) (ts : List Transaction) (t : Transaction)
    → s.transactions ≡ ts ++ t ∷ []
    → is_real t ≡ true
    → any_of (has_xid t.trid.xid) ts ≡ false
    → (news : List Event) × ((suspend env >>= resume env) s
        ≡ (ok tt, record s { events = news ++ s.events }))
      × ((rm : ℕ)
          → (how_many (is_end rm t.trid.xid tm_suspend) news ≡ how_many (has_rm rm) s.resources)
            × (how_many (is_start rm t.trid.xid tm_resume) news ≡ how_many (has_rm rm) (fixed s)))
unfolding fixed
suspend-resume env s ts t stack real alone =
    let (a, xs, ended, told) = (ended_once env t real).at s in
    let (b, ys, started, more) =
      (started_once env t real).at
        (record (after xs s) { transactions = s.transactions ++ null_transaction ∷ [] }) in
    (
      ys ++ xs,
      back env s ts t stack real alone xs ys ended started
          ∙ ap (λ l. (ok tt, record s { events = l })) (sym (append_assoc ys xs s.events)),
      λ rm.
          let ends = how_many-append (is_end rm t.trid.xid tm_suspend) ys xs in
          let starts = how_many-append (is_start rm t.trid.xid tm_resume) ys xs in
          (omega (arith, told.0 rm, more.1 rm, ends), omega (arith, told.1 rm, more.0 rm, starts)),
    )

-- A null transaction without resources is on top, and below it, above some and below others, stands
-- a real one, the lowest with its xid. Then to resume that xid returns; the transaction is on top,
-- the null one is gone and the others keep their order; each resource id was told, as often as it is
-- configured among the fixed resources, to start work for that xid with TMRESUME, and nothing else
-- has changed but the events.
pub resume_rotates :
    (env : Environment) (s : State) (ts us : List Transaction) (wanted top : Transaction)
    → s.transactions ≡ ts ++ (wanted ∷ us) ++ top ∷ []
    → is_real wanted ≡ true
    → any_of (has_xid wanted.trid.xid) ts ≡ false
    → is_real top ≡ false
    → is_empty top.resources ≡ true
    → (news : List Event) × (resume env wanted.trid.xid s
        ≡ (ok tt, record s { transactions = ts ++ us ++ wanted ∷ []; events = news ++ s.events }))
      × ((rm : ℕ)
          → how_many (is_start rm wanted.trid.xid tm_resume) news ≡ how_many (has_rm rm) (fixed s))
unfolding current is_real is_some
resume_rotates env s ts us wanted top stack real alone null_top idle =
    let p : Transaction → Bool = has_xid wanted.trid.xid in
    let (a, news, started, all) = (started_once env wanted real).at s in
    let below : s.transactions ≡ (ts ++ wanted ∷ us) ++ top ∷ [] = stack in
    let on_top : current s ≡ top =
      ap (last_or s.outside) below ∙ last_or-append s.outside top (ts ++ wanted ∷ us) in
    let rotated : rotate_found p (drop_last s.transactions) ≡ ts ++ us ++ wanted ∷ [] =
      ap (λ l. rotate_found p (drop_last l)) below
      ∙ ap (rotate_found p) (drop_last-append top (ts ++ wanted ∷ us))
      ∙ rotate_found-last p wanted ts us alone (has_xid_self wanted) in
    (
      news,
      resume_lem env s wanted.trid.xid wanted news real (ap is_real on_top ∙ null_top)
            (ap (λ u. is_empty u.resources) on_top ∙ idle)
            (ap (find_if p) (below ∙ append_assoc ts (wanted ∷ us) (top ∷ []))
              ∙ find_if-first p wanted ts (us ++ top ∷ []) alone (has_xid_self wanted))
            started
          ∙ ap (λ l. (ok tt, record (after news s) { transactions = l })) rotated,
      all.0,
    )
