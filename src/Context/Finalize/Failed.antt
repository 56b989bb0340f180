-- ===== src/Context/Finalize/Failed.antt =====
-- The end of a service that has failed, followed to its return.
use casual.Base.{
  ◌∙◌, ap, sym, ℕ, ◌+◌, ◌≡◌, refl, Bool, true, false, Bool-cases, inl, inr, some, List, [], ◌∷◌,
  ◌++◌, append_assoc, map, how_many, how_many-append, select, reject, not, ◌&&◌, ◌==◌, leb, length,
  find_if, arith,
}
use casual.Base.Int.{ℤ}
use casual.Run.{bind_ok}
use casual.Context.Code.{tp_success}
use casual.Context.State.{
  State, Event, Transaction, CallReply, is_real, is_some, is_associated, has_xid, moved,
}
use casual.Context.Monad.{
  Environment, ok, pure, gets, modify, continue, case_of, ◌>>=◌, ◌>>◌, require,
}
use casual.Context.Adds.{after}
use casual.Context.Finalize.{
  return_error, checked, check_pending, conclude_each, hand_back, is_foreign, answer_caller,
  settle_all, finalize,
}
use casual.Context.Finalize.Bound.{how_many-split, how_many-map, how_many-same, not_real}
use casual.Context.Finalize.Cancelled.{InUse, descriptors_of, check_pending_lem}
use casual.Context.Finalize.Answered.{is_rollback_of, Own, conclude_each-Adds, found-Adds}

-- What has the xid and belongs to this process.
unfoldable pub is_owned : Environment → ℕ → Transaction → Bool
unfolding has_xid is_foreign
is_owned env x t = has_xid (some x) t && not (is_foreign env t)

-- A transaction that another process has begun.
unfoldable pub is_joined : Environment → Transaction → Bool
unfolding is_real is_foreign
is_joined env t = is_real t && is_foreign env t

length-split {ℓ} :
    {A : Type ℓ} (f r : A → Bool) (xs : List A)
    → length (select f (select r xs)) ≡ how_many (λ t. r t && f t) xs
unfolding select how_many
length-split f r [] = refl
length-split f r (x ∷ xs) = ground (arith, length-split f r xs)

module _ (env : Environment) (x : ℕ) where
  filtered-Own : (ts : List Transaction) → Own env (reject (is_foreign env) (select is_real ts))
  unfolding reject select
  filtered-Own [] = tt
  filtered-Own (t ∷ ts) = elim (Bool-cases (is_real t)) [
    | inl r ↦ elim (Bool-cases (is_foreign env t)) [
      | inl f ↦ rw (r, f) (filtered-Own ts)
      | inr f ↦ rw (r, f) ((r, f), filtered-Own ts)
    ]
    | inr r ↦ rw r (filtered-Own ts)
  ]

  owned_pointwise :
      (t : Transaction)
      → (is_real (checked t) && (not (is_foreign env (checked t)) && has_xid (some x) (checked t)))
        ≡ is_owned env x t
  unfolding is_owned checked is_foreign is_real has_xid
  owned_pointwise t = elim (Bool-cases (is_some t.trid.xid)) [
    | inl r ↦ elim (Bool-cases (is_associated t)) [
      | inl a ↦ rw (a, r) (ground arith)
      | inr a ↦ rw (a, r) (ground arith)
    ]
    | inr r ↦
        let other = not_real x t r in
        elim (Bool-cases (is_associated t)) [
          | inl a ↦ rw (a, r, other) (ground arith)
          | inr a ↦ rw (a, r, other) (ground arith)
        ]
  ]

  joined_pointwise :
      (t : Transaction) → (is_real (checked t) && is_foreign env (checked t)) ≡ is_joined env t
  unfolding is_joined checked is_foreign is_real
  joined_pointwise t = elim (Bool-cases (is_associated t && is_some t.trid.xid)) [
    | inl a ↦ rw a refl
    | inr a ↦ rw a refl
  ]

  owned_all :
      (ts : List Transaction)
      → how_many (has_xid (some x)) (reject (is_foreign env) (select is_real (map checked ts)))
        ≡ how_many (is_owned env x) ts
  owned_all ts =
      how_many-split (has_xid (some x)) (is_foreign env) is_real (map checked ts)
      ∙ how_many-map _ checked ts
      ∙ how_many-same _ (is_owned env x) owned_pointwise ts

  joined_all :
      (ts : List Transaction)
      → length (select (is_foreign env) (select is_real (map checked ts)))
        ≡ how_many (is_joined env) ts
  joined_all ts =
      length-split (is_foreign env) is_real (map checked ts)
      ∙ how_many-map _ checked ts
      ∙ how_many-same _ (is_joined env) joined_pointwise ts

module _ (env : Environment) (x state : ℕ) (up : (es : List Event) → env.is_up es ≡ true)
    (replies : (es : List Event) → (v : ℤ) × (env.rollback_reply es ≡ some v))
    (failed : (state == tp_success) ≡ false) where
  -- The reply to the caller, from a state without transactions.
  answer_lem :
      (m : CallReply) (ts : List Transaction) (s : State)
      → leb (length ts) 1 ≡ true
      → (reply : CallReply) × (news : List Event) × (answer_caller env state m ts s
          ≡ (ok reply, record (after news s) { caller = moved s.caller }))
        × (how_many (is_rollback_of x) news ≡ 0)
        × (reply.trid ≡ s.caller)
  unfolding answer_caller ◌>>=◌ gets continue require pure modify
  answer_lem m ts s single =
      let (reply, news, e, none_sent) =
        (found-Adds env x up replies state m (find_if (has_xid s.caller.xid) ts)).at s in
      let act = case_of (find_if (has_xid s.caller.xid) ts) (pure m) (hand_back env state m) in
      (
        record reply { trid = s.caller },
        news,
        rw single (
            bind_ok act
              (λ reply. do
                modify λ s. record s { caller = moved s.caller }
                pure (record reply { trid = s.caller }))
              s (after news s) reply e),
        none_sent,
        refl,
      )

  settle_lem :
      (m : CallReply) (ts : List Transaction) (s : State)
      → leb (how_many (is_joined env) ts) 1 ≡ true
      → (reply : CallReply) × (news : List Event) × (settle_all env state (map checked ts) m s
          ≡ (ok reply, record (after news s) { caller = moved s.caller }))
        × (how_many (is_rollback_of x) news ≡ how_many (is_owned env x) ts)
        × (reply.trid ≡ s.caller)
  unfolding settle_all
  settle_lem m ts s single =
      let own = reject (is_foreign env) (select is_real (map checked ts)) in
      let joined = select (is_foreign env) (select is_real (map checked ts)) in
      let (reply, xs, e, sent) =
        (conclude_each-Adds env x up replies state own m failed
            (filtered-Own env x (map checked ts))).at
          s in
      let (answer, ys, f, none_sent, trid) =
        answer_lem reply joined (after xs s) (ap (λ n. leb n 1) (joined_all env x ts) ∙ single) in
      (
        answer,
        ys ++ xs,
        bind_ok (conclude_each env state own m) (λ reply. answer_caller env state reply joined) s
              (after xs s) reply e
            ∙ f
            ∙ ap (λ l. (ok answer, record s { events = l; caller = moved s.caller }))
                (sym (append_assoc ys xs s.events)),
        how_many-append (is_rollback_of x) ys xs
            ∙ omega (arith, sent, none_sent, owned_all env x ts),
        trid,
      )

-- The manager takes every message and answers every rollback, the service has not succeeded, at
-- most one of its transactions was begun by another process, and the descriptors of the calls that
-- wait are in use and all different. Then the end of the service returns, no transaction is left,
-- for each transaction with an xid that this process owns one request to roll it back was sent and
-- no other for the xid, and the reply carries the id that the service was called with.
pub finalize-rolls_back :
    (env : Environment) (m : CallReply) (state x : ℕ) (s : State)
    → ((es : List Event) → env.is_up es ≡ true)
    → ((es : List Event) → (v : ℤ) × (env.rollback_reply es ≡ some v))
    → (state == tp_success) ≡ false
    → leb (how_many (is_joined env) s.transactions) 1 ≡ true
    → InUse (descriptors_of s.transactions) s.pending
    → (reply : CallReply) × (left : State) × (finalize env m state s ≡ (ok reply, left))
      × (left.transactions ≡ [])
      × (how_many (is_rollback_of x) left.events
          ≡ how_many (is_rollback_of x) s.events + how_many (is_owned env x) s.transactions)
      × (reply.trid ≡ s.caller)
unfolding finalize ◌>>=◌ gets modify continue is_rollback_of
finalize-rolls_back env m state x s up replies failed single waits =
    let (pending, xs, noted, left, e, frees) =
      check_pending_lem (is_rollback_of x) (λ c. refl) s.transactions (return_error state m)
        (record s { transactions = [] }) refl waits in
    let (reply, ys, f, sent, trid) =
      settle_lem env x state up replies failed noted s.transactions
        (record s { transactions = []; pending = pending; events = xs ++ s.events }) single in
    (
      reply,
      _,
      bind_ok (check_pending s.transactions (return_error state m))
            (λ rest. settle_all env state rest.0 rest.1) (record s { transactions = [] })
            (record s { transactions = []; pending = pending; events = xs ++ s.events })
            (map checked s.transactions, noted)
            (e ∙ ap (λ l. (ok (map checked s.transactions, noted), l)) frees.0)
          ∙ f,
      refl,
      how_many-append (is_rollback_of x) ys (xs ++ s.events)
          ∙ omega (arith, sent, frees.1, how_many-append (is_rollback_of x) xs s.events),
      trid,
    )
