-- ===== src/Context/Finalize/Bound.antt =====
-- The commits at the end of a service, counted over the whole run.
use casual.Base.{
  ◌∙◌, ap, ℕ, ◌+◌, ◌≤◌, ◌≡◌, refl, Bool, false, Bool-cases, inl, inr, Option, none, some, List, [],
  ◌∷◌, map, how_many, select, reject, not, ◌&&◌, if◌then◌else◌, arith,
}
use mathlib.Core.Path.{subst}
use casual.Run.Keeps.{Takes, Takes-then}
use casual.Run.Yields.{Takes-bind_Yields}
use casual.Context.State.{
  State, Transaction, CallReply, same_xid, is_real, is_some, is_active, is_associated, has_xid,
}
use casual.Context.Monad.{Environment, gets, modify, continue, ◌>>=◌}
use casual.Context.Finalize.{
  return_error, checked, check_pending, is_commit, is_foreign, settle_all, finalize,
}
use casual.Context.Finalize.Committed.{
  is_commit_of, may_commit, Within, counted, conclude_each-Takes, check_pending-Yields,
  answer_caller-Keeps,
}

pub how_many-split {ℓ} :
    {A : Type ℓ} (q f r : A → Bool) (xs : List A)
    → how_many q (reject f (select r xs)) ≡ how_many (λ t. r t && (not (f t) && q t)) xs
unfolding how_many select reject
how_many-split q f r [] = refl
how_many-split q f r (x ∷ xs) = ground (arith, how_many-split q f r xs)

pub how_many-map {ℓ} :
    {A B : Type ℓ} (q : B → Bool) (g : A → B) (xs : List A)
    → how_many q (map g xs) ≡ how_many (λ a. q (g a)) xs
unfolding how_many
how_many-map q g [] = refl
how_many-map q g (x ∷ xs) = ap (λ n. (if q (g x) then 1 else 0) + n) (how_many-map q g xs)

pub how_many-same {ℓ} :
    {A : Type ℓ} (p q : A → Bool)
    → ((a : A) → p a ≡ q a)
    → (xs : List A) → how_many p xs ≡ how_many q xs
unfolding how_many
how_many-same p q same [] = refl
how_many-same p q same (x ∷ xs) = rw (same x, how_many-same p q same xs) refl

pub not_real : (x : ℕ) (t : Transaction) → is_real t ≡ false → has_xid (some x) t ≡ false
unfolding is_real has_xid
not_real x t = by_xid t.trid.xid
  where
    by_xid : (o : Option ℕ) → is_some o ≡ false → same_xid o (some x) ≡ false
    by_xid none h = refl
    by_xid (some y) h = absurd (ground arith)

module _ (env : Environment) (x state : ℕ) where
  pointwise :
      (t : Transaction)
      → (is_real (checked t)
          && (not (is_foreign env (checked t)) && counted x env state (checked t)))
        ≡ may_commit env state x t
  unfolding may_commit is_commit checked is_foreign is_real has_xid is_active
  pointwise t = elim (Bool-cases (is_some t.trid.xid)) [
    | inl r ↦ elim (Bool-cases (is_associated t)) [
      | inl a ↦ rw (a, r) (ground arith)
      | inr a ↦ rw (a, r) (ground arith)
    ]
    | inr r ↦
        let other : same_xid t.trid.xid (some x) ≡ false = not_real x t r in
        elim (Bool-cases (is_associated t)) [
          | inl a ↦ rw (a, r, other) (ground arith)
          | inr a ↦ rw (a, r, other) (ground arith)
        ]
  ]

  counted_all :
      (ts : List Transaction)
      → how_many (counted x env state) (reject (is_foreign env) (select is_real (map checked ts)))
        ≡ how_many (may_commit env state x) ts
  counted_all ts =
      how_many-split (counted x env state) (is_foreign env) is_real (map checked ts)
      ∙ how_many-map _ checked ts
      ∙ how_many-same _ (may_commit env state x) pointwise ts

  settle_all-Takes :
      (n : ℕ) (ts : List Transaction) (m : CallReply)
      → Takes
          (Within x n)
          (Within x
            (n + how_many (counted x env state) (reject (is_foreign env) (select is_real ts))))
          (settle_all env state ts m)
  unfolding settle_all
  settle_all-Takes n ts m =
      Takes-then _ _
        (conclude_each-Takes x env state (reject (is_foreign env) (select is_real ts)) n m)
        λ reply. answer_caller-Keeps x _ env state reply _

  finalize-Takes :
      (n : ℕ) (ts : List Transaction) (m : CallReply)
      → Takes
          (Within x n)
          (Within x (n + how_many (may_commit env state x) ts))
          (check_pending ts m >>= λ rest. settle_all env state rest.0 rest.1)
  finalize-Takes n ts m =
      Takes-bind_Yields (λ s held. (held.0, omega (arith, held.1))) _ _
        (check_pending-Yields x n ts m)
        λ rest e.
          subst (λ k. Takes (Within x n) (Within x (n + k)) (settle_all env state rest.0 rest.1))
            (ap (λ l. how_many (counted x env state) (reject (is_foreign env) (select is_real l))) e
              ∙ counted_all ts)
            (settle_all-Takes n rest.0 rest.1)

-- However the end of a service goes, also when an exception ends it: no transaction is left, and
-- what has an xid is committed, by a request to the manager or at a resource, at most once for each
-- transaction with the xid that this process owns, that is active and has no calls that wait; and
-- not at all if the service has failed.
pub finalize-commits_bounded :
    (env : Environment) (m : CallReply) (state x : ℕ) (s : State)
    → ((finalize env m state s).1.transactions ≡ [])
      × (how_many (is_commit_of x) (finalize env m state s).1.events
          ≤ how_many (is_commit_of x) s.events + how_many (may_commit env state x) s.transactions)
unfolding finalize ◌>>=◌ gets modify continue
finalize-commits_bounded env m state x s =
    (finalize-Takes env x state (how_many (is_commit_of x) s.events) s.transactions
        (return_error state m)).at
      (record s { transactions = [] }) (refl, omega arith)
