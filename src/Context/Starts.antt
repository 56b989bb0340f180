-- ===== src/Context/Starts.antt =====
-- What suspends and resumes a transaction at the resources.
use casual.Base.{
  ℕ, ◌≡◌, ◌≢◌, refl, Bool, true, false, ◌==◌, ==_refl, Option, List, [], ◌∷◌, how_many,
  how_many-append, is_empty, not, ◌&&◌, ◌∙◌, if◌then◌else◌, arith,
}
use Prim.Native.Nat.{bit_or}
use casual.Base.Int.{ℤ, ◌==ℤ◌}
use casual.Manager.Code.{xaer_dupid}
use casual.Context.Code.{tm_join}
use casual.Context.State.{
  Event, Resource, Transaction, start_call, end_call, called, fixed, is_real, same_xid,
}
use casual.Context.Monad.{Environment, Action, pure, call_xa}
use casual.Context.Resources.{start_resource, end_resource, each, resources_start, resources_end}
use casual.Context.Adds.{Adds, Adds-bind, Adds-pure, Adds-gets, Adds-if, Count, call_xa-Count}
use casual.Context.Lists.{same_xid_refl}

-- The call that ends the resource's association with the xid, with the flags, and one that starts
-- it.
unfoldable pub is_end : ℕ → Option ℕ → ℕ → Event → Bool
unfolding same_xid
is_end rm xid flags (called (end_call id x f) v) = id == rm && same_xid x xid && (f == flags)
is_end rm xid flags e = false

unfoldable pub is_start : ℕ → Option ℕ → ℕ → Event → Bool
unfolding same_xid
is_start rm xid flags (called (start_call id x f) v) = id == rm && same_xid x xid && (f == flags)
is_start rm xid flags e = false

-- The resources with an id: as often as it is configured.
abbrev pub has_rm : ℕ → Resource → Bool
has_rm rm r = r.id == rm

module _ (p : Event → Bool) (rm : ℕ) where
  -- Of an action on each resource, what is counted is what it does to those with the id.
  each-Count :
      (act : Resource → Action ℤ)
      → ((r : Resource) → Adds (Count p (λ _. if has_rm rm r then 1 else 0)) (act r))
      → (rs : List Resource) → Adds (Count p (λ _. how_many (has_rm rm) rs)) (each act rs)
  unfolding each how_many
  each-Count act one [] = Adds-pure tt (λ s. refl)
  each-Count act one (r ∷ rs) =
      Adds-bind (act r) (λ _. each act rs) (one r) (λ a. each-Count act one rs)
        (λ s xs ys e f. how_many-append p ys xs ∙ omega (arith, e, f))

  each_if-Count :
      (act : Resource → Action ℤ) (rs : List Resource) (real : Bool)
      → ((r : Resource) → Adds (Count p (λ _. if has_rm rm r then 1 else 0)) (act r))
      → real ≡ true
      → Adds
          (Count p (λ _. how_many (has_rm rm) rs))
          (if real && not (is_empty rs) then each act rs else pure tt)
  unfolding how_many
  each_if-Count act [] real one e = rw e (Adds-pure tt (λ s. refl))
  each_if-Count act (r ∷ rs) real one e = rw e (each-Count act one (r ∷ rs))

module _ (env : Environment) (t : Transaction) (flags rm : ℕ) where
  end_resource-Count :
      (r : Resource)
      → Adds
          (Count (is_end rm t.trid.xid flags) (λ _. if has_rm rm r then 1 else 0))
          (end_resource env t flags r)
  unfolding end_resource is_end
  end_resource-Count r =
      call_xa-Count env (is_end rm t.trid.xid flags) (end_call r.id t.trid.xid flags) _
        (λ v. rw (same_xid_refl t.trid.xid, ==_refl flags) (ground arith))

  -- A real transaction is ended once at each resource.
  pub resources_end-told :
      is_real t ≡ true
      → Adds
          (Count (is_end rm t.trid.xid flags) (λ s. how_many (has_rm rm) s.resources))
          (resources_end env t flags)
  unfolding resources_end
  resources_end-told real =
      Adds-gets (λ s. s.resources) _
        λ s.
          each_if-Count (is_end rm t.trid.xid flags) rm (end_resource env t flags) s.resources
            (is_real t) end_resource-Count real

  start_resource-Count :
      bit_or flags tm_join ≢ flags
      → (r : Resource)
      → Adds
          (Count (is_start rm t.trid.xid flags) (λ _. if has_rm rm r then 1 else 0))
          (start_resource env t flags r)
  unfolding start_resource is_start how_many
  start_resource-Count other r =
      Adds-bind {Q = Count (is_start rm t.trid.xid flags) (λ _. 0)}
        (call_xa env (start_call r.id t.trid.xid flags)) _ first
        (λ v. Adds-if (v ==ℤ xaer_dupid) _ (pure v) again (Adds-pure v (λ s. refl)))
        (λ s xs ys e f. how_many-append (is_start rm t.trid.xid flags) ys xs ∙ omega (arith, e, f))
    where
      first :
          Adds
            (Count (is_start rm t.trid.xid flags) (λ _. if has_rm rm r then 1 else 0))
            (call_xa env (start_call r.id t.trid.xid flags))
      first =
          call_xa-Count env (is_start rm t.trid.xid flags) (start_call r.id t.trid.xid flags) _
            (λ v. rw (same_xid_refl t.trid.xid, ==_refl flags) (ground arith))

      again :
          Adds
            (Count (is_start rm t.trid.xid flags) (λ _. 0))
            (call_xa env (start_call r.id t.trid.xid (bit_or flags tm_join)))
      again =
          call_xa-Count env (is_start rm t.trid.xid flags)
            (start_call r.id t.trid.xid (bit_or flags tm_join)) 0 (λ v. ground (arith, other))

  -- A real transaction is started once at each fixed resource with exactly these flags; where it is
  -- joined, the flags are others.
  pub resources_start-told :
      bit_or flags tm_join ≢ flags
      → is_real t ≡ true
      → Adds
          (Count (is_start rm t.trid.xid flags) (λ s. how_many (has_rm rm) (fixed s)))
          (resources_start env t flags)
  unfolding resources_start
  resources_start-told other real = Adds-gets fixed _ λ s.
      each_if-Count (is_start rm t.trid.xid flags) rm (start_resource env t flags) (fixed s)
        (is_real t) (start_resource-Count other) real
