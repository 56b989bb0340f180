-- ===== src/Context/Resources.antt =====
-- transaction/resource.cpp, and of transaction/context.cpp what calls the resources: `open`,
-- `close`, `resources_start`, `resources_end` and `resource_commit`.
use Prim.Native.Nat.{bit_or}
use casual.Base.{ℕ, not, List, [], ◌∷◌, ◌==◌, ◌&&◌, is_empty, find_if, if◌then◌else◌}
use casual.Base.Int.{ℤ, ◌==ℤ◌}
use casual.Manager.Code.{xaer_dupid}
use casual.Manager.Message.{tm_no_flags}
use casual.Context.Code.{tm_join, xa_to_tx}
use casual.Context.State.{
  Resource, Transaction, open_call, close_call, start_call, end_call, commit_call, rollback_call,
  fixed, is_real, tx_error,
}
use casual.Context.Monad.{Action, Environment, pure, raise, gets, case_of, ◌>>=◌, call_xa}

module _ (env : Environment) where
  -- `Resource::open` and `Resource::close`.
  unfoldable pub open_resource : Resource → Action ℤ
  unfolding call_xa
  open_resource r = call_xa env (open_call r.openinfo r.id tm_no_flags)

  unfoldable pub close_resource : Resource → Action ℤ
  unfolding call_xa
  close_resource r = call_xa env (close_call r.closeinfo r.id tm_no_flags)

  -- `Resource::start`: a transaction that the resource knows already is joined.
  unfoldable pub start_resource : Transaction → ℕ → Resource → Action ℤ
  unfolding call_xa
  start_resource t flags r = do
    result ← call_xa env (start_call r.id t.trid.xid flags)
    if result ==ℤ xaer_dupid
        then call_xa env (start_call r.id t.trid.xid (bit_or flags tm_join))
        else pure result

  -- `Resource::end`, `Resource::commit` and `Resource::rollback`.
  unfoldable pub end_resource : Transaction → ℕ → Resource → Action ℤ
  unfolding call_xa
  end_resource t flags r = call_xa env (end_call r.id t.trid.xid flags)

  unfoldable pub commit_resource : Transaction → ℕ → Resource → Action ℤ
  unfolding call_xa
  commit_resource t flags r = call_xa env (commit_call r.id t.trid.xid flags)

  unfoldable pub rollback_resource : Transaction → ℕ → Resource → Action ℤ
  unfolding call_xa
  rollback_resource t flags r = call_xa env (rollback_call r.id t.trid.xid flags)

-- `range::for_each` and `range::transform`, whose results nobody reads.
unfoldable pub each : (Resource → Action ℤ) → List Resource → Action (Unit {0})
each act [] = pure tt
each act (r ∷ rs) = act r >>= λ _. each act rs

module _ (env : Environment) where
  -- `Context::open` and `Context::close`.
  unfoldable pub open_all : Action (Unit {0})
  unfolding each open_resource
  open_all = do resources ← gets λ s. s.resources; each (open_resource env) resources

  unfoldable pub close_all : Action (Unit {0})
  unfolding each close_resource
  close_all = do resources ← gets λ s. s.resources; each (close_resource env) resources

  -- Only what is fixed is started, all is ended.
  unfoldable pub resources_start : Transaction → ℕ → Action (Unit {0})
  unfolding each start_resource fixed is_real
  resources_start t flags = do
    resources ← gets fixed
    if is_real t && not (is_empty resources)
        then each (start_resource env t flags) resources
        else pure tt

  unfoldable pub resources_end : Transaction → ℕ → Action (Unit {0})
  unfolding each end_resource is_real
  resources_end t flags = do
    resources ← gets λ s. s.resources
    if is_real t && not (is_empty resources)
        then each (end_resource env t flags) resources
        else pure tt

  -- The code of the commit, of the first resource with the id.
  unfoldable pub resource_commit : ℕ → Transaction → ℕ → Action ℤ
  unfolding commit_resource xa_to_tx
  resource_commit rm t flags = do
    found ← gets λ s. find_if (λ r. r.id == rm) s.resources
    case_of found (raise tx_error)
        λ r. do code ← commit_resource env t flags r; pure (xa_to_tx code)
