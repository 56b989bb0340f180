-- ===== src/Manager/Handle/Instances.antt =====
-- `local::instance` of transaction/manager/handle.cpp: a resource proxy instance reports back.
use casual.Base.{ℕ, List, [], ◌∷◌, is_empty, find_if, erase_first, if◌then◌else◌, ◌==◌}
use casual.Base.Int.{ℤ}
use casual.Manager.State.{
  State, Instance, idle, busy, set_state, time, end, PendingRequest, waits_for, is_process,
  get_resource, update_instance,
}
use casual.Manager.Monad.{
  Action, invalid_argument, pure, ◌>>=◌, ◌>>◌, gets, modify, or_throw, case_of, Environment,
}
use casual.Manager.Action.{non_blocking_push}

-- `State::get_instance`.
unfoldable pub get_instance : ℕ → ℕ → Action Instance
get_instance rm pid = do
  resource ← or_throw (← gets (get_resource rm)) invalid_argument
  or_throw (find_if (is_process pid) resource.instances) invalid_argument

-- The resource is taken off the pending request, and a request that waits for none is erased.
unfoldable pub settle : ℕ → List PendingRequest → List PendingRequest
settle id [] = []
settle id (r ∷ rs) =
    if waits_for id r
    then (let left = erase_first (λ i. i == id) r.resources in
        if is_empty left then rs else record r { resources = left } ∷ rs)
    else r ∷ settle id rs

-- `instance::statistics`.
unfoldable pub reply_statistics : ℤ → ℤ → ℤ → Instance → Instance
reply_statistics from to now i = record i {
  statistics = record {
    resource = time from to i.statistics.resource;
    roundtrip = end now i.statistics.roundtrip;
  };
}

-- What is written when an instance has taken a pending request.
unfoldable pub accept : ℕ → ℕ → ℕ → State → State
accept rm pid id s =
    update_instance rm (is_process pid) (set_state busy)
      (record s { pending_requests = settle id s.pending_requests })

module _ (env : Environment) where
  -- The first pending request that waits for the resource of an idle instance is sent to it.
  unfoldable pub oblige : ℕ → ℕ → Instance → PendingRequest → Action (Unit {0})
  oblige rm pid i r = do
    taken ← non_blocking_push env i.process.queue r.message
    if taken then modify (accept rm pid i.id) else pure tt

  -- `instance::done`, for the instance that `get_instance` returned.
  unfoldable pub done : ℕ → ℕ → Instance → Action (Unit {0})
  done rm pid i = do
    request ← gets (λ s. find_if (waits_for i.id) s.pending_requests)
    modify (update_instance rm (is_process pid) (set_state idle))
    case_of request (pure tt) (oblige rm pid i)
