-- ===== src/Manager/Handle/Send.antt =====
-- `local::transform` and `local::send` of transaction/manager/handle.cpp, and the write through a
-- reference to a transaction of the state.
use casual.Base.{
  ℕ, Bool, not, List, [], ◌∷◌, ◌++◌, map, is_empty, update_first, select, if◌then◌else◌,
}
use casual.Manager.Model.{Process, Stage, Resource, Transaction, set_stage, has_trid}
use casual.Manager.Message.{Message, reply, Reply, RequestKind}
use casual.Manager.Monad.{Action, pure, ◌>>=◌, ◌>>◌, modify, Environment}
use casual.Manager.Action.{send_persistent_reply, request}

-- A reference to a transaction is written through: the transaction of that id is replaced.
unfoldable pub put : Transaction → Action (Unit {0})
put t =
    modify λ s. record s { transactions = update_first (has_trid t.trid) (λ _. t) s.transactions }

-- `send::persistent::reply`: to be sent after the log is written.
unfoldable pub pend_reply : Reply → Process → Action (Unit {0})
pend_reply r target = modify λ s. record s {
  persistent_replies =
      s.persistent_replies ++ record { target = target.queue; message = reply r } ∷ [];
}

-- `send::resource::persistent::request` and the end of `send::resource::request`.
unfoldable pub pend_request : Message → List ℕ → Action (Unit {0})
pend_request message ids = modify λ s. record s {
  pending_requests = s.pending_requests ++ record { resources = ids; message = message } ∷ [];
}

-- The range that a request goes to, at its new stage, and then the others. `range::partition`
-- promises no order within the two parts; the model keeps the one there was.
unfoldable pub move_stage : (Resource → Bool) → Stage → List Resource → List Resource
move_stage filter new rs = map (set_stage new) (select filter rs) ++ select (λ r. not (filter r)) rs

unfoldable pub chosen : (Resource → Bool) → List Resource → List ℕ
chosen filter rs = map (λ r. r.id) (select filter rs)

module _ (env : Environment) where
  -- `send::reply`: at once, or with the persistent replies if the queue is full.
  unfoldable pub send_reply : Reply → Process → Action (Unit {0})
  send_reply r target = do
    done ← send_persistent_reply env (record { target = target.queue; message = reply r })
    if done then pure tt else pend_reply r target

  -- The message of `send::resource::request`.
  abbrev pub resource_message : RequestKind → Transaction → ℕ → Message
  resource_message kind t flags =
      Message.request (record { kind = kind; process = env.self; trid = t.trid; flags = flags })

  -- `send::resource::request`: the resources that pass go to the new stage; the message goes to an
  -- idle instance of each, and waits for those that have none.
  unfoldable pub resource_request :
      RequestKind → Transaction → (Resource → Bool) → Stage → ℕ → Action (Unit {0})
  resource_request kind t filter new flags = do
    put (record t { resources = move_stage filter new t.resources })
    left ← request env (resource_message kind t flags) (chosen filter t.resources)
    if is_empty left then pure tt else pend_request (resource_message kind t flags) left
