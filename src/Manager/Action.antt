-- ===== src/Manager/Action.antt =====
-- transaction/manager/action.cpp: sending to clients and to resource proxies.
use casual.Base.{ℕ, Bool, true, false, Option, List, [], ◌∷◌, find_if, if◌then◌else◌}
use casual.Base.Int.{ℤ}
use casual.Manager.Message.{Message}
use casual.Manager.State.{
  sent, refused, lost, Instance, busy, is_idle, set_state, start, PendingReply, get_resource,
  update_instance,
}
use casual.Manager.Monad.{
  Action, Result, ok, throw, invalid_argument, unavailable, pure, ◌>>=◌, ◌>>◌, gets, modify,
  or_throw, case_of, Outcome, delivered, full, gone, Environment,
}

-- What `instance::request` writes to an instance that got a message.
unfoldable pub occupy : ℤ → Instance → Instance
occupy at i =
    let i' = set_state busy i in
    record i' {
      statistics = record {
        resource = i'.statistics.resource;
        roundtrip = start at i'.statistics.roundtrip;
      };
    }

-- What an attempt to push does, by its outcome: an empty id is false, and a queue that is gone
-- is the exception `queue::Unavailable`.
unfoldable pub attempt : ℕ → Message → Outcome → Action Bool
attempt queue message delivered s = (ok true, record s { events = sent queue message ∷ s.events })
attempt queue message full s = (ok false, record s { events = refused queue message ∷ s.events })
attempt queue message gone s =
    (throw unavailable, record s { events = lost queue message ∷ s.events })

-- `catch( const exception::queue::Unavailable&)` of `persistent::Send`: it is logged;
-- every other exception passes.
unfoldable pub counts_as_sent : Result Bool → Result Bool
counts_as_sent (ok done) = ok done
counts_as_sent (throw unavailable) = ok true
counts_as_sent (throw e) = throw e

-- The range that `State::idle_instance` returns: the first idle instance, if there is one.
unfoldable pub idle_instance : ℕ → Action (Option Instance)
idle_instance rm = do
  resource ← or_throw (← gets (get_resource rm)) invalid_argument
  pure (find_if (λ i. is_idle i.state) resource.instances)

module _ (env : Environment) where
  -- `ipc::device().non_blocking_push`.
  unfoldable pub non_blocking_push : ℕ → Message → Action Bool
  non_blocking_push queue message s = attempt queue message (env.push s.events queue) s

  -- `persistent::Send::operator () ( Reply&)`: a reply whose queue is gone counts as sent.
  unfoldable pub send_persistent_reply : PendingReply → Action Bool
  send_persistent_reply r s =
      let (result, s') = non_blocking_push r.target r.message s in (counts_as_sent result, s')

  -- `action::resource::instance::request`, for the first idle instance of the resource.
  unfoldable pub instance_request : ℕ → Message → Instance → Action Bool
  instance_request rm message found = do
    taken ← non_blocking_push found.process.queue message
    at ← gets (λ s. env.now s.events)
    if taken then modify (update_instance rm (λ i. is_idle i.state) (occupy at)) else pure tt
    pure taken

  -- One round of the loop below: is the message on its way to an instance of the resource?
  unfoldable pub request_one : Message → ℕ → Action Bool
  request_one message id = do
    found ← idle_instance id
    case_of found (pure false) (instance_request id message)

  -- `action::resource::request`: the resources that are still to get the message.
  unfoldable pub request : Message → List ℕ → Action (List ℕ)
  request message [] = pure []
  request message (id ∷ ids) = do
    taken ← request_one message id
    left ← request message ids
    pure (if taken then left else id ∷ left)
