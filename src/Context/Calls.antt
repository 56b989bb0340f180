-- ===== src/Context/Calls.antt =====
-- call/context.cpp and call/lookup.cpp: calls of services, over the descriptors and the transactions.
-- Buffers are left out: whether the pool knows the one that is sent, and whether the type of a reply
-- is the one that is asked for, are arguments.
pub mod Dangling
pub mod Gone
use Prim.Native.Nat.{bit_and}
use casual.Base.{
  ℕ, ◌-◌, Bool, true, false, not, Option, none, some, List, ◌∷◌, ◌==◌, ◌&&◌, find_if, update_first,
  if◌then◌else◌,
}
use casual.Base.Int.{ℤ, pos, ◌+ℤ◌, ◌-ℤ◌, ◌==ℤ◌, ltb_ℤ}
use casual.Ipc.{Process}
use casual.Broker.Message.{Information, Availability, absent, busy, idle}
use casual.Context.State.{
  State, Event, Exception, Descriptor, Transaction, TransactionId, Timeout, CallRequest, CallReply,
  looked_up, posted, acknowledged, null_id, is_real, associate, current, update_current, argument,
  no_entry, no_message, output_type, unavailable,
}
use casual.Context.Monad.{
  Action, pure, raise, gets, modify, or_throw, case_of, ◌>>=◌, ◌>>◌, recover, require, record_event,
}
use casual.Context.Pending.{has_descriptor, reserve, unreserve, get_descriptor}
use casual.Context.Stack.{update}

abbrev pub tp_no_block : ℕ
tp_no_block = 1

abbrev pub tp_no_reply : ℕ
tp_no_reply = 4

abbrev pub tp_no_tran : ℕ
tp_no_tran = 8

abbrev pub tp_no_time : ℕ
tp_no_time = 0x20

abbrev pub tp_get_any : ℕ
tp_get_any = 0x80

-- `flag< flag>( flags)`.
unfoldable pub has_flag : ℕ → ℕ → Bool
has_flag flag flags = bit_and flags flag == flag

-- `service::lookup::Reply`.
pub record Target : Type 0 where
  pub service : Information
  pub process : Process
  pub state : Availability

-- Of all that has happened: whether the broker takes a message, the next reply of it to a lookup,
-- whether a queue takes a call, a new correlation, the clock, and the next reply to a call, with a
-- correlation or any, or nothing if there is none or the wait is given up.
pub record World : Type 0 where
  pub broker_up : List Event → Bool
  pub lookup : List Event → Option Target
  pub takes : List Event → ℕ → Bool
  pub correlate : List Event → ℕ
  pub now : List Event → ℤ
  pub receive : List Event → Option ℕ → Option CallReply
  pub self : Process

-- `Timeout::deadline`; `time_point::max` is none.
unfoldable pub deadline : Timeout → Option ℤ
deadline t = if t.timeout ==ℤ pos 0 then none else some (t.start +ℤ t.timeout)

-- The transaction's deadline, less the start, if it is before that of the descriptor.
unfoldable pub shortened : ℤ → Option ℤ → Option ℤ → Option ℤ
shortened start none d = none
shortened start (some a) none = some (a -ℤ start)
shortened start (some a) (some d) = if ltb_ℤ a d then some (a -ℤ start) else none

unfoldable pub is_absent : Availability → Bool
is_absent absent = true
is_absent busy = false
is_absent idle = false

unfoldable pub is_busy : Availability → Bool
is_busy absent = false
is_busy busy = true
is_busy idle = false

-- `descriptor.timeout.set`.
unfoldable pub set_timeout_of : ℕ → ℤ → ℤ → Action (Unit {0})
unfolding has_descriptor
set_timeout_of d start timeout = modify λ s. record s {
  pending =
      update_first (has_descriptor d)
        (λ e. record e { timeout = record { start = start; timeout = timeout } }) s.pending;
}

-- The call belongs to the transaction; the descriptor gets the earlier deadline.
unfoldable pub tie : ℕ → ℤ → Transaction → Action TransactionId
unfolding associate update_current get_descriptor deadline shortened set_timeout_of
tie d start t = do
  modify (update_current (associate d))
  e ← get_descriptor d
  case_of (shortened start (deadline t.timeout) (deadline e.timeout)) (pure tt)
      (set_timeout_of d start)
  pure t.trid

-- The destructor of `scope::Execute` lets no exception out.
unfoldable pub quiet : Action (Unit {0}) → Action (Unit {0})
quiet act = recover (λ _. pure tt) act

-- What is done on the way out, when `release` has not been called.
unfoldable pub on_failure : {A : Type 0} → Action (Unit {0}) → Action A → Action A
unfolding quiet
on_failure clean act = recover (λ e. quiet clean >>= λ _. raise e) act

unfoldable pub post_call : ℕ → CallRequest → Bool → Action (Unit {0})
unfolding record_event
post_call queue message true = record_event (posted queue message)
post_call queue message false = raise unavailable

unfoldable pub to_broker : Event → Bool → Action (Unit {0})
unfolding record_event
to_broker e true = record_event e
to_broker e false = raise unavailable

module _ (world : World) where
  -- `local::prepare::message`, once the pool knows the buffer.
  unfoldable pub prepare_call : ℤ → ℕ → Information → Action CallRequest
  unfolding has_flag reserve set_timeout_of current is_real tie
  prepare_call start flags service = do
    correlation ← gets λ s. world.correlate s.events
    let message : ℕ → TransactionId → CallRequest = λ d trid. record {
      correlation = correlation;
      descriptor = d;
      process = world.self;
      service = service;
      trid = trid;
      flags = flags;
    }
    if has_flag tp_no_reply flags then pure (message 0 null_id) else (do
      d ← reserve correlation
      if has_flag tp_no_time flags then pure tt else set_timeout_of d start (pos service.timeout)
      t ← gets current
      trid ← if not (has_flag tp_no_tran flags) && is_real t then tie d start t else pure null_id
      pure (message d trid))

  -- `Lookup::operator ()`.
  unfoldable pub receive_target : Action Target
  receive_target = do found ← gets λ s. world.lookup s.events; or_throw found unavailable

  -- `send_ack`.
  unfoldable pub send_ack : Target → Action (Unit {0})
  unfolding to_broker
  send_ack target = do
    up ← gets λ s. world.broker_up s.events
    to_broker (acknowledged target.process target.service.name) up

  -- The two guards of `async`, of which the last runs first.
  unfoldable pub give_back : Target → ℕ → Action (Unit {0})
  unfolding quiet send_ack unreserve
  give_back target d = quiet (send_ack target) >>= λ _. quiet (unreserve d)

  unfoldable pub post : Target → CallRequest → Action ℕ
  unfolding post_call
  post target message = do
    taken ← gets λ s. world.takes s.events target.process.queue
    post_call target.process.queue (record message { service = target.service }) taken
    pure message.descriptor

  -- The deadline is looked up, and a second reply of the broker if no instance is idle yet.
  unfoldable pub settle_target : Target → ℕ → Action Target
  unfolding get_descriptor receive_target is_busy
  settle_target target d = do
    if d == 0 then pure tt else (get_descriptor d >>= λ _. pure tt)
    if is_busy target.state then receive_target else pure target

  unfoldable pub deliver_call : Target → CallRequest → Action ℕ
  unfolding on_failure give_back settle_target post
  deliver_call target message =
      on_failure (give_back target message.descriptor) (settle_target target message.descriptor)
      >>= λ settled. on_failure (give_back settled message.descriptor) (post settled message)

  -- `Context::async`.
  unfoldable pub async : ℕ → ℕ → Bool → Action ℕ
  unfolding has_flag current is_real to_broker receive_target is_absent prepare_call deliver_call
  async service flags holds = do
    t ← gets current
    let no_reply = has_flag tp_no_reply flags
    require (not (no_reply && (not (has_flag tp_no_tran flags) && is_real t))) argument
    up ← gets λ s. world.broker_up s.events
    to_broker (looked_up service no_reply) up
    start ← gets λ s. world.now s.events
    target ← receive_target
    require (not (is_absent target.state)) no_entry
    require holds argument
    message ← prepare_call start flags target.service
    deliver_call target message

  -- `Context::receive`.
  unfoldable pub receive_reply : ℕ → ℕ → Action CallReply
  unfolding has_flag get_descriptor
  receive_reply d flags = do
    wanted ← if d == 0 then pure none else (get_descriptor d >>= λ e. pure (some e.correlation))
    found ← gets λ s. world.receive s.events wanted
    or_throw found (if has_flag tp_no_block flags then no_message else unavailable)

  -- `Context::reply`: the descriptor of the reply, whose descriptor is free at the end in any case.
  unfoldable pub reply : ℕ → ℕ → Bool → Action ℕ
  unfolding has_flag get_descriptor receive_reply on_failure quiet unreserve update
  reply d flags fits = do
    let wanted = if has_flag tp_get_any flags then 0 else d
    if wanted == 0 then pure tt else (get_descriptor wanted >>= λ _. pure tt)
    r ← receive_reply wanted flags
    on_failure (unreserve r.descriptor) (update r >>= λ _. require fits output_type)
    quiet (unreserve r.descriptor)
    pure r.descriptor

  -- `Context::sync`: no-block is taken out of the flags.
  unfoldable pub sync : ℕ → ℕ → Bool → Bool → Action ℕ
  unfolding async reply
  sync service flags holds fits = do
    let supported = flags - bit_and flags tp_no_block
    d ← async service supported holds
    reply d supported fits
