-- ===== src/Context/Calls/Gone.antt =====
-- A call in a transaction, to an instance whose queue is gone.
use casual.Base.{
  ◌∙◌, ap, ℕ, ◌≡◌, refl, true, false, Bool-cases, inl, inr, some, List, [], ◌∷◌, ◌++◌, ◌==◌,
  ==_refl, any_of, update_first, is_empty, arith,
}
use casual.Run.{bind_ok}
use casual.Context.State.{
  State, Event, Transaction, CallRequest, looked_up, acknowledged, associate, is_associated_with,
  is_real, current, last_or, unavailable,
}
use casual.Context.Monad.{
  ok, throw, pure, raise, gets, modify, continue, or_throw, ◌>>=◌, require, record_event, recover,
  caught,
}
use casual.Context.Pending.{has_descriptor, active_descriptor}
use casual.Context.Pending.Rising.{Rising}
use casual.Context.Calls.{
  World, Target, has_flag, is_absent, is_busy, quiet, on_failure, post_call, to_broker,
  receive_target, send_ack, give_back, post, settle_target, prepare_call, deliver_call, async,
}
use casual.Context.Calls.Dangling.{prepare_lem}
use casual.Context.Pending.Used.{InUseAt, get_lem, unreserve_lem, freed_inactive}
use casual.Context.Lists.{last_or-append}

module _ (world : World) (target : Target) (up : (es : List Event) → world.broker_up es ≡ true)
    (refuses : (es : List Event) (queue : ℕ) → world.takes es queue ≡ false)
    (settled : is_busy target.state ≡ false) where
  settle_lem : (d : ℕ) (s : State) → InUseAt d s → settle_target world target d s ≡ (ok target, s)
  unfolding settle_target ◌>>=◌ pure continue
  settle_lem d s held = elim (Bool-cases (d == 0)) [
    | inl e ↦ rw (e, settled) refl
    | inr e ↦ rw (e, settled, get_lem d s held) refl
  ]

  -- The state once the acknowledgement is sent and the descriptor is free.
  abbrev given_back : ℕ → State → State
  given_back d s = record s {
    events = acknowledged target.process target.service.name ∷ s.events;
    pending = update_first (has_descriptor d) (λ e. record e { is_active = false }) s.pending;
  }

  give_back_lem :
      (d : ℕ) (s : State) → InUseAt d s → give_back world target d s ≡ (ok tt, given_back d s)
  unfolding give_back quiet send_ack to_broker recover caught ◌>>=◌ gets continue record_event
      modify
  give_back_lem d s held =
      rw
        (
          up s.events,
          unreserve_lem d
              (record s { events = acknowledged target.process target.service.name ∷ s.events })
              held,
        )
        refl

  deliver_lem :
      (message : CallRequest) (s : State)
      → InUseAt message.descriptor s
      → deliver_call world target message s ≡ (throw unavailable, given_back message.descriptor s)
  unfolding deliver_call on_failure quiet post post_call recover caught ◌>>=◌ gets continue raise
      pure
  deliver_lem message s held =
      rw
        (
          settle_lem message.descriptor s held,
          refuses s.events target.process.queue,
          give_back_lem message.descriptor s held,
        )
        refl

any_of-last : (d : ℕ) (ds : List ℕ) → any_of (λ e. e == d) (ds ++ d ∷ []) ≡ true
unfolding any_of
any_of-last d [] = rw (==_refl d) refl
any_of-last d (e ∷ es) = rw (any_of-last d es) (ground arith)

-- A real transaction is on top, the descriptors rise and there is one, the broker takes every
-- message and answers with an instance, and no queue takes a call. Then a call without flags throws,
-- and leaves the transaction on top tied to a descriptor that is not in use.
pub async_gone_dangles :
    (world : World) (service : ℕ) (target : Target) (ts : List Transaction) (t : Transaction)
    (s : State)
    → ((es : List Event) → world.broker_up es ≡ true)
    → ((es : List Event) → world.lookup es ≡ some target)
    → ((es : List Event) (queue : ℕ) → world.takes es queue ≡ false)
    → is_absent target.state ≡ false
    → is_busy target.state ≡ false
    → s.transactions ≡ ts ++ t ∷ []
    → is_real t ≡ true
    → Rising 0 s.pending
    → is_empty s.pending ≡ false
    → (d : ℕ) × (left : State) × (async world service 0 true s ≡ (throw unavailable, left))
      × (is_associated_with d (current left) ≡ true)
      × (active_descriptor d left ≡ false)
unfolding async ◌>>=◌ gets continue require pure to_broker record_event modify receive_target
    or_throw has_flag current is_associated_with associate active_descriptor
async_gone_dangles world service target ts t s up looks refuses known settled stack real rising
      some_left =
    let looked : State = record s { events = looked_up service false ∷ s.events } in
    let (message, left, e, (held, tied)) =
      prepare_lem world (world.now looked.events) target.service ts t looked stack real rising
        some_left in
    let d : ℕ = message.descriptor in
    let on_top : current (given_back world target up refuses settled d left) ≡ associate d t =
      ap (last_or left.outside) tied ∙ last_or-append left.outside (associate d t) ts in
    (
      d,
      given_back world target up refuses settled d left,
      rw (up s.events, looks looked.events, known)
          (bind_ok (prepare_call world (world.now looked.events) 0 target.service)
              (deliver_call world target) looked left message e
            ∙ deliver_lem world target up refuses settled message left held),
      ap (is_associated_with d) on_top ∙ any_of-last d t.descriptors,
      freed_inactive d left.pending,
    )
