-- ===== src/Context/Calls/Dangling.antt =====
-- A call in a transaction that cannot be sent.
use casual.Base.{
  ◌∙◌, ap, sym, ℕ, ◌≡◌, refl, Bool, true, false, Option, none, some, List, [], ◌∷◌, ◌++◌, ◌==◌,
  ◌||◌, is_empty, not, ◌&&◌, if◌then◌else◌, arith,
}
use casual.Base.Int.{ℤ, pos}
use mathlib.Core.Path.{subst}
use casual.Run
use casual.Run.{bind_ok}
use casual.Run.Keeps.{Keeps, Keeps-bind, Keeps-gets, Keeps-pure, Keeps-raise, Keeps-case_of}
use casual.Broker.Message.{Information}
use casual.Context.State.{
  State, Exception, Transaction, TransactionId, CallRequest, associate, is_real, null_id, current,
  last_or, update_current, write_current,
}
use casual.Context.Monad.{Action, ok, throw, pure, gets, modify, continue, case_of, ◌>>=◌}
use casual.Context.Pending.{has_descriptor, active_descriptor, reserve, get_descriptor}
use casual.Context.Pending.Rising.{Rising, reserve-Rising}
use casual.Context.Calls.{World, has_flag, set_timeout_of, tie, shortened, deadline, prepare_call}
use casual.Context.Controls.{update_last-append}
use casual.Context.Lists.{last_or-append}
use casual.Context.Pending.Used.{InUseAt, in_use, find_if-update_first, get_lem}

set_timeout-InUseAt :
    (d : ℕ) (start timeout : ℤ) (s : State)
    → InUseAt d s
    → InUseAt d (set_timeout_of d start timeout s).1
unfolding set_timeout_of modify has_descriptor
set_timeout-InUseAt d start timeout s (e, found, active) =
    (_, find_if-update_first d _ s.pending e (λ c. refl) found, active)

write_lem :
    (f : Transaction → Transaction) (ts : List Transaction) (t : Transaction) (s : State)
    → write_current f (ts ++ t ∷ []) s ≡ record s { transactions = ts ++ f t ∷ [] }
unfolding write_current
write_lem f [] t s = ap (λ l. record s { transactions = l }) (update_last-append f t [])
write_lem f (u ∷ us) t s = ap (λ l. record s { transactions = l }) (update_last-append f t (u ∷ us))

-- What a call that is tied to the transaction leaves.
abbrev pub Tied : ℕ → List Transaction → Transaction → State → Type 0
Tied d ts t s = InUseAt d s × (s.transactions ≡ ts ++ associate d t ∷ [])

shorten_lem :
    (d : ℕ) (start : ℤ) (o : Option ℤ) (s : State)
    → InUseAt d s
    → (left : State) × (case_of o (pure tt) (set_timeout_of d start) s ≡ (ok tt, left))
      × InUseAt d left
      × (left.transactions ≡ s.transactions)
unfolding case_of pure set_timeout_of modify
shorten_lem d start none s held = (s, refl, held, refl)
shorten_lem d start (some timeout) s held =
    (_, refl, set_timeout-InUseAt d start timeout s held, refl)

tie_lem :
    (d : ℕ) (start : ℤ) (ts : List Transaction) (t : Transaction) (s : State)
    → s.transactions ≡ ts ++ t ∷ []
    → InUseAt d s
    → (left : State) × (tie d start t s ≡ (ok t.trid, left)) × Tied d ts t left
unfolding tie ◌>>=◌ gets continue modify pure update_current
tie_lem d start ts t s stack held =
    let tied : State = record s { transactions = ts ++ associate d t ∷ [] } in
    let o : Option ℤ = shortened start (deadline t.timeout) (deadline held.0.timeout) in
    let (left, e, held', same) = shorten_lem d start o tied held in
    let written : update_current (associate d) s ≡ tied =
      ap (λ l. write_current (associate d) l s) stack ∙ write_lem (associate d) ts t s in
    (
      left,
      ap
            (λ u.
              (get_descriptor d >>= λ e.
              case_of (shortened start (deadline t.timeout) (deadline e.timeout)) (pure tt)
                (set_timeout_of d start)
              >>= λ _. pure t.trid)
                u)
            written
          ∙ bind_ok (get_descriptor d) _ tied tied held.0 (get_lem d tied held)
          ∙ bind_ok (case_of o (pure tt) (set_timeout_of d start)) (λ _. pure t.trid) tied left tt
              e,
      (held', same),
    )

reserve-Keeps :
    (correlation : ℕ) (ts : List Transaction)
    → Keeps (λ s. s.transactions ≡ ts) (reserve correlation)
unfolding reserve modify
reserve-Keeps correlation ts = Keeps-bind _ _ (Keeps-gets _) λ found.
    Keeps-bind _ _ (Keeps-gets _) λ last.
      Keeps-case_of found _ _
        (Keeps-case_of last _ _ (Keeps-raise _)
          λ l. Keeps-bind _ _ (record { at = λ s held. held }) λ _. Keeps-pure _)
        λ e. Keeps-bind _ _ (record { at = λ s held. held }) λ _. Keeps-pure _

-- The descriptor that is reserved is in use.
reserve_lem :
    (correlation : ℕ) (s : State)
    → Rising 0 s.pending
    → is_empty s.pending ≡ false
    → (d : ℕ) × (left : State) × (reserve correlation s ≡ (ok d, left))
      × InUseAt d left
      × (left.transactions ≡ s.transactions)
reserve_lem correlation s rising some_left =
    let (d, left, e, free, rising', used) = reserve-Rising correlation 0 s rising some_left in
    let (d', left', e', free, rising', used) = reserve-Rising correlation d s rising some_left in
    let same : d ≡ d' = ap (λ r. value r.0) (sym e ∙ e') in
    let equal : (d == d') ≡ true = ground (arith, same) in
    let active : active_descriptor d left' ≡ true =
      used ∙ ap (λ b. b || active_descriptor d s) equal in
    (
      d',
      left',
      e',
      subst (λ d. InUseAt d left') same (in_use d left' active),
      ap (λ r. r.1.transactions) (sym e') ∙ (reserve-Keeps correlation s.transactions).at s refl,
    )
  where
    value : Run.Result Exception ℕ → ℕ
    value (ok n) = n
    value (throw e) = 0

-- The preparation of a call without flags, up to its end.
pub prepare_lem :
    (world : World) (start : ℤ) (service : Information) (ts : List Transaction) (t : Transaction)
    (s : State)
    → s.transactions ≡ ts ++ t ∷ []
    → is_real t ≡ true
    → Rising 0 s.pending
    → is_empty s.pending ≡ false
    → (message : CallRequest) × (left : State) × (prepare_call world start 0 service s
        ≡ (ok message, left))
      × Tied message.descriptor ts t left
unfolding prepare_call ◌>>=◌ gets continue has_flag set_timeout_of modify current pure
prepare_lem world start service ts t s stack real rising some_left =
    let c : ℕ = world.correlate s.events in
    let (d, reserved, e, held, same) = reserve_lem c s rising some_left in
    let timed : State = (set_timeout_of d start (pos service.timeout) reserved).1 in
    let (left, f, tied) =
      tie_lem d start ts t timed (same ∙ stack)
        (set_timeout-InUseAt d start (pos service.timeout) reserved held) in
    let on_top : current timed ≡ t =
      ap (last_or reserved.outside) (same ∙ stack) ∙ last_or-append reserved.outside t ts in
    (
      message d t.trid,
      left,
      bind_ok (reserve c) _ s reserved d e
          ∙ ap (λ u. (by_kind u d (is_real u) >>= λ trid. pure (message d trid)) timed) on_top
          ∙ ap (λ b. (by_kind t d b >>= λ trid. pure (message d trid)) timed) real
          ∙ bind_ok (tie d start t) (λ trid. pure (message d trid)) timed left t.trid f,
      tied,
    )
  where
    by_kind : Transaction → ℕ → Bool → Action TransactionId
    by_kind u d b = if not (has_flag 8 0) && b then tie d start u else pure null_id

    message : ℕ → TransactionId → CallRequest
    message d trid = record {
      correlation = world.correlate s.events;
      descriptor = d;
      process = world.self;
      service = service;
      trid = trid;
      flags = 0;
    }
