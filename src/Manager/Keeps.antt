-- ===== src/Manager/Keeps.antt =====
-- Invariants of the manager's handlers: one rule for each way to build an action.
pub mod Frame
use casual.Base.{◌∷◌}
use casual.Manager.State.{State, Event}
use casual.Manager.Monad.{Action, record_event, modify}
use casual.Run.Keeps.{Keeps as RunKeeps, Yields as RunYields}
pub use casual.Run.Keeps.{
  Returns, Keeps-gets, Keeps-pure, Keeps-raise, Keeps-or_throw, Keeps-if, Keeps-Yields,
  Keeps-modify, Keeps-case_of, Keeps-case_of-some, Keeps-bind, Keeps-bind_Yields, keeps_rules,
}

abbrev pub Keeps : {A : Type 0} → (State → Type 0) → Action A → Type 0
Keeps P act = RunKeeps P act

abbrev pub Yields : {A : Type 0} → (State → Type 0) → (A → Type 0) → Action A → Type 0
Yields P Q act = RunYields P Q act

module _ {P : State → Type 0} where
  pub Keeps-record_event :
      (e : Event)
      → ((s : State) → P s → P (record s { events = e ∷ s.events }))
      → Keeps P (record_event e)
  unfolding record_event modify
  Keeps-record_event e k = record { at = k }
