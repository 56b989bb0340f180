-- ===== src/Broker/Exclusive.antt =====
-- How often an instance is handed out: a lookup reply that names it leaves it busy.
pub mod Instances
pub mod Rules
pub mod Connects
pub mod Deaths
pub mod Lookups
pub mod Bound
use casual.Base.{
  ℕ, ◌+◌, ◌≤◌, ◌<◌, ◌≡◌, refl, Bool, true, false, Option, none, some, List, [], ◌∷◌, ◌==◌, All,
  arith, lookup, if◌then◌else◌,
}
use casual.Ipc.{Process}
use casual.Broker.Message.{Message, lookup_reply, Availability}
use casual.Broker.State.{State, Instance, Event, sent}
use casual.Broker.Handle.Service.{is_idle}

abbrev pub bit : Bool → ℕ
bit true = 1
bit false = 0

-- The message hands out the instance.
abbrev pub gives : ℕ → Message → Bool
gives pid (lookup_reply correlation information process Availability.idle) = process.pid == pid
gives pid _ = false

abbrev pub gives_in : ℕ → Event → Bool
gives_in pid (sent queue message) = gives pid message
gives_in pid _ = false

-- How often an instance was handed out.
unfoldable pub given : ℕ → List Event → ℕ
given pid [] = 0
given pid (e ∷ events) = bit (gives_in pid e) + given pid events

abbrev pub idle_count : ℕ → List (ℕ × Instance) → ℕ
idle_count pid instances = bit (is_idle (lookup pid instances))

-- Each instance stands under its process identifier.
abbrev pub IsKeyed : List (ℕ × Instance) → Type 0
IsKeyed = All (λ entry. entry.1.process.pid ≡ entry.0)

-- The instance is not the forward cache, and was handed out at most so often, and less often if it
-- is idle.
pub record IsWithin (pid n : ℕ) (instances : List (ℕ × Instance)) (forward : Process)
    (events : List Event) : Type 0 where
  pub keyed : IsKeyed instances
  pub other : (forward.pid == pid) ≡ false
  pub bound : given pid events + idle_count pid instances ≤ n

abbrev pub Within : ℕ → ℕ → State → Type 0
Within pid n s = IsWithin pid n s.instances s.forward s.events
