-- ===== src/Context/Pending.antt =====
-- call/state.cpp: the descriptors of the calls that wait for a reply. Of transaction/context.cpp:
-- `associated`.
pub mod Rising
pub mod Used
use casual.Base.{
  ℕ, ◌+◌, Bool, true, false, not, Option, none, some, List, [], ◌∷◌, ◌++◌, ◌==◌, ◌&&◌, find_if,
  update_first, any_of, all_of,
}
use casual.Base.Int.{pos}
use casual.Context.State.{
  State, Descriptor, Event, Transaction, Exception, discarded, invalid_descriptor,
  transaction_support, undefined, is_associated_with, is_active,
}
use casual.Context.Monad.{
  Action, pure, raise, gets, modify, case_of, ◌>>=◌, ◌>>◌, require, record_event,
}

-- `Pending::Pending`.
abbrev pub new_descriptor : ℕ → Descriptor
new_descriptor d = record {
  descriptor = d;
  is_active = false;
  correlation = 0;
  timeout = record { start = casual.Context.State.time_point_min; timeout = pos 0 };
}

unfoldable pub new_pending : List Descriptor
new_pending =
    new_descriptor 1
    ∷ new_descriptor 2
    ∷ new_descriptor 3
    ∷ new_descriptor 4
    ∷ new_descriptor 5
    ∷ new_descriptor 6
    ∷ new_descriptor 7
    ∷ new_descriptor 8
    ∷ []

unfoldable pub has_descriptor : ℕ → Descriptor → Bool
has_descriptor d e = e.descriptor == d

unfoldable pub is_free : Descriptor → Bool
is_free e = not e.is_active

-- `m_descriptors.back()`.
unfoldable pub last_descriptor : List Descriptor → Option ℕ
last_descriptor [] = none
last_descriptor (e ∷ []) = some e.descriptor
last_descriptor (e ∷ f ∷ es) = last_descriptor (f ∷ es)

-- What `reserve` writes to a descriptor that is free.
unfoldable pub taken : ℕ → Descriptor → Descriptor
taken correlation e = record e {
  is_active = true;
  correlation = correlation;
  timeout = record e.timeout { timeout = pos 0 };
}

unfoldable pub appended : ℕ → ℕ → Descriptor
appended correlation last = record (new_descriptor (last + 1)) {
  is_active = true;
  correlation = correlation;
}

-- `reserve( correlation)`: the descriptor.
unfoldable pub reserve : ℕ → Action ℕ
unfolding is_free last_descriptor taken appended
reserve correlation = do
  found ← gets λ s. find_if is_free s.pending
  last ← gets λ s. last_descriptor s.pending
  case_of found
      (case_of last (raise undefined) λ l. do
        modify λ s. record s { pending = s.pending ++ appended correlation l ∷ [] }
        pure (l + 1))
      λ e. do
        modify λ s. record s { pending = update_first is_free (taken correlation) s.pending }
        pure e.descriptor

unfoldable pub unreserve : ℕ → Action (Unit {0})
unfolding has_descriptor
unreserve d = do
  found ← gets λ s. find_if (has_descriptor d) s.pending
  case_of found (raise invalid_descriptor) λ e. modify λ s. record s {
    pending = update_first (has_descriptor d) (λ e. record e { is_active = false }) s.pending;
  }

unfoldable pub active_found : Option Descriptor → Bool
active_found none = false
active_found (some e) = e.is_active

-- `Pending::active`.
unfoldable pub active_descriptor : ℕ → State → Bool
unfolding has_descriptor active_found
active_descriptor d s = active_found (find_if (has_descriptor d) s.pending)

-- `Pending::get`.
unfoldable pub get_descriptor : ℕ → Action Descriptor
unfolding has_descriptor
get_descriptor d = do
  found ← gets λ s. find_if (has_descriptor d) s.pending
  case_of found (raise invalid_descriptor) λ e. do require e.is_active invalid_descriptor; pure e

unfoldable pub holds_descriptor : ℕ → Transaction → Bool
unfolding is_associated_with is_active
holds_descriptor d t = is_active t.state && is_associated_with d t

-- `Context::associated`.
unfoldable pub associated : ℕ → State → Bool
unfolding holds_descriptor
associated d s = any_of (holds_descriptor d) s.transactions

-- `Pending::discard`, which is `call::Context::cancel`.
unfoldable pub cancel : ℕ → Action (Unit {0})
unfolding associated get_descriptor unreserve
cancel d = do
  held ← gets (associated d)
  require (not held) transaction_support
  e ← get_descriptor d
  record_event (discarded e.correlation)
  unreserve d

-- `Pending::empty`.
unfoldable pub no_pending : State → Bool
unfolding is_free
no_pending s = all_of is_free s.pending
