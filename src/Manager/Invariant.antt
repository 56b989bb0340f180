-- ===== src/Manager/Invariant.antt =====
-- What holds of the manager's transactions between two messages.
pub mod Updates
pub mod Basics
pub mod Replies
pub mod Users
pub mod Others
pub mod Handlers
use casual.Base.{ℕ, List, map, All}
use casual.Manager.Model.{Resource, Transaction}
use casual.Manager.State.{State}
use mathlib.Core.List.{Nodup}

abbrev pub ids : List Resource → List ℕ
ids = map (λ r. r.id)

abbrev pub xids : List Transaction → List ℕ
xids = map (λ t. t.trid.xid)

-- No resource stands twice in the transaction.
abbrev pub IsSimple : Transaction → Type 0
IsSimple t = Nodup (ids t.resources)

-- No transaction is known twice, and none has a resource twice.
pub record IsValid (s : State) : Type 0 where
  pub distinct : Nodup (xids s.transactions)
  pub simple : All IsSimple s.transactions
