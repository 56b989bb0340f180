-- ===== src/Context/State.antt =====
-- common/transaction/transaction.h, context.h, id.cpp, resource.h and call/state.h: the data.
use Prim.Native.Nat.{bit_and}
use casual.Base.{
  ℕ, Bool, true, false, not, Option, none, some, List, [], ◌∷◌, ◌++◌, ◌==◌, is_empty, any_of,
  reject, select,
}
use casual.Base.Int.{ℤ, pos, negsuc}
use casual.Ipc.{Process}
use casual.Manager.Message.{CommitStage}
use casual.Broker.Message.{Information}
use casual.Context.Code.{tm_register}

-- `transaction::ID`; an xid with the format of a null xid is `none`.
pub record TransactionId : Type 0 where
  pub xid : Option ℕ
  pub owner : Process

abbrev pub null_id : TransactionId
null_id = record { xid = none; owner = record { pid = 0; queue = 0 } }

-- `operator ==` of xids.
unfoldable pub same_xid : Option ℕ → Option ℕ → Bool
same_xid none none = true
same_xid none (some x) = false
same_xid (some x) none = false
same_xid (some x) (some y) = x == y

-- `ID::operator bool`, and what `null` negates.
unfoldable pub is_some : Option ℕ → Bool
is_some none = false
is_some (some x) = true

-- A moved id keeps its owner.
unfoldable pub moved : TransactionId → TransactionId
moved i = record i { xid = none }

pub record Timeout : Type 0 where
  pub start : ℤ
  pub timeout : ℤ

-- `platform::time_point::min`.
abbrev pub time_point_min : ℤ
time_point_min = negsuc 9_223_372_036_854_775_807

-- `Transaction::State`, ordered as its enumerators are.
pub data TransactionState : Type 0 where
  active timeout rollback : TransactionState

unfoldable pub is_active : TransactionState → Bool
is_active active = true
is_active timeout = false
is_active rollback = false

unfoldable pub severity : TransactionState → ℕ
severity active = 0
severity timeout = 1
severity rollback = 2

pub record Transaction : Type 0 where
  pub trid : TransactionId
  pub timeout : Timeout
  pub resources : List ℕ
  pub state : TransactionState
  pub descriptors : List ℕ
  pub is_local : Bool

-- `Transaction{}` and `Transaction( trid)`.
unfoldable pub new_transaction : TransactionId → Transaction
new_transaction trid = record {
  trid = trid;
  timeout = record { start = time_point_min; timeout = pos 0 };
  resources = [];
  state = TransactionState.active;
  descriptors = [];
  is_local = true;
}

-- `Transaction::operator bool`.
unfoldable pub is_real : Transaction → Bool
unfolding is_some
is_real t = is_some t.trid.xid

unfoldable pub has_xid : Option ℕ → Transaction → Bool
unfolding same_xid
has_xid xid t = same_xid t.trid.xid xid

unfoldable pub associate : ℕ → Transaction → Transaction
associate descriptor t = record t {
  descriptors = t.descriptors ++ descriptor ∷ [];
  is_local = false;
}

unfoldable pub discard : ℕ → Transaction → Transaction
discard descriptor t = record t { descriptors = reject (λ d. d == descriptor) t.descriptors }

-- `Transaction::associated`, of some descriptor and of the one given.
unfoldable pub is_associated : Transaction → Bool
is_associated t = not (is_empty t.descriptors)

unfoldable pub is_associated_with : ℕ → Transaction → Bool
is_associated_with descriptor t = any_of (λ d. d == descriptor) t.descriptors

-- `Resource`; `flags` is `xa_switch->flags`.
pub record Resource : Type 0 where
  pub key : ℕ
  pub flags : ℕ
  pub id : ℕ
  pub openinfo : ℕ
  pub closeinfo : ℕ

unfoldable pub is_dynamic : Resource → Bool
is_dynamic r = bit_and r.flags tm_register == tm_register

pub data Control : Type 0 where
  unchained chained stacked : Control

-- `Context::Commit_Return`.
pub data CommitReturn : Type 0 where
  completed logged : CommitReturn

-- `call::State::Pending::Descriptor`.
pub record Descriptor : Type 0 where
  pub descriptor : ℕ
  pub is_active : Bool
  pub correlation : ℕ
  pub timeout : Timeout

-- The calls through a resource's switch: the id of the resource, the xid and the flags.
pub data XaCall : Type 0 where
  open_call close_call : ℕ → ℕ → ℕ → XaCall
  start_call end_call commit_call rollback_call : ℕ → Option ℕ → ℕ → XaCall

-- `commit::Request`, `rollback::Request` and `resource::Involved`.
pub data Message : Type 0 where
  commit_request rollback_request involved : Process → TransactionId → List ℕ → Message

-- `commit::Reply`, as far as the context reads it.
pub record CommitReply : Type 0 where
  pub correlation : ℕ
  pub stage : CommitStage
  pub state : ℤ

-- `service::call::Reply`, as far as the context reads and writes it.
pub record CallReply : Type 0 where
  pub descriptor : ℕ
  pub error : ℕ
  pub trid : TransactionId
  pub state : TransactionState

-- `service::call::caller::Request`, without the buffer, and the name of the parent service.
pub record CallRequest : Type 0 where
  pub correlation : ℕ
  pub descriptor : ℕ
  pub process : Process
  pub service : Information
  pub trid : TransactionId
  pub flags : ℕ

-- What the context does to the world outside its state.
pub data Event : Type 0 where
  called : XaCall → ℤ → Event
  sent lost : Message → Event
  created named : ℕ → Event
  connected : Process → ℕ → Event
  looked_up : ℕ → Bool → Event
  posted : ℕ → CallRequest → Event
  acknowledged : Process → ℕ → Event
  answered : ℤ → Event
  discarded : ℕ → Event

-- `Context`, with the descriptors of `call::State::Pending`, and what has happened, the last first.
-- The current transaction is the last of `transactions`; `outside` is the one of `current()` when
-- there are none.
pub record State : Type 0 where
  pub transactions : List Transaction
  pub outside : Transaction
  pub resources : List Resource
  pub caller : TransactionId
  pub control : Control
  pub commit_return : CommitReturn
  pub timeout : ℕ
  pub pending : List Descriptor
  pub events : List Event

pub data Exception : Type 0 where
  no_begin protocol outside argument tx_error system invalid_descriptor transaction_support no_entry
        no_message output_type unavailable aborted undefined :
      Exception

-- `m_resources.fixed` and `m_resources.dynamic`, the parts of `m_resources.all`.
unfoldable pub fixed : State → List Resource
unfolding is_dynamic
fixed s = reject is_dynamic s.resources

unfoldable pub dynamic : State → List Resource
unfolding is_dynamic
dynamic s = select is_dynamic s.resources

-- `back()`, or the given one.
unfoldable pub last_or : Transaction → List Transaction → Transaction
last_or d [] = d
last_or d (t ∷ ts) = last_or t ts

unfoldable pub update_last : (Transaction → Transaction) → List Transaction → List Transaction
update_last f [] = []
update_last f (t ∷ []) = f t ∷ []
update_last f (t ∷ u ∷ us) = t ∷ update_last f (u ∷ us)

-- `pop_back()`.
unfoldable pub drop_last : List Transaction → List Transaction
drop_last [] = []
drop_last (t ∷ []) = []
drop_last (t ∷ u ∷ us) = t ∷ drop_last (u ∷ us)

-- `current()`, to read and to write.
unfoldable pub current : State → Transaction
unfolding last_or
current s = last_or s.outside s.transactions

unfoldable pub write_current : (Transaction → Transaction) → List Transaction → State → State
write_current f [] s = record s { outside = f s.outside }
write_current f (t ∷ ts) s = record s { transactions = update_last f (t ∷ ts) }

unfoldable pub update_current : (Transaction → Transaction) → State → State
unfolding write_current update_last
update_current f s = write_current f s.transactions s
