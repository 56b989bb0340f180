-- ===== src/Context/Stack.antt =====
-- transaction/context.cpp: the settings, suspended and joined transactions, dynamic resources, and
-- the replies to calls.
use casual.Base.{
  ℕ, Bool, not, Option, none, some, List, [], ◌∷◌, ◌++◌, ◌==◌, ◌&&◌, ltb, is_empty, any_of, map,
  find_if, erase_first, update_first, select, reject, if◌then◌else◌,
}
use casual.Base.Int.{ℤ, pos, negsuc, ◌==ℤ◌}
use casual.Ipc.{same_process}
use casual.Manager.Message.{tm_no_flags}
use casual.Context.Code.{
  tx_ok, tx_einval, tm_ok, tm_resumed, tmer_inval, tmer_proto, tm_suspend, tm_resume,
}
use casual.Context.State.{
  State, Resource, Transaction, TransactionState, TransactionId, Control, CommitReturn, CallReply,
  unchained, chained, stacked, completed, logged, new_transaction, is_some, is_real, has_xid,
  discard, severity, dynamic, current, update_current, drop_last, protocol, outside, argument,
  system,
}
use casual.Context.Monad.{
  Action, Environment, pure, raise, gets, modify, case_of, ◌>>=◌, ◌>>◌, require,
}
use casual.Context.Resources.{resources_start, resources_end, open_all}
use casual.Context.Commit.{null_transaction}

-- A resource of the configuration: `message::transaction::resource::Manager`.
pub record Configured : Type 0 where
  pub key : ℕ
  pub id : ℕ
  pub openinfo : ℕ
  pub closeinfo : ℕ

-- A resource that is linked to the executable, with the flags of its switch.
pub record Linked : Type 0 where
  pub key : ℕ
  pub flags : ℕ

unfoldable pub has_key : ℕ → Configured → Bool
has_key key c = c.key == key

abbrev pub to_resource : Linked → Configured → Resource
to_resource l c = record {
  key = l.key;
  flags = l.flags;
  id = c.id;
  openinfo = c.openinfo;
  closeinfo = c.closeinfo;
}

-- The loop of `Context::set` over the linked resources, with what is left of the configuration.
unfoldable pub configure : List Linked → List Configured → Action (Unit {0})
unfolding has_key
configure [] left = pure tt
configure (l ∷ ls) left = do
  require (any_of (has_key l.key) left) argument
  modify
      λ s. record s { resources = s.resources ++ map (to_resource l) (select (has_key l.key) left) }
  configure ls (reject (has_key l.key) left)

unfoldable pub set_commit_return : ℤ → Action ℤ
set_commit_return value =
    if value ==ℤ pos 0
    then (do modify λ s. record s { commit_return = CommitReturn.completed }; pure tx_ok)
    else (if value ==ℤ pos 1
        then (do modify λ s. record s { commit_return = CommitReturn.logged }; pure tx_ok)
        else pure tx_einval)

unfoldable pub get_commit_return : CommitReturn → ℤ
get_commit_return completed = pos 0
get_commit_return logged = pos 1

unfoldable pub set_control : ℤ → Action ℤ
set_control value =
    if value ==ℤ pos 0
    then (do modify λ s. record s { control = Control.unchained }; pure tx_ok)
    else (if value ==ℤ pos 1
        then (do modify λ s. record s { control = Control.chained }; pure tx_ok)
        else (if value ==ℤ pos 42
            then (do modify λ s. record s { control = Control.stacked }; pure tx_ok)
            else raise argument))

unfoldable pub control_code : Control → ℤ
control_code unchained = pos 0
control_code chained = pos 1
control_code stacked = pos 42

unfoldable pub set_timeout : ℤ → Action (Unit {0})
set_timeout (pos seconds) = modify λ s. record s { timeout = seconds }
set_timeout (negsuc n) = raise argument

-- `TXINFO`.
pub record Info : Type 0 where
  pub xid : Option ℕ
  pub state : ℕ
  pub timeout : ℕ
  pub control : ℤ

-- `Context::info`: whether there is a transaction, and what is written.
unfoldable pub info : State → Bool × Info
unfolding current is_real severity control_code
info s = (
  is_real (current s),
  record {
    xid = (current s).trid.xid;
    state = severity (current s).state;
    timeout = s.timeout;
    control = control_code s.control;
  },
)

-- `Context::resourceRegistration`: the code, and the xid if it is written.
unfoldable pub resource_registration : ℕ → Action (ℤ × Option (Option ℕ))
unfolding dynamic current update_current
resource_registration rm = do
  known ← gets λ s. any_of (λ r. r.id == rm) (dynamic s)
  t ← gets current
  if not known
      then pure (tmer_inval, none)
      else (if any_of (λ x. x == rm) t.resources then pure (tm_resumed, none) else (do
        modify (update_current (λ t. record t { resources = t.resources ++ rm ∷ [] }))
        pure (tm_ok, some t.trid.xid)))

-- `Context::resourceUnregistration`.
unfoldable pub resource_unregistration : ℕ → Action ℤ
unfolding current update_current is_real
resource_unregistration rm = do
  t ← gets current
  if not (is_real t) && any_of (λ x. x == rm) t.resources
      then (do
        modify
            (update_current (λ t. record t { resources = erase_first (λ x. x == rm) t.resources }))
        pure tm_ok)
      else pure tmer_proto

-- The state of a reply, if it is worse.
unfoldable pub worsen : TransactionState → Transaction → Transaction
unfolding severity
worsen state t = if ltb (severity t.state) (severity state) then record t { state = state } else t

-- `Context::update`.
unfoldable pub update : CallReply → Action (Unit {0})
unfolding is_some has_xid discard worsen
update reply =
    if is_some reply.trid.xid
    then (do
      found ← gets λ s. find_if (has_xid reply.trid.xid) s.transactions
      case_of found (raise system) λ t. modify λ s. record s {
        transactions =
            update_first (has_xid reply.trid.xid)
              (λ t. discard reply.descriptor (worsen reply.state t)) s.transactions;
      })
    else modify λ s. record s { transactions = map (discard reply.descriptor) s.transactions }

-- `std::rotate` of the first that passes to the end.
unfoldable pub rotate_found : (Transaction → Bool) → List Transaction → List Transaction
rotate_found p [] = []
rotate_found p (t ∷ ts) = if p t then ts ++ t ∷ [] else t ∷ rotate_found p ts

module _ (env : Environment) where
  -- `Context::set`, with the configuration that the manager has replied; `arrange` is what
  -- `std::partition` makes of the resources.
  unfoldable pub set :
      (List Resource → List Resource) → List Configured → List Linked → Action (Unit {0})
  unfolding configure open_all
  set arrange configuration linked = do
    configure linked configuration
    modify λ s. record s { resources = arrange s.resources }
    open_all env

  -- `Context::pending`.
  unfoldable pub is_pending : State → Bool
  unfolding is_real
  is_pending s = any_of (λ t. is_real t && not (same_process t.trid.owner env.self)) s.transactions

  -- `Context::join`.
  unfoldable pub join : TransactionId → Action (Unit {0})
  unfolding new_transaction resources_start is_some
  join trid = do
    if is_some trid.xid then resources_start env (new_transaction trid) tm_no_flags else pure tt
    modify λ s. record s { transactions = s.transactions ++ new_transaction trid ∷ [] }

  -- `Context::suspend`, with a pointer to write to: the xid that is written.
  unfoldable pub suspend : Action (Option ℕ)
  unfolding current is_real resources_end
  suspend = do
    t ← gets current
    require (is_real t) protocol
    resources_end env t tm_suspend
    modify λ s. record s { transactions = s.transactions ++ null_transaction ∷ [] }
    pure t.trid.xid

  -- `Context::resume`, with a pointer to an xid.
  unfoldable pub resume : Option ℕ → Action (Unit {0})
  unfolding current is_some is_real has_xid resources_start drop_last rotate_found
  resume xid = do
    require (is_some xid) argument
    t ← gets current
    require (not (is_real t)) protocol
    require (is_empty t.resources) outside
    found ← gets λ s. find_if (has_xid xid) s.transactions
    case_of found (raise argument) λ wanted. do
      resources_start env wanted tm_resume
      modify λ s. record s { transactions = rotate_found (has_xid xid) (drop_last s.transactions) }
