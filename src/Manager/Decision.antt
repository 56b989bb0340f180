-- ===== src/Manager/Decision.antt =====
-- What the two-phase commit decides: `resource::reply` of transaction/manager/handle.cpp.
pub mod Counts
pub mod Prepare
pub mod Logged
pub mod Answers
use casual.Base.{ℕ, zero, suc, ◌+◌, Bool, true, false, List, [], ◌∷◌, if◌then◌else◌}
use casual.Manager.Message.{
  Message, reply, request, ready, RequestKind, commit_request, rollback_request,
  domain_rollback_request,
}
use casual.Manager.State.{
  State, Event, sent, refused, lost, log_prepare, log_remove, write_begin, write_commit,
  PendingRequest,
}

abbrev pub is_commit_request : Message → Bool
is_commit_request (request r) = elim r.kind [ commit_request ↦ true | _ ↦ false ]
is_commit_request _ = false

-- How often a log entry for a prepared transaction was written.
abbrev pub log_prepares : List Event → ℕ
log_prepares [] = 0
log_prepares (log_prepare t ∷ es) = suc (log_prepares es)
log_prepares (e ∷ es) = log_prepares es

-- How many of such messages an event pushed.
abbrev pub pushed : (Message → Bool) → Event → ℕ
pushed p (sent q m) = if p m then 1 else 0
pushed p (refused q m) = if p m then 1 else 0
pushed p (lost q m) = if p m then 1 else 0
pushed p _ = 0

abbrev pub pushes : (Message → Bool) → List Event → ℕ
pushes p [] = 0
pushes p (e ∷ es) = pushed p e + pushes p es

abbrev pub waiting : (Message → Bool) → List PendingRequest → ℕ
waiting p [] = 0
waiting p (r ∷ rs) = (if p r.message then 1 else 0) + waiting p rs

-- How many requests of a sort were handed out: pushed to a resource, or left pending.
abbrev pub handed_out : (Message → Bool) → State → ℕ
handed_out p s = pushes p s.events + waiting p s.pending_requests
