-- ===== src/Manager/State.antt =====
-- transaction/manager/state.h and state.cpp: the resource proxies with their instances, the pending
-- messages, and the state of the manager. The log and the outgoing queues are seen as a history
-- of what has been done to them.
use casual.Base.{
  ℕ, ◌+◌, Bool, true, false, not, Option, none, some, List, [], ◌∷◌, ◌++◌, map, length, is_empty,
  find_if, update_first, erase_first, all_of, any_of, if◌then◌else◌, ◌==◌,
}
use casual.Base.Int.{ℤ, pos, ◌+ℤ◌, ◌-ℤ◌, ltb_ℤ}
use casual.Manager.Model.{Process, Trid, Transaction}
use casual.Manager.Message.{Message}

-- `state::Statistics`. Durations are microseconds.
pub record Statistics : Type 0 where
  pub min : ℤ
  pub max : ℤ
  pub total : ℤ
  pub invoked : ℕ
  pub started : ℤ

-- `std::chrono::microseconds::max()`.
abbrev pub microseconds_max : ℤ
microseconds_max = pos 9223372036854775807

abbrev pub new_statistics : Statistics
new_statistics = record {
  min = microseconds_max;
  max = pos 0;
  total = pos 0;
  invoked = 0;
  started = pos 0;
}

unfoldable pub start : ℤ → Statistics → Statistics
start at s = record s { started = at }

unfoldable pub time : ℤ → ℤ → Statistics → Statistics
time from to s =
    let duration = to -ℤ from in
    record s {
      total = s.total +ℤ duration;
      min = if ltb_ℤ duration s.min then duration else s.min;
      max = if ltb_ℤ s.max duration then duration else s.max;
      invoked = s.invoked + 1;
    }

unfoldable pub end : ℤ → Statistics → Statistics
unfolding time
end at s = time s.started at s

-- `operator += ( Statistics&, const Statistics&)`.
unfoldable pub add_statistics : Statistics → Statistics → Statistics
add_statistics lhs rhs = record lhs {
  min = if ltb_ℤ rhs.min lhs.min then rhs.min else lhs.min;
  max = if ltb_ℤ lhs.max rhs.max then rhs.max else lhs.max;
  total = lhs.total +ℤ rhs.total;
  invoked = lhs.invoked + rhs.invoked;
}

-- `state::Stats`.
pub record Stats : Type 0 where
  pub resource : Statistics
  pub roundtrip : Statistics

unfoldable pub add_stats : Stats → Stats → Stats
unfolding add_statistics
add_stats lhs rhs = record {
  resource = add_statistics lhs.resource rhs.resource;
  roundtrip = add_statistics lhs.roundtrip rhs.roundtrip;
}

-- `Proxy::Instance::State`.
pub data InstanceState : Type 0 where
  absent started idle busy startup_error shutdown : InstanceState

abbrev pub is_idle : InstanceState → Bool
is_idle idle = true
is_idle _ = false

abbrev pub is_shutdown : InstanceState → Bool
is_shutdown shutdown = true
is_shutdown _ = false

-- `filter::Running` for an instance.
abbrev pub is_running : InstanceState → Bool
is_running idle = true
is_running busy = true
is_running _ = false

-- `Proxy::Instance`.
pub record Instance : Type 0 where
  pub id : ℕ
  pub process : Process
  pub statistics : Stats
  pub state : InstanceState

-- `Instance::state( State)`: an instance that shuts down stays so.
unfoldable pub set_state : InstanceState → Instance → Instance
set_state s i = if is_shutdown i.state then i else record i { state = s }

-- `resource::Proxy`; the key, the open and the close info are for the spawning of instances.
pub record Proxy : Type 0 where
  pub id : ℕ
  pub concurency : ℕ
  pub statistics : Stats
  pub instances : List Instance

-- `Proxy::ready`.
unfoldable pub proxy_ready : Proxy → Bool
unfolding all_of
proxy_ready p = all_of (λ i. is_idle i.state) p.instances

-- `filter::Running` for a proxy.
unfoldable pub proxy_running : Proxy → Bool
unfolding any_of
proxy_running p = any_of (λ i. is_running i.state) p.instances

-- `pending::Reply` and `pending::Request`.
pub record PendingReply : Type 0 where
  pub target : ℕ
  pub message : Message

pub record PendingRequest : Type 0 where
  pub resources : List ℕ
  pub message : Message

-- `pending::filter::Request`.
unfoldable pub waits_for : ℕ → PendingRequest → Bool
unfolding any_of
waits_for id r = any_of (λ i. i == id) r.resources

-- What has been done to the transaction log and to the queues of other processes. `refused` is a
-- message that a full queue did not take, `lost` one whose queue was gone.
pub data Event : Type 0 where
  sent refused lost : ℕ → Message → Event
  log_prepare log_remove : Trid → Event
  write_begin write_commit : Event

-- `State`. The events stand newest first; `connected` is the member of the handler `Connect`.
pub record State : Type 0 where
  pub resources : List Proxy
  pub transactions : List Transaction
  pub persistent_replies : List PendingReply
  pub pending_requests : List PendingRequest
  pub persistent_requests : List PendingRequest
  pub connected : Bool
  pub events : List Event

-- `State::pending`.
unfoldable pub pending : State → Bool
pending s = not (is_empty s.persistent_replies)

-- `State::ready`.
unfoldable pub ready : State → Bool
unfolding all_of proxy_ready
ready s = all_of proxy_ready s.resources

-- `State::instances`.
count_instances : List Proxy → ℕ
count_instances [] = 0
count_instances (p ∷ ps) = length p.instances + count_instances ps

unfoldable pub instances : State → ℕ
unfolding count_instances
instances s = count_instances s.resources

-- `State::processes`.
collect_processes : List Proxy → List ℕ
collect_processes [] = []
collect_processes (p ∷ ps) = map (λ i. i.process.pid) p.instances ++ collect_processes ps

unfoldable pub processes : State → List ℕ
unfolding collect_processes
processes s = collect_processes s.resources

abbrev pub is_process : ℕ → Instance → Bool
is_process pid i = i.process.pid == pid

-- `State::operator () ( const Exit&)`: the first instance of the process is taken out, and its
-- statistics go to the proxy.
remove_process : ℕ → List Proxy → List Proxy
remove_process pid [] = []
remove_process pid (p ∷ ps) = elim (find_if (is_process pid) p.instances) [
  | none ↦ p ∷ remove_process pid ps
  | some i ↦
      record p {
        statistics = add_stats p.statistics i.statistics;
        instances = erase_first (is_process pid) p.instances;
      }
      ∷ ps
]

unfoldable pub exit : ℕ → State → State
unfolding remove_process
exit pid s = record s { resources = remove_process pid s.resources }

abbrev pub is_resource : ℕ → Proxy → Bool
is_resource rm p = p.id == rm

-- `State::get_resource`; `none` is the exception `invalid::Argument`.
unfoldable pub get_resource : ℕ → State → Option Proxy
unfolding find_if
get_resource rm s = find_if (is_resource rm) s.resources

-- A write through what `get_resource` returned.
unfoldable pub update_resource : ℕ → (Proxy → Proxy) → State → State
unfolding update_first
update_resource rm f s = record s { resources = update_first (is_resource rm) f s.resources }

-- A write through the first instance of a resource that passes.
unfoldable pub update_instance : ℕ → (Instance → Bool) → (Instance → Instance) → State → State
unfolding update_resource update_first
update_instance rm p f =
    update_resource rm (λ r. record r { instances = update_first p f r.instances })
