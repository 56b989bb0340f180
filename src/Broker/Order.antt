-- ===== src/Broker/Order.antt =====
-- `State::bootOrder` and `State::processes` of broker/source/state.cpp.
pub mod Complete
use casual.Base.{
  ℕ, Bool, not, ◌||◌, List, [], ◌∷◌, ◌++◌, ◌==◌, any_of, select, reject, is_empty, values,
  if◌then◌else◌,
}
use casual.Broker.State.{State, Group, Executable, Server}

-- `State::Batch`, with the name of its group, or 0 for the last one, without a group.
pub record Batch : Type 0 where
  pub group : ℕ
  pub servers : List Server
  pub executables : List Executable

-- `filter::group::Id`.
unfoldable pub is_member : ℕ → Executable → Bool
is_member id e = any_of (λ g. g == id) e.memberships

unfoldable pub server_member : ℕ → Server → Bool
unfolding is_member
server_member id v = is_member id v.executable

-- What the loop has: the servers and executables that are left, and the batches.
pub record Progress : Type 0 where
  pub servers : List Server
  pub executables : List Executable
  pub batches : List Batch

-- One round of the loop. A batch stands before those that were found earlier, so that the reversal
-- is done.
unfoldable pub take_group : Group → Progress → Progress
unfolding server_member
take_group g p =
    let servers = select (server_member g.id) p.servers in
    let executables = select (is_member g.id) p.executables in
    if not (is_empty servers) || not (is_empty executables)
    then record {
      servers = reject (server_member g.id) p.servers;
      executables = reject (is_member g.id) p.executables;
      batches = record { group = g.name; servers = servers; executables = executables } ∷ p.batches;
    }
    else p

-- The loop, from the last group to the first.
unfoldable pub take_groups : List Group → Progress → Progress
unfolding take_group
take_groups [] p = p
take_groups (g ∷ groups) p = take_group g (take_groups groups p)

-- What no group has taken.
unfoldable pub close : Progress → List Batch
close p =
    if not (is_empty p.servers) || not (is_empty p.executables)
    then p.batches ++ record { group = 0; servers = p.servers; executables = p.executables } ∷ []
    else p.batches

-- `bootOrder`, for the groups in the order that `stable_sort` has left them in.
unfoldable pub boot_order : List Group → State → List Batch
unfolding take_groups close
boot_order groups s = close (
    take_groups groups
      (record { servers = values s.servers; executables = values s.executables; batches = [] }))

unfoldable pub all_instances : List Executable → List ℕ
all_instances [] = []
all_instances (e ∷ es) = e.instances ++ all_instances es

unfoldable pub executables_of : List Server → List Executable
executables_of [] = []
executables_of (v ∷ vs) = v.executable ∷ executables_of vs

-- `processes`.
unfoldable pub processes : State → List ℕ
unfolding all_instances executables_of
processes s =
    all_instances (values s.executables) ++ all_instances (executables_of (values s.servers))
