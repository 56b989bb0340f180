-- ===== src/Manager/Model.antt =====
-- transaction/manager/state.h and state.cpp: a transaction, its resources, and where it stands.
pub mod Severity
pub mod Unique
pub use casual.Ipc.{Process}
use casual.Base.{ℕ, Bool, true, false, List, [], ◌∷◌, ◌&&◌, ◌||◌, ltb, ◌==◌, if◌then◌else◌}
use casual.Base.Int.{ℤ}
use casual.Manager.Code.{Result, c_xa_ok, c_xa_rdonly, rank, more_severe, convert}

-- `common::transaction::ID`. The `xid` stands for the global id, the branch id and the format.
pub record Trid : Type 0 where
  pub xid : ℕ
  pub owner : Process

-- `operator ==` of transaction ids: the owner is not compared.
abbrev pub same_trid : Trid → Trid → Bool
same_trid a b = a.xid == b.xid

-- `Transaction::Resource::Stage`.
pub data Stage : Type 0 where
  involved : Stage
  prepare_requested : Stage
  prepare_replied : Stage
  commit_requested : Stage
  commit_replied : Stage
  rollback_requested : Stage
  rollback_replied : Stage
  done : Stage
  error : Stage
  not_involved : Stage

-- The enum's underlying value.
abbrev pub stage_rank : Stage → ℕ
stage_rank involved = 0
stage_rank prepare_requested = 1
stage_rank prepare_replied = 2
stage_rank commit_requested = 3
stage_rank commit_replied = 4
stage_rank rollback_requested = 5
stage_rank rollback_replied = 6
stage_rank done = 7
stage_rank error = 8
stage_rank not_involved = 9

infix 50 ◌==ₛ◌
abbrev pub ◌==ₛ◌ : Stage → Stage → Bool
a ==ₛ b = stage_rank a == stage_rank b

infix 50 ◌==ᵣ◌
abbrev pub ◌==ᵣ◌ : Result → Result → Bool
a ==ᵣ b = rank a == rank b

-- `Transaction::Resource`.
pub record Resource : Type 0 where
  pub id : ℕ
  pub stage : Stage
  pub result : Result

-- `Resource( id_type id)` with the members' initialisers.
abbrev pub new_resource : ℕ → Resource
new_resource id = record { id = id; stage = involved; result = c_xa_ok }

-- `Transaction`. The correlation is that of the request which started commit or rollback.
pub record Transaction : Type 0 where
  pub trid : Trid
  pub resources : List Resource
  pub correlation : ℕ

-- `Transaction( common::transaction::ID trid)`; a null correlation is 0.
abbrev pub new_transaction : Trid → Transaction
new_transaction trid = record { trid = trid; resources = []; correlation = 0 }

-- `Resource::update::Stage`.
abbrev pub set_stage : Stage → Resource → Resource
set_stage s r = record r { stage = s }

-- `Resource::filter::Stage`, `filter::Result` and `filter::ID`.
abbrev pub has_stage : Stage → Resource → Bool
has_stage s r = r.stage ==ₛ s

abbrev pub has_result : Result → Resource → Bool
has_result x r = r.result ==ᵣ x

abbrev pub has_id : ℕ → Resource → Bool
has_id i r = r.id == i

-- `find::Transaction`.
abbrev pub has_trid : Trid → Transaction → Bool
has_trid trid t = same_trid t.trid trid

-- The loop of `Transaction::stage`, with the least stage so far.
unfoldable pub least_stage : Stage → List Resource → Stage
least_stage result [] = result
least_stage result (r ∷ rs) =
    least_stage (if ltb (stage_rank r.stage) (stage_rank result) then r.stage else result) rs

unfoldable pub stage : Transaction → Stage
stage t = least_stage not_involved t.resources

-- The loop of `Transaction::results`, with the most severe result so far.
unfoldable pub most_severe : Result → List Resource → Result
most_severe result [] = result
most_severe result (r ∷ rs) =
    most_severe (if more_severe r.result result then r.result else result) rs

unfoldable pub results : Transaction → Result
results t = most_severe c_xa_rdonly t.resources

-- How `std::sort` of the standard library places resources with the same id, an order that is not
-- specified: whether a resource comes behind the first of some sorted ones that has its id too.
abbrev pub Ties : Type 0
Ties = Resource → List Resource → Bool

-- `range::sort( transaction.resources)`: by id, and by `ties` where the ids are the same.
unfoldable pub insert_sorted : Ties → Resource → List Resource → List Resource
insert_sorted ties r [] = r ∷ []
insert_sorted ties r (q ∷ qs) =
    if ltb q.id r.id || (q.id == r.id && ties r (q ∷ qs))
    then q ∷ insert_sorted ties r qs
    else r ∷ q ∷ qs

unfoldable pub sort : Ties → List Resource → List Resource
sort ties [] = []
sort ties (r ∷ rs) = insert_sorted ties r (sort ties rs)

-- `range::unique`: of a run of equal ids the first is kept.
unfoldable pub skip_same : ℕ → List Resource → List Resource
skip_same i [] = []
skip_same i (r ∷ rs) = elim (r.id == i) [ true ↦ skip_same i rs | false ↦ r ∷ skip_same r.id rs ]

unfoldable pub unique : List Resource → List Resource
unfolding skip_same
unique [] = []
unique (r ∷ rs) = r ∷ skip_same r.id rs
