-- ===== src/Manager/Handle/Exit.antt =====
-- `process::Exit` of transaction/manager/handle.cpp: the transactions of a dead process are rolled
-- back.
use casual.Base.{ℕ, List, [], ◌∷◌, map, select, ◌==◌}
use casual.Manager.Model.{Trid, Transaction}
use casual.Manager.Message.{UserRequest}
use casual.Manager.Monad.{Action, pure, ◌>>=◌, ◌>>◌, gets, Environment}
use casual.Manager.Handle.User.{rollback}

-- The transactions that the process owns.
unfoldable pub owned : ℕ → List Transaction → List Trid
owned pid ts = map (λ t. t.trid) (select (λ t. t.trid.owner.pid == pid) ts)

module _ (env : Environment) where
  abbrev pub exit_request : Trid → UserRequest
  exit_request trid = record { correlation = 0; process = env.self; trid = trid; resources = [] }

  unfoldable pub rollback_all : List Trid → Action (Unit {0})
  rollback_all [] = pure tt
  rollback_all (trid ∷ trids) = do rollback env (exit_request trid); rollback_all trids

  -- `Exit::apply`.
  unfoldable pub exit : ℕ → Action (Unit {0})
  exit pid = do trids ← gets (λ s. owned pid s.transactions); rollback_all trids
