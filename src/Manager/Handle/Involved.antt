-- ===== src/Manager/Handle/Involved.antt =====
-- `local::resource::involved` and `resource::Involved` of transaction/manager/handle.cpp.
use casual.Base.{Bool, ℕ, Option, List, [], ◌∷◌, ◌++◌, map, find_if, any_of, select}
use casual.Manager.Model.{
  Ties, Resource, Trid, Transaction, new_resource, new_transaction, has_trid, sort, unique,
}
use casual.Manager.Message.{UserRequest}
use casual.Manager.State.{Proxy, is_resource}
use casual.Manager.Monad.{Action, Environment, pure, ◌>>=◌, ◌>>◌, gets, modify, case_of}
use casual.Manager.Handle.Send.{put}

-- `range::find( state.resources, resource)`.
unfoldable pub is_known : List Proxy → ℕ → Bool
is_known proxies id = any_of (is_resource id) proxies

-- The resources that the manager knows; the others are logged and discarded.
unfoldable pub known : List Proxy → List ℕ → List ℕ
known proxies = select (is_known proxies)

-- The known resources are added at the back, and the whole is sorted and made unique; `ties` is the
-- order in which the sort leaves resources of this list with the same id.
unfoldable pub involve : (List Resource → Ties) → List Proxy → List ℕ → Transaction → Transaction
involve ties proxies ids t =
    let all = t.resources ++ map new_resource (known proxies ids) in
    record t { resources = unique (sort (ties all) all) }

-- `local::resource::involved`, on a transaction of the state.
unfoldable pub involved : Environment → List ℕ → Transaction → Action Transaction
involved env ids t = do
  proxies ← gets (λ s. s.resources)
  put (involve env.ties proxies ids t)
  pure (involve env.ties proxies ids t)

unfoldable pub find_transaction : Trid → Action (Option Transaction)
find_transaction trid = gets (λ s. find_if (has_trid trid) s.transactions)

-- `m_state.transactions.emplace_back( message.trid)`.
unfoldable pub add_transaction : Trid → Action Transaction
add_transaction trid = do
  modify λ s. record s { transactions = s.transactions ++ new_transaction trid ∷ [] }
  pure (new_transaction trid)

-- The transaction, which is added if the manager does not know it.
unfoldable pub find_or_add : Trid → Action Transaction
find_or_add trid = do found ← find_transaction trid; case_of found (add_transaction trid) pure

-- `resource::Involved::operator ()`.
unfoldable pub resource_involved : Environment → UserRequest → Action (Unit {0})
resource_involved env m = do t ← find_or_add m.trid; involved env m.resources t; pure tt
