-- ===== src/Manager/Sample.antt =====
-- A transaction over two resources: states, messages and environments for tests.
use casual.Base.{ℕ, false, true, [], ◌∷◌}
use casual.Base.Int.{ℤ, pos}
use casual.Manager.Code
use casual.Manager.Code.{
  xa_ok, xa_rdonly, xa_rbrollback, xaer_proto, c_xa_ok, c_xa_rdonly, convert, code,
}
use casual.Manager.Model.{Process, Trid, Resource, Transaction, Stage}
use casual.Manager.Message.{UserRequest, ResourceReply}
use casual.Manager.State.{State, InstanceState, Proxy, Stats, new_statistics}
use casual.Manager.Monad.{Environment, Outcome}

abbrev pub reliable : Environment
reliable = record {
  push = λ _ _. Outcome.delivered;
  now = λ _. pos 0;
  self = record { pid = 1; queue = 1 };
  broker = 0;
  ties = λ _ _ _. false;
}

abbrev pub client : Process
client = record { pid = 7; queue = 70 }

abbrev pub trid : Trid
trid = record { xid = 42; owner = client }

abbrev pub no_stats : Stats
no_stats = record { resource = new_statistics; roundtrip = new_statistics }

abbrev pub proxy : ℕ → Proxy
proxy n = record {
  id = n;
  concurency = 1;
  statistics = no_stats;
  instances =
      record {
        id = n;
        process = record { pid = n; queue = n };
        statistics = no_stats;
        state = InstanceState.idle;
      }
      ∷ [];
}

abbrev pub two_resources : State
two_resources = record {
  resources = proxy 11 ∷ proxy 12 ∷ [];
  transactions = [];
  persistent_replies = [];
  pending_requests = [];
  persistent_requests = [];
  connected = true;
  events = [];
}

abbrev pub commit_both : UserRequest
commit_both = record { correlation = 5; process = client; trid = trid; resources = 12 ∷ 11 ∷ [] }

abbrev pub answer_of : ℕ → ℤ → ResourceReply
answer_of n state = record {
  process = record { pid = n; queue = n };
  trid = trid;
  state = state;
  resource = n;
  start = pos 0;
  end = pos 3;
}

abbrev pub voting : ℕ → Stage → Code.Result → Resource
voting n s r = record { id = n; stage = s; result = r }

-- The first resource has voted, the other one has not.
abbrev pub half_prepared : Transaction
half_prepared = record {
  trid = trid;
  resources =
      voting 11 Stage.prepare_replied c_xa_ok ∷ voting 12 Stage.prepare_requested c_xa_ok ∷ [];
  correlation = 5;
}

-- The first resource has voted read only.
abbrev pub half_read : Transaction
half_read = record {
  trid = trid;
  resources =
      voting 11 Stage.not_involved c_xa_rdonly ∷ voting 12 Stage.prepare_requested c_xa_ok ∷ [];
  correlation = 5;
}

abbrev pub in_progress : State
in_progress = record two_resources { transactions = half_prepared ∷ [] }
