-- ===== src/Worker.antt =====
-- services/controller/internal/app/swarm/worker.go and the worker states of events.go.
--
-- The state's mutex makes each access one step. The field `delegated` holds the pool's own delegate
-- in every worker and is left out; an index is a pod's ordinal, a number that is not negative.
use k8s_swarm.Prelude.{ℕ, Bool, true, false, Bytes, ltb}

pub data WorkerState : Type 0 where
  needs_refresh waiting_assignation syncing : WorkerState

pub record Worker : Type 0 where
  pub name : Bytes
  pub ip : Bytes
  pub index : ℕ
  pub version : ℕ
  pub state : WorkerState

unfoldable pub new_worker : ℕ → Bytes → Bytes → Worker
new_worker idx name ip = record {
  name = name;
  ip = ip;
  index = idx;
  version = 0;
  state = waiting_assignation;
}

-- `NeedsRefresh()`.
unfoldable pub is_to_refresh : Worker → Bool
is_to_refresh w = elim w.state [
  | needs_refresh ↦ true
  | waiting_assignation ↦ false
  | syncing ↦ false
]

unfoldable pub mark_to_refresh : Worker → Worker
mark_to_refresh w = record w { state = needs_refresh }

unfoldable pub mark_refreshed : Worker → Worker
mark_refreshed w = record w { state = syncing }

-- `Less`: the order by which the pool sorts its workers.
unfoldable pub less : Worker → Worker → Bool
less v w = ltb v.index w.index
