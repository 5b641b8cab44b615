-- ===== src/Executor.antt =====
-- services/controller/internal/app/swarm/executor.go, which stands between the pool and the cluster, and
-- services/controller/internal/infra/k8s/operator/pod/provider.go, which restarts a worker by deleting
-- its pod. `Assign` is in `Storage`.
--
-- The client for pods is an argument. An error that is wrapped is no StatusError any more.
use k8s_swarm.Prelude.{Option, none, some, Bool, true, false, Bytes}
use k8s_swarm.Config.{Workload}
use k8s_swarm.Worker.{Worker}
use k8s_swarm.Storage.{Answer, answered, status_error, other_error, Call}

-- `Delete` of the pods' client, to a namespace and a name.
abbrev pub PodClient : Type 0 → Type 0
PodClient W = (namespace name : Bytes) → W → Call W (Unit {0})

abbrev wrapped : Answer (Unit {0}) → Answer (Unit {0})
wrapped (answered u) = answered u
wrapped status_error = other_error
wrapped other_error = other_error

module _ {W : Type 0} where
  unfoldable pub refresh_pod : PodClient W → Bytes → Bytes → W → Call W (Unit {0})
  refresh_pod client namespace name w =
      let c = client namespace name w in record { cluster = c.cluster; answer = wrapped c.answer }

  unfoldable pub restart_worker : (Bytes → W → Call W (Unit {0})) → Bytes → W → Call W (Unit {0})
  restart_worker manager name w = manager name w

-- `Assignation`, with the provider's answer for an address; `none` is an error.
unfoldable pub worker_assignation : (Bytes → Option Workload) → Worker → Option Workload
worker_assignation remotes w = elim (remotes w.ip) [ none ↦ none | some res ↦ some res ]

-- There was no error.
abbrev pub is_answered : {A : Type 0} → Answer A → Bool
is_answered (answered a) = true
is_answered status_error = false
is_answered other_error = false
