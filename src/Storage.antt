-- ===== src/Storage.antt =====
-- Where assignments are stored: services/controller/internal/app/swarm/executor.go and the
-- ProviderMiddleware of services/controller/internal/infra/k8s/operator/crd/provider.go.
--
-- A call to the API server works on the cluster, of a type `W` that the model leaves open.
pub mod Swarms
pub mod ConfigMaps
pub mod Decoding
pub mod Writing
pub mod Chain
pub mod ReadingBack
use k8s_swarm.Prelude.{ℕ, Option, Bytes}
use k8s_swarm.Config.{Workload, Workloads}
use k8s_swarm.Worker.{Worker}

-- What a call to the API server gives: a value, a *apiErrors.StatusError or another error.
pub data Answer (A : Type 0) : Type 0 where
  answered : A → Answer A
  status_error other_error : Answer A

pub record Call (W A : Type 0) : Type 0 where
  pub cluster : W
  pub answer : Answer A

-- What `Set` does: it returns nil, returns an error, or panics.
pub data Outcome (W : Type 0) : Type 0 where
  stored : W → Outcome W
  refused : W → Outcome W
  panicked : W → Outcome W

-- A storage's `Set`.
abbrev pub Storage : Type 0 → Type 0
Storage W = Workloads → W → Outcome W

-- `(pm *ProviderMiddleware) Set`.
unfoldable pub set_both : {W : Type 0} → Storage W → Storage W → Storage W
set_both prev next a w = elim (prev a w) [
  | refused w' ↦ refused w'
  | panicked w' ↦ panicked w'
  | stored w' ↦ elim (next a w') [
    | refused w'' ↦ refused w''
    | panicked w'' ↦ panicked w''
    | stored w'' ↦ stored w''
  ]
]

-- `(e *executor) Assign`.
unfoldable pub assign : {W : Type 0} → Storage W → Storage W
assign storage w c = storage w c
