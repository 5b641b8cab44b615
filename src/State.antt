-- ===== src/State.antt =====
-- services/controller/internal/app/swarm/state.go: the assignment of jobs to workers.
--
-- A call holds the state's mutex throughout, so it is one step here. `none` is a panic. The results
-- of type error are always nil but in `workload`, where `none` is the error. A count of workers is a
-- number that is not negative (a StatefulSet's replicas); the products stay below the length of the
-- job list plus the count, so that an int does not wrap.
pub mod Labels
pub mod Shares
pub mod Balance
pub mod Reads
pub mod Coverage
pub mod Lost
use k8s_swarm.Prelude.{
  ℕ, zero, suc, ◌+◌, ◌-◌, ◌*◌, ◌/◌, ◌%◌, List, [], ◌∷◌, ◌++◌, Option, none, some, Bool, ◌&&◌, ◌≡◌,
  refl, Bytes, codes, Dict, lookup, insert, delete, length, take, drop, ltb, leb, ◌==◌,
  if◌then◌else◌, ◌>>=◌,
}
use k8s_swarm.Text.{format}
use k8s_swarm.Config.{Job, Workload, Workloads}

pub record State : Type 0 where
  pub set_name : Bytes
  pub jobs : List Job
  pub config : Workloads

unfoldable pub new_state : List Job → Bytes → State
new_state key_set set_name = record {
  set_name = set_name;
  jobs = key_set;
  config = record { workloads = []; version = 0 };
}

-- `fmt.Sprintf("%s-%d", setName, i)`.
unfoldable pub worker_name : Bytes → ℕ → Bytes
worker_name set_name i = set_name ++ b'-' ∷ format i

-- `s[start:end]`, which panics unless start ≤ end ≤ len(s).
unfoldable pub slice {ℓ} : {A : Type ℓ} → ℕ → ℕ → List A → Option (List A)
slice start end xs =
    if leb start end && leb end (length xs) then some (take (end - start) (drop start xs)) else none

-- `size`: the first `modulePartSize` workers get one job more.
unfoldable pub worker_size : ℕ → ℕ → ℕ → ℕ
worker_size part_size module_part_size i =
    if ltb i module_part_size then part_size + 1 else part_size

-- The loop body of `BalanceWorkload` for worker `i`.
unfoldable pub assign_worker : State → ℕ → ℕ → ℕ → Dict Workload → Option (Dict Workload)
assign_worker s part_size module_part_size i workloads =
    let name = worker_name s.set_name i in
    let present : Dict Workload = elim (lookup name workloads) [
      | none ↦ insert name (record { jobs = []; version = 0 }) workloads
      | some _ ↦ workloads
    ] in
    let size = worker_size part_size module_part_size i in
    let start = i * size in
    let end : ℕ = if ltb (length s.jobs) ((i + 1) * size) then length s.jobs else (i + 1) * size in
    slice start end s.jobs >>= λ assigned.
    some (insert name (record { jobs = assigned; version = 0 }) present)

-- The loop, with the rounds left and the worker whose turn it is.
unfoldable pub assign_workers : State → ℕ → ℕ → ℕ → ℕ → Dict Workload → Option (Dict Workload)
assign_workers s part_size module_part_size zero i workloads = some workloads
assign_workers s part_size module_part_size (suc rounds) i workloads =
    assign_worker s part_size module_part_size i workloads >>= λ assigned.
    assign_workers s part_size module_part_size rounds (suc i) assigned

-- The loop of `cleanAssignations`, with the rounds left.
unfoldable pub delete_workers : Bytes → ℕ → ℕ → Dict Workload → Dict Workload
delete_workers set_name zero i workloads = workloads
delete_workers set_name (suc rounds) i workloads =
    delete_workers set_name rounds (suc i) (delete (worker_name set_name i) workloads)

unfoldable pub clean_assignations : State → ℕ → State
clean_assignations s total_workers =
    let org_size = length s.config.workloads in
    record s {
      config = record s.config {
        workloads =
            delete_workers s.set_name (org_size - total_workers) total_workers s.config.workloads;
      };
    }

unfoldable pub balance_workload : State → ℕ → ℕ → Option State
balance_workload s total_workers version =
    if total_workers == 0
    then some (clean_assignations s 0)
    else (assign_workers s (length s.jobs / total_workers) (length s.jobs % total_workers)
          total_workers 0 s.config.workloads
        >>= λ workloads.
            let balanced : State = record s {
              config = record { workloads = workloads; version = version };
            } in
            some (
              if ltb total_workers (length workloads)
              then clean_assignations balanced total_workers
              else balanced))

-- `Workload(workerIdx)`.
unfoldable pub workload : State → ℕ → Option Workload
workload s worker_idx = lookup (worker_name s.set_name worker_idx) s.config.workloads

unfoldable pub size : State → ℕ
size s = length s.config.workloads
