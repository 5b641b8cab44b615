-- ===== src/Pool.antt =====
-- services/controller/internal/app/swarm/pool.go: the pool of workers.
--
-- The workers are shared objects: the index, and each pending restart, holds a pointer, which is a
-- position in the heap. A worker that has left the index stays in the heap, so that a late restart
-- marks the old object and not a new worker of that name. A method holds the pool's mutex throughout
-- and is one step; a restart is a goroutine of its own, and its end is a step.
--
-- What goes out through `delegated.Assign` is kept in `published`, newest first; its error is only
-- logged. `requestRestart` sleeps and then asks the delegate to restart the worker: the delegate's
-- answer is an argument. The version is the bit pattern of an int64. `none` is a panic.
pub mod Sorting
pub mod Order
pub mod Members
pub mod Marks
pub mod Resize
pub mod System
pub mod Pointers
pub mod Invariant
pub mod Conciliation
pub mod Settled
pub mod Restarting
pub mod Progress
use k8s_swarm.Prelude.{
  ℕ, zero, suc, ◌+◌, ◌%◌, ◌^◌, List, [], ◌∷◌, ◌++◌, Option, none, some, Bool, true, false, not,
  ◌||◌, Bytes, Dict, lookup, insert, delete, length, get_elem?, ltb, ◌==◌, if◌then◌else◌, ◌>>=◌,
}
use k8s_swarm.Config.{Workloads}
use k8s_swarm.State.{State, balance_workload}
use k8s_swarm.Worker.{Worker, new_worker, is_to_refresh, mark_to_refresh, mark_refreshed, less}

pub record Pool : Type 0 where
  pub index : Dict ℕ
  pub heap : List Worker
  pub state : State
  pub version : ℕ
  pub expected_size : ℕ
  pub under_variation : Bool
  pub stopped : Bool
  pub restarting : List ℕ
  pub published : List Workloads

-- `NewWorkerPool`; the loop that it starts is the step `conciliate`.
unfoldable pub new_worker_pool : State → Pool
new_worker_pool cmp = record {
  index = [];
  heap = [];
  state = cmp;
  version = 0;
  expected_size = 0;
  under_variation = true;
  stopped = false;
  restarting = [];
  published = [];
}

-- The loop of `geAllWorkers` over the index, each worker with its pointer.
unfoldable pub collect : List Worker → Dict ℕ → List (ℕ × Worker)
collect heap [] = []
collect heap ((name, ptr) ∷ index) =
    let rest = collect heap index in
    elim (get_elem? heap ptr) [ none ↦ rest | some w ↦ (ptr, w) ∷ rest ]

-- sort.Sort by `Less`.
unfoldable pub insert_sorted : ℕ × Worker → List (ℕ × Worker) → List (ℕ × Worker)
insert_sorted (p, w) [] = (p, w) ∷ []
insert_sorted (p, w) ((q, v) ∷ ws) =
    if less v w then (q, v) ∷ insert_sorted (p, w) ws else (p, w) ∷ (q, v) ∷ ws

unfoldable pub sort : List (ℕ × Worker) → List (ℕ × Worker)
unfolding insert_sorted
sort [] = []
sort (w ∷ ws) = insert_sorted w (sort ws)

-- `geAllWorkers`.
unfoldable pub get_all_workers : Pool → List (ℕ × Worker)
get_all_workers p = sort (collect p.heap p.index)

-- A write through a pointer.
unfoldable pub modify : ℕ → (Worker → Worker) → List Worker → List Worker
modify ptr f [] = []
modify zero f (w ∷ heap) = f w ∷ heap
modify (suc ptr) f (w ∷ heap) = w ∷ modify ptr f heap

-- The loop that marks the first `total` workers.
unfoldable pub mark_first : ℕ → List (ℕ × Worker) → List Worker → List Worker
mark_first zero ws heap = heap
mark_first (suc total) [] heap = heap
mark_first (suc total) ((ptr, w) ∷ ws) heap = mark_first total ws (modify ptr mark_to_refresh heap)

-- `totalToRefresh`, from the previous size, the new one and the number of workers at hand.
unfoldable pub total_to_refresh : ℕ → ℕ → ℕ → ℕ
total_to_refresh previous_size new_size known =
    let total = if ltb previous_size new_size then previous_size else new_size in
    if ltb known total then known else total

unfoldable pub update_expected_size : Pool → ℕ → Option Pool
update_expected_size p new_size =
    if p.expected_size == new_size
    then some p
    else (balance_workload p.state new_size ((p.version + 1) % 2 ^ 64) >>= λ balanced.
        let assigned : Pool = record p {
          expected_size = new_size;
          under_variation = true;
          version = (p.version + 1) % 2 ^ 64;
          state = balanced;
          published = balanced.config ∷ p.published;
        } in
        let ws = get_all_workers assigned in
        some (
          if p.expected_size == 0 then assigned else record assigned {
            heap = mark_first (total_to_refresh p.expected_size new_size (length ws)) ws p.heap;
          }))

unfoldable pub add_worker_if_not_exists : Pool → ℕ → Bytes → Bytes → Pool × Bool
add_worker_if_not_exists p idx name ip = elim (lookup name p.index) [
  | some _ ↦ (p, false)
  | none ↦ (
    record p {
      index = insert name (length p.heap) p.index;
      heap = p.heap ++ new_worker idx name ip ∷ [];
    },
    true,
  )
]

unfoldable pub remove_worker_by_name : Pool → Bytes → Pool
remove_worker_by_name p name = record p { index = delete name p.index }

-- Closing a channel that is closed panics.
unfoldable pub terminate : Pool → Option Pool
terminate p = if p.stopped then none else some (record p { stopped = true })

-- The loop of `conciliate`: the workers for which it starts a restart.
unfoldable pub to_restart : List (ℕ × Worker) → List ℕ
to_restart [] = []
to_restart ((ptr, w) ∷ ws) =
    let rest = to_restart ws in if not (is_to_refresh w) then rest else ptr ∷ rest

unfoldable pub conciliate : Pool → Pool
conciliate p = if p.expected_size == 0 then p else if not p.under_variation then p else record p {
  restarting = p.restarting ++ to_restart (get_all_workers p);
  under_variation = false;
}

-- One goroutine less for the worker.
unfoldable pub finish : ℕ → List ℕ → List ℕ
finish ptr [] = []
finish ptr (q ∷ qs) = if q == ptr then qs else q ∷ finish ptr qs

-- A goroutine for the worker is running.
unfoldable pub among_restarts : ℕ → List ℕ → Bool
among_restarts ptr [] = false
among_restarts ptr (q ∷ qs) = q == ptr || among_restarts ptr qs

-- The end of `requestRestart`, with the delegate's answer to `RestartWorker`.
unfoldable pub request_restart : Pool → ℕ → Bool → Pool
request_restart p ptr restarted =
    let ended : Pool = record p { restarting = finish ptr p.restarting } in
    if restarted then record ended { heap = modify ptr mark_refreshed p.heap } else ended

-- `worker(name)`; `none` is the error.
unfoldable pub worker : Pool → Bytes → Option Worker
worker p name = lookup name p.index >>= λ ptr. get_elem? p.heap ptr
