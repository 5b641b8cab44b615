-- ===== src/Examples/Pool.antt =====
-- A pool of two workers that grows to three.
use mathlib.Core.List.{Permᴰ}
use mathlib.Core.Option
use k8s_swarm.Prelude.{
  ℕ, List, [], ◌∷◌, ◌++◌, some, true, false, ◌≡◌, ◌≢◌, ◌⊎◌, refl, arith, Dict, codes, length,
}
use k8s_swarm.Config.{Job}
use k8s_swarm.State.{State, new_state, balance_workload}
use k8s_swarm.State.Balance.{new_state-IsNumbered}
use k8s_swarm.Worker.{Worker, waiting_assignation, needs_refresh}
use k8s_swarm.Pool.{
  Pool, new_worker_pool, collect, get_all_workers, update_expected_size, add_worker_if_not_exists,
  conciliate, among_restarts, request_restart, finish, sort, mark_first,
}
use k8s_swarm.Pool.Order.{IndicesDistinct, get_all_workers_deterministic}
use k8s_swarm.Pool.Resize.{IsResized, update_expected_size-IsResized}
use k8s_swarm.Pool.System.{join, tick, Reach}
use k8s_swarm.Pool.Conciliation.{Marked}
use k8s_swarm.Pool.Members.{members, stale_pointers}
use k8s_swarm.Pool.Restarting.{conciliate_restarts}
use k8s_swarm.Pool.Progress.{Drain, none_yet, one_more, restarts_end}
use k8s_swarm.Pool.Settled.{Calm, IsSettled, Calm-IsSettled}

abbrev jobs : List Job
jobs = codes "a" ∷ codes "b" ∷ codes "c" ∷ []

abbrev fresh : Pool
fresh = new_worker_pool (new_state jobs (codes "w"))

abbrev second : Worker
second = record { name = codes "w-1"; ip = []; index = 1; version = 0; state = needs_refresh }

abbrev first : Worker
first = record { name = codes "w-0"; ip = []; index = 0; version = 0; state = waiting_assignation }

-- Worker 1 joined first, and is marked.
abbrev two : Pool
two = record fresh {
  index = (codes "w-1", 0) ∷ (codes "w-0", 1) ∷ [];
  heap = second ∷ first ∷ [];
  expected_size = 2;
  version = 1;
}

abbrev ordered : Dict ℕ
ordered = (codes "w-0", 1) ∷ (codes "w-1", 0) ∷ []

two_distinct : IndicesDistinct (collect two.heap two.index)
unfolding collect
two_distinct = ((λ e. absurd (omega arith), tt), (tt, tt))

get_all_workers_deterministic_example :
    get_all_workers two ≡ get_all_workers (record two { index = ordered })
get_all_workers_deterministic_example =
    get_all_workers_deterministic two ordered (Permᴰ.swap refl refl) two_distinct

-- From 2 to 3: both workers are marked, in the order of their indices.
grows :
    Option.map (λ (q : Pool). q.heap) (update_expected_size two 3)
    ≡ some (second ∷ record first { state = needs_refresh } ∷ [])
unfolding update_expected_size new_worker_pool new_state get_all_workers collect sort mark_first
    balance_workload k8s_swarm.State.assign_workers k8s_swarm.State.assign_worker
    k8s_swarm.State.slice k8s_swarm.State.worker_size k8s_swarm.Pool.total_to_refresh
    k8s_swarm.Worker.less k8s_swarm.Pool.modify k8s_swarm.Worker.mark_to_refresh
grows = refl

update_expected_size-IsResized_example :
    (q : Pool) × (update_expected_size two 3 ≡ some q)
    × (((two.expected_size ≡ 3) × (q ≡ two)) ⊎ ((two.expected_size ≢ 3) × IsResized two 3 q))
unfolding new_worker_pool new_state
update_expected_size-IsResized_example =
    update_expected_size-IsResized two 3 (new_state-IsNumbered jobs (codes "w"))

-- The pool of two, in a variation.
abbrev varying : Pool
varying = record two { under_variation = true }

conciliate_restarts_example :
    ((new : List ℕ) × ((conciliate varying).restarting ≡ varying.restarting ++ new)
      × Permᴰ new (stale_pointers (members varying.heap varying.index)))
    × (conciliate (conciliate varying) ≡ conciliate varying)
conciliate_restarts_example = conciliate_restarts varying (omega arith) refl

-- Two workers join a new pool.
abbrev joined : Pool
joined =
    (add_worker_if_not_exists (add_worker_if_not_exists fresh 0 (codes "w-0") []).0 1 (codes "w-1")
      []).0

joined-Reach : Reach fresh joined
joined-Reach =
    Reach.next (Reach.next Reach.here (join 0 (codes "w-0") [])) (join 1 (codes "w-1") [])

-- The restart of worker 1 has failed.
abbrev failed : Pool
failed = request_restart (record two { under_variation = false; restarting = 0 ∷ [] }) 0 false

failed-IsSettled : IsSettled 0 failed
unfolding request_restart among_restarts finish
failed-IsSettled = record { over = refl; idle = refl }

Calm-IsSettled_example : IsSettled 0 (conciliate failed)
unfolding request_restart conciliate new_worker_pool
Calm-IsSettled_example = Calm-IsSettled 0 (Calm.next Calm.here (tick refl) refl) failed-IsSettled

-- The restart of worker 1 succeeds.
abbrev restarted : Pool
restarted = request_restart (conciliate two) 0 true

restarted-Drain : Drain (conciliate two) (length (conciliate two).restarting) restarted
unfolding conciliate new_worker_pool get_all_workers collect sort k8s_swarm.Pool.to_restart
    k8s_swarm.Pool.insert_sorted k8s_swarm.Worker.less k8s_swarm.Worker.is_to_refresh among_restarts
restarted-Drain = one_more 0 none_yet refl

restarts_end_example :
    ((r : Pool) × Drain (conciliate two) (length (conciliate two).restarting) r)
    × (restarted.restarting ≡ [])
    × ¬ Marked restarted 0
unfolding new_worker_pool
restarts_end_example = restarts_end two 0 (refl, (refl, tt)) (omega arith) refl restarted-Drain
