-- ===== src/Examples/Pod.antt =====
-- A pod joins a pool and leaves it, and a StatefulSet sets its size.
use k8s_swarm.Prelude.{[], ◌∷◌, none, some, false, ◌≡◌, ◌≢◌, ◌⊎◌, refl, arith, Bytes, codes}
use k8s_swarm.State.{new_state, worker_name}
use k8s_swarm.Objects.{Pod, StatefulSet, pod, stateful_set}
use k8s_swarm.Operator.{Call}
use k8s_swarm.Pool.{Pool, new_worker_pool, worker}
use k8s_swarm.Pool.Invariant.{Inv}
use k8s_swarm.Pod.{PodIndex, ok, pod_index, is_ready_pod, created_pod, updated_pod}
use k8s_swarm.Pod.Index.{pod_index-worker_name}
use k8s_swarm.Pod.Membership.{IsIndexed}
use k8s_swarm.Pod.Joining.{Becomes, worker-updated_pod}
use k8s_swarm.Pod.Sharing.{IsSent, share-IsSent}
use k8s_swarm.Pod.Steps.{
  Run, begin, pod_call, stateful_set_call, dispatch_pod, dispatch_stateful_set, Run-Inv,
}

abbrev fresh : Pool
fresh = new_worker_pool (new_state (codes "a" ∷ codes "b" ∷ []) (codes "w"))

abbrev parse_ip : Bytes → Bytes
parse_ip ip = ip

abbrev running : Pod
running = record {
  namespace = codes "ns";
  labels = (codes "app", codes "w") ∷ [];
  name = codes "w-3";
  deletion_timestamp = none;
  node_name = codes "node";
  host_network = false;
  pod_ip = codes "10.0.0.1";
  phase = codes "Running";
  conditions = record { type_of = codes "Ready"; status = codes "True" } ∷ [];
  container_statuses = [];
}

pod_index-worker_name_example : pod_index (worker_name (codes "swarm-worker") 42) ≡ ok 42
pod_index-worker_name_example = pod_index-worker_name (codes "swarm-worker") 42 (omega arith)

fresh-IsIndexed : IsIndexed fresh
unfolding new_worker_pool
fresh-IsIndexed = record { keys_unique = tt; points = λ name ptr e. cc }

worker-updated_pod_example :
    ((codes "w-3" ≢ codes "w-3")
      × (worker (updated_pod parse_ip fresh running) (codes "w-3") ≡ worker fresh (codes "w-3")))
    ⊎ ((codes "w-3" ≡ codes "w-3")
        × Becomes parse_ip running
            (worker fresh (codes "w-3"))
            (worker (updated_pod parse_ip fresh running) (codes "w-3")))
worker-updated_pod_example = worker-updated_pod parse_ip fresh running fresh-IsIndexed (codes "w-3")

abbrev joined : Pool
joined = created_pod parse_ip fresh running

joined-Run : Run parse_ip fresh joined
unfolding dispatch_pod k8s_swarm.Pod.created
joined-Run = pod_call (Call.created (pod running)) begin refl

Run-Inv_example : Inv (new_state (codes "a" ∷ codes "b" ∷ []) (codes "w")) joined
Run-Inv_example = Run-Inv parse_ip (codes "a" ∷ codes "b" ∷ []) (codes "w") joined-Run

abbrev three : StatefulSet
three = record { namespace = codes "ns"; labels = []; name = codes "w"; replicas = some 3 }

-- The pool after the StatefulSet was seen.
abbrev sized : Pool
sized = elim (dispatch_stateful_set fresh (Call.created (stateful_set three))) [
  | none ↦ fresh
  | some q ↦ q
]

sized-Run : Run parse_ip fresh sized
unfolding dispatch_stateful_set k8s_swarm.StatefulSets.created k8s_swarm.StatefulSets.resize_to
    k8s_swarm.Pool.update_expected_size new_worker_pool new_state k8s_swarm.State.balance_workload
    k8s_swarm.State.assign_workers k8s_swarm.State.assign_worker k8s_swarm.State.slice
    k8s_swarm.State.worker_size k8s_swarm.State.clean_assignations
sized-Run = stateful_set_call (Call.created (stateful_set three)) begin refl

share-IsSent_example : IsSent (codes "a" ∷ codes "b" ∷ []) (codes "w") sized 1
unfolding dispatch_stateful_set k8s_swarm.StatefulSets.created k8s_swarm.StatefulSets.resize_to
    k8s_swarm.Pool.update_expected_size new_worker_pool new_state k8s_swarm.State.balance_workload
    k8s_swarm.State.assign_workers k8s_swarm.State.assign_worker k8s_swarm.State.slice
    k8s_swarm.State.worker_size k8s_swarm.State.clean_assignations
share-IsSent_example =
    share-IsSent parse_ip (codes "a" ∷ codes "b" ∷ []) (codes "w") 1 sized-Run (omega arith)
