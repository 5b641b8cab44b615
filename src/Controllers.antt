-- ===== src/Controllers.antt =====
-- services/controller/cmd/internal.go and external.go: the controllers of pods and of StatefulSets, each
-- with its queue, over one pool, whose executor writes to the storage and deletes pods.
--
-- The state of the cluster, of a type `W`, and of a queue, of a type `Q`, are left open. A controller is
-- one worker goroutine: one item, from `Get` to `Done`, is a step, and so is a delivery of an informer.
-- What the pool sends out is stored in the step that sends it. `none` for the pool stands for a process
-- that a panic has ended. The third controller of external.go only prints.
pub mod Composing
pub mod Moving
pub mod Stepping
pub mod Keeping
pub mod Storing
pub mod Answering
pub mod Typing
pub mod Surviving
pub mod Safety
pub mod External
pub mod Wiring
use k8s_swarm.Prelude.{
  ℕ, List, [], ◌∷◌, Option, none, some, Bool, true, false, ◌≡◌, Bytes, Dict, length, get_elem?,
  ◌==◌, if◌then◌else◌, ◌>>=◌,
}
use k8s_swarm.Config.{Job, Workloads}
use k8s_swarm.State.{new_state}
use k8s_swarm.Worker.{Worker}
use k8s_swarm.Pool.{Pool, new_worker_pool, conciliate, request_restart, among_restarts}
use k8s_swarm.Objects.{Object}
use k8s_swarm.Operator.{
  Event, Delivered, Delivery, panics, skipped, queued, validate, add, update, delete, Indexed, Call,
  handle,
}
use k8s_swarm.Operator.Queues.{Queue, Handled, Controller, process_next_item}
use k8s_swarm.Pod.Steps.{dispatch_pod, dispatch_stateful_set}
use k8s_swarm.Storage.{Outcome, stored, refused, panicked, Storage}
use k8s_swarm.Storage
use k8s_swarm.Executor.{restart_worker, is_answered}

-- `stored` tells whether the last `Assign` returned no error.
pub record System (Q W : Type 0) : Type 0 where
  pub pods : Q
  pub stateful_sets : Q
  pub pool : Option Pool
  pub cluster : W
  pub stored : Bool

-- What `Run` makes before it starts the controllers.
unfoldable pub run_command : {Q W : Type 0} → List Job → Bytes → Q → W → System Q W
run_command jobs watch_label empty w = record {
  pods = empty;
  stateful_sets = empty;
  pool = some (new_worker_pool (new_state jobs watch_label));
  cluster = w;
  stored = false;
}

-- `Handle` of a processor, whose handler makes a call on the pool.
unfoldable pub handle_on :
    (Pool → Call → Option Pool) → (Bytes → Indexed) → Event → Option Pool → Handled (Option Pool)
handle_on dispatch get_by_key e none = record { state = none; failed = false }
handle_on dispatch get_by_key e (some p) = elim (handle get_by_key e) [
  | none ↦ record { state = some p; failed = true }
  | some c ↦ record { state = dispatch p c; failed = false }
]

-- The assignment that a call on the pool has sent out.
unfoldable pub sent_by : Option Pool → Pool → Option Workloads
sent_by none q = none
sent_by (some p) q =
    if length p.published == length q.published then none else get_elem? q.published 0

module _ {Q W : Type 0} (calls : Queue Event Q) (store : Storage W) where
  -- The pool after a call, with what the executor's `Assign` does on the way.
  unfoldable pub apply : System Q W → Option Pool → System Q W
  apply s none = record s { pool = none }
  apply s (some q) = elim (sent_by s.pool q) [
    | none ↦ record s { pool = some q }
    | some a ↦ elim (Storage.assign store a s.cluster) [
      | stored v ↦ record s { pool = some q; cluster = v; stored = true }
      | refused v ↦ record s { pool = some q; cluster = v; stored = false }
      | panicked v ↦ record s { pool = none; cluster = v; stored = false }
    ]
  ]

  unfoldable pub process_pods :
      (Bytes → Bytes) → (Bytes → Indexed) → System Q W → Option (System Q W)
  process_pods parse_ip get_by_key s =
      process_next_item calls (handle_on (dispatch_pod parse_ip) get_by_key)
        (record { queue = s.pods; state = s.pool })
      >>= λ c. some (apply (record s { pods = c.queue }) c.state)

  unfoldable pub process_stateful_sets : (Bytes → Indexed) → System Q W → Option (System Q W)
  process_stateful_sets get_by_key s =
      process_next_item calls (handle_on dispatch_stateful_set get_by_key)
        (record { queue = s.stateful_sets; state = s.pool })
      >>= λ c. some (apply (record s { stateful_sets = c.queue }) c.state)

  -- A delivery of the informer of pods, and one of that of StatefulSets.
  unfoldable pub deliver_pod : Delivery → System Q W → System Q W
  deliver_pod panics s = record s { pool = none }
  deliver_pod skipped s = s
  deliver_pod (queued e) s = record s { pods = calls.add e s.pods }

  unfoldable pub deliver_stateful_set : Delivery → System Q W → System Q W
  deliver_stateful_set panics s = record s { pool = none }
  deliver_stateful_set skipped s = s
  deliver_stateful_set (queued e) s = record s { stateful_sets = calls.add e s.stateful_sets }

-- What the two event handlers, which have the same selector, make of what an informer hands over.
pub data Notice : Type 0 where
  added deleted : Delivered → Notice
  updated : (old_obj new_obj : Delivered) → Notice

unfoldable pub notify :
    (Object → Option (Dict Bytes))
    → (Object → Option Bytes)
    → (Object → Option Bytes)
    → Bytes
    → Notice
    → Delivery
notify get_labels key_of deletion_key_of label (added d) = add (validate get_labels label) key_of d
notify get_labels key_of deletion_key_of label (updated old new) =
    update (validate get_labels label) key_of old new
notify get_labels key_of deletion_key_of label (deleted d) =
    delete (validate get_labels label) deletion_key_of d

-- The end of a restart of the worker, with the pool's `requestRestart`.
unfoldable pub end_restart :
    {Q W : Type 0}
    → (Bytes → W → Storage.Call W (Unit {0}))
    → System Q W
    → Pool
    → ℕ
    → Worker
    → System Q W
end_restart refresh s p ptr w =
    let c = restart_worker refresh w.name s.cluster in
    record s { pool = some (request_restart p ptr (is_answered c.answer)); cluster = c.cluster }
