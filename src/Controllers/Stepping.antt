-- ===== src/Controllers/Stepping.antt =====
-- The whole controller as a transition system.
use k8s_swarm.Prelude.{ℕ, Option, some, true, false, ◌≡◌, Bytes, Dict, get_elem?}
use k8s_swarm.Worker.{Worker}
use k8s_swarm.Pool.{Pool, conciliate, among_restarts, terminate}
use k8s_swarm.Objects.{Object}
use k8s_swarm.Operator.{Event, Indexed}
use k8s_swarm.Operator.Queues.{Queue}
use k8s_swarm.Storage.{Outcome, stored, refused, panicked, Storage}
use k8s_swarm.Storage
use k8s_swarm.Controllers.{
  System, process_pods, process_stateful_sets, deliver_pod, deliver_stateful_set, Notice, notify,
  end_restart,
}

-- The cluster's parts that the controller works with. `read` is what the storage gives back, and `view`
-- what of an assignment it keeps.
module _ {Q W R : Type 0} (calls : Queue Event Q) (store : Storage W)
    (refresh : Bytes → W → Storage.Call W (Unit {0})) (parse_ip : Bytes → Bytes)
    (get_labels : Object → Option (Dict Bytes)) (key_of deletion_key_of : Object → Option Bytes)
    (watch_label : Bytes) (read : W → R) where
  -- What may happen next: an informer delivers, a controller works off an item with what its informer's
  -- indexer answers at that time (any answer, since objects come and go), the conciliation ticks, a
  -- restart of a worker that is known ends, the pool is told to end, or something else changes in the
  -- cluster.
  pub data Step (s : System Q W) : System Q W → Type 0 where
    pod_notice :
        (n : Notice)
        → Step s
            (deliver_pod calls store (notify get_labels key_of deletion_key_of watch_label n) s)
    stateful_set_notice :
        (n : Notice)
        → Step s (
            deliver_stateful_set calls store
              (notify get_labels key_of deletion_key_of watch_label n)
              s)
    pod_item :
        (get_by_key : Bytes → Indexed) {t : System Q W}
        → process_pods calls store parse_ip get_by_key s ≡ some t
        → Step s t
    stateful_set_item :
        (get_by_key : Bytes → Indexed) {t : System Q W}
        → process_stateful_sets calls store get_by_key s ≡ some t
        → Step s t
    ticked :
        (p : Pool)
        → s.pool ≡ some p
        → p.stopped ≡ false
        → Step s (record s { pool = some (conciliate p) })
    restart_ended :
        (p : Pool) (ptr : ℕ) (w : Worker)
        → s.pool ≡ some p
        → among_restarts ptr p.restarting ≡ true
        → get_elem? p.heap ptr ≡ some w
        → Step s (end_restart refresh s p ptr w)
    ended :
        (p q : Pool) → s.pool ≡ some p → terminate p ≡ some q → Step s (record s { pool = some q })
    elsewhere : (w : W) → read w ≡ read s.cluster → Step s (record s { cluster = w })

  pub data Reached (s : System Q W) : System Q W → Type 0 where
    started : Reached s s
    after : {t u : System Q W} → Reached s t → Step t u → Reached s u
