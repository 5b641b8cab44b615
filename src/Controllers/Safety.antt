-- ===== src/Controllers/Safety.antt =====
-- The steps of the controller with informers of the right kinds.
use k8s_swarm.Prelude.{List, Option, some, ◌≡◌, refl, Bytes, Dict}
use k8s_swarm.Config.{Job}
use k8s_swarm.State.{new_state}
use k8s_swarm.Pool.{Pool, new_worker_pool, conciliate, request_restart}
use k8s_swarm.Pool.System.{tick, restart, stop}
use k8s_swarm.Objects.{Object}
use k8s_swarm.Operator.{Event}
use k8s_swarm.Operator.Queues.{Queue}
use k8s_swarm.Operator.Contents.{Contents}
use k8s_swarm.Pod.Steps.{begin}
use k8s_swarm.Storage.{Outcome, stored, refused, panicked, Storage}
use k8s_swarm.Storage
use k8s_swarm.Executor.{restart_worker, is_answered}
use k8s_swarm.Controllers.{System, run_command, notify, end_restart}
use k8s_swarm.Controllers.Stepping
use k8s_swarm.Controllers.Stepping.{
  pod_notice, stateful_set_notice, pod_item, stateful_set_item, ticked, restart_ended, ended,
  elsewhere,
}
use k8s_swarm.Controllers.Surviving.{
  IsCalm, Alive, pod_delivered-Alive, set_delivered-Alive, pods-Alive, sets-Alive, with_pool-Alive,
}
use k8s_swarm.Controllers.Typing.{IsPod, IsSized, NoticeOf, notify-DeliveryOf}

module _ {Q W R : Type 0} (calls : Queue Event Q) (store : Storage W)
    (refresh : Bytes → W → Storage.Call W (Unit {0})) (parse_ip : Bytes → Bytes)
    (get_labels : Object → Option (Dict Bytes)) (key_of deletion_key_of : Object → Option Bytes)
    (watch_label : Bytes) (read : W → R) (safe : W → Type 0) where
  -- The informer of pods delivers pods, and that of StatefulSets delivers StatefulSets with replicas; no
  -- deletion was missed; and what changes elsewhere leaves a safe cluster.
  abbrev pub IsTyped :
      {s t : System Q W}
      → Stepping.Step calls store refresh parse_ip get_labels key_of deletion_key_of watch_label
          read s t
      → Type 0
  IsTyped (pod_notice n) = NoticeOf IsPod n
  IsTyped (stateful_set_notice n) = NoticeOf IsSized n
  IsTyped (pod_item get_by_key e) = Unit
  IsTyped (stateful_set_item get_by_key e) = Unit
  IsTyped (ticked p e running) = Unit
  IsTyped (restart_ended p ptr w e known found) = Unit
  IsTyped (ended p q e st) = Unit
  IsTyped (elsewhere w e) = safe w

  pub data TypedReached (s : System Q W) : System Q W → Type 0 where
    begun : TypedReached s s
    further :
        {t u : System Q W}
        → TypedReached s t
        → (st : Stepping.Step calls store refresh parse_ip get_labels key_of deletion_key_of
            watch_label read t u)
        → IsTyped st
        → TypedReached s u

module _ (parse_ip : Bytes → Bytes) (jobs : List Job) (watch_label : Bytes) {Q W R : Type 0}
    (calls : Queue Event Q) (inside : Event → Q → Type 0) (contents : Contents calls inside)
    (store : Storage W) {safe : W → Type 0} (calm : IsCalm store safe)
    (refresh : Bytes → W → Storage.Call W (Unit {0}))
    (refreshing : (name : Bytes) (w : W) → safe w → safe (refresh name w).cluster)
    (get_labels : Object → Option (Dict Bytes)) (key_of deletion_key_of : Object → Option Bytes)
    (read : W → R) where
  abbrev IsAlive : System Q W → Type 0
  IsAlive s = Alive parse_ip jobs watch_label calls inside contents store calm s

  Step-Alive :
      {s t : System Q W}
      (st : Stepping.Step calls store refresh parse_ip get_labels key_of deletion_key_of watch_label
        read s t)
      → IsTyped calls store refresh parse_ip get_labels key_of deletion_key_of watch_label read safe
          st
      → IsAlive s
      → IsAlive t
  unfolding end_restart restart_worker
  Step-Alive {s} (pod_notice n) h v =
      pod_delivered-Alive parse_ip jobs watch_label calls inside contents store calm
        (notify get_labels key_of deletion_key_of watch_label n) s
        (notify-DeliveryOf IsPod get_labels key_of deletion_key_of watch_label n h) v
  Step-Alive {s} (stateful_set_notice n) h v =
      set_delivered-Alive parse_ip jobs watch_label calls inside contents store calm
        (notify get_labels key_of deletion_key_of watch_label n) s
        (notify-DeliveryOf IsSized get_labels key_of deletion_key_of watch_label n h) v
  Step-Alive {s} (pod_item get_by_key e) h v =
      pods-Alive parse_ip jobs watch_label calls inside contents store calm get_by_key s e v
  Step-Alive {s} (stateful_set_item get_by_key e) h v =
      sets-Alive parse_ip jobs watch_label calls inside contents store calm get_by_key s e v
  Step-Alive {s} (ticked p e running) h v =
      with_pool-Alive parse_ip jobs watch_label calls inside contents store calm s s.cluster p
        (conciliate p) e (tick running) v.secure v
  Step-Alive {s} (restart_ended p ptr w e known found) h v =
      with_pool-Alive parse_ip jobs watch_label calls inside contents store calm s
        (refresh w.name s.cluster).cluster p
        (request_restart p ptr (is_answered (refresh w.name s.cluster).answer)) e
        (restart ptr (is_answered (refresh w.name s.cluster).answer) known)
        (refreshing w.name s.cluster v.secure) v
  Step-Alive {s} (ended p q e st) h v =
      with_pool-Alive parse_ip jobs watch_label calls inside contents store calm s s.cluster p q e
        (stop st) v.secure v
  Step-Alive {s} (elsewhere w e) h v = record {
    runs = v.runs;
    pods_typed = v.pods_typed;
    sets_typed = v.sets_typed;
    secure = h;
  }

  reached-Alive :
      {s t : System Q W}
      → TypedReached calls store refresh parse_ip get_labels key_of deletion_key_of watch_label read
          safe s t
      → IsAlive s
      → IsAlive t
  reached-Alive begun v = v
  reached-Alive (further r st h) v = Step-Alive st h (reached-Alive r v)

  -- The controller keeps its pool. The queue hands out only what was added to it, and it is empty at
  -- first; the storage returns on safe clusters and keeps them safe, as a restart does. If the informers of
  -- pods and of StatefulSets deliver objects of their kind, StatefulSets with replicas and no tombstones,
  -- then no step, in whatever order they come, leaves the process without its pool.
  pub keeps_running :
      (empty : Q) (w : W) (s : System Q W)
      → ((e : Event) → ¬ inside e empty)
      → safe w
      → TypedReached calls store refresh parse_ip get_labels key_of deletion_key_of watch_label read
          safe
          (run_command jobs watch_label empty w)
          s
      → (p : Pool) × (s.pool ≡ some p)
  unfolding run_command
  keeps_running empty w s nothing_in secure r =
      let v = reached-Alive r (record {
        runs = (new_worker_pool (new_state jobs watch_label), refl, begin);
        pods_typed = λ e m. absurd (nothing_in e m);
        sets_typed = λ e m. absurd (nothing_in e m);
        secure = secure;
      }) in
      (v.runs.0, v.runs.1)
