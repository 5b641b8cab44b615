-- ===== src/Controllers/Storing.antt =====
-- What is stored in the states that the controller reaches.
use k8s_swarm.Prelude.{
  ℕ, List, Option, some, Bool, true, false, ◌≡◌, inl, inr, refl, subst, ◌∙◌, arith, Bytes, Dict,
  Option-cases,
}
use k8s_swarm.Config.{Job, Workloads}
use k8s_swarm.State.{new_state}
use k8s_swarm.Worker.{Worker}
use k8s_swarm.Pool.{Pool, new_worker_pool, conciliate, request_restart, among_restarts, terminate}
use k8s_swarm.Pool.System.{tick, restart, stop}
use k8s_swarm.Pool.Invariant.{Inv, Assigned}
use k8s_swarm.Objects.{Object}
use k8s_swarm.Operator.{Event, Delivery, panics, skipped, queued, Indexed}
use k8s_swarm.Operator.Queues.{Queue, process_next_item}
use k8s_swarm.Pod.Steps.{dispatch_pod, dispatch_stateful_set, begin, Run-Inv}
use k8s_swarm.Storage.{Outcome, stored, refused, panicked, Storage}
use k8s_swarm.Storage
use k8s_swarm.Controllers.Keeping.{
  IsKeeping, Kept, gone, kept, Run-of_Kept, read-of_Kept, moved-Kept, own-Kept,
}
use k8s_swarm.Controllers.Moving.{pod-Moves, stateful_set-Moves, next-Moves}
use k8s_swarm.Controllers.Stepping
use k8s_swarm.Controllers.Stepping.{
  pod_notice, stateful_set_notice, pod_item, stateful_set_item, ticked, restart_ended, ended,
  elsewhere, Reached, started, after,
}
use k8s_swarm.Executor.{restart_worker, is_answered}
use k8s_swarm.Controllers.{
  System, run_command, handle_on, apply, process_pods, process_stateful_sets, deliver_pod,
  deliver_stateful_set, notify, end_restart,
}

restart_state :
    (p : Pool) (ptr : ℕ) (restarted : Bool) → (request_restart p ptr restarted).state ≡ p.state
unfolding request_restart
restart_state p ptr true = refl
restart_state p ptr false = refl

module _ {W R : Type 0} (parse_ip : Bytes → Bytes) (jobs : List Job) (watch_label : Bytes)
    (read : W → R) (view : Workloads → R) where
  module _ {Q : Type 0} (calls : Queue Event Q) (store : Storage W)
      (refresh : Bytes → W → Storage.Call W (Unit {0}))
      (keeping : IsKeeping store refresh read view) where
    abbrev KeptIn : System Q W → Type 0
    KeptIn s = Kept parse_ip jobs watch_label read view s.pool s.cluster s.stored

    deliver_pod-Kept :
        (d : Delivery) (s : System Q W) → KeptIn s → KeptIn (deliver_pod calls store d s)
    unfolding deliver_pod
    deliver_pod-Kept panics s k = gone
    deliver_pod-Kept skipped s k = k
    deliver_pod-Kept (queued e) s k = k

    deliver_stateful_set-Kept :
        (d : Delivery) (s : System Q W) → KeptIn s → KeptIn (deliver_stateful_set calls store d s)
    unfolding deliver_stateful_set
    deliver_stateful_set-Kept panics s k = gone
    deliver_stateful_set-Kept skipped s k = k
    deliver_stateful_set-Kept (queued e) s k = k

    pods-Kept :
        (pod_by_key : Bytes → Indexed) {t : System Q W} (s : System Q W)
        → KeptIn s
        → process_pods calls store parse_ip pod_by_key s ≡ some t
        → KeptIn t
    unfolding process_pods
    pods-Kept pod_by_key {t} s k e =
        elim (Option-cases (
          process_next_item calls (handle_on (dispatch_pod parse_ip) pod_by_key)
            (record { queue = s.pods; state = s.pool }))) [
              | inl shut ↦ absurd (ground arith)
              | inr (c, next) ↦
                  subst KeptIn {x = apply calls store (record s { pods = c.queue }) c.state} {y = t}
                    (ground arith)
                    (moved-Kept parse_ip jobs watch_label read view calls store refresh keeping
                      (record s { pods = c.queue }) c.state k
                      (next-Moves parse_ip (new_worker_pool (new_state jobs watch_label))
                        (dispatch_pod parse_ip)
                        (pod-Moves parse_ip (new_worker_pool (new_state jobs watch_label)))
                        pod_by_key calls s.pods s.pool c next))
            ]

    stateful_sets-Kept :
        (stateful_set_by_key : Bytes → Indexed) {t : System Q W} (s : System Q W)
        → KeptIn s
        → process_stateful_sets calls store stateful_set_by_key s ≡ some t
        → KeptIn t
    unfolding process_stateful_sets
    stateful_sets-Kept stateful_set_by_key {t} s k e =
        elim (Option-cases (
          process_next_item calls (handle_on dispatch_stateful_set stateful_set_by_key)
            (record { queue = s.stateful_sets; state = s.pool }))) [
              | inl shut ↦ absurd (ground arith)
              | inr (c, next) ↦
                  subst KeptIn
                    {x = apply calls store (record s { stateful_sets = c.queue }) c.state} {y = t}
                    (ground arith)
                    (moved-Kept parse_ip jobs watch_label read view calls store refresh keeping
                      (record s { stateful_sets = c.queue }) c.state k
                      (next-Moves parse_ip (new_worker_pool (new_state jobs watch_label))
                        dispatch_stateful_set
                        (stateful_set-Moves parse_ip (new_worker_pool (new_state jobs watch_label)))
                        stateful_set_by_key calls s.stateful_sets s.pool c next))
            ]

    -- Steps of the conciliation loop, of a restart's end and of the end of the pool.
    ticked-Kept :
        (s : System Q W) (p : Pool)
        → KeptIn s
        → s.pool ≡ some p
        → p.stopped ≡ false
        → Kept parse_ip jobs watch_label read view (some (conciliate p)) s.cluster s.stored
    unfolding conciliate
    ticked-Kept s p k e running =
        own-Kept parse_ip jobs watch_label read view calls store refresh keeping s s.cluster p
          (conciliate p) k e (tick running) (ground arith) refl

    restart_ended-Kept :
        (s : System Q W) (p : Pool) (ptr : ℕ) (w : Worker)
        → KeptIn s
        → s.pool ≡ some p
        → among_restarts ptr p.restarting ≡ true
        → KeptIn (end_restart refresh s p ptr w)
    unfolding end_restart restart_worker
    restart_ended-Kept s p ptr w k e known =
        own-Kept parse_ip jobs watch_label read view calls store refresh keeping s
          (refresh w.name s.cluster).cluster p
          (request_restart p ptr (is_answered (refresh w.name s.cluster).answer)) k e
          (restart ptr (is_answered (refresh w.name s.cluster).answer) known)
          (restart_state p ptr (is_answered (refresh w.name s.cluster).answer))
          (keeping.read_refresh w.name s.cluster)

    ended-Kept :
        (s : System Q W) (p q : Pool)
        → KeptIn s
        → s.pool ≡ some p
        → terminate p ≡ some q
        → Kept parse_ip jobs watch_label read view (some q) s.cluster s.stored
    unfolding terminate
    ended-Kept s p q k e st =
        own-Kept parse_ip jobs watch_label read view calls store refresh keeping s s.cluster p q k e
          (stop st) (ground arith) refl

    elsewhere-Kept :
        {o : Option Pool} {w : W} {b : Bool} (v : W)
        → Kept parse_ip jobs watch_label read view o w b
        → read v ≡ read w
        → Kept parse_ip jobs watch_label read view o v b
    elsewhere-Kept v gone e = gone
    elsewhere-Kept v (kept r known) e = kept r (λ h. e ∙ known h)

    module _ (get_labels : Object → Option (Dict Bytes))
        (key_of deletion_key_of : Object → Option Bytes) where
      Step-Kept :
          {s t : System Q W}
          → KeptIn s
          → Stepping.Step calls store refresh parse_ip get_labels key_of deletion_key_of watch_label
              read s t
          → KeptIn t
      Step-Kept {s} k (pod_notice n) =
          deliver_pod-Kept (notify get_labels key_of deletion_key_of watch_label n) s k
      Step-Kept {s} k (stateful_set_notice n) =
          deliver_stateful_set-Kept (notify get_labels key_of deletion_key_of watch_label n) s k
      Step-Kept {s} k (pod_item get_by_key e) = pods-Kept get_by_key s k e
      Step-Kept {s} k (stateful_set_item get_by_key e) = stateful_sets-Kept get_by_key s k e
      Step-Kept {s} k (ticked p e running) = ticked-Kept s p k e running
      Step-Kept {s} k (restart_ended p ptr w e known found) = restart_ended-Kept s p ptr w k e known
      Step-Kept {s} k (ended p q e st) = ended-Kept s p q k e st
      Step-Kept k (elsewhere v e) = elsewhere-Kept v k e

      Reached-Kept :
          {s t : System Q W}
          → KeptIn s
          → Reached calls store refresh parse_ip get_labels key_of deletion_key_of watch_label read
              s t
          → KeptIn t
      Reached-Kept k started = k
      Reached-Kept k (after r st) = Step-Kept (Reached-Kept k r) st

      pub Inv-of_Reached :
          (empty : Q) (w : W) (s : System Q W) (p : Pool)
          → Reached calls store refresh parse_ip get_labels key_of deletion_key_of watch_label read
              (run_command jobs watch_label empty w)
              s
          → s.pool ≡ some p
          → Inv (new_state jobs watch_label) p
      unfolding run_command
      Inv-of_Reached empty w s p r e = Run-Inv parse_ip jobs watch_label (
          Run-of_Kept parse_ip jobs watch_label read view p
            (Reached-Kept (kept begin (λ h. absurd (ground arith))) r) e)

      -- The storage is `IsKeeping`. Whatever the informers deliver, whatever their indexers answer when an
      -- item is handled, and in whatever order the two
      -- controllers work off their queues, the conciliation ticks, restarts end and the rest of the
      -- cluster changes: while the process runs, and if the last assignment was stored with no error, what
      -- the storage gives back is the view of the pool's assignment, which is the one of all jobs to as
      -- many workers as are expected.
      pub stored_assignment :
          (empty : Q) (w : W) (s : System Q W) (p : Pool)
          → Reached calls store refresh parse_ip get_labels key_of deletion_key_of watch_label read
              (run_command jobs watch_label empty w)
              s
          → s.pool ≡ some p
          → s.stored ≡ true
          → (read s.cluster ≡ view p.state.config)
            × Assigned p.state p.expected_size
            × (p.state.jobs ≡ jobs)
      unfolding run_command new_state
      stored_assignment empty w s p r e good =
          let k = Reached-Kept (kept begin (λ h. absurd (ground arith))) r in
          let v =
            Run-Inv parse_ip jobs watch_label
              (Run-of_Kept parse_ip jobs watch_label read view p k e) in
          (read-of_Kept parse_ip jobs watch_label read view p k e good, v.assigned, v.same_jobs.0)
