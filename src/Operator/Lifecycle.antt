-- ===== src/Operator/Lifecycle.antt =====
-- `Run` of services/controller/internal/infra/k8s/operator/controller.go and processor.go: the informer's
-- goroutine, the wait for its cache, the worker's goroutine, and the end.
--
-- Of client-go it takes what is documented: WaitForCacheSync returns true once the cache is synced, and
-- false if the stop channel is closed; wait.Until looks at the stop channel before each period.
pub mod Syncing
use k8s_swarm.Prelude.{ℕ, Option, none, some, Bool, true, false, not, if◌then◌else◌, ◌≡◌}
use k8s_swarm.Operator.Queues.{Queue, Handled, Controller, process_next_item}

-- In nanoseconds.
abbrev pub default_conciliation_frequency : ℕ
default_conciliation_frequency = 5000000000

-- Where `Run` of the controller stands: in WaitForCacheSync, at the stop channel, or behind its end.
pub data Stage : Type 0 where
  syncing serving returned : Stage

-- The goroutine of wait.Until: not started or ended, between two periods, or in `runWorker`.
pub data Loop : Type 0 where
  absent pausing working : Loop

pub record Running (Q S : Type 0) : Type 0 where
  pub controller : Controller Q S
  pub stage : Stage
  pub loop : Loop
  -- Whether the informer's cache has synced, and whether the stop channel is closed.
  pub synced : Bool
  pub stopped : Bool
  -- Whether the wait for the cache was given up, which is an error for utilruntime.
  pub timed_out : Bool
  pub conciliation_frequency : ℕ

-- `NewController`, when `Run` has started the informer.
unfoldable pub new_controller : {Q S : Type 0} → Q → S → Running Q S
new_controller q s = record {
  controller = record { queue = q; state = s };
  stage = syncing;
  loop = absent;
  synced = false;
  stopped = false;
  timed_out = false;
  conciliation_frequency = default_conciliation_frequency;
}

-- The rest of the processor's `Run`, from what WaitForCacheSync returned, and the start of wait.Until:
-- the controller learns nothing of a wait that was given up.
unfoldable pub leave_sync : {Q S : Type 0} → Bool → Running Q S → Running Q S
leave_sync in_sync r = record r { stage = serving; loop = pausing; timed_out = not in_sync }

-- wait.Until at the start of a period.
unfoldable pub begin_period : {Q S : Type 0} → Running Q S → Running Q S
begin_period r = record r { loop = if r.stopped then absent else working }

-- Behind `<-stopCh`: the deferred ShutDown.
unfoldable pub shut_queue : {Q S : Type 0} → (Q → Q) → Running Q S → Running Q S
shut_queue shut_down r = record r {
  stage = returned;
  controller = record r.controller { queue = shut_down r.controller.queue };
}

module _ {E Q S : Type 0} (calls : Queue E Q) (handle : E → S → Handled S) where
  -- A round of `runWorker`, whose end is that of the period.
  unfoldable pub work : Running Q S → Running Q S
  work r = elim (process_next_item calls handle r.controller) [
    | none ↦ record r { loop = pausing }
    | some c ↦ record r { controller = c }
  ]

  -- What happens to a controller: its informer adds an event or syncs, the stop channel is closed, and
  -- the two goroutines of the controller go on.
  pub data Reached (shut_down : Q → Q) (r : Running Q S) : Running Q S → Type 0 where
    launched : Reached shut_down r r
    added :
        {t : Running Q S} (e : E)
        → Reached shut_down r t
        → Reached shut_down r (record t {
          controller = record t.controller { queue = calls.add e t.controller.queue };
        })
    synced :
        {t : Running Q S} → Reached shut_down r t → Reached shut_down r (record t { synced = true })
    stopped :
        {t : Running Q S}
        → Reached shut_down r t
        → Reached shut_down r (record t { stopped = true })
    in_sync :
        {t : Running Q S}
        → Reached shut_down r t
        → t.stage ≡ syncing
        → t.synced ≡ true
        → Reached shut_down r (leave_sync true t)
    given_up :
        {t : Running Q S}
        → Reached shut_down r t
        → t.stage ≡ syncing
        → t.stopped ≡ true
        → Reached shut_down r (leave_sync false t)
    period :
        {t : Running Q S}
        → Reached shut_down r t
        → t.loop ≡ pausing
        → Reached shut_down r (begin_period t)
    round :
        {t : Running Q S} → Reached shut_down r t → t.loop ≡ working → Reached shut_down r (work t)
    finished :
        {t : Running Q S}
        → Reached shut_down r t
        → t.stage ≡ serving
        → t.stopped ≡ true
        → Reached shut_down r (shut_queue shut_down t)
