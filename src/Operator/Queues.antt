-- ===== src/Operator/Queues.antt =====
-- services/controller/internal/infra/k8s/operator/controller.go: what the worker loop does with the items
-- of the queue.
--
-- The events are those of any implementation `E` of the interface `Event`. The queue is a
-- workqueue.RateLimitingInterface: its state `Q`, with its calls in a record. `Get` waits for an item; the
-- model has it once it has returned. The event processor's `Handle` works on a state `S`.
use k8s_swarm.Prelude.{ℕ, zero, suc, Bool, Option, none, some, ltb, if◌then◌else◌, ◌>>=◌}

-- What `Get` returns.
pub data Got (I Q : Type 0) : Type 0 where
  shut_down : Got I Q
  got : I → Q → Got I Q

-- An interface{} that is an `Event` or not.
pub data Item (E : Type 0) : Type 0 where
  an_event : E → Item E
  not_event : Item E

pub record Queue (E Q : Type 0) : Type 0 where
  pub add : E → Q → Q
  pub get : Q → Got (Item E) Q
  pub done : Item E → Q → Q
  pub forget : E → Q → Q
  pub add_rate_limited : E → Q → Q
  pub num_requeues : E → Q → ℕ

-- What `Handle` returns: the state, and whether it failed.
pub record Handled (S : Type 0) : Type 0 where
  pub state : S
  pub failed : Bool

-- The controller's queue and what its processor works on.
pub record Controller (Q S : Type 0) : Type 0 where
  pub queue : Q
  pub state : S

abbrev pub max_requeue : ℕ
max_requeue = 5

module _ {E Q S : Type 0} (calls : Queue E Q) (handle : E → S → Handled S) where
  unfoldable pub handle_error : E → Q → Q
  handle_error key q =
      if ltb (calls.num_requeues key q) max_requeue
      then calls.add_rate_limited key q
      else calls.forget key q

  -- `processNextItem` from the item on, before its deferred `Done`.
  unfoldable pub process_event : E → Q → S → Controller Q S
  process_event e q s =
      let h = handle e s in
      if h.failed
      then record { queue = handle_error e q; state = h.state }
      else record { queue = calls.forget e q; state = h.state }

  unfoldable pub process_item : Item E → Q → S → Controller Q S
  process_item (an_event e) q s =
      let c = process_event e q s in
      record { queue = calls.done (an_event e) c.queue; state = c.state }
  process_item not_event q s = record { queue = calls.done not_event q; state = s }

  -- `processNextItem`: `none` where it returns false, since the queue was shut down.
  unfoldable pub process_next_item : Controller Q S → Option (Controller Q S)
  process_next_item c = elim (calls.get c.queue) [
    | shut_down ↦ none
    | got item q ↦ some (process_item item q c.state)
  ]

  -- The first `n` rounds of `runWorker`: `none` where it ends before, since the queue was shut down.
  unfoldable pub run_worker : ℕ → Controller Q S → Option (Controller Q S)
  run_worker zero c = some c
  run_worker (suc n) c = process_next_item c >>= λ d. run_worker n d
