-- ===== src/Examples/Lifecycle.antt =====
-- A controller whose stop channel is closed before the cache has synced.
use k8s_swarm.Prelude.{ℕ, List, [], ◌∷◌, ◌++◌, true, false, ◌≡◌, ◌≢◌, refl}
use k8s_swarm.Operator.Queues.{Queue, Got, shut_down, got, Item, an_event, Handled}
use k8s_swarm.Operator.Lifecycle.{
  working, Running, new_controller, leave_sync, begin_period, Reached, launched, added, stopped,
  given_up, period,
}
use k8s_swarm.Operator.Lifecycle.Syncing.{unsynced_unhandled}

abbrev first : List ℕ → Got (Item ℕ) (List ℕ)
first [] = shut_down
first (e ∷ q) = got (an_event e) q

abbrev calls : Queue ℕ (List ℕ)
calls = record {
  add = λ e q. q ++ e ∷ [];
  get = first;
  done = λ i q. q;
  forget = λ e q. q;
  add_rate_limited = λ e q. q ++ e ∷ [];
  num_requeues = λ e q. 0;
}

abbrev remember : ℕ → List ℕ → Handled (List ℕ)
remember e s = record { state = e ∷ s; failed = false }

abbrev shut : List ℕ → List ℕ
shut q = q

abbrev closed : Running (List ℕ) (List ℕ)
closed = record (new_controller [] []) {
  controller = record { queue = 7 ∷ []; state = [] };
  stopped = true;
}

abbrev gone : Running (List ℕ) (List ℕ)
gone = begin_period (leave_sync false closed)

gone-Reached : Reached calls remember shut (new_controller [] []) gone
unfolding new_controller leave_sync
gone-Reached = period (given_up (stopped (added 7 launched)) refl refl) refl

unsynced_unhandled_example : (gone.controller.state ≡ []) × (gone.loop ≢ working)
unfolding new_controller leave_sync begin_period
unsynced_unhandled_example = unsynced_unhandled calls remember shut [] [] gone gone-Reached refl
