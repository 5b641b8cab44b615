-- ===== src/Controllers/External.antt =====
-- services/controller/cmd/external.go: beside the two controllers of internal.go, a third one, of Swarms,
-- whose handler prints.
pub mod Simulation
use k8s_swarm.Prelude.{ℕ, List, [], ◌∷◌, ◌++◌, Option, none, some, Bool, true, false, Bytes, ◌>>=◌}
use k8s_swarm.Config.{Job}
use k8s_swarm.Objects.{SwarmObject, Object}
use k8s_swarm.Operator.{
  Event, Delivery, panics, skipped, queued, nop_validate, add, update, delete, Indexed, handle,
}
use k8s_swarm.Operator.Queues.{Queue, Handled, Controller, process_next_item}
use k8s_swarm.SwarmHandler.{Output, dispatch_swarm}
use k8s_swarm.Controllers.{System, run_command, Notice, added, deleted, updated}

-- The two controllers of pods and StatefulSets, the queue of Swarms, and what was printed, newest last.
pub record External (Q W : Type 0) : Type 0 where
  pub controllers : System Q W
  pub swarms : Q
  pub output : List Output

unfoldable pub run_external : {Q W : Type 0} → List Job → Bytes → Q → W → External Q W
run_external jobs watch_label empty w = record {
  controllers = run_command jobs watch_label empty w;
  swarms = empty;
  output = [];
}

-- The event handler with the selector that lets everything through.
unfoldable pub notify_swarm : (Object → Option Bytes) → (Object → Option Bytes) → Notice → Delivery
notify_swarm key_of deletion_key_of (added d) = add nop_validate key_of d
notify_swarm key_of deletion_key_of (updated old new) = update nop_validate key_of old new
notify_swarm key_of deletion_key_of (deleted d) = delete nop_validate deletion_key_of d

-- A panic ends the whole process.
unfoldable pub end_process : {Q W : Type 0} → External Q W → External Q W
end_process e = record e { controllers = record e.controllers { pool = none } }

-- `Handle` of the processor of Swarms, on what was printed; `none` is a panic.
unfoldable pub handle_swarm :
    ((old new : SwarmObject) → List ℕ)
    → (ℕ → Bool)
    → (Bytes → Indexed)
    → Event
    → Option (List Output)
    → Handled (Option (List Output))
handle_swarm diff is_graphic get_by_key e none = record { state = none; failed = false }
handle_swarm diff is_graphic get_by_key e (some out) = elim (handle get_by_key e) [
  | none ↦ record { state = some out; failed = true }
  | some c ↦ record {
    state = dispatch_swarm diff is_graphic c >>= λ line. some (out ++ line ∷ []);
    failed = false;
  }
]

module _ {Q W : Type 0} (calls : Queue Event Q) where
  unfoldable pub deliver_swarm : Delivery → External Q W → External Q W
  deliver_swarm panics e = end_process e
  deliver_swarm skipped e = e
  deliver_swarm (queued x) e = record e { swarms = calls.add x e.swarms }

  -- What an item of the queue of Swarms leaves.
  unfoldable pub printed : External Q W → Controller Q (Option (List Output)) → External Q W
  printed e c = elim c.state [
    | none ↦ end_process (record e { swarms = c.queue })
    | some out ↦ record e { swarms = c.queue; output = out }
  ]

  unfoldable pub process_swarms :
      ((old new : SwarmObject) → List ℕ)
      → (ℕ → Bool)
      → (Bytes → Indexed)
      → External Q W
      → Option (External Q W)
  process_swarms diff is_graphic get_by_key e =
      process_next_item calls (handle_swarm diff is_graphic get_by_key)
        (record { queue = e.swarms; state = some e.output })
      >>= λ c. some (printed e c)
