-- ===== src/Examples/External.antt =====
-- The external command, which sees a Swarm.
use k8s_swarm.Prelude.{ℕ, List, [], none, some, Bool, true, refl, codes}
use k8s_swarm.Objects.{SwarmObject, swarm}
use k8s_swarm.Operator.{Event, object}
use k8s_swarm.Controllers.{run_command, added}
use k8s_swarm.Controllers.Safety.{TypedReached}
use k8s_swarm.Controllers.External.{
  External, run_external, notify_swarm, deliver_swarm, process_swarms,
}
use k8s_swarm.Controllers.External.Simulation.{
  ExternalReached, launched, swarm_notice, swarm_item, external_simulates,
}
use k8s_swarm.Examples.Clientset.{stored_swarm}
use k8s_swarm.Examples.Storage.{Cluster}
use k8s_swarm.Examples.Safety.{calls-Contents, Inside}
use k8s_swarm.Examples.Controllers.{
  calls, writes, reads, refresh, parse_ip, by_key, get_labels, key_of, jobs,
}

abbrev diff : (old new : SwarmObject) → List ℕ
diff old new = []

abbrev is_graphic : ℕ → Bool
is_graphic r = true

abbrev watched : SwarmObject
watched = record { labels = []; resource = stored_swarm }

-- Whatever changes elsewhere.
abbrev IsUnchecked : Cluster → Type 0
IsUnchecked w = Unit {0}

abbrev begun : External (List Event) Cluster
begun = run_external jobs (codes "w") [] none

abbrev delivered : External (List Event) Cluster
delivered = deliver_swarm calls (notify_swarm key_of key_of (added (object (swarm watched)))) begun

abbrev created : External (List Event) Cluster
created = elim (process_swarms calls diff is_graphic by_key delivered) [
  | none ↦ delivered
  | some e ↦ e
]

created-Reached :
    ExternalReached calls writes refresh parse_ip get_labels key_of key_of
      (codes "w")
      reads
      IsUnchecked
      diff
      is_graphic
      begun
      created
unfolding process_swarms deliver_swarm notify_swarm run_external k8s_swarm.Operator.add
    k8s_swarm.Operator.nop_validate k8s_swarm.Operator.handle
    k8s_swarm.Operator.Queues.process_next_item k8s_swarm.Operator.Queues.process_item
    k8s_swarm.Operator.Queues.process_event k8s_swarm.Controllers.External.handle_swarm
    k8s_swarm.Controllers.External.printed k8s_swarm.SwarmHandler.dispatch_swarm
    k8s_swarm.SwarmHandler.created
created-Reached = swarm_item by_key (swarm_notice (added (object (swarm watched))) launched tt) refl

external_simulates_example :
    TypedReached calls writes refresh parse_ip get_labels key_of key_of
      (codes "w")
      reads
      IsUnchecked
      (run_command jobs (codes "w") [] none)
      created.controllers
external_simulates_example =
    external_simulates calls writes refresh parse_ip get_labels key_of key_of (codes "w") reads
      IsUnchecked diff is_graphic Inside calls-Contents jobs [] none (λ e m. m) created-Reached
