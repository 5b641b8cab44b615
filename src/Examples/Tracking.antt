-- ===== src/Examples/Tracking.antt =====
-- A tracker that holds one Swarm.
use k8s_swarm.Prelude.{Option, none, some, Bytes, bytes_eq, if◌then◌else◌}
use k8s_swarm.Storage.{other_error}
use k8s_swarm.Storage.Swarms.{Swarm}
use k8s_swarm.Clientset.Fake.{
  Action, get_action, create_action, update_action, update_subresource_action, a_status, Reacted,
  swarm_object, Invoked, Fake,
}

abbrev find : Bytes → Option Swarm → Invoked (Option Swarm)
find name none = record { cluster = none; object = none; err = some a_status }
find name (some s) =
    if bytes_eq s.name name
    then record { cluster = some s; object = some (swarm_object s); err = none }
    else record { cluster = some s; object = none; err = some a_status }

abbrev put : Swarm → Invoked (Option Swarm)
put s = record { cluster = some s; object = some (swarm_object s); err = none }

abbrev react : Action (Unit {0}) → Option Swarm → Invoked (Option Swarm)
react (get_action gvr namespace name) w = find name w
react (create_action gvr namespace s) w = put s
react (update_action gvr namespace s) w = put s
react (update_subresource_action gvr subresource namespace s) w = put s
react _ w = record { cluster = w; object = none; err = some a_status }

abbrev tracker : Fake (Unit {0}) (Option Swarm) (Unit {0})
tracker = record {
  invokes = λ action default w. react action w;
  invokes_watch = λ action w. other_error;
}
