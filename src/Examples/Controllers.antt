-- ===== src/Examples/Controllers.antt =====
-- A controller that sees a StatefulSet of one replica, and stores its assignment as a Swarm.
use k8s_swarm.Prelude.{
  List, [], ◌∷◌, ◌++◌, Option, none, some, ◌≡◌, refl, ap, arith, Bytes, codes, Dict, lookup,
}
use k8s_swarm.Config.{Job, Workload, Workloads}
use k8s_swarm.Pool.{Pool}
use k8s_swarm.Pool.Invariant.{Assigned}
use k8s_swarm.Objects.{Object, StatefulSet, stateful_set, pod, swarm, unknown}
use k8s_swarm.Operator.{Event, Delivered, object, Indexed, present}
use k8s_swarm.Operator.Queues.{Queue, Item, an_event, Got, shut_down, got}
use k8s_swarm.Storage.{answered, Call, Storage}
use k8s_swarm.Storage.Swarms.{Swarm, set_swarm, get_swarm}
use k8s_swarm.Storage.Decoding.{unversioned}
use k8s_swarm.Storage.Writing.{get_swarm-set_swarm}
use k8s_swarm.Controllers.{
  System, run_command, Notice, added, deliver_stateful_set, notify, process_stateful_sets,
}
use k8s_swarm.Controllers.Stepping.{Reached, started, after, stateful_set_notice, stateful_set_item}
use k8s_swarm.State.{worker_name}
use k8s_swarm.State.Shares.{share}
use k8s_swarm.WorkerApp.{Config, Process, load_config, update_workload_from_config, version_handler}
use k8s_swarm.Controllers.Answering.{unversioned-KeepsJobs, share_answered}
use k8s_swarm.Controllers.Keeping.{IsKeeping}
use k8s_swarm.Controllers.Storing.{stored_assignment}
use k8s_swarm.Examples.Storage.{Cluster, client, client-Laws, clock}

-- A queue with no limit of the rate, which is never shut down but is empty.
abbrev pub next_item : List Event → Got (Item Event) (List Event)
next_item [] = shut_down
next_item (e ∷ es) = got (an_event e) es

abbrev pub calls : Queue Event (List Event)
calls = record {
  add = λ e q. q ++ e ∷ [];
  get = next_item;
  done = λ i q. q;
  forget = λ e q. q;
  add_rate_limited = λ e q. q ++ e ∷ [];
  num_requeues = λ e q. 0;
}

abbrev pub writes : Storage Cluster
writes = set_swarm client (codes "ns") (codes "swarm") clock

abbrev pub reads : Cluster → Option Workloads
reads = get_swarm client (codes "ns") (codes "swarm")

abbrev pub refresh : Bytes → Cluster → Call Cluster (Unit {0})
refresh name w = record { cluster = w; answer = answered tt }

writes-IsKeeping : IsKeeping writes refresh reads (λ a. some (unversioned a))
writes-IsKeeping = record {
  read_store = λ a w v u e.
      get_swarm-set_swarm client client-Laws (codes "ns") (codes "swarm") clock a u v w e;
  read_refresh = λ name w. refl;
}

abbrev pub jobs : List Job
jobs = codes "a" ∷ codes "b" ∷ []

abbrev pub one_replica : StatefulSet
one_replica = record {
  namespace = codes "ns";
  name = codes "w";
  labels = (codes "app", codes "w") ∷ [];
  replicas = some 1;
}

abbrev pub get_labels : Object → Option (Dict Bytes)
get_labels (stateful_set s) = some s.labels
get_labels (pod p) = some p.labels
get_labels (swarm s) = some s.labels
get_labels unknown = none

abbrev pub key_of : Object → Option Bytes
key_of (stateful_set s) = some (s.namespace ++ b'/' ∷ s.name)
key_of (pod p) = some (p.namespace ++ b'/' ∷ p.name)
key_of (swarm s) = some (s.resource.namespace ++ b'/' ∷ s.resource.name)
key_of unknown = none

abbrev pub by_key : Bytes → Indexed
by_key key = present

abbrev pub parse_ip : Bytes → Bytes
parse_ip ip = ip

abbrev pub begun : System (List Event) Cluster
begun = run_command jobs (codes "w") [] none

abbrev pub delivered : System (List Event) Cluster
delivered =
    deliver_stateful_set calls writes
      (notify get_labels key_of key_of (codes "w") (added (object (stateful_set one_replica))))
      begun

abbrev pub balanced : System (List Event) Cluster
balanced = elim (process_stateful_sets calls writes by_key delivered) [
  | none ↦ delivered
  | some t ↦ t
]

abbrev pool : Pool
pool = elim balanced.pool [
  | none ↦ k8s_swarm.Pool.new_worker_pool (k8s_swarm.State.new_state [] [])
  | some p ↦ p
]

balanced-Reached :
    Reached calls writes refresh parse_ip get_labels key_of key_of (codes "w") reads begun balanced
unfolding process_stateful_sets deliver_stateful_set notify run_command k8s_swarm.Operator.add
    k8s_swarm.Operator.validate k8s_swarm.Operator.get_app_label k8s_swarm.Operator.app_label
    k8s_swarm.Operator.handle k8s_swarm.Operator.Queues.process_next_item
    k8s_swarm.Operator.Queues.process_item k8s_swarm.Operator.Queues.process_event
    k8s_swarm.Controllers.handle_on k8s_swarm.Controllers.sent_by k8s_swarm.Controllers.apply
    k8s_swarm.Pod.Steps.dispatch_stateful_set k8s_swarm.StatefulSets.created
    k8s_swarm.StatefulSets.resize_to k8s_swarm.Pool.update_expected_size
    k8s_swarm.Pool.new_worker_pool k8s_swarm.State.new_state k8s_swarm.State.balance_workload
    k8s_swarm.State.assign_workers k8s_swarm.State.assign_worker k8s_swarm.State.slice
    k8s_swarm.State.worker_size k8s_swarm.State.clean_assignations k8s_swarm.Storage.assign
    set_swarm k8s_swarm.Storage.Swarms.initialize_crd k8s_swarm.Storage.Swarms.update_with
balanced-Reached =
    after (after started (stateful_set_notice (added (object (stateful_set one_replica)))))
      (stateful_set_item by_key refl)

stored_assignment_example :
    (reads balanced.cluster ≡ some (unversioned pool.state.config))
    × Assigned pool.state pool.expected_size
    × (pool.state.jobs ≡ jobs)
unfolding process_stateful_sets deliver_stateful_set notify run_command k8s_swarm.Operator.add
    k8s_swarm.Operator.validate k8s_swarm.Operator.get_app_label k8s_swarm.Operator.app_label
    k8s_swarm.Operator.handle k8s_swarm.Operator.Queues.process_next_item
    k8s_swarm.Operator.Queues.process_item k8s_swarm.Operator.Queues.process_event
    k8s_swarm.Controllers.handle_on k8s_swarm.Controllers.sent_by k8s_swarm.Controllers.apply
    k8s_swarm.Pod.Steps.dispatch_stateful_set k8s_swarm.StatefulSets.created
    k8s_swarm.StatefulSets.resize_to k8s_swarm.Pool.update_expected_size
    k8s_swarm.Pool.new_worker_pool k8s_swarm.State.new_state k8s_swarm.State.balance_workload
    k8s_swarm.State.assign_workers k8s_swarm.State.assign_worker k8s_swarm.State.slice
    k8s_swarm.State.worker_size k8s_swarm.State.clean_assignations k8s_swarm.Storage.assign
    set_swarm k8s_swarm.Storage.Swarms.initialize_crd k8s_swarm.Storage.Swarms.update_with
stored_assignment_example =
    stored_assignment parse_ip jobs (codes "w") reads (λ a. some (unversioned a)) calls writes
      refresh writes-IsKeeping get_labels key_of key_of [] none balanced pool balanced-Reached refl
      refl

-- A worker's file is the configuration that it holds: here the one that the storage gives back.
abbrev file_of : Option Workloads → Config
file_of none = record { workload = []; version = 0 }
file_of (some a) = record { workload = a.workloads; version = a.version }

file_of_lem :
    (o : Option Workloads) (a : Workloads)
    → o ≡ some a
    → some (file_of o) ≡ some (record { workload = a.workloads; version = a.version })
file_of_lem o a e = ap (λ o. some (file_of o)) e

abbrev read_in_config : Config → Option Config
read_in_config file = some file

abbrev unmarshal : Config → Config → Option Config
unmarshal content config = some content

abbrev file : Config
file = file_of (reads balanced.cluster)

abbrev process : Process
process = record { config = record { workload = []; version = 0 }; app = record { state = none } }

file_loads :
    (a : Workloads) (w : Workload)
    → reads balanced.cluster ≡ some a
    → lookup (worker_name (codes "w") 0) a.workloads ≡ some w
    → (d : Config) × (load_config read_in_config unmarshal file process.config ≡ some d)
      × (d.version ≡ a.version)
      × ((v : Workload) × (lookup (worker_name (codes "w") 0) d.workload ≡ some v)
          × (v.jobs ≡ w.jobs))
unfolding load_config
file_loads a w e known = (
  record { workload = a.workloads; version = a.version },
  file_of_lem (reads balanced.cluster) a e,
  refl,
  (w, known, refl),
)

share_answered_example :
    (r : Process) × (update_workload_from_config read_in_config unmarshal file
        (worker_name (codes "w") 0)
        process
      ≡ some r)
    × (version_handler r (worker_name (codes "w") 0)
        ≡ record { jobs = share jobs pool.expected_size 0; version = pool.version })
unfolding process_stateful_sets deliver_stateful_set notify run_command k8s_swarm.Operator.add
    k8s_swarm.Operator.validate k8s_swarm.Operator.get_app_label k8s_swarm.Operator.app_label
    k8s_swarm.Operator.handle k8s_swarm.Operator.Queues.process_next_item
    k8s_swarm.Operator.Queues.process_item k8s_swarm.Operator.Queues.process_event
    k8s_swarm.Controllers.handle_on k8s_swarm.Controllers.sent_by k8s_swarm.Controllers.apply
    k8s_swarm.Pod.Steps.dispatch_stateful_set k8s_swarm.StatefulSets.created
    k8s_swarm.StatefulSets.resize_to k8s_swarm.Pool.update_expected_size
    k8s_swarm.Pool.new_worker_pool k8s_swarm.State.new_state k8s_swarm.State.balance_workload
    k8s_swarm.State.assign_workers k8s_swarm.State.assign_worker k8s_swarm.State.slice
    k8s_swarm.State.worker_size k8s_swarm.State.clean_assignations k8s_swarm.Storage.assign
    set_swarm k8s_swarm.Storage.Swarms.initialize_crd k8s_swarm.Storage.Swarms.update_with
share_answered_example =
    share_answered parse_ip jobs (codes "w") reads unversioned calls writes refresh writes-IsKeeping
      unversioned-KeepsJobs get_labels key_of key_of read_in_config unmarshal [] none balanced pool
      0 file process balanced-Reached refl refl (omega arith) file_loads
