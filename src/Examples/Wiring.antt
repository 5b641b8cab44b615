-- ===== src/Examples/Wiring.antt =====
-- The command in a cluster that holds at most one ConfigMap and at most one Swarm. Of an assignment the
-- ConfigMap keeps the version, as the only byte of the text.
use k8s_swarm.Prelude.{
  ℕ, Dict, inl, ap, List, [], ◌∷◌, Option, none, some, ◌≡◌, refl, ◌∙◌, arith, Bytes, codes,
  bytes_eq_iff, ◌>>=◌,
}
use k8s_swarm.Config.{Workloads}
use k8s_swarm.Pool.{Pool}
use k8s_swarm.Pool.Invariant.{Assigned}
use k8s_swarm.Objects.{stateful_set}
use k8s_swarm.Operator.{Event, object}
use k8s_swarm.Storage.{Answer, answered, status_error, other_error, Call}
use k8s_swarm.Storage.Swarms.{Swarm, SwarmClient}
use k8s_swarm.Storage.ConfigMaps.{ConfigMap, ConfigMapClient}
use k8s_swarm.Storage.Decoding.{unversioned}
use k8s_swarm.Storage.Writing.{SwarmClientLaws}
use k8s_swarm.Storage.ReadingBack.{ConfigMapClientLaws}
use k8s_swarm.Controllers.{
  System, run_command, added, deliver_stateful_set, notify, process_stateful_sets,
}
use k8s_swarm.Controllers.Stepping.{started, after, stateful_set_notice, stateful_set_item}
use k8s_swarm.Controllers.Wiring.{Clients, Variables, set_mex, refresh_pdl, get_both}
use k8s_swarm.Controllers.Safety.{TypedReached, further}
use k8s_swarm.Controllers.Wiring.Calm.{KeepsData, HasData, never_panics}
use k8s_swarm.Examples.Safety.{Inside, calls-Contents}
use k8s_swarm.Controllers.Wiring.Both.{AreApart, stored_in_both}
use k8s_swarm.Examples.Storage
use k8s_swarm.Examples.ConfigMaps
use k8s_swarm.Examples.Controllers.{calls, by_key, get_labels, key_of, parse_ip, jobs, one_replica}

abbrev pub Cluster : Type 0
Cluster = Option ConfigMap × Option Swarm

abbrev config_maps : ConfigMapClient Cluster
config_maps = record {
  get = λ ns name w. ConfigMaps.get ns name w.0;
  update = λ ns cm w. record { cluster = (some cm, w.1); answer = answered cm };
}

abbrev put_swarm : Bytes → Swarm → Cluster → Call Cluster Swarm
put_swarm ns sw w = record { cluster = (w.0, some sw); answer = answered sw }

abbrev swarms : SwarmClient Cluster
swarms = record {
  get = λ ns name w. Storage.get ns name w.1;
  create = put_swarm;
  update = put_swarm;
}

abbrev pub clients : Clients Cluster
clients = record {
  config_maps = config_maps;
  swarms = swarms;
  pods = λ ns pod w. record { cluster = w; answer = answered tt };
}

pub config_maps-Laws : ConfigMapClientLaws config_maps
config_maps-Laws = record {
  got_name = λ ns n w cm e. ConfigMaps.got_name ns n w.0 cm e;
  updated = λ ns cm r w e. (cm, ground (arith, bytes_eq_iff cm.name cm.name), refl);
}

swarms-Laws : SwarmClientLaws swarms
swarms-Laws = record {
  got_name = λ ns n w sw e. Storage.got_name ns n w.1 sw e;
  created_name = λ ns sw r w e. ground arith;
  updated = λ ns sw r w e. (sw, ground (arith, bytes_eq_iff sw.name sw.name), refl);
}

pub clients-AreApart : AreApart clients
clients-AreApart = record {
  swarm_created = λ ns name namespace sw w. refl;
  swarm_updated = λ ns name namespace sw w. refl;
  pod_deleted = λ ns name namespace pod w. (refl, refl);
}

abbrev entries_of : Answer ConfigMap → Option (Dict Bytes)
entries_of (answered cm) = cm.entries
entries_of status_error = none
entries_of other_error = none

abbrev encode_yaml : Workloads → Option Bytes
encode_yaml a = some (a.version ∷ [])

abbrev decode_yaml : Bytes → Option Workloads
decode_yaml [] = none
decode_yaml (version ∷ text) = some (record { workloads = []; version = version })

abbrev pub vars : Variables
vars = record {
  namespace = codes "ns";
  watch_label = codes "w";
  workers_config_map_name = codes "cm";
}

abbrev pub clock : Bytes → ℕ
clock name = 1600000000

abbrev pub begun : System (List Event) Cluster
begun =
    run_command jobs (codes "w") []
      (some (record { name = codes "cm"; resource_version = []; entries = some [] }), none)

abbrev delivered : System (List Event) Cluster
delivered =
    deliver_stateful_set calls (set_mex clients encode_yaml decode_yaml vars clock)
      (notify get_labels key_of key_of (codes "w") (added (object (stateful_set one_replica))))
      begun

abbrev balanced : System (List Event) Cluster
balanced =
    elim (process_stateful_sets calls (set_mex clients encode_yaml decode_yaml vars clock) by_key
      delivered) [ none ↦ delivered | some t ↦ t ]

abbrev pool : Pool
pool = elim balanced.pool [
  | none ↦ k8s_swarm.Pool.new_worker_pool (k8s_swarm.State.new_state [] [])
  | some p ↦ p
]

stored_in_both_example :
    (get_both clients encode_yaml decode_yaml vars balanced.cluster
      ≡ (encode_yaml pool.state.config >>= decode_yaml, some (unversioned pool.state.config)))
    × Assigned pool.state pool.expected_size
    × (pool.state.jobs ≡ jobs)
unfolding process_stateful_sets deliver_stateful_set notify run_command k8s_swarm.Operator.add
    k8s_swarm.Operator.validate k8s_swarm.Operator.get_app_label k8s_swarm.Operator.app_label
    k8s_swarm.Operator.handle k8s_swarm.Operator.Queues.process_next_item
    k8s_swarm.Operator.Queues.process_item k8s_swarm.Operator.Queues.process_event
    k8s_swarm.Controllers.handle_on k8s_swarm.Controllers.sent_by k8s_swarm.Controllers.apply
    k8s_swarm.Pod.Steps.dispatch_stateful_set k8s_swarm.StatefulSets.created
    k8s_swarm.StatefulSets.resize_to k8s_swarm.Pool.update_expected_size
    k8s_swarm.Pool.new_worker_pool k8s_swarm.State.new_state k8s_swarm.State.balance_workload
    k8s_swarm.State.assign_workers k8s_swarm.State.assign_worker k8s_swarm.State.slice
    k8s_swarm.State.worker_size k8s_swarm.State.clean_assignations k8s_swarm.Storage.assign
    k8s_swarm.Storage.set_both k8s_swarm.Storage.Swarms.set_swarm
    k8s_swarm.Storage.Swarms.initialize_crd k8s_swarm.Storage.Swarms.update_with
    k8s_swarm.Storage.ConfigMaps.set_config_map k8s_swarm.Storage.ConfigMaps.update_text set_mex
    k8s_swarm.Controllers.Wiring.set_cm k8s_swarm.Controllers.Wiring.set_swl
stored_in_both_example =
    stored_in_both clients encode_yaml decode_yaml vars config_maps-Laws swarms-Laws
      clients-AreApart clock parse_ip jobs calls get_labels key_of key_of [] begun.cluster balanced
      pool
      (after (after started (stateful_set_notice (added (object (stateful_set one_replica)))))
        (stateful_set_item by_key refl))
      refl refl

config_maps-KeepsData : KeepsData config_maps
config_maps-KeepsData = record {
  data_kept = λ namespace ns name cm c entries w filled nonempty got.
      inl (λ empty. absurd (ground (arith, filled, got, empty)));
}

begun-HasData : HasData clients encode_yaml decode_yaml vars begun.cluster
unfolding run_command
begun-HasData cm got empty =
    let e : some [] ≡ none = ap entries_of got ∙ empty in absurd (ground arith)

balanced-TypedReached :
    TypedReached calls
      (set_mex clients encode_yaml decode_yaml vars clock)
      (refresh_pdl clients encode_yaml decode_yaml vars)
      parse_ip
      get_labels
      key_of
      key_of
      (codes "w")
      (get_both clients encode_yaml decode_yaml vars)
      (HasData clients encode_yaml decode_yaml vars)
      begun
      balanced
unfolding process_stateful_sets deliver_stateful_set notify run_command k8s_swarm.Operator.add
    k8s_swarm.Operator.validate k8s_swarm.Operator.get_app_label k8s_swarm.Operator.app_label
    k8s_swarm.Operator.handle k8s_swarm.Operator.Queues.process_next_item
    k8s_swarm.Operator.Queues.process_item k8s_swarm.Operator.Queues.process_event
    k8s_swarm.Controllers.handle_on k8s_swarm.Controllers.sent_by k8s_swarm.Controllers.apply
    k8s_swarm.Pod.Steps.dispatch_stateful_set k8s_swarm.StatefulSets.created
    k8s_swarm.StatefulSets.resize_to k8s_swarm.Pool.update_expected_size
    k8s_swarm.Pool.new_worker_pool k8s_swarm.State.new_state k8s_swarm.State.balance_workload
    k8s_swarm.State.assign_workers k8s_swarm.State.assign_worker k8s_swarm.State.slice
    k8s_swarm.State.worker_size k8s_swarm.State.clean_assignations k8s_swarm.Storage.assign
    k8s_swarm.Storage.set_both k8s_swarm.Storage.Swarms.set_swarm
    k8s_swarm.Storage.Swarms.initialize_crd k8s_swarm.Storage.Swarms.update_with
    k8s_swarm.Storage.ConfigMaps.set_config_map k8s_swarm.Storage.ConfigMaps.update_text set_mex
    k8s_swarm.Controllers.Wiring.set_cm k8s_swarm.Controllers.Wiring.set_swl
balanced-TypedReached =
    further
      (further TypedReached.begun (stateful_set_notice (added (object (stateful_set one_replica))))
        (1, refl))
      (stateful_set_item by_key refl) tt

never_panics_example : (p : Pool) × (balanced.pool ≡ some p)
unfolding run_command
never_panics_example =
    never_panics clients encode_yaml decode_yaml vars config_maps-KeepsData clients-AreApart clock
      parse_ip jobs calls Inside calls-Contents get_labels key_of key_of
      (get_both clients encode_yaml decode_yaml vars) [] begun.cluster balanced (λ e m. m)
      begun-HasData balanced-TypedReached
