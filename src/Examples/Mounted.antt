-- ===== src/Examples/Mounted.antt =====
-- The command whose ConfigMap keeps, of an assignment, the version and the jobs of worker 0: each byte of a
-- job one higher, and a zero behind each job.
use k8s_swarm.Prelude.{
  ℕ, zero, suc, List, [], ◌∷◌, Option, none, some, ◌≡◌, inr, refl, sym, ap, ◌∙◌, subst, arith,
  Bytes, codes, lookup,
}
use k8s_swarm.Config.{Job, Workload, Workloads}
use k8s_swarm.State.{worker_name}
use k8s_swarm.State.Shares.{share}
use k8s_swarm.Text.{in_front}
use k8s_swarm.Pool.{Pool}
use k8s_swarm.Objects.{stateful_set}
use k8s_swarm.Operator.{Event, object}
use k8s_swarm.Controllers.{
  System, run_command, added, deliver_stateful_set, notify, process_stateful_sets,
}
use k8s_swarm.Controllers.Stepping.{started, after, stateful_set_notice, stateful_set_item}
use k8s_swarm.Controllers.Wiring.{set_mex}
use k8s_swarm.Controllers.Wiring.Mounted.{ReadsYaml, mounted, mounted-share_answered}
use k8s_swarm.WorkerApp.{Config, Process, load_config, update_workload_from_config, version_handler}
use k8s_swarm.Examples.Wiring.{
  Cluster, clients, vars, clock, begun, config_maps-Laws, clients-AreApart,
}
use k8s_swarm.Examples.Controllers.{calls, by_key, get_labels, key_of, parse_ip, jobs, one_replica}

abbrev write_job : Job → Bytes → Bytes
write_job [] text = 0 ∷ text
write_job (b ∷ job) text = suc b ∷ write_job job text

abbrev write_jobs : List Job → Bytes
write_jobs [] = []
write_jobs (job ∷ js) = write_job job (write_jobs js)

abbrev read_jobs : Bytes → List Job
read_jobs [] = []
read_jobs (zero ∷ text) = [] ∷ read_jobs text
read_jobs (suc b ∷ text) = in_front b (read_jobs text)

read_jobs-write_job :
    (job : Job) (text : Bytes) → read_jobs (write_job job text) ≡ job ∷ read_jobs text
read_jobs-write_job [] text = refl
read_jobs-write_job (b ∷ job) text = ap (in_front b) (read_jobs-write_job job text)

read_jobs-write_jobs : (js : List Job) → read_jobs (write_jobs js) ≡ js
read_jobs-write_jobs [] = refl
read_jobs-write_jobs (job ∷ js) =
    read_jobs-write_job job (write_jobs js) ∙ ap (λ r. job ∷ r) (read_jobs-write_jobs js)

abbrev host : Bytes
host = worker_name (codes "w") 0

abbrev text_for : ℕ → Option Workload → Bytes
text_for version none = version ∷ []
text_for version (some w) = version ∷ write_jobs w.jobs

abbrev encode_yaml : Workloads → Option Bytes
encode_yaml a = some (text_for a.version (lookup host a.workloads))

abbrev read_in_config : Bytes → Option Bytes
read_in_config text = some text

abbrev unmarshal : Bytes → Config → Option Config
unmarshal [] c = none
unmarshal (version ∷ text) c = some (record {
  workload = (host, record { jobs = read_jobs text; version = 0 }) ∷ [];
  version = version;
})

abbrev decode_yaml : Bytes → Option Workloads
decode_yaml text = none

viper-ReadsYaml : ReadsYaml encode_yaml read_in_config unmarshal host
unfolding load_config worker_name k8s_swarm.Text.format
viper-ReadsYaml = record {
  reads = λ a text w c named encoded known.
      subst
        (λ t.
          (d : Config) × (load_config read_in_config unmarshal t c ≡ some d)
          × (d.version ≡ a.version)
          × ((v : Workload) × (lookup host d.workload ≡ some v) × (v.jobs ≡ w.jobs)))
        {x = text_for a.version (some w)} {y = text} (written a text w encoded known)
        (_, refl, refl, (_, refl, read_jobs-write_jobs w.jobs));
}
  where
    written :
        (a : Workloads) (text : Bytes) (w : Workload)
        → encode_yaml a ≡ some text
        → lookup host a.workloads ≡ some w
        → text_for a.version (some w) ≡ text
    written a text w encoded known =
        let same : text_for a.version (lookup host a.workloads) ≡ text = ground arith in
        ap (text_for a.version) (sym known) ∙ same

abbrev delivered : System (List Event) Cluster
delivered =
    deliver_stateful_set calls (set_mex clients encode_yaml decode_yaml vars clock)
      (notify get_labels key_of key_of (codes "w") (added (object (stateful_set one_replica))))
      begun

abbrev balanced : System (List Event) Cluster
balanced =
    elim (process_stateful_sets calls (set_mex clients encode_yaml decode_yaml vars clock) by_key
      delivered) [ none ↦ delivered | some t ↦ t ]

abbrev pool : Pool
pool = elim balanced.pool [
  | none ↦ k8s_swarm.Pool.new_worker_pool (k8s_swarm.State.new_state [] [])
  | some p ↦ p
]

abbrev process : Process
process = record { config = record { workload = []; version = 0 }; app = record { state = none } }

mounted-share_answered_example :
    (text : Bytes) × (r : Process) × (mounted clients encode_yaml decode_yaml vars balanced.cluster
      ≡ some text)
    × (update_workload_from_config read_in_config unmarshal text (worker_name (codes "w") 0) process
        ≡ some r)
    × (version_handler r (worker_name (codes "w") 0)
        ≡ record { jobs = share jobs pool.expected_size 0; version = pool.version })
unfolding process_stateful_sets deliver_stateful_set notify run_command k8s_swarm.Operator.add
    k8s_swarm.Operator.validate k8s_swarm.Operator.get_app_label k8s_swarm.Operator.app_label
    k8s_swarm.Operator.handle k8s_swarm.Operator.Queues.process_next_item
    k8s_swarm.Operator.Queues.process_item k8s_swarm.Operator.Queues.process_event
    k8s_swarm.Controllers.handle_on k8s_swarm.Controllers.sent_by k8s_swarm.Controllers.apply
    k8s_swarm.Pod.Steps.dispatch_stateful_set k8s_swarm.StatefulSets.created
    k8s_swarm.StatefulSets.resize_to k8s_swarm.Pool.update_expected_size
    k8s_swarm.Pool.new_worker_pool k8s_swarm.State.new_state k8s_swarm.State.balance_workload
    k8s_swarm.State.assign_workers k8s_swarm.State.assign_worker k8s_swarm.State.slice
    k8s_swarm.State.worker_size k8s_swarm.State.clean_assignations k8s_swarm.Storage.assign
    k8s_swarm.Storage.set_both k8s_swarm.Storage.Swarms.set_swarm
    k8s_swarm.Storage.Swarms.initialize_crd k8s_swarm.Storage.Swarms.update_with
    k8s_swarm.Storage.ConfigMaps.set_config_map k8s_swarm.Storage.ConfigMaps.update_text set_mex
    k8s_swarm.Controllers.Wiring.set_cm k8s_swarm.Controllers.Wiring.set_swl
mounted-share_answered_example =
    mounted-share_answered clients encode_yaml decode_yaml vars config_maps-Laws clients-AreApart
      clock parse_ip jobs calls get_labels key_of key_of 0 read_in_config unmarshal viper-ReadsYaml
      (omega arith, inr (omega arith, omega arith), tt) [] begun.cluster balanced pool process
      (after (after started (stateful_set_notice (added (object (stateful_set one_replica)))))
        (stateful_set_item by_key refl))
      refl refl (omega arith)
