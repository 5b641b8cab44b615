-- ===== src/Controllers/Answering.antt =====
-- From the controller's jobs to the answer of a worker: both services and the storage between them.
use k8s_swarm.Prelude.{
  ℕ, ◌<◌, List, [], ◌∷◌, Option, some, true, ◌≡◌, inl, inr, refl, sym, ap, subst, ◌∙◌, arith, Bytes,
  Dict, lookup, bytes_eq, Bool-cases,
}
use k8s_swarm.Config.{Job, Workload, Workloads}
use k8s_swarm.State.{new_state, worker_name}
use k8s_swarm.State.Shares.{share}
use k8s_swarm.Pool.{Pool}
use k8s_swarm.Pool.Invariant.{Inv}
use k8s_swarm.Pod.Sharing.{IsSent-of_Inv}
use k8s_swarm.Objects.{Object}
use k8s_swarm.Operator.{Event}
use k8s_swarm.Operator.Queues.{Queue}
use k8s_swarm.Storage.{Storage}
use k8s_swarm.Storage.Decoding.{unversioned, unversioned_entries}
use k8s_swarm.Storage
use k8s_swarm.Controllers.{System, run_command}
use k8s_swarm.Controllers.Stepping.{Reached}
use k8s_swarm.Controllers.Keeping.{IsKeeping}
use k8s_swarm.Controllers.Storing.{stored_assignment, Inv-of_Reached}
use k8s_swarm.WorkerApp.{
  Process, host_workload, load_config, update_workload_from_config, adapter_workload,
  version_handler,
}
use k8s_swarm.WorkerApp

-- A view that keeps the version, and each worker's jobs.
pub record KeepsJobs (view : Workloads → Workloads) : Type 0 where
  pub same_version : (a : Workloads) → (view a).version ≡ a.version
  pub same_jobs :
      (a : Workloads) (name : Bytes) (w : Workload)
      → lookup name a.workloads ≡ some w
      → (v : Workload) × (lookup name (view a).workloads ≡ some v) × (v.jobs ≡ w.jobs)

lookup-unversioned_entries :
    (d : Dict Workload) (name : Bytes) (w : Workload)
    → lookup name d ≡ some w
    → lookup name (unversioned_entries d) ≡ some (record w { version = 0 })
lookup-unversioned_entries [] name w e = absurd (ground arith)
lookup-unversioned_entries ((n, v) ∷ rest) name w e = elim (Bool-cases (bytes_eq n name)) [
  | inl here ↦ ground arith
  | inr there ↦ ground (arith, lookup-unversioned_entries rest name w)
]

-- The view of the Swarm storage is such a view.
pub unversioned-KeepsJobs : KeepsJobs unversioned
unversioned-KeepsJobs = record {
  same_version = λ a. refl;
  same_jobs = λ a name w e.
      (record w { version = 0 }, lookup-unversioned_entries a.workloads name w e, refl);
}

-- What the pool has assigned to worker `i`.
pub config-share :
    (jobs : List Job) (set_name : Bytes) (p : Pool) (i : ℕ)
    → Inv (new_state jobs set_name) p
    → i < p.expected_size
    → (lookup (worker_name set_name i) p.state.config.workloads
        ≡ some (record { jobs = share jobs p.expected_size i; version = 0 }))
      × (p.state.config.version ≡ p.version)
config-share jobs set_name p i v h =
    let sent = IsSent-of_Inv jobs set_name p i v h in
    elim v.announced [
      | inl (none_sent, empty) ↦ absurd (omega (arith, empty))
      | inr (older, last) ↦
          let same : sent.sent ≡ p.state.config =
            heads_agree sent.sent p.state.config sent.older older (sym sent.sent_last ∙ last) in
          (
            subst
                (λ (a : Workloads).
                  lookup (worker_name set_name i) a.workloads
                  ≡ some (record { jobs = share jobs p.expected_size i; version = 0 }))
                same sent.shared,
            sym (ap (λ (a : Workloads). a.version) same) ∙ sent.versioned,
          )
    ]
  where
    heads_agree : (a b : Workloads) (older newer : List Workloads) → a ∷ older ≡ b ∷ newer → a ≡ b
    heads_agree a b older newer e = cc

module _ {F : Type 0} (read_in_config : F → Option F)
    (unmarshal : F → WorkerApp.Config → Option WorkerApp.Config) where
  -- A worker whose file loads, with an entry for its host.
  pub reloaded-version_handler :
      (file : F) (host : Bytes) (process : Process) (config : WorkerApp.Config) (w : Workload)
      → load_config read_in_config unmarshal file process.config ≡ some config
      → lookup host config.workload ≡ some w
      → (r : Process) × (update_workload_from_config read_in_config unmarshal file host process
          ≡ some r)
        × (version_handler r host ≡ record { jobs = w.jobs; version = config.version })
  unfolding update_workload_from_config version_handler adapter_workload host_workload
  reloaded-version_handler file host process config w loaded known =
      (record { config = config; app = WorkerApp.assign process.app w }, ground arith, ground arith)

module _ {Q W F : Type 0} (parse_ip : Bytes → Bytes) (jobs : List Job) (watch_label : Bytes)
    (read : W → Option Workloads) (view : Workloads → Workloads) (calls : Queue Event Q)
    (store : Storage W) (refresh : Bytes → W → Storage.Call W (Unit {0}))
    (keeping : IsKeeping store refresh read (λ a. some (view a))) (keeps : KeepsJobs view)
    (get_labels : Object → Option (Dict Bytes)) (key_of deletion_key_of : Object → Option Bytes)
    (read_in_config : F → Option F)
    (unmarshal : F → WorkerApp.Config → Option WorkerApp.Config) where
  -- The way of a job. The controller reaches a state in which it runs and its last assignment was stored
  -- with no error; and worker `i`'s file, for an `i` below the expected size, loads with the version of
  -- what the storage gives back and its jobs for worker `i`, with whatever other entries. Then the worker's update succeeds, and its version handler has worker `i`'s share
  -- of the jobs that the controller was started with, under the pool's version. The storage keeps the
  -- view of an assignment, and the view keeps its version and jobs.
  pub share_answered :
      (empty : Q) (w : W) (s : System Q W) (p : Pool) (i : ℕ) (file : F) (process : Process)
      → Reached calls store refresh parse_ip get_labels key_of deletion_key_of watch_label read
          (run_command jobs watch_label empty w)
          s
      → s.pool ≡ some p
      → s.stored ≡ true
      → i < p.expected_size
      → ((a : Workloads) (w : Workload)
          → read s.cluster ≡ some a
          → lookup (worker_name watch_label i) a.workloads ≡ some w
          → (d : WorkerApp.Config) × (load_config read_in_config unmarshal file process.config
              ≡ some d)
            × (d.version ≡ a.version)
            × ((v : Workload) × (lookup (worker_name watch_label i) d.workload ≡ some v)
                × (v.jobs ≡ w.jobs)))
      → (r : Process) × (update_workload_from_config read_in_config unmarshal file
            (worker_name watch_label i)
            process
          ≡ some r)
        × (version_handler r (worker_name watch_label i)
            ≡ record { jobs = share jobs p.expected_size i; version = p.version })
  share_answered empty w s p i file process reached runs good below loads =
      let (known, _, _) =
        stored_assignment parse_ip jobs watch_label read (λ a. some (view a)) calls store refresh
          keeping get_labels key_of deletion_key_of empty w s p reached runs good in
      let inv =
        Inv-of_Reached parse_ip jobs watch_label read (λ a. some (view a)) calls store refresh
          keeping get_labels key_of deletion_key_of empty w s p reached runs in
      let (entry, versioned) = config-share jobs watch_label p i inv below in
      let (u, viewed, kept) = keeps.same_jobs p.state.config (worker_name watch_label i) _ entry in
      let (d, loaded, version, (v, found, same)) = loads (view p.state.config) u known viewed in
      let (r, updated, answers) =
        reloaded-version_handler read_in_config unmarshal file (worker_name watch_label i) process d
          v loaded found in
      (
        r,
        updated,
        answers
            ∙ ap (λ js. record { jobs = js; version = d.version }) (same ∙ kept)
            ∙ ap (λ n. record { jobs = share jobs p.expected_size i; version = n })
                (version ∙ keeps.same_version p.state.config ∙ versioned),
      )
