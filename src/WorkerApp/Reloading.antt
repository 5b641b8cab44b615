-- ===== src/WorkerApp/Reloading.antt =====
-- What a worker works on after its configuration has changed.
use k8s_swarm.Prelude.{Option, some, ◌≡◌, arith, Bytes, Option-cases, inl, inr, ◌∙◌, ap}
use k8s_swarm.Config.{Workload}
use k8s_swarm.WorkerApp.{
  Config, App, Process, assign, host_workload, load_config, update_workload_from_config,
  adapter_workload, version_handler,
}

assign_again : (a : App) (w v : Workload) → a.state ≡ some w → assign a v ≡ a
unfolding assign
assign_again a w v e = ground arith

module _ {F : Type 0} (read_in_config : F → Option F) (unmarshal : F → Config → Option Config)
    (host : Bytes) where
  -- The updates of a process, by the files that it has seen change.
  pub data Updated (p : Process) : Process → Type 0 where
    fresh : Updated p p
    changed :
        {q r : Process} (file : F)
        → Updated p q
        → update_workload_from_config read_in_config unmarshal file host q ≡ some r
        → Updated p r

  update_again :
      (file : F) (q r : Process) (w : Workload)
      → q.app.state ≡ some w
      → update_workload_from_config read_in_config unmarshal file host q ≡ some r
      → r.app.state ≡ some w
  unfolding update_workload_from_config
  update_again file q r w e h =
      elim (Option-cases (load_config read_in_config unmarshal file q.config)) [
        | inl failed ↦ absurd (ground arith)
        | inr (config, loaded) ↦ elim (Option-cases (host_workload config host)) [
          | inl unknown ↦ ground arith
          | inr (wl, known) ↦ ground (arith, assign_again q.app w wl e)
        ]
      ]

  Updated-state :
      {p q : Process} (w : Workload) → p.app.state ≡ some w → Updated p q → q.app.state ≡ some w
  Updated-state w e fresh = e
  Updated-state w e (changed {q} {r} file u h) = update_again file q r w (Updated-state w e u) h

  -- Once the app has a workload, it keeps that one through every later update of the configuration: if a
  -- later file loads with another workload for the host, then the update ends without error, the version
  -- handler reports the new jobs and version, and the app still has its first workload.
  pub app_outdated :
      {p q : Process} (w new : Workload) (file : F) (config : Config)
      → p.app.state ≡ some w
      → Updated p q
      → load_config read_in_config unmarshal file q.config ≡ some config
      → host_workload config host ≡ some new
      → (r : Process) × (update_workload_from_config read_in_config unmarshal file host q ≡ some r)
        × (r.app.state ≡ some w)
        × (version_handler r host ≡ record { jobs = new.jobs; version = config.version })
  unfolding update_workload_from_config version_handler adapter_workload
  app_outdated {p} {q} w new file config e u loaded known = (
    record { config = config; app = assign q.app new },
    ground (arith),
    ap (λ (a : App). a.state) (assign_again q.app w new (Updated-state w e u))
        ∙ Updated-state w e u,
    ground arith,
  )
