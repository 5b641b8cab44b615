-- ===== src/Examples/WorkerApp.antt =====
-- A worker whose configuration changes; a file is the configuration that it holds.
use k8s_swarm.Prelude.{◌^◌, ◌>>=◌, [], ◌∷◌, Option, some, ◌≡◌, refl, codes}
use k8s_swarm.Config.{Workload}
use k8s_swarm.WorkerApp.{
  Config, Process, load_config, host_workload, update_workload_from_config, version_handler,
}
use k8s_swarm.WorkerApp.Watching.{Watched, start_worker, change_files, Loads, watchers_double}
use k8s_swarm.WorkerApp.Reloading.{Updated, app_outdated}

abbrev read_in_config : Config → Option Config
read_in_config file = some file

abbrev unmarshal : Config → Config → Option Config
unmarshal content config = some content

abbrev one : Workload
one = record { jobs = codes "a" ∷ []; version = 0 }

abbrev other : Workload
other = record { jobs = codes "b" ∷ []; version = 0 }

abbrev holding : Workload → Config
holding w = record { workload = (codes "w-0", w) ∷ []; version = 2 }

abbrev process : Process
process = record { config = holding one; app = record { state = some one } }

app_outdated_example :
    (r : Process) × (update_workload_from_config read_in_config unmarshal
        (holding other)
        (codes "w-0")
        process
      ≡ some r)
    × (r.app.state ≡ some one)
    × (version_handler r (codes "w-0") ≡ record { jobs = other.jobs; version = 2 })
unfolding load_config host_workload
app_outdated_example =
    app_outdated read_in_config unmarshal (codes "w-0") one other (holding other) (holding other)
      refl Updated.fresh refl refl

holding_Loads : (file : Config) → Loads read_in_config unmarshal file
unfolding load_config
holding_Loads file c = (file, refl)

watchers_double_example :
    (v : Watched) × ((start_worker read_in_config unmarshal [] (holding one) >>= λ w.
    change_files read_in_config unmarshal [] (holding other ∷ holding one ∷ []) w)
      ≡ some v)
    × (v.watchers ≡ 2 ^ 3)
watchers_double_example =
    watchers_double read_in_config unmarshal [] (holding one) (holding other ∷ holding one ∷ [])
      (holding_Loads (holding one))
      (holding_Loads (holding other), (holding_Loads (holding one), tt))
