-- ===== src/WorkerApp.antt =====
-- The worker service: services/worker/internal/app/app.go, services/worker/internal/config/config.go,
-- services/worker/internal/transport/http/version.go and updateWorkloadFromConfig of
-- services/worker/cmd/worker.go.
--
-- Viper is an argument: what it reads from the file, and how it unmarshals that into the configuration
-- there is, always with new Workload objects. The host's name is an argument. A lock is held for the whole of an access.
pub mod Reloading
pub mod Watching
pub mod Serving
use k8s_swarm.Prelude.{
  ℕ, List, [], ◌∷◌, Option, none, some, Bytes, Dict, lookup, length, ◌==◌, ◌&&◌, Bool,
  if◌then◌else◌, ◌>>=◌,
}
use k8s_swarm.Config.{Job, Workload, difference}

-- `Config`, the loaded configuration.
pub record Config : Type 0 where
  pub workload : Dict Workload
  pub version : ℕ

-- `App`; `none` is the nil pointer.
pub record App : Type 0 where
  pub state : Option Workload

unfoldable pub new_app : App
new_app = record { state = none }

-- `(a *App) Assign`; it returns no error.
unfoldable pub assign : App → Workload → App
assign a w = elim a.state [
  | none ↦ record a { state = some w }
  | some state ↦ let (i, e) = difference state w in if length i == 0 && length e == 0 then a else a
]

-- `(cfg *Config) HostWorkLoad`; `none` is an error.
unfoldable pub host_workload : Config → Bytes → Option Workload
host_workload cfg host = lookup host cfg.workload

-- `HostName`, of the environment variable.
unfoldable pub host_name : Bytes → Bytes → Bytes
host_name [] default_host_name = default_host_name
host_name (c ∷ env) default_host_name = c ∷ env

-- The process: its package variable `workloadsConfig` and its app.
pub record Process : Type 0 where
  pub config : Config
  pub app : App

unfoldable pub new_process : Process
unfolding new_app
new_process = record { config = record { workload = []; version = 0 }; app = new_app }

-- `(v *VersionAdapter) Workload`, with its nil for an unknown host.
unfoldable pub adapter_workload : Process → Bytes → Option Workload
adapter_workload p host = host_workload p.config host

-- What the version handler encodes.
unfoldable pub version_handler : Process → Bytes → Workload
version_handler p host = record {
  jobs = elim (adapter_workload p host) [ none ↦ [] | some w ↦ w.jobs ];
  version = p.config.version;
}

module _ {F : Type 0} (read_in_config : F → Option F) (unmarshal : F → Config → Option Config) where
  -- `LoadConfig`; `none` is an error.
  unfoldable pub load_config : F → Config → Option Config
  load_config file config = read_in_config file >>= λ content. unmarshal content config

  -- `updateWorkloadFromConfig`; `none` where the process ends, in log.Fatalf.
  unfoldable pub update_workload_from_config : F → Bytes → Process → Option Process
  update_workload_from_config file host p = elim (load_config file p.config) [
    | none ↦ none
    | some config ↦ elim (host_workload config host) [
      | none ↦ some (record p { config = config })
      | some wl ↦ some (record { config = config; app = assign p.app wl })
    ]
  ]
