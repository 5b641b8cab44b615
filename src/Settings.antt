-- ===== src/Settings.antt =====
-- The settings of the two services: SetCoreFlags and BuildLogger of pkg/config/config.go, and init and
-- initConfig of services/controller/cmd/root.go and services/worker/cmd/root.go.
--
-- The environment is an argument: what os.Getenv returns. So are the command line, which gives a flag a
-- value or not and then writes it to the flag's variable, logrus's names of levels, and viper, which
-- reads the file of a directory and a name. `none` is log.Fatalf, which ends the process.
pub mod Precedence
use k8s_swarm.Prelude.{
  ℕ, List, [], ◌∷◌, ◌++◌, Option, none, some, Bool, true, false, Bytes, codes, ◌>>=◌,
}
use k8s_swarm.Config.{Workload}
use k8s_swarm.Logging.{GlobalFieldHook, new_global_field_hook}
use k8s_swarm.WorkerApp.{load_config}
use k8s_swarm.WorkerApp

-- The package variables of pkg/config that flags set.
pub record Core : Type 0 where
  pub log_level : Bytes
  pub env : Bytes
  pub config_file : Bytes
  pub config_file_path : Bytes
  pub http_port : Bytes

-- Those, and the package variables of the controller's command.
pub record Settings : Type 0 where
  pub core : Core
  pub namespace : Bytes
  pub watch_label : Bytes
  pub workers_config_map_name : Bytes

-- `if p := os.Getenv(...); p != ""`.
unfoldable pub or_environment : (environment variable : Bytes) → Bytes
or_environment [] variable = variable
or_environment (c ∷ p) variable = c ∷ p

module _ (getenv : Bytes → Bytes) where
  unfoldable pub set_core_flags : Bytes → Core
  unfolding or_environment
  set_core_flags service = record {
    log_level = codes "info";
    env = codes "dev";
    config_file = codes "config.yml";
    config_file_path =
        or_environment (getenv (codes "CONFIG_PATH"))
          (codes "services/" ++ service ++ codes "/config");
    http_port = or_environment (getenv (codes "HTTP_PORT")) (codes "9090");
  }

  -- `init` of the controller's root command.
  unfoldable pub init_root : Settings
  unfolding or_environment
  init_root = record {
    core = set_core_flags (codes "controller");
    namespace = or_environment (getenv (codes "NAMESPACE")) (codes "swarm");
    watch_label = or_environment (getenv (codes "WATCHED_LABEL")) (codes "swarm-worker");
    workers_config_map_name =
        or_environment (getenv (codes "WORKERS_CONFIGMAP_NAME")) (codes "swarm-worker-config");
  }

-- The value that the command line gives to a flag goes to the variable of `StringVar`.
abbrev pub string_var : Option Bytes → Bytes → Bytes
string_var none variable = variable
string_var (some value) variable = value

module _ (given : Bytes → Option Bytes) where
  unfoldable pub parse_core : Core → Core
  parse_core c = record {
    log_level = string_var (given (codes "log-level")) c.log_level;
    env = string_var (given (codes "env")) c.env;
    config_file = string_var (given (codes "config")) c.config_file;
    config_file_path = string_var (given (codes "config-path")) c.config_file_path;
    http_port = string_var (given (codes "http-port")) c.http_port;
  }

  unfoldable pub parse_root : Settings → Settings
  parse_root s = record {
    core = parse_core s.core;
    namespace = string_var (given (codes "namespace")) s.namespace;
    watch_label = string_var (given (codes "label")) s.watch_label;
    workers_config_map_name = string_var (given (codes "configmap")) s.workers_config_map_name;
  }

-- What `BuildLogger` sets of logrus's standard logger.
pub record Logger (L : Type 0) : Type 0 where
  pub level : L
  pub report_caller : Bool
  pub hooks : List GlobalFieldHook

module _ {L : Type 0} (parse_level : Bytes → Option L) where
  -- `none` is the error of ParseLevel.
  unfoldable pub build_logger : Bytes → Core → Logger L → Option (Logger L)
  build_logger app_id c log = parse_level c.log_level >>= λ level. some (record {
    level = level;
    report_caller = true;
    hooks = log.hooks ++ new_global_field_hook app_id c.env ∷ [];
  })

module _ {L F : Type 0} (parse_level : Bytes → Option L) where
  -- `initConfig` of the controller.
  unfoldable pub init_config :
      ((path name : Bytes) → Option F)
      → (F → Option Workload)
      → Core
      → Logger L
      → Option (Logger L × Workload)
  init_config read_in_config unmarshal c log =
      build_logger parse_level (codes "k8s-swarm-controller") c log >>= λ l.
      read_in_config c.config_file_path c.config_file >>= λ content.
      unmarshal content >>= λ w. some (l, w)

  -- `initConfig` of the worker.
  unfoldable pub init_worker_config :
      ((path name : Bytes) → F)
      → (F → Option F)
      → (F → WorkerApp.Config → Option WorkerApp.Config)
      → Core
      → WorkerApp.Config
      → Logger L
      → Option (Logger L × WorkerApp.Config)
  init_worker_config file_at read_in_config unmarshal c config log =
      build_logger parse_level (codes "swarm-worker") c log >>= λ l.
      load_config read_in_config unmarshal (file_at c.config_file_path c.config_file) config
      >>= λ config'. some (l, config')
