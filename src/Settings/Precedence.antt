-- ===== src/Settings/Precedence.antt =====
-- Where the value of each setting comes from.
use k8s_swarm.Prelude.{[], ◌∷◌, Option, none, some, ◌≡◌, refl, Bytes, codes}
use k8s_swarm.Settings.{
  Settings, or_environment, set_core_flags, init_root, parse_core, parse_root, string_var,
}

-- The settings of the controller.
pub data Setting : Type 0 where
  log_level env config_file config_file_path http_port namespace watch_label
        workers_config_map_name :
      Setting

abbrev pub value_of : Setting → Settings → Bytes
value_of log_level s = s.core.log_level
value_of env s = s.core.env
value_of config_file s = s.core.config_file
value_of config_file_path s = s.core.config_file_path
value_of http_port s = s.core.http_port
value_of namespace s = s.namespace
value_of watch_label s = s.watch_label
value_of workers_config_map_name s = s.workers_config_map_name

-- Its flag, the environment variable that stands for it if there is one, and its default.
pub record Source : Type 0 where
  pub flag : Bytes
  pub variable : Option Bytes
  pub otherwise : Bytes

abbrev pub source_of : Setting → Source
source_of log_level = record { flag = codes "log-level"; variable = none; otherwise = codes "info" }
source_of env = record { flag = codes "env"; variable = none; otherwise = codes "dev" }
source_of config_file = record {
  flag = codes "config";
  variable = none;
  otherwise = codes "config.yml";
}
source_of config_file_path = record {
  flag = codes "config-path";
  variable = some (codes "CONFIG_PATH");
  otherwise = codes "services/controller/config";
}
source_of http_port = record {
  flag = codes "http-port";
  variable = some (codes "HTTP_PORT");
  otherwise = codes "9090";
}
source_of namespace = record {
  flag = codes "namespace";
  variable = some (codes "NAMESPACE");
  otherwise = codes "swarm";
}
source_of watch_label = record {
  flag = codes "label";
  variable = some (codes "WATCHED_LABEL");
  otherwise = codes "swarm-worker";
}
source_of workers_config_map_name = record {
  flag = codes "configmap";
  variable = some (codes "WORKERS_CONFIGMAP_NAME");
  otherwise = codes "swarm-worker-config";
}

-- The first that there is: a value on the command line, a variable that is not empty, the default.
abbrev pub first_of : Option Bytes → Bytes → Bytes → Bytes
first_of (some value) environment otherwise = value
first_of none [] otherwise = otherwise
first_of none (c ∷ p) otherwise = c ∷ p

abbrev pub read_variable : (Bytes → Bytes) → Option Bytes → Bytes
read_variable getenv none = []
read_variable getenv (some variable) = getenv variable

string_var-or_environment :
    (given : Option Bytes) (environment otherwise : Bytes)
    → string_var given (or_environment environment otherwise) ≡ first_of given environment otherwise
unfolding or_environment
string_var-or_environment none [] otherwise = refl
string_var-or_environment none (c ∷ p) otherwise = refl
string_var-or_environment (some value) environment otherwise = refl

string_var-first_of :
    (given : Option Bytes) (otherwise : Bytes)
    → string_var given otherwise ≡ first_of given [] otherwise
string_var-first_of none otherwise = refl
string_var-first_of (some value) otherwise = refl

-- Each setting of the controller has the value that the command line gives to its flag; without one, the
-- value of its environment variable, if it has one and that is not empty; and else its default.
pub setting_precedence :
    (getenv : Bytes → Bytes) (given : Bytes → Option Bytes) (s : Setting)
    → value_of s (parse_root given (init_root getenv))
      ≡ first_of
          (given (source_of s).flag)
          (read_variable getenv (source_of s).variable)
          (source_of s).otherwise
unfolding parse_root parse_core init_root set_core_flags
setting_precedence getenv given log_level =
    string_var-first_of (given (codes "log-level")) (codes "info")
setting_precedence getenv given env = string_var-first_of (given (codes "env")) (codes "dev")
setting_precedence getenv given config_file =
    string_var-first_of (given (codes "config")) (codes "config.yml")
setting_precedence getenv given config_file_path =
    string_var-or_environment (given (codes "config-path")) (getenv (codes "CONFIG_PATH"))
      (codes "services/controller/config")
setting_precedence getenv given http_port =
    string_var-or_environment (given (codes "http-port")) (getenv (codes "HTTP_PORT"))
      (codes "9090")
setting_precedence getenv given namespace =
    string_var-or_environment (given (codes "namespace")) (getenv (codes "NAMESPACE"))
      (codes "swarm")
setting_precedence getenv given watch_label =
    string_var-or_environment (given (codes "label")) (getenv (codes "WATCHED_LABEL"))
      (codes "swarm-worker")
setting_precedence getenv given workers_config_map_name =
    string_var-or_environment (given (codes "configmap")) (getenv (codes "WORKERS_CONFIGMAP_NAME"))
      (codes "swarm-worker-config")
