-- ===== src/Examples/Settings.antt =====
-- A namespace in the environment, and a label on the command line.
use k8s_swarm.Prelude.{[], Option, none, some, ◌≡◌, Bytes, codes, bytes_eq, if◌then◌else◌}
use k8s_swarm.Settings.{init_root, parse_root}
use k8s_swarm.Settings.Precedence.{
  namespace, value_of, source_of, first_of, read_variable, setting_precedence,
}

abbrev getenv : Bytes → Bytes
getenv variable = if bytes_eq variable (codes "NAMESPACE") then codes "mine" else []

abbrev given : Bytes → Option Bytes
given flag = if bytes_eq flag (codes "label") then some (codes "w") else none

setting_precedence_example :
    value_of namespace (parse_root given (init_root getenv))
    ≡ first_of
        (given (source_of namespace).flag)
        (read_variable getenv (source_of namespace).variable)
        (source_of namespace).otherwise
setting_precedence_example = setting_precedence getenv given namespace
