-- ===== src/Controllers/Wiring.antt =====
-- services/controller/cmd/internal.go and external.go: what `Run` makes of the clients, up to the executor.
pub mod Both
pub mod Mounted
pub mod Calm
use k8s_swarm.Prelude.{ℕ, Option, Bytes}
use k8s_swarm.Config.{Workloads}
use k8s_swarm.Storage.{Storage, Call, set_both}
use k8s_swarm.Storage.Swarms.{SwarmClient, set_swarm, get_swarm}
use k8s_swarm.Storage.ConfigMaps.{ConfigMapClient, set_config_map, get_config_map}
use k8s_swarm.Executor.{PodClient, refresh_pod}

-- The clients: those of ConfigMaps and pods are of `cl`, that of Swarms is of `swcl`.
pub record Clients (W : Type 0) : Type 0 where
  pub config_maps : ConfigMapClient W
  pub swarms : SwarmClient W
  pub pods : PodClient W

-- The command's variables.
pub record Variables : Type 0 where
  pub namespace : Bytes
  pub watch_label : Bytes
  pub workers_config_map_name : Bytes

module _ {W : Type 0} (clients : Clients W) (encode_yaml : Workloads → Option Bytes)
    (decode_yaml : Bytes → Option Workloads) (vars : Variables) where
  -- `cm`, `swl` and `mex`.
  unfoldable pub set_cm : Storage W
  set_cm a w =
      set_config_map clients.config_maps encode_yaml decode_yaml vars.namespace
        vars.workers_config_map_name a w

  unfoldable pub set_swl : (Bytes → ℕ) → Storage W
  set_swl clock a w = set_swarm clients.swarms vars.namespace vars.watch_label clock a w

  unfoldable pub set_mex : (Bytes → ℕ) → Storage W
  set_mex clock a w = set_both set_cm (set_swl clock) a w

  -- `pdl`.
  unfoldable pub refresh_pdl : Bytes → W → Call W (Unit {0})
  refresh_pdl name w = refresh_pod clients.pods vars.namespace name w

  -- What the two providers give back, which read what `Run`'s executor has stored.
  unfoldable pub get_both : W → Option Workloads × Option Workloads
  get_both w = (
    get_config_map clients.config_maps encode_yaml decode_yaml vars.namespace
        vars.workers_config_map_name w,
    get_swarm clients.swarms vars.namespace vars.watch_label w,
  )
