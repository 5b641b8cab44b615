-- ===== src/Clients.antt =====
-- services/controller/internal/infra/k8s/client.go: how the controller's clients are made, of the
-- configuration in the cluster or of that in the user's home.
--
-- Packages rest, clientcmd and kubernetes, and the environment, are arguments; `K` is a client of package
-- kubernetes. log.Fatalf ends the process.
use k8s_swarm.Prelude.{◌++◌, Bytes, codes, []}
use k8s_swarm.Clientset.Building.{
  Result, ok, error, RestConfig, Packages, ClientSet, new_client_set,
}

-- What the functions call; `K` and `E` as above, and errors of a type `E`.
pub record Configs (L X K E : Type 0) : Type 0 where
  pub getenv : Bytes → Bytes
  pub in_cluster_config : Result E (RestConfig L X)
  pub build_config_from_flags : (master_url kube_config_path : Bytes) → Result E (RestConfig L X)
  pub new_kubernetes : RestConfig L X → Result E K

-- A value, or the end of the process.
pub data Built (A : Type 0) : Type 0 where
  exits : Built A
  built : A → Built A

unfoldable pub or_fatal : {E A : Type 0} → Result E A → Built A
or_fatal (ok a) = built a
or_fatal (error e) = exits

unfoldable pub then_build : {E A B : Type 0} → Result E A → (A → Result E B) → Built B
then_build (ok a) f = or_fatal (f a)
then_build (error e) f = exits

module _ {L X K E : Type 0} (configs : Configs L X K E) where
  unfoldable pub kube_config_path : Bytes
  kube_config_path = configs.getenv (codes "HOME") ++ codes "/.kube/config"

  unfoldable pub build_internal_client : Built K
  build_internal_client = then_build configs.in_cluster_config configs.new_kubernetes

  unfoldable pub build_external_client : Built K
  build_external_client =
      then_build (configs.build_config_from_flags [] kube_config_path) configs.new_kubernetes

  module _ {H R D : Type 0} (packages : Packages L X H R D E) (gv : Bytes × Bytes) where
    unfoldable pub build_swarm_internal_client : Built (ClientSet R D)
    build_swarm_internal_client = then_build configs.in_cluster_config (new_client_set packages gv)

    unfoldable pub build_swarm_external_client : Built (ClientSet R D)
    build_swarm_external_client =
        then_build (configs.build_config_from_flags [] kube_config_path)
          (new_client_set packages gv)
