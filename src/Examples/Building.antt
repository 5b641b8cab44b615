-- ===== src/Examples/Building.antt =====
-- A clientset with a QPS of 5 and a burst of 10. A client is the configuration that it was made of.
use k8s_swarm.Prelude.{ℕ, [], none, some, ◌≡◌, ◌↔◌, Bytes, codes}
use k8s_swarm.Clientset.Building.{ok, RestConfig, Packages, ClientSet, new_client_set_with}
use k8s_swarm.Clientset.Building.Limiting.{IsLimited, AreMadeOf, new_client_set_with_iff}

-- A rate limiter is its QPS and its burst.
abbrev Config : Type 0
Config = RestConfig (ℕ × ℕ) (Unit {0})

abbrev packages : Packages (ℕ × ℕ) (Unit {0}) (Unit {0}) Config Config Bytes
packages = record {
  default_user_agent = codes "k8s-swarm";
  without_conversion = λ x. x;
  http_client_for = λ c. ok tt;
  rest_client_for = λ c h. ok c;
  discovery_client_for = λ c h. ok c;
  new_rate_limiter = λ qps burst. (qps, burst);
  burst_required = codes "burst is required";
}

abbrev config : Config
config = record {
  rate_limiter = none;
  qps = some 5;
  burst = 10;
  group_version = none;
  api_path = [];
  user_agent = [];
  other = tt;
}

abbrev group_version : Bytes × Bytes
group_version = (codes "k8slab.info", codes "v1alpha1")

abbrev clients : ClientSet Config Config
clients = record {
  discovery_client = record config { rate_limiter = some (5, 10) };
  k8slab_v1alpha1 = record config {
    rate_limiter = some (5, 10);
    group_version = some group_version;
    api_path = codes "/apis";
    user_agent = codes "k8s-swarm";
  };
}

new_client_set_with_iff_example :
    (new_client_set_with packages group_version config tt ≡ ok clients) ↔ (
      (c' : Config) × IsLimited packages group_version config c'
      × AreMadeOf packages group_version clients c' tt)
new_client_set_with_iff_example = new_client_set_with_iff packages group_version config tt clients
