-- ===== src/Examples/ConfigMaps.antt =====
-- A cluster that holds at most one ConfigMap. The text of an assignment is empty, and it is read as the
-- assignment to nobody.
use k8s_swarm.Prelude.{
  List, [], Option, none, some, ◌≡◌, ◌↔◌, refl, arith, Bytes, codes, bytes_eq, bytes_eq_iff,
  if◌then◌else◌,
}
use k8s_swarm.Config.{Workloads}
use k8s_swarm.Storage.{Answer, answered, status_error, panicked}
use k8s_swarm.Storage.ConfigMaps.{ConfigMap, ConfigMapClient, set_config_map}
use k8s_swarm.Storage.ReadingBack.{ConfigMapClientLaws, set_config_map-panics}

abbrev Cluster : Type 0
Cluster = Option ConfigMap

abbrev pub get : Bytes → Bytes → Cluster → Answer ConfigMap
get namespace name none = status_error
get namespace name (some cm) = if bytes_eq cm.name name then answered cm else status_error

abbrev client : ConfigMapClient Cluster
client = record {
  get = get;
  update = λ namespace cm w. record { cluster = some cm; answer = answered cm };
}

pub got_name :
    (ns n : Bytes) (w : Cluster) (cm : ConfigMap) → get ns n w ≡ answered cm → cm.name ≡ n
got_name ns n none cm e = absurd (ground arith)
got_name ns n (some c) cm e = ground (arith, bytes_eq_iff c.name n)

client-Laws : ConfigMapClientLaws client
client-Laws = record {
  got_name = got_name;
  updated = λ ns cm r w e. (cm, ground (arith, bytes_eq_iff cm.name cm.name), refl);
}

abbrev nobody : Workloads
nobody = record { workloads = []; version = 0 }

abbrev encode_yaml : Workloads → Option Bytes
encode_yaml a = some []

abbrev decode_yaml : Bytes → Option Workloads
decode_yaml text = some nobody

abbrev holding : Option (List (Bytes × Bytes)) → Cluster
holding entries = some (record { name = codes "cm"; resource_version = []; entries = entries })

set_config_map-panics_example :
    (set_config_map client encode_yaml decode_yaml (codes "ns") (codes "cm") nobody (holding none)
      ≡ panicked (holding none))
    ↔ ((cm : ConfigMap) × (text : Bytes) × (client.get (codes "ns") (codes "cm") (holding none)
          ≡ answered cm)
        × (encode_yaml nobody ≡ some text)
        × (cm.entries ≡ none))
set_config_map-panics_example =
    set_config_map-panics client encode_yaml decode_yaml (codes "ns") (codes "cm") nobody
      (holding none)
