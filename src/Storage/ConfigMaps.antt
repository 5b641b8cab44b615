-- ===== src/Storage/ConfigMaps.antt =====
-- services/controller/internal/infra/k8s/operator/configmap/provider.go: an assignment as the text under
-- `config.yml` of a ConfigMap.
--
-- The client and the YAML encoder and decoder are arguments; `decode_yaml` is yaml.Unmarshal followed by
-- mapstructure.Decode. A ConfigMap whose data is a nil map takes no entry: the write panics.
use k8s_swarm.Prelude.{Option, none, some, Bytes, codes, Dict, insert, lookup, [], ◌>>=◌}
use k8s_swarm.Config.{Workloads}
use k8s_swarm.Storage.{
  Answer, answered, status_error, other_error, Call, Outcome, stored, refused, panicked, Storage,
}

-- Of a ConfigMap, its data; `none` is the nil map.
pub record ConfigMap : Type 0 where
  pub name : Bytes
  pub resource_version : Bytes
  pub entries : Option (Dict Bytes)

pub record ConfigMapClient (W : Type 0) : Type 0 where
  pub get : (namespace name : Bytes) → W → Answer ConfigMap
  pub update : (namespace : Bytes) → ConfigMap → W → Call W ConfigMap

abbrev pub default_config_key : Bytes
default_config_key = codes "config.yml"

-- `cm.Data[defaultConfigKey]`, "" on a missing key and on a nil map.
unfoldable pub config_text : ConfigMap → Bytes
config_text cm = elim (cm.entries >>= λ entries. lookup default_config_key entries) [
  | none ↦ []
  | some text ↦ text
]

module _ {W : Type 0} (client : ConfigMapClient W) (encode_yaml : Workloads → Option Bytes)
    (decode_yaml : Bytes → Option Workloads) (namespace config_map_name : Bytes) where
  -- The write to the map and the update.
  unfoldable pub update_text : Bytes → ConfigMap → W → Outcome W
  update_text text cm w = elim cm.entries [
    | none ↦ panicked w
    | some entries ↦
        let c =
          client.update namespace
            (record cm { entries = some (insert default_config_key text entries) }) w in
        elim c.answer [
          | answered _ ↦ stored c.cluster
          | status_error ↦ refused c.cluster
          | other_error ↦ refused c.cluster
        ]
  ]

  unfoldable pub set_config_map : Storage W
  set_config_map a w = elim (client.get namespace config_map_name w) [
    | status_error ↦ refused w
    | other_error ↦ refused w
    | answered cm ↦ elim (encode_yaml a) [ none ↦ refused w | some text ↦ update_text text cm w ]
  ]

  -- `Get`, with `decode`; `none` is an error.
  unfoldable pub get_config_map : W → Option Workloads
  get_config_map w = elim (client.get namespace config_map_name w) [
    | status_error ↦ none
    | other_error ↦ none
    | answered cm ↦ decode_yaml (config_text cm)
  ]
