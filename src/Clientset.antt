-- ===== src/Clientset.antt =====
-- services/controller/internal/infra/k8s/generated/clientset/versioned/typed/swarm/v1alpha1/swarm.go: the
-- requests of the typed client for Swarms, and
-- services/controller/internal/infra/k8s/operator/crd/watcher.go, which lists and watches by it.
--
-- rest.Interface is an argument: what it makes of a request. Of ListOptions the model has the selectors,
-- the watch flag and the timeout; the other options are of a type `O` that the client only passes on. A
-- time.Duration is the bit pattern of its nanoseconds.
pub mod Building
pub mod Serving
pub mod Fake
pub mod Tracking
use k8s_swarm.Prelude.{
  ℕ, ◌*◌, ◌%◌, ◌^◌, List, [], ◌∷◌, Option, none, some, Bool, true, false, Bytes, codes,
}
use k8s_swarm.Storage.{Answer, Call}
use k8s_swarm.Storage.Swarms.{Swarm, SwarmClient}

pub record SwarmList : Type 0 where
  pub resource_version : Bytes
  pub items : List Swarm

pub record ListOptions : Type 0 where
  pub label_selector : Bytes
  pub field_selector : Bytes
  pub watch : Bool
  pub timeout_seconds : Option ℕ

pub data Verb : Type 0 where
  get_verb post_verb put_verb delete_verb : Verb
  patch_verb : Bytes → Verb

-- The options as parameters of the URL, with `VersionedParams`.
pub data Params (O : Type 0) : Type 0 where
  no_params : Params O
  options : O → Params O
  list_options : ListOptions → Params O

pub data Body (O : Type 0) : Type 0 where
  no_body : Body O
  swarm_body : Swarm → Body O
  options_body : O → Body O
  raw_body : Bytes → Body O

-- A rest.Request, when `Do` or `Watch` sends it.
pub record Request (O : Type 0) : Type 0 where
  pub verb : Verb
  pub namespace : Bytes
  pub resource : Bytes
  pub name : Option Bytes
  pub subresources : List Bytes
  pub params : Params O
  pub timeout : ℕ
  pub body : Body O

-- rest.Interface: `Do` with `Into`, for a Swarm and for a list, `Do` with `Error`, and `Watch`.
pub record RestClient (O W V : Type 0) : Type 0 where
  pub into_swarm : Request O → W → Call W Swarm
  pub into_list : Request O → W → Call W SwarmList
  pub error : Request O → W → Call W (Unit {0})
  pub watch : Request O → W → Answer V

-- `time.Duration(*opts.TimeoutSeconds) * time.Second`, 0 without.
unfoldable pub timeout_of : ListOptions → ℕ
timeout_of opts = elim opts.timeout_seconds [
  | none ↦ 0
  | some seconds ↦ (seconds * 1000000000) % 2 ^ 64
]

-- The fields that no call of the request sets.
abbrev swarms_request : {O : Type 0} → Verb → Bytes → Request O
swarms_request verb ns = record {
  verb = verb;
  namespace = ns;
  resource = codes "swarms";
  name = none;
  subresources = [];
  params = no_params;
  timeout = 0;
  body = no_body;
}

-- `swarms`, with its client and its namespace.
pub record SwarmsClient (O W V : Type 0) : Type 0 where
  pub client : RestClient O W V
  pub ns : Bytes

unfoldable pub new_swarms : {O W V : Type 0} → RestClient O W V → Bytes → SwarmsClient O W V
new_swarms client namespace = record { client = client; ns = namespace }

module _ {O W V : Type 0} (c : SwarmsClient O W V) where
  unfoldable pub get : Bytes → O → W → Call W Swarm
  get name opts w =
      c.client.into_swarm
        (record (swarms_request get_verb c.ns) { name = some name; params = options opts }) w

  unfoldable pub list : ListOptions → W → Call W SwarmList
  list opts w =
      c.client.into_list
        (record (swarms_request get_verb c.ns) {
          params = list_options opts;
          timeout = timeout_of opts;
        })
        w

  unfoldable pub watch : ListOptions → W → Answer V
  watch opts w =
      c.client.watch
        (record (swarms_request get_verb c.ns) {
          params = list_options (record opts { watch = true });
          timeout = timeout_of opts;
        })
        w

  unfoldable pub create : Swarm → O → W → Call W Swarm
  create swarm opts w =
      c.client.into_swarm
        (record (swarms_request post_verb c.ns) { params = options opts; body = swarm_body swarm })
        w

  unfoldable pub update : Swarm → O → W → Call W Swarm
  update swarm opts w =
      c.client.into_swarm
        (record (swarms_request put_verb c.ns) {
          name = some swarm.name;
          params = options opts;
          body = swarm_body swarm;
        })
        w

  unfoldable pub update_status : Swarm → O → W → Call W Swarm
  update_status swarm opts w =
      c.client.into_swarm
        (record (swarms_request put_verb c.ns) {
          name = some swarm.name;
          subresources = codes "status" ∷ [];
          params = options opts;
          body = swarm_body swarm;
        })
        w

  unfoldable pub delete : Bytes → O → W → Call W (Unit {0})
  delete name opts w =
      c.client.error
        (record (swarms_request delete_verb c.ns) { name = some name; body = options_body opts }) w

  unfoldable pub delete_collection : O → ListOptions → W → Call W (Unit {0})
  delete_collection opts list_opts w =
      c.client.error
        (record (swarms_request delete_verb c.ns) {
          params = list_options list_opts;
          timeout = timeout_of list_opts;
          body = options_body opts;
        })
        w

  unfoldable pub patch : Bytes → Bytes → Bytes → O → List Bytes → W → Call W Swarm
  patch name pt content opts subresources w =
      c.client.into_swarm
        (record (swarms_request (patch_verb pt) c.ns) {
          name = some name;
          subresources = subresources;
          params = options opts;
          body = raw_body content;
        })
        w

-- `Swarms(namespace)` as the storage uses it, with the zero options that it passes.
unfoldable pub swarm_client : {O W V : Type 0} → RestClient O W V → O → SwarmClient W
swarm_client rest zero_opts = record {
  get = λ namespace name w. (get (new_swarms rest namespace) name zero_opts w).answer;
  create = λ namespace swarm w. create (new_swarms rest namespace) swarm zero_opts w;
  update = λ namespace swarm w. update (new_swarms rest namespace) swarm zero_opts w;
}

-- The list-watcher of Swarms: `List` and `Watch`.
module _ {O W V : Type 0} (rest : RestClient O W V) (namespace : Bytes) where
  unfoldable pub list_swarms : ListOptions → W → Call W SwarmList
  list_swarms opts w = list (new_swarms rest namespace) opts w

  unfoldable pub watch_swarms : ListOptions → W → Answer V
  watch_swarms opts w = watch (new_swarms rest namespace) opts w
