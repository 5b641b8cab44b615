-- ===== src/Clientset/Fake.antt =====
-- The fake of the typed client, in
-- services/controller/internal/infra/k8s/generated/clientset/versioned/typed/swarm/v1alpha1/fake and
-- services/controller/internal/infra/k8s/generated/clientset/versioned/fake.
--
-- An action of package testing is the function that makes it, with its arguments. What Invokes and
-- InvokesWatch do with an action, the object tracker, and what package labels makes of list options and
-- of a Swarm's labels, are arguments. A type assertion that does not hold panics.
use k8s_swarm.Prelude.{
  List, [], ◌∷◌, ◌++◌, Option, none, some, Bool, true, false, Bytes, codes, if◌then◌else◌,
}
use k8s_swarm.Storage.{Answer, answered, status_error, other_error}
use k8s_swarm.Storage.Swarms.{Swarm}
use k8s_swarm.Clientset.{SwarmList, ListOptions}
use k8s_swarm.Informers.{GroupVersionResource}

pub record GroupVersionKind : Type 0 where
  pub group : Bytes
  pub version : Bytes
  pub kind : Bytes

abbrev pub swarms_resource : GroupVersionResource
swarms_resource = record {
  group = codes "k8slab.info";
  version = codes "v1alpha1";
  resource = codes "swarms";
}

abbrev pub swarms_kind : GroupVersionKind
swarms_kind = record {
  group = codes "k8slab.info";
  version = codes "v1alpha1";
  kind = codes "Swarm";
}

-- The actions: `namespace` stands before the name or the object.
pub data Action (O : Type 0) : Type 0 where
  get_action : GroupVersionResource → (namespace name : Bytes) → Action O
  list_action :
      GroupVersionResource → GroupVersionKind → (namespace : Bytes) → ListOptions → Action O
  watch_action : GroupVersionResource → (namespace : Bytes) → ListOptions → Action O
  create_action update_action : GroupVersionResource → (namespace : Bytes) → Swarm → Action O
  update_subresource_action :
      GroupVersionResource → (subresource namespace : Bytes) → Swarm → Action O
  delete_action : GroupVersionResource → (namespace name : Bytes) → O → Action O
  delete_collection_action : GroupVersionResource → (namespace : Bytes) → ListOptions → Action O
  patch_subresource_action :
      GroupVersionResource → (namespace name pt content : Bytes) → List Bytes → Action O

-- An error: a *apiErrors.StatusError or another one.
pub data ApiError : Type 0 where
  a_status another : ApiError

-- A runtime.Object that is not nil.
pub data Reacted : Type 0 where
  swarm_object : Swarm → Reacted
  list_object : SwarmList → Reacted
  other_object : Reacted

-- What `Invokes` returns: the object, nil as `none`, and the error.
pub record Invoked (W : Type 0) : Type 0 where
  pub cluster : W
  pub object : Option Reacted
  pub err : Option ApiError

-- What a method returns, a pointer and an error, if it does not panic.
pub data Faked (A : Type 0) : Type 0 where
  panics : Faked A
  returned : Option A → Option ApiError → Faked A

pub record FakeCall (W A : Type 0) : Type 0 where
  pub cluster : W
  pub result : Faked A

-- testing.Fake: `Invokes`, with the default object, and `InvokesWatch`.
pub record Fake (O W V : Type 0) : Type 0 where
  pub invokes : Action O → Reacted → W → Invoked W
  pub invokes_watch : Action O → W → Answer V

-- Of package labels: the label selector of list options, nil as `none`, and what a selector matches.
pub record Labels (L : Type 0) : Type 0 where
  pub label_of : ListOptions → Option L
  pub everything : L
  pub matches : L → Swarm → Bool

abbrev empty_swarm_object : Reacted
empty_swarm_object = swarm_object (record {
  kind = [];
  api_version = [];
  name = [];
  namespace = [];
  resource_version = [];
  spec = record { version = 0; expected_size = 0; size = 0; members = [] };
  phase = [];
})

abbrev empty_list_object : Reacted
empty_list_object = list_object (record { resource_version = []; items = [] })

-- The end of the methods that give a Swarm.
unfoldable pub as_swarm : Option Reacted → Option ApiError → Faked Swarm
as_swarm none err = returned none err
as_swarm (some (swarm_object s)) err = returned (some s) err
as_swarm (some (list_object l)) err = panics
as_swarm (some other_object) err = panics

-- The loop of `List`.
unfoldable pub append_matching : (Swarm → Bool) → List Swarm → List Swarm → List Swarm
append_matching matches [] items = items
append_matching matches (item ∷ rest) items =
    append_matching matches rest (if matches item then items ++ item ∷ [] else items)

unfoldable pub label_or_everything : {L : Type 0} → Labels L → Option L → L
label_or_everything labels none = labels.everything
label_or_everything labels (some label) = label

-- `List` from its `Invokes` on.
unfoldable pub as_list :
    {L : Type 0} → Labels L → ListOptions → Option Reacted → Option ApiError → Faked SwarmList
as_list labels opts none err = returned none err
as_list labels opts (some (list_object l)) err =
    let label = label_or_everything labels (labels.label_of opts) in
    returned
      (some (record {
        resource_version = l.resource_version;
        items = append_matching (labels.matches label) l.items [];
      }))
      err
as_list labels opts (some (swarm_object s)) err = panics
as_list labels opts (some other_object) err = panics

-- `FakeSwarms`, with its `Fake` and its namespace.
pub record FakeSwarms (O W V : Type 0) : Type 0 where
  pub fake : Fake O W V
  pub ns : Bytes

-- `(c *FakeK8slabV1alpha1) Swarms`.
unfoldable pub fake_swarms : {O W V : Type 0} → Fake O W V → Bytes → FakeSwarms O W V
fake_swarms fake namespace = record { fake = fake; ns = namespace }

module _ {O W V : Type 0} (c : FakeSwarms O W V) where
  unfoldable pub invoke_swarm : Action O → W → FakeCall W Swarm
  invoke_swarm action w =
      let i = c.fake.invokes action empty_swarm_object w in
      record { cluster = i.cluster; result = as_swarm i.object i.err }

  unfoldable pub get_fake : Bytes → O → W → FakeCall W Swarm
  get_fake name options w = invoke_swarm (get_action swarms_resource c.ns name) w

  unfoldable pub list_fake : {L : Type 0} → Labels L → ListOptions → W → FakeCall W SwarmList
  list_fake labels opts w =
      let i =
        c.fake.invokes (list_action swarms_resource swarms_kind c.ns opts) empty_list_object w in
      record { cluster = i.cluster; result = as_list labels opts i.object i.err }

  unfoldable pub watch_fake : ListOptions → W → Answer V
  watch_fake opts w = c.fake.invokes_watch (watch_action swarms_resource c.ns opts) w

  unfoldable pub create_fake : Swarm → O → W → FakeCall W Swarm
  create_fake swarm opts w = invoke_swarm (create_action swarms_resource c.ns swarm) w

  unfoldable pub update_fake : Swarm → O → W → FakeCall W Swarm
  update_fake swarm opts w = invoke_swarm (update_action swarms_resource c.ns swarm) w

  unfoldable pub update_status_fake : Swarm → O → W → FakeCall W Swarm
  update_status_fake swarm opts w =
      invoke_swarm (update_subresource_action swarms_resource (codes "status") c.ns swarm) w

  -- `Delete` and `DeleteCollection` return the error alone.
  unfoldable pub delete_fake : Bytes → O → W → W × Option ApiError
  delete_fake name opts w =
      let i = c.fake.invokes (delete_action swarms_resource c.ns name opts) empty_swarm_object w in
      (i.cluster, i.err)

  unfoldable pub delete_collection_fake : O → ListOptions → W → W × Option ApiError
  delete_collection_fake opts list_opts w =
      let i =
        c.fake.invokes (delete_collection_action swarms_resource c.ns list_opts) empty_list_object
          w in
      (i.cluster, i.err)

  unfoldable pub patch_fake : Bytes → Bytes → Bytes → O → List Bytes → W → FakeCall W Swarm
  patch_fake name pt content opts subresources w =
      invoke_swarm (patch_subresource_action swarms_resource c.ns name pt content subresources) w

-- The loop of `NewSimpleClientset` over its objects, with the tracker's `Add`, whose error panics: `none`.
unfoldable pub add_objects : {A T : Type 0} → (A → T → Option T) → List A → T → Option T
add_objects add [] o = some o
add_objects add (obj ∷ objects) o = elim (add obj o) [
  | none ↦ none
  | some o' ↦ add_objects add objects o'
]

-- What a watch reactor returns: whether it handled the action, and the watch and the error.
pub record WatchReaction (V : Type 0) : Type 0 where
  pub handled : Bool
  pub ret : Option V
  pub err : Option ApiError

-- The watch reactor, with the tracker's `Watch` of a resource in a namespace.
unfoldable pub react_to_watch :
    {V : Type 0}
    → (GroupVersionResource → Bytes → Answer V)
    → GroupVersionResource
    → Bytes
    → WatchReaction V
react_to_watch watch gvr ns = elim (watch gvr ns) [
  | answered v ↦ record { handled = true; ret = some v; err = none }
  | status_error ↦ record { handled = false; ret = none; err = none }
  | other_error ↦ record { handled = false; ret = none; err = none }
]
