-- ===== src/Informers.antt =====
-- services/controller/internal/infra/k8s/generated/informers/externalversions: factory.go, generic.go and
-- swarm/v1alpha1/swarm.go, the factory that shares one informer for each type.
--
-- A reflect.Type is the type's name. An informer is a position in the list of those that were made, with
-- what it was made from; `running` has the informers whose `Run` was started, newest last. A method holds
-- the factory's lock and is one step. A function that changes list options is of a type `T`, and the
-- group's name, which stands in another repository, is an argument. Durations are not negative.
pub mod Entries
pub mod Starting
pub mod Running
pub mod Filtered
use k8s_swarm.Prelude.{
  ℕ, List, [], ◌∷◌, ◌++◌, Option, none, some, Bool, true, false, ◌&&◌, Bytes, codes, Dict, lookup,
  insert, length, bytes_eq, if◌then◌else◌,
}

-- What NewFilteredSwarmInformer is given.
pub record Informer (T : Type 0) : Type 0 where
  pub namespace : Bytes
  pub resync_period : ℕ
  pub tweak_list_options : Option T

pub record Factory (T : Type 0) : Type 0 where
  pub namespace : Bytes
  pub tweak_list_options : Option T
  pub default_resync : ℕ
  pub custom_resync : Dict ℕ
  pub informers : Dict ℕ
  pub started_informers : Dict Bool
  pub made : List (Informer T)
  pub running : List ℕ

-- `f.startedInformers[informerType]`, false for a missing key.
unfoldable pub is_started : Bytes → Dict Bool → Bool
is_started t started = elim (lookup t started) [ none ↦ false | some b ↦ b ]

-- The loop of `Start` over the informers, with the started ones and the goroutines.
unfoldable pub start_loop : Dict ℕ → Dict Bool → List ℕ → Dict Bool × List ℕ
start_loop [] started running = (started, running)
start_loop ((t, informer) ∷ informers) started running =
    let known = start_loop informers started running in
    let fresh = start_loop informers (insert t true started) (running ++ informer ∷ []) in
    if is_started t started then known else fresh

-- The first loop of `WaitForCacheSync`, over the informers that are started.
unfoldable pub started_only : Dict ℕ → Dict Bool → Dict ℕ → Dict ℕ
started_only [] started res = res
started_only ((t, informer) ∷ informers) started res =
    started_only informers started (if is_started t started then insert t informer res else res)

-- Its second loop, with the answer of cache.WaitForCacheSync for an informer.
unfoldable pub sync_loop : (ℕ → Bool) → Dict ℕ → Dict Bool → Dict Bool
sync_loop synced [] res = res
sync_loop synced ((t, informer) ∷ informers) res =
    sync_loop synced informers (insert t (synced informer) res)

-- The loop of `WithCustomResyncConfig`.
unfoldable pub set_resyncs : Dict ℕ → Dict ℕ → Dict ℕ
set_resyncs [] custom = custom
set_resyncs ((k, v) ∷ config) custom = set_resyncs config (insert k v custom)

module _ {T : Type 0} where
  unfoldable pub with_custom_resync_config : Dict ℕ → Factory T → Factory T
  with_custom_resync_config config factory = record factory {
    custom_resync = set_resyncs config factory.custom_resync;
  }

  unfoldable pub with_tweak_list_options : T → Factory T → Factory T
  with_tweak_list_options tweak factory = record factory { tweak_list_options = some tweak }

  unfoldable pub with_namespace : Bytes → Factory T → Factory T
  with_namespace namespace factory = record factory { namespace = namespace }

  unfoldable pub apply_options : List (Factory T → Factory T) → Factory T → Factory T
  apply_options [] factory = factory
  apply_options (opt ∷ options) factory = apply_options options (opt factory)

  -- `NewSharedInformerFactoryWithOptions`; the empty namespace is v1.NamespaceAll.
  unfoldable pub new_factory_with_options : ℕ → List (Factory T → Factory T) → Factory T
  new_factory_with_options default_resync options = apply_options options (record {
    namespace = [];
    tweak_list_options = none;
    default_resync = default_resync;
    custom_resync = [];
    informers = [];
    started_informers = [];
    made = [];
    running = [];
  })

  unfoldable pub new_factory : ℕ → Factory T
  new_factory default_resync = new_factory_with_options default_resync []

  unfoldable pub new_filtered_factory : ℕ → Bytes → T → Factory T
  new_filtered_factory default_resync namespace tweak =
      new_factory_with_options default_resync
        (with_namespace namespace ∷ with_tweak_list_options tweak ∷ [])

  unfoldable pub start : Factory T → Factory T
  start f =
      let res = start_loop f.informers f.started_informers f.running in
      record f { started_informers = res.0; running = res.1 }

  unfoldable pub wait_for_cache_sync : (ℕ → Bool) → Factory T → Dict Bool
  wait_for_cache_sync synced f =
      sync_loop synced (started_only f.informers f.started_informers []) []

  -- `InformerFor`, with the function that makes an informer for a period.
  unfoldable pub informer_for : Bytes → (ℕ → Informer T) → Factory T → Factory T × ℕ
  informer_for t new_func f = elim (lookup t f.informers) [
    | some informer ↦ (f, informer)
    | none ↦
        let resync_period : ℕ = elim (lookup t f.custom_resync) [
          | some d ↦ d
          | none ↦ f.default_resync
        ] in
        (
          record f {
            informers = insert t (length f.made) f.informers;
            made = f.made ++ new_func resync_period ∷ [];
          },
          length f.made,
        )
  ]

  -- `swarmInformer`'s `defaultInformer`.
  unfoldable pub default_informer : Factory T → ℕ → Informer T
  default_informer f resync_period = record {
    namespace = f.namespace;
    resync_period = resync_period;
    tweak_list_options = f.tweak_list_options;
  }

  -- `f.K8slab().V1alpha1().Swarms().Informer()`.
  unfoldable pub swarms_informer : Factory T → Factory T × ℕ
  swarms_informer f = informer_for (codes "v1alpha1.Swarm") (default_informer f) f

pub record GroupVersionResource : Type 0 where
  pub group : Bytes
  pub version : Bytes
  pub resource : Bytes

-- `ForResource`; `none` is an error.
unfoldable pub for_resource :
    {T : Type 0} → Bytes → GroupVersionResource → Factory T → Option (Factory T × ℕ)
for_resource group_name r f =
    if bytes_eq r.group group_name
      && bytes_eq r.version (codes "v1alpha1")
      && bytes_eq r.resource (codes "swarms")
    then some (swarms_informer f)
    else none
