-- ===== src/Informers/Filtered.antt =====
-- What the informer of the generated factory lists and watches: NewFilteredSwarmInformer of
-- services/controller/internal/infra/k8s/generated/informers/externalversions/swarm/v1alpha1/swarm.go, and the
-- informer's way through swarm/interface.go and swarm/v1alpha1/interface.go there.
--
-- A function that changes list options is a function on them; nil is `none`.
use k8s_swarm.Prelude.{ℕ, Option, none, some, ◌≡◌, refl, Bytes}
use k8s_swarm.Storage.{Answer, Call}
use k8s_swarm.Clientset.{ListOptions, SwarmList, RestClient, new_swarms, list, watch}
use k8s_swarm.Informers.{Informer, Factory, default_informer, swarms_informer}
use k8s_swarm.Listers.{SwarmLister, new_swarm_lister}

abbrev pub Tweak : Type 0
Tweak = ListOptions → ListOptions

unfoldable pub tweak_options : Option Tweak → ListOptions → ListOptions
tweak_options none options = options
tweak_options (some tweak_list_options) options = tweak_list_options options

-- `NewFilteredSwarmInformer` and `NewSwarmInformer`; their indexers are left out.
unfoldable pub new_filtered_swarm_informer : Bytes → ℕ → Option Tweak → Informer Tweak
new_filtered_swarm_informer namespace resync_period tweak_list_options = record {
  namespace = namespace;
  resync_period = resync_period;
  tweak_list_options = tweak_list_options;
}

unfoldable pub new_swarm_informer : Bytes → ℕ → Informer Tweak
new_swarm_informer namespace resync_period =
    new_filtered_swarm_informer namespace resync_period none

-- The `ListFunc` and the `WatchFunc` of an informer.
module _ {O W V : Type 0} (client : RestClient O W V) (informer : Informer Tweak) where
  unfoldable pub list_filtered : ListOptions → W → Call W SwarmList
  list_filtered options w =
      list (new_swarms client informer.namespace)
        (tweak_options informer.tweak_list_options options) w

  unfoldable pub watch_filtered : ListOptions → W → Answer V
  watch_filtered options w =
      watch (new_swarms client informer.namespace)
        (tweak_options informer.tweak_list_options options) w

-- `group` and `version` pass on the factory's namespace and its function.
pub record Group : Type 0 where
  pub namespace : Bytes
  pub tweak_list_options : Option Tweak

-- `New` of the two packages, `V1alpha1` and `Swarms`.
unfoldable pub new_group : Bytes → Option Tweak → Group
new_group namespace tweak_list_options = record {
  namespace = namespace;
  tweak_list_options = tweak_list_options;
}

unfoldable pub v1alpha1 : Group → Group
v1alpha1 g = new_group g.namespace g.tweak_list_options

-- `defaultInformer` of the `swarmInformer` that `Swarms` gives.
unfoldable pub swarms_default_informer : Group → ℕ → Informer Tweak
swarms_default_informer v resync_period =
    new_filtered_swarm_informer v.namespace resync_period v.tweak_list_options

-- The factory's informer is made of the factory's namespace and its function.
default_informer-group :
    (f : Factory Tweak) (resync_period : ℕ)
    → swarms_default_informer (v1alpha1 (new_group f.namespace f.tweak_list_options)) resync_period
      ≡ default_informer f resync_period
unfolding swarms_default_informer v1alpha1 new_group new_filtered_swarm_informer default_informer
default_informer-group f resync_period = refl

-- `genericInformer`, of a position in the factory's list.
pub record GenericInformer : Type 0 where
  pub informer : ℕ
  pub group : Bytes
  pub resource : Bytes

-- `Lister` of the Swarm informer: with `get_indexer`, the informer's `GetIndexer`, and after the factory
-- was asked for the informer.
unfoldable pub swarms_lister :
    {I : Type 0} → (ℕ → I) → Factory Tweak → Factory Tweak × SwarmLister I
swarms_lister get_indexer f =
    let asked = swarms_informer f in (asked.0, new_swarm_lister (get_indexer asked.1))

-- `Lister` of a generic informer, with cache.NewGenericLister.
unfoldable pub generic_lister :
    {I G : Type 0} → (ℕ → I) → (I → Bytes × Bytes → G) → GenericInformer → G
generic_lister get_indexer new_generic_lister f =
    new_generic_lister (get_indexer f.informer) (f.group, f.resource)
