-- ===== src/Clientset/Serving.antt =====
-- The typed client over an API server: it is the client that the storage relies on.
use k8s_swarm.Prelude.{ℕ, List, [], some, ◌≡◌, refl, KeysUnique, Bytes, codes}
use k8s_swarm.Storage.{answered, stored}
use k8s_swarm.Storage.Swarms.{Swarm, set_swarm, get_swarm}
use k8s_swarm.Storage.Writing.{SwarmClientLaws, get_swarm-set_swarm}
use k8s_swarm.Storage.Decoding.{unversioned}
use k8s_swarm.Config.{Workloads}
use k8s_swarm.Clientset.{
  Request, RestClient, get_verb, post_verb, put_verb, swarm_body, get, create, update, swarm_client,
  new_swarms,
}

abbrev pub Reads : {O : Type 0} → Request O → Bytes → Bytes → Type 0
Reads r namespace name =
    (r.verb ≡ get_verb)
    × (r.namespace ≡ namespace)
    × (r.resource ≡ codes "swarms")
    × (r.name ≡ some name)
    × (r.subresources ≡ [])

abbrev pub Writes : {O : Type 0} → Request O → Bytes → List Bytes → Swarm → Type 0
Writes r namespace subresources sw =
    (r.verb ≡ put_verb)
    × (r.namespace ≡ namespace)
    × (r.resource ≡ codes "swarms")
    × (r.name ≡ some sw.name)
    × (r.subresources ≡ subresources)
    × (r.body ≡ swarm_body sw)

-- What the API server documents of single resources: a GET reads the resource that its path names and
-- leaves the cluster alone; a POST makes a resource of the name in its body; a PUT replaces the
-- resource, and what is read afterwards has the spec that was put.
pub record ServerLaws {O W V : Type 0} (rest : RestClient O W V) : Type 0 where
  pub read_name :
      (r : Request O) (namespace name : Bytes) (w : W) (sw : Swarm)
      → Reads r namespace name
      → (rest.into_swarm r w).answer ≡ answered sw
      → sw.name ≡ name
  pub read_only :
      (r : Request O) (namespace name : Bytes) (w : W)
      → Reads r namespace name
      → (rest.into_swarm r w).cluster ≡ w
  pub created :
      (r : Request O) (sw s : Swarm) (w : W)
      → r.verb ≡ post_verb
      → r.resource ≡ codes "swarms"
      → r.body ≡ swarm_body sw
      → (rest.into_swarm r w).answer ≡ answered s
      → s.name ≡ sw.name
  pub replaced :
      (r g : Request O) (namespace : Bytes) (sw s : Swarm) (w : W)
      → Writes r namespace [] sw
      → Reads g namespace sw.name
      → (rest.into_swarm r w).answer ≡ answered s
      → (t : Swarm) × ((rest.into_swarm g (rest.into_swarm r w).cluster).answer ≡ answered t)
        × (t.spec ≡ sw.spec)

module _ {O W V : Type 0} (rest : RestClient O W V) (laws : ServerLaws rest) (zero_opts : O) where
  swarm_client-Laws : SwarmClientLaws (swarm_client rest zero_opts)
  unfolding swarm_client get create update new_swarms
  swarm_client-Laws = record {
    got_name = λ ns n w sw e. laws.read_name _ ns n w sw (refl, refl, refl, refl, refl) e;
    created_name = λ ns sw s w e. laws.created _ sw s w refl refl refl e;
    updated = λ ns sw s w e.
        laws.replaced _ _ ns sw s w (refl, refl, refl, refl, refl, refl)
          (refl, refl, refl, refl, refl) e;
  }

  -- Over an API server that does what it documents, the requests of the typed client give back what was
  -- stored: if `Set` of the Swarm storage, for an assignment with unique names, returns no error, then
  -- `Get` afterwards returns the assignment, but for the versions of the single workloads.
  pub read_back_served :
      (namespace name : Bytes) (clock : Bytes → ℕ) (a : Workloads) (w v : W)
      → KeysUnique a.workloads
      → set_swarm (swarm_client rest zero_opts) namespace name clock a w ≡ stored v
      → get_swarm (swarm_client rest zero_opts) namespace name v ≡ some (unversioned a)
  read_back_served namespace name clock a w v u e =
      get_swarm-set_swarm (swarm_client rest zero_opts) swarm_client-Laws namespace name clock a u v
        w e
