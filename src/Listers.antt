-- ===== src/Listers.antt =====
-- services/controller/internal/infra/k8s/generated/listers/swarm/v1alpha1/swarm.go: what the informers have
-- in their indexers.
--
-- The indexer, of a type `I`, and what package cache reads from it, are an argument: an object is an
-- interface{}, a Swarm or not, an error is of a type `E` and a selector of a type `L`. The group of a resource
-- that was not found stands in another repository and is left out. A type assertion
-- that does not hold panics.
pub mod Keys
pub mod Found
use k8s_swarm.Prelude.{List, [], ◌∷◌, ◌++◌, Option, none, some, Bytes, codes}
use k8s_swarm.Storage.Swarms.{Swarm}

pub data Item : Type 0 where
  swarm_item : Swarm → Item
  other_item : Item

-- What GetByKey gives: an error, nothing, or an object that exists.
pub data ByKey (E : Type 0) : Type 0 where
  failed : E → ByKey E
  missing : ByKey E
  found : Item → ByKey E

-- ListAll and ListAllByNamespace give the objects that they hand over, and an error.
pub record Indexer (I L E : Type 0) : Type 0 where
  pub list_all : I → L → List Item × Option E
  pub list_all_by_namespace : I → Bytes → L → List Item × Option E
  pub get_by_key : I → Bytes → ByKey E

-- What `List` does: it panics, or returns a list and an error.
pub data Listing (E : Type 0) : Type 0 where
  list_panics : Listing E
  listed : List Swarm → Option E → Listing E

-- What `Get` does: it panics, or returns a Swarm, an error, or that of a Swarm that was not found.
pub data Getting (E : Type 0) : Type 0 where
  get_panics : Getting E
  got : Swarm → Getting E
  refused : E → Getting E
  not_found : (resource name : Bytes) → Getting E

-- `swarmLister`, and `swarmNamespaceLister`.
pub record SwarmLister (I : Type 0) : Type 0 where
  pub indexer : I

pub record SwarmNamespaceLister (I : Type 0) : Type 0 where
  pub indexer : I
  pub namespace : Bytes

unfoldable pub new_swarm_lister : {I : Type 0} → I → SwarmLister I
new_swarm_lister indexer = record { indexer = indexer }

-- `Swarms` of a lister.
unfoldable pub namespace_lister : {I : Type 0} → SwarmLister I → Bytes → SwarmNamespaceLister I
namespace_lister s namespace = record { indexer = s.indexer; namespace = namespace }

-- The function that ListAll is given, on one object after the other; `none` is a panic.
unfoldable pub append_swarms : List Item → List Swarm → Option (List Swarm)
append_swarms [] ret = some ret
append_swarms (swarm_item m ∷ items) ret = append_swarms items (ret ++ m ∷ [])
append_swarms (other_item ∷ items) ret = none

unfoldable pub listed_items : {E : Type 0} → List Item × Option E → Listing E
listed_items a = elim (append_swarms a.0 []) [ none ↦ list_panics | some ret ↦ listed ret a.1 ]

module _ {I L E : Type 0} (cache : Indexer I L E) where
  unfoldable pub list_indexed : L → SwarmLister I → Listing E
  list_indexed selector s = listed_items (cache.list_all s.indexer selector)

  unfoldable pub list_in_namespace : L → SwarmNamespaceLister I → Listing E
  list_in_namespace selector s =
      listed_items (cache.list_all_by_namespace s.indexer s.namespace selector)

  -- `Get` from what the indexer gave.
  unfoldable pub got_by_key : Bytes → ByKey E → Getting E
  got_by_key name (failed e) = refused e
  got_by_key name missing = not_found (codes "swarm") name
  got_by_key name (found (swarm_item s)) = got s
  got_by_key name (found other_item) = get_panics

  unfoldable pub get_in_namespace : Bytes → SwarmNamespaceLister I → Getting E
  get_in_namespace name s =
      got_by_key name (cache.get_by_key s.indexer (s.namespace ++ b'/' ∷ name))
