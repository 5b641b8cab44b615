-- ===== src/Registration.antt =====
-- How the types get known: services/controller/internal/infra/k8s/apis/swarm/v1alpha1/register.go, and
-- register.go in scheme and in fake of
-- services/controller/internal/infra/k8s/generated/clientset/versioned.
--
-- Package runtime's scheme, of a type `S`, is an argument, and so is the group's name. An error panics
-- in utilruntime.Must: `none`.
use k8s_swarm.Prelude.{List, [], ◌∷◌, Option, Bytes, codes}
use k8s_swarm.Clientset.Building.{Result, ok, error, or_die}

pub record GroupVersion : Type 0 where
  pub group : Bytes
  pub version : Bytes

pub record GroupResource : Type 0 where
  pub group : Bytes
  pub resource : Bytes

pub record GroupKind : Type 0 where
  pub group : Bytes
  pub kind : Bytes

-- What is called of a scheme.
pub record SchemeCalls (S : Type 0) : Type 0 where
  pub new_scheme : S
  pub add_known_types : GroupVersion → List Bytes → S → S
  pub add_to_group_version : GroupVersion → S → S

unfoldable pub scheme_group_version : Bytes → GroupVersion
scheme_group_version group_name = record { group = group_name; version = codes "v1alpha1" }

unfoldable pub kind_of : Bytes → Bytes → GroupKind
kind_of group_name kind = record { group = (scheme_group_version group_name).group; kind = kind }

unfoldable pub resource_of : Bytes → Bytes → GroupResource
resource_of group_name resource = record {
  group = (scheme_group_version group_name).group;
  resource = resource;
}

-- The loop of a scheme builder's AddToScheme, which ends at the first error.
unfoldable pub apply_builder : {E S : Type 0} → List (S → Result E S) → S → Result E S
apply_builder [] scheme = ok scheme
apply_builder (f ∷ builder) scheme = elim (f scheme) [
  | error e ↦ error e
  | ok scheme' ↦ apply_builder builder scheme'
]

module _ {E S : Type 0} (calls : SchemeCalls S) (group_name : Bytes) where
  unfoldable pub add_known_types_to : S → Result E S
  add_known_types_to scheme =
      let gv = scheme_group_version group_name in
      ok (
        calls.add_to_group_version gv
          (calls.add_known_types gv (codes "Swarm" ∷ codes "SwarmList" ∷ []) scheme))

  -- `AddToScheme` of the API, and that of the clientsets.
  unfoldable pub add_api_to_scheme : S → Result E S
  add_api_to_scheme scheme = apply_builder (add_known_types_to ∷ []) scheme

  unfoldable pub add_to_scheme : S → Result E S
  add_to_scheme scheme = apply_builder (add_api_to_scheme ∷ []) scheme

-- The two packages' `init`.
unfoldable pub init_scheme : {S : Type 0} (E : Type 0) → SchemeCalls S → Bytes → Option S
init_scheme E calls group_name = or_die (
    add_to_scheme {E = E} calls group_name
      (calls.add_to_group_version (record { group = []; version = codes "v1" }) calls.new_scheme))
