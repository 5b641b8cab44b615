-- ===== src/Clientset/Building.antt =====
-- How the clients are made: services/controller/internal/infra/k8s/generated/clientset/versioned/clientset.go
-- and typed/swarm/v1alpha1/swarm_client.go below it.
--
-- Of a rest.Config the model has what these files read or set; the rest is a type `X`. A QPS is there if it is
-- greater than 0, and a Burst that is negative is 0: nothing else is asked of them. A rate limiter is of a
-- type `L`, an HTTP client of a type `H`, an error of a type `E`; what package rest makes of a configuration
-- is in a record.
pub mod Limiting
use k8s_swarm.Prelude.{
  ℕ, ◌≤◌, [], Option, none, some, ◌≡◌, ◌↔◌, refl, arith, Bytes, codes, bytes_eq, leb, if◌then◌else◌,
  Option-cases, inl, inr, Bool-cases, ◌⊎◌,
}

-- A value or an error.
pub data Result (E A : Type 0) : Type 0 where
  ok : A → Result E A
  error : E → Result E A

-- What follows a call that returned no error.
unfoldable pub and_then : {E A B : Type 0} → Result E A → (A → Result E B) → Result E B
and_then (ok a) f = f a
and_then (error e) f = error e

pub record RestConfig (L X : Type 0) : Type 0 where
  pub rate_limiter : Option L
  pub qps : Option ℕ
  pub burst : ℕ
  pub group_version : Option (Bytes × Bytes)
  pub api_path : Bytes
  pub user_agent : Bytes
  pub other : X

-- What is called of packages rest, discovery, flowcontrol and scheme: `R` is a REST client, `D` a discovery
-- client.
pub record Packages (L X H R D E : Type 0) : Type 0 where
  pub default_user_agent : Bytes
  pub without_conversion : X → X
  pub http_client_for : RestConfig L X → Result E H
  pub rest_client_for : RestConfig L X → H → Result E R
  pub discovery_client_for : RestConfig L X → H → Result E D
  pub new_rate_limiter : (qps burst : ℕ) → L
  pub burst_required : E

-- `Clientset`.
pub record ClientSet (R D : Type 0) : Type 0 where
  pub discovery_client : D
  pub k8slab_v1alpha1 : R

module _ {L X H R D E : Type 0} (packages : Packages L X H R D E) where
  unfoldable pub set_config_defaults : (Bytes × Bytes) → RestConfig L X → RestConfig L X
  set_config_defaults gv config = record config {
    group_version = some gv;
    api_path = codes "/apis";
    user_agent =
        if bytes_eq config.user_agent [] then packages.default_user_agent else config.user_agent;
    other = packages.without_conversion config.other;
  }

  module _ (gv : Bytes × Bytes) where
    -- `NewForConfigAndClient` of the group's client, and its `NewForConfig`.
    unfoldable pub new_swarm_client_with : RestConfig L X → H → Result E R
    new_swarm_client_with c h = packages.rest_client_for (set_config_defaults gv c) h

    unfoldable pub new_swarm_client : RestConfig L X → Result E R
    new_swarm_client c =
        let config = set_config_defaults gv c in
        and_then (packages.http_client_for config) (λ h. new_swarm_client_with config h)

    -- The end of `NewForConfigAndClient` of the clientset, from the rate limiter on.
    unfoldable pub build_clients : RestConfig L X → H → Result E (ClientSet R D)
    build_clients c h = and_then (new_swarm_client_with c h) (λ client.
        and_then (packages.discovery_client_for c h)
          (λ discovery. ok (record { discovery_client = discovery; k8slab_v1alpha1 = client })))

    -- `NewForConfigAndClient` and `NewForConfig` of the clientset.
    unfoldable pub new_client_set_with : RestConfig L X → H → Result E (ClientSet R D)
    new_client_set_with c h = elim c.rate_limiter [
      | some limiter ↦ build_clients c h
      | none ↦ elim c.qps [
        | none ↦ build_clients c h
        | some qps ↦
            if leb c.burst 0
            then error packages.burst_required
            else build_clients
                (record c { rate_limiter = some (packages.new_rate_limiter qps c.burst) }) h
      ]
    ]

    unfoldable pub new_client_set : RestConfig L X → Result E (ClientSet R D)
    new_client_set c = and_then (packages.http_client_for c) (λ h. new_client_set_with c h)

-- `NewForConfigOrDie`: an error panics.
unfoldable pub or_die : {E A : Type 0} → Result E A → Option A
or_die (ok a) = some a
or_die (error e) = none

-- `NewForConfigOrDie` of the clientset and of the group's client.
module _ {L X H R D E : Type 0} (packages : Packages L X H R D E) (gv : Bytes × Bytes) where
  unfoldable pub new_client_set_or_die : RestConfig L X → Option (ClientSet R D)
  new_client_set_or_die c = or_die (new_client_set packages gv c)

  unfoldable pub new_swarm_client_or_die : RestConfig L X → Option R
  new_swarm_client_or_die c = or_die (new_swarm_client packages gv c)

-- `New` of the clientset, of a REST client, with what package discovery makes of it.
unfoldable pub new_client_set_of : {R D : Type 0} → (R → D) → R → ClientSet R D
new_client_set_of new_discovery_client c = record {
  discovery_client = new_discovery_client c;
  k8slab_v1alpha1 = c;
}

-- `Discovery` of a clientset, and `RESTClient` of the group's client, whose nil pointer is `none`.
unfoldable pub discovery : {R D : Type 0} → Option (ClientSet R D) → Option D
discovery none = none
discovery (some c) = some c.discovery_client

unfoldable pub rest_client : {R : Type 0} → Option R → Option R
rest_client none = none
rest_client (some c) = some c
