-- ===== src/Clientset/Tracking.antt =====
-- What the fake of the typed client reads back of what was written through it.
use k8s_swarm.Prelude.{Option, none, some, ◌≡◌, Bytes}
use k8s_swarm.Storage.Swarms.{Swarm}
use k8s_swarm.Clientset.Fake.{
  get_action, create_action, update_action, update_subresource_action, swarms_resource, Reacted,
  swarm_object, returned, FakeCall, Fake, FakeSwarms, create_fake, update_fake, update_status_fake,
}

-- The Swarm is found as it is, under its name in the namespace.
abbrev pub IsTracked : {O W V : Type 0} → Fake O W V → Bytes → Swarm → W → Type 0
IsTracked fake namespace sw w =
    (default : Reacted)
    → fake.invokes (get_action swarms_resource namespace sw.name) default w
      ≡ record { cluster = w; object = some (swarm_object sw); err = none }

-- What package testing documents of the object tracker that answers the fake's actions, for a Swarm of the
-- action's namespace: an object that is created or updated with no error is kept whole, an update of a
-- subresource too.
pub record Tracks {O W V : Type 0} (fake : Fake O W V) : Type 0 where
  pub kept_created :
      (namespace : Bytes) (sw : Swarm) (default : Reacted) (w : W)
      → sw.namespace ≡ namespace
      → (fake.invokes (create_action swarms_resource namespace sw) default w).err ≡ none
      → IsTracked fake namespace sw
          (fake.invokes (create_action swarms_resource namespace sw) default w).cluster
  pub kept_updated :
      (namespace : Bytes) (sw : Swarm) (default : Reacted) (w : W)
      → sw.namespace ≡ namespace
      → (fake.invokes (update_action swarms_resource namespace sw) default w).err ≡ none
      → IsTracked fake namespace sw
          (fake.invokes (update_action swarms_resource namespace sw) default w).cluster
  pub kept_subresource :
      (subresource namespace : Bytes) (sw : Swarm) (default : Reacted) (w : W)
      → sw.namespace ≡ namespace
      → (fake.invokes
          (update_subresource_action swarms_resource subresource namespace sw)
          default
          w).err
        ≡ none
      → IsTracked fake namespace sw
          (fake.invokes
            (update_subresource_action swarms_resource subresource namespace sw)
            default
            w).cluster

-- The methods that write a Swarm.
pub data Write : Type 0 where
  creating updating updating_status : Write

abbrev pub write : {O W V : Type 0} → Write → FakeSwarms O W V → Swarm → O → W → FakeCall W Swarm
write creating c sw opts w = create_fake c sw opts w
write updating c sw opts w = update_fake c sw opts w
write updating_status c sw opts w = update_status_fake c sw opts w

-- The method has returned no error.
abbrev pub Succeeds : {W : Type 0} → FakeCall W Swarm → Type 0
Succeeds call = (r : Option Swarm) × (call.result ≡ returned r none)
