-- ===== src/Storage/Writing.antt =====
-- What a storage gives back of an assignment that it has stored.
use k8s_swarm.Prelude.{ℕ, some, ◌≡◌, refl, ap, subst, ◌∙◌, arith, Bytes, KeysUnique}
use k8s_swarm.Config.{Workloads}
use k8s_swarm.Storage.{Answer, answered, status_error, other_error, stored}
use k8s_swarm.Storage.Swarms.{
  Swarm, SwarmClient, fill, decode, empty_swarm, initialize_crd, update_with, set_swarm, get_swarm,
}
use k8s_swarm.Storage.Decoding.{unversioned, decode-fill}

fill-name : (clock : Bytes → ℕ) (a : Workloads) (sw : Swarm) → (fill clock a sw).name ≡ sw.name
unfolding fill
fill-name clock a sw = refl

-- What the clientset documents: a Swarm is got under its name, what was created has the name that it was
-- created with, and an accepted update is what is got next.
pub record SwarmClientLaws {W : Type 0} (client : SwarmClient W) : Type 0 where
  pub got_name :
      (namespace name : Bytes) (w : W) (sw : Swarm)
      → client.get namespace name w ≡ answered sw
      → sw.name ≡ name
  pub created_name :
      (namespace : Bytes) (sw r : Swarm) (w : W)
      → (client.create namespace sw w).answer ≡ answered r
      → r.name ≡ sw.name
  pub updated :
      (namespace : Bytes) (sw r : Swarm) (w : W)
      → (client.update namespace sw w).answer ≡ answered r
      → (s : Swarm) × (client.get namespace sw.name (client.update namespace sw w).cluster
          ≡ answered s)
        × (s.spec ≡ sw.spec)

module _ {W : Type 0} (client : SwarmClient W) (laws : SwarmClientLaws client)
    (namespace name : Bytes) (clock : Bytes → ℕ) (a : Workloads) (u : KeysUnique a.workloads)
    (v : W) where
  get-update_with_as :
      (sw : Swarm) (w : W) (r : Answer Swarm)
      → (client.update namespace (fill clock a sw) w).answer ≡ r
      → sw.name ≡ name
      → update_with client namespace name clock a sw w ≡ stored v
      → get_swarm client namespace name v ≡ some (unversioned a)
  unfolding update_with get_swarm
  get-update_with_as sw w (answered r) e named h =
      let (s, found, same) = laws.updated namespace (fill clock a sw) r w e in
      read_back s
        (subst (λ n. client.get namespace n v ≡ answered s) (fill-name clock a sw ∙ named)
          (at_v s found))
        same
    where
      cluster_v : (client.update namespace (fill clock a sw) w).cluster ≡ v
      cluster_v = ground arith

      at_v :
          (s : Swarm)
          → client.get namespace
              (fill clock a sw).name
              (client.update namespace (fill clock a sw) w).cluster
            ≡ answered s
          → client.get namespace (fill clock a sw).name v ≡ answered s
      at_v s f = subst (λ c. client.get namespace (fill clock a sw).name c ≡ answered s) cluster_v f

      read_back :
          (s : Swarm)
          → client.get namespace name v ≡ answered s
          → s.spec ≡ (fill clock a sw).spec
          → get_swarm client namespace name v ≡ some (unversioned a)
      read_back s f same = rw (f, get_swarm) (ap some (ap decode same ∙ decode-fill clock a sw u))
  get-update_with_as sw w status_error e named h = absurd (ground arith)
  get-update_with_as sw w other_error e named h = absurd (ground arith)

  get-created :
      (w : W) (r : Answer Swarm)
      → (initialize_crd client namespace name w).answer ≡ r
      → client.get namespace name w ≡ status_error
      → set_swarm client namespace name clock a w ≡ stored v
      → get_swarm client namespace name v ≡ some (unversioned a)
  unfolding set_swarm initialize_crd
  get-created w (answered sw) e missing h =
      get-update_with_as sw (initialize_crd client namespace name w).cluster
        (client.update namespace (fill clock a sw)
          (initialize_crd client namespace name w).cluster).answer
        refl created_named (ground arith)
    where
      created_named : sw.name ≡ name
      created_named = laws.created_name namespace (empty_swarm namespace name) sw w e
  get-created w status_error e missing h = absurd (ground arith)
  get-created w other_error e missing h = absurd (ground arith)

  get-set_as :
      (w : W) (r : Answer Swarm)
      → client.get namespace name w ≡ r
      → set_swarm client namespace name clock a w ≡ stored v
      → get_swarm client namespace name v ≡ some (unversioned a)
  unfolding set_swarm
  get-set_as w (answered sw) e h =
      get-update_with_as sw w (client.update namespace (fill clock a sw) w).answer refl
        (laws.got_name namespace name w sw e) (ground arith)
  get-set_as w status_error e h =
      get-created w (initialize_crd client namespace name w).answer refl e h
  get-set_as w other_error e h = absurd (ground arith)

  -- After a `Set` of the CRD provider that returned no error, whether or not it had to create the Swarm,
  -- `Get` returns the assignment with its version, but with version 0 for each worker's own workload. The
  -- names of the assignment are unique, and the clientset keeps an accepted update.
  pub get_swarm-set_swarm :
      (w : W)
      → set_swarm client namespace name clock a w ≡ stored v
      → get_swarm client namespace name v ≡ some (unversioned a)
  get_swarm-set_swarm w h = get-set_as w (client.get namespace name w) refl h
