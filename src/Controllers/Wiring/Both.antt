-- ===== src/Controllers/Wiring/Both.antt =====
-- What the two storages of the command have, in the states that it reaches.
use k8s_swarm.Prelude.{
  ℕ, List, Option, some, true, ◌≡◌, refl, subst, ◌∙◌, same_pair, arith, Bytes, Dict, KeysUnique,
  ◌>>=◌,
}
use k8s_swarm.Config.{Job, Workloads}
use k8s_swarm.Pool.{Pool}
use k8s_swarm.Pool.Invariant.{Assigned}
use k8s_swarm.Objects.{Object}
use k8s_swarm.Operator.{Event}
use k8s_swarm.Operator.Queues.{Queue}
use k8s_swarm.Executor.{refresh_pod}
use k8s_swarm.Storage.{Answer, answered, status_error, other_error, stored}
use k8s_swarm.Storage.Chain.{set_both-outcomes}
use k8s_swarm.Storage.Swarms.{Swarm, set_swarm, get_swarm, update_with, initialize_crd, fill}
use k8s_swarm.Storage.ConfigMaps.{get_config_map}
use k8s_swarm.Storage.Decoding.{unversioned}
use k8s_swarm.Storage.Writing.{SwarmClientLaws, get_swarm-set_swarm}
use k8s_swarm.Storage.ReadingBack.{ConfigMapClientLaws, get_config_map-set_config_map}
use k8s_swarm.Controllers.{System, run_command}
use k8s_swarm.Controllers.Stepping.{Reached}
use k8s_swarm.Controllers.Keeping.{IsKeeping}
use k8s_swarm.Controllers.Storing.{stored_assignment}
use k8s_swarm.Controllers.Wiring.{
  Clients, Variables, set_cm, set_swl, set_mex, refresh_pdl, get_both,
}

-- Resources of different kinds are apart: a Swarm that is made or updated leaves the ConfigMaps alone, and
-- a pod that is deleted both.
pub record AreApart {W : Type 0} (clients : Clients W) : Type 0 where
  pub swarm_created :
      (ns name namespace : Bytes) (sw : Swarm) (w : W)
      → clients.config_maps.get ns name (clients.swarms.create namespace sw w).cluster
        ≡ clients.config_maps.get ns name w
  pub swarm_updated :
      (ns name namespace : Bytes) (sw : Swarm) (w : W)
      → clients.config_maps.get ns name (clients.swarms.update namespace sw w).cluster
        ≡ clients.config_maps.get ns name w
  pub pod_deleted :
      (ns name namespace pod : Bytes) (w : W)
      → (clients.config_maps.get ns name (clients.pods namespace pod w).cluster
          ≡ clients.config_maps.get ns name w)
        × (clients.swarms.get ns name (clients.pods namespace pod w).cluster
            ≡ clients.swarms.get ns name w)

module _ {W : Type 0} (clients : Clients W) (apart : AreApart clients) (ns cm : Bytes)
    (namespace name : Bytes) (clock : Bytes → ℕ) (a : Workloads) where
  update_with-apart :
      (sw : Swarm) (w v : W) (r : Answer Swarm)
      → (clients.swarms.update namespace (fill clock a sw) w).answer ≡ r
      → update_with clients.swarms namespace name clock a sw w ≡ stored v
      → clients.config_maps.get ns cm v ≡ clients.config_maps.get ns cm w
  unfolding update_with
  update_with-apart sw w v (answered s) e h =
      subst (λ u. clients.config_maps.get ns cm u ≡ clients.config_maps.get ns cm w)
        {x = (clients.swarms.update namespace (fill clock a sw) w).cluster} {y = v} (ground arith)
        (apart.swarm_updated ns cm namespace (fill clock a sw) w)
  update_with-apart sw w v status_error e h = absurd (ground arith)
  update_with-apart sw w v other_error e h = absurd (ground arith)

  created-apart :
      (w v : W) (r : Answer Swarm)
      → (initialize_crd clients.swarms namespace name w).answer ≡ r
      → clients.swarms.get namespace name w ≡ status_error
      → set_swarm clients.swarms namespace name clock a w ≡ stored v
      → clients.config_maps.get ns cm v ≡ clients.config_maps.get ns cm w
  unfolding set_swarm initialize_crd
  created-apart w v (answered sw) e missing h =
      update_with-apart sw (initialize_crd clients.swarms namespace name w).cluster v _ refl
        (ground arith)
      ∙ apart.swarm_created ns cm namespace _ w
  created-apart w v status_error e missing h = absurd (ground arith)
  created-apart w v other_error e missing h = absurd (ground arith)

  pub set_swarm-apart :
      (w v : W) (r : Answer Swarm)
      → clients.swarms.get namespace name w ≡ r
      → set_swarm clients.swarms namespace name clock a w ≡ stored v
      → clients.config_maps.get ns cm v ≡ clients.config_maps.get ns cm w
  unfolding set_swarm
  set_swarm-apart w v (answered sw) e h = update_with-apart sw w v _ refl (ground arith)
  set_swarm-apart w v status_error e h = created-apart w v _ refl e h
  set_swarm-apart w v other_error e h = absurd (ground arith)

module _ {W : Type 0} (clients : Clients W) (encode_yaml : Workloads → Option Bytes)
    (decode_yaml : Bytes → Option Workloads) (vars : Variables) where
  -- What the two storages keep of an assignment.
  abbrev pub both_views : Workloads → Option Workloads × Option Workloads
  both_views a = (encode_yaml a >>= decode_yaml, some (unversioned a))

  get_config_map-same :
      (v w : W)
      → clients.config_maps.get vars.namespace vars.workers_config_map_name v
        ≡ clients.config_maps.get vars.namespace vars.workers_config_map_name w
      → get_config_map clients.config_maps encode_yaml decode_yaml vars.namespace
          vars.workers_config_map_name v
        ≡ get_config_map clients.config_maps encode_yaml decode_yaml vars.namespace
            vars.workers_config_map_name w
  unfolding get_config_map
  get_config_map-same v w e = rw (e, get_config_map) refl

  get_swarm-same :
      (v w : W)
      → clients.swarms.get vars.namespace vars.watch_label v
        ≡ clients.swarms.get vars.namespace vars.watch_label w
      → get_swarm clients.swarms vars.namespace vars.watch_label v
        ≡ get_swarm clients.swarms vars.namespace vars.watch_label w
  unfolding get_swarm
  get_swarm-same v w e = rw (e, get_swarm) refl

  module _ (config_map_laws : ConfigMapClientLaws clients.config_maps)
      (swarm_laws : SwarmClientLaws clients.swarms) (apart : AreApart clients)
      (clock : Bytes → ℕ) where
    get_both-set_mex :
        (a : Workloads) (w v : W)
        → KeysUnique a.workloads
        → set_mex clients encode_yaml decode_yaml vars clock a w ≡ stored v
        → get_both clients encode_yaml decode_yaml vars v ≡ both_views a
    unfolding set_mex set_cm set_swl get_both get_config_map
    get_both-set_mex a w v unique h =
        let (u, first, second) =
          (set_both-outcomes (set_cm clients encode_yaml decode_yaml vars)
              (set_swl clients encode_yaml decode_yaml vars clock) a w v).0.0
            h in
        let same =
          set_swarm-apart clients apart vars.namespace vars.workers_config_map_name vars.namespace
            vars.watch_label clock a u v _ refl second in
        let in_config_map =
          get_config_map-set_config_map clients.config_maps encode_yaml decode_yaml vars.namespace
            vars.workers_config_map_name config_map_laws a w u first in
        let in_swarm =
          get_swarm-set_swarm clients.swarms swarm_laws vars.namespace vars.watch_label clock a
            unique v u second in
        same_pair (get_both clients encode_yaml decode_yaml vars v) _ _
          (get_config_map-same v u same ∙ in_config_map) in_swarm

    set_mex-IsKeeping :
        IsKeeping
          (set_mex clients encode_yaml decode_yaml vars clock)
          (refresh_pdl clients encode_yaml decode_yaml vars)
          (get_both clients encode_yaml decode_yaml vars)
          both_views
    unfolding refresh_pdl refresh_pod get_both
    set_mex-IsKeeping = record {
      read_store = λ a w v unique h. get_both-set_mex a w v unique h;
      read_refresh = λ name w.
          let deleted_cm =
            apart.pod_deleted vars.namespace vars.workers_config_map_name vars.namespace name w in
          let deleted_sw =
            apart.pod_deleted vars.namespace vars.watch_label vars.namespace name w in
          same_pair (get_both clients encode_yaml decode_yaml vars _) _ _
            (get_config_map-same _ w deleted_cm.0) (get_swarm-same _ w deleted_sw.1);
    }

    module _ {Q : Type 0} (parse_ip : Bytes → Bytes) (jobs : List Job) (calls : Queue Event Q)
        (get_labels : Object → Option (Dict Bytes))
        (key_of deletion_key_of : Object → Option Bytes) where
      -- The command with its two storages, over clients that keep accepted updates and whose kinds of
      -- resources are apart: in each state that it reaches, while the process runs and if the last
      -- assignment was stored with no error, the ConfigMap gives back what its text decodes as, and the
      -- Swarm the pool's assignment but for the versions of the single workloads; and that assignment is
      -- the one of all jobs to as many workers as are expected.
      pub stored_in_both :
          (empty : Q) (w : W) (s : System Q W) (p : Pool)
          → Reached calls
              (set_mex clients encode_yaml decode_yaml vars clock)
              (refresh_pdl clients encode_yaml decode_yaml vars)
              parse_ip
              get_labels
              key_of
              deletion_key_of
              vars.watch_label
              (get_both clients encode_yaml decode_yaml vars)
              (run_command jobs vars.watch_label empty w)
              s
          → s.pool ≡ some p
          → s.stored ≡ true
          → (get_both clients encode_yaml decode_yaml vars s.cluster
              ≡ (encode_yaml p.state.config >>= decode_yaml, some (unversioned p.state.config)))
            × Assigned p.state p.expected_size
            × (p.state.jobs ≡ jobs)
      stored_in_both empty w s p r e good =
          stored_assignment parse_ip jobs vars.watch_label
            (get_both clients encode_yaml decode_yaml vars) both_views calls
            (set_mex clients encode_yaml decode_yaml vars clock)
            (refresh_pdl clients encode_yaml decode_yaml vars) set_mex-IsKeeping get_labels key_of
            deletion_key_of empty w s p r e good
