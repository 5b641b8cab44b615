-- ===== src/Controllers/Wiring/Calm.antt =====
-- The command of services/controller/cmd/internal.go does not panic while its ConfigMap has data.
use k8s_swarm.Prelude.{
  ℕ, List, [], Option, none, some, ◌≡◌, ◌≢◌, ◌⊎◌, inl, inr, refl, sym, subst, ◌∙◌, arith, Bytes,
  Dict, insert, lookup, lookup-insert, bytes_eq_iff, Option-cases,
}
use k8s_swarm.Config.{Job, Workloads}
use k8s_swarm.Pool.{Pool}
use k8s_swarm.Objects.{Object}
use k8s_swarm.Operator.{Event}
use k8s_swarm.Operator.Queues.{Queue}
use k8s_swarm.Operator.Contents.{Contents}
use k8s_swarm.Executor.{refresh_pod}
use k8s_swarm.Storage.{
  Answer, answered, status_error, other_error, Outcome, stored, refused, panicked, Storage,
  set_both,
}
use k8s_swarm.Storage.Swarms.{Swarm, set_swarm, update_with, initialize_crd, fill}
use k8s_swarm.Storage.ConfigMaps.{
  ConfigMap, ConfigMapClient, default_config_key, update_text, set_config_map,
}
use k8s_swarm.Controllers.{System, run_command}
use k8s_swarm.Controllers.Surviving.{IsFine, IsCalm}
use k8s_swarm.Controllers.Safety.{TypedReached, keeps_running}
use k8s_swarm.Controllers.Wiring.{Clients, Variables, set_cm, set_swl, set_mex, refresh_pdl}
use k8s_swarm.Controllers.Wiring.Both.{AreApart}

-- What the client documents: after an update with data that is not empty, accepted or not, what is got is
-- a ConfigMap with data, or what was got before.
pub record KeepsData {W : Type 0} (client : ConfigMapClient W) : Type 0 where
  pub data_kept :
      (namespace ns name : Bytes) (cm c : ConfigMap) (entries : Dict Bytes) (w : W)
      → cm.entries ≡ some entries
      → entries ≢ []
      → client.get ns name (client.update namespace cm w).cluster ≡ answered c
      → (c.entries ≢ none) ⊎ (client.get ns name w ≡ answered c)

insert-nonempty : (k text : Bytes) (d : Dict Bytes) → insert k text d ≢ []
insert-nonempty k text d e =
    absurd (ground (arith, lookup-insert k k text d, bytes_eq_iff k k, sym e, lookup-of_empty e))
  where
    lookup-of_empty : insert k text d ≡ [] → lookup k (insert k text d) ≡ none
    lookup-of_empty e = subst (λ m. lookup k m ≡ none) (sym e) refl

module _ {W : Type 0} (safe : W → Type 0) where
  same_outcome-IsFine :
      (o : Outcome W)
      → IsFine safe o
      → IsFine safe
          (elim o [ refused w ↦ refused w | panicked w ↦ panicked w | stored w ↦ stored w ])
  same_outcome-IsFine (refused w) h = h
  same_outcome-IsFine (panicked w) h = h
  same_outcome-IsFine (stored w) h = h

  -- A call whose answer says whether the assignment is stored.
  answered-IsFine :
      {A : Type 0} (w : W) (r : Answer A)
      → safe w
      → IsFine safe
          (elim r [ answered _ ↦ stored w | status_error ↦ refused w | other_error ↦ refused w ])
  answered-IsFine w (answered a) h = h
  answered-IsFine w status_error h = h
  answered-IsFine w other_error h = h

  first-IsFine :
      (prev next : Storage W) (a : Workloads) (w : W) (o : Outcome W)
      → prev a w ≡ o
      → IsFine safe o
      → ((u : W) → safe u → IsFine safe (next a u))
      → IsFine safe (set_both prev next a w)
  unfolding set_both
  first-IsFine prev next a w (refused u) e h after = rw (e, set_both) h
  first-IsFine prev next a w (panicked u) e h after = elim h [ ]
  first-IsFine prev next a w (stored u) e h after =
      rw (e, set_both) (same_outcome-IsFine (next a u) (after u h))

module _ {W : Type 0} (clients : Clients W) (encode_yaml : Workloads → Option Bytes)
    (decode_yaml : Bytes → Option Workloads) (vars : Variables) where
  -- If there is a ConfigMap under the command's name, it has data.
  abbrev pub HasData : W → Type 0
  HasData w =
      (cm : ConfigMap)
      → clients.config_maps.get vars.namespace vars.workers_config_map_name w ≡ answered cm
      → cm.entries ≢ none

  HasData-same :
      (v w : W)
      → clients.config_maps.get vars.namespace vars.workers_config_map_name v
        ≡ clients.config_maps.get vars.namespace vars.workers_config_map_name w
      → HasData w
      → HasData v
  HasData-same v w e h cm got = h cm (sym e ∙ got)

  module _ (keeps : KeepsData clients.config_maps) (apart : AreApart clients)
      (clock : Bytes → ℕ) where
    update_text-IsFine :
        (text : Bytes) (cm : ConfigMap) (w : W)
        → clients.config_maps.get vars.namespace vars.workers_config_map_name w ≡ answered cm
        → HasData w
        → IsFine HasData (
            update_text clients.config_maps encode_yaml decode_yaml vars.namespace
              vars.workers_config_map_name text cm w)
    unfolding update_text
    update_text-IsFine text cm w got h = elim (Option-cases cm.entries) [
      | inl empty ↦ absurd (h cm got empty)
      | inr (entries, filled) ↦
          let new = record cm { entries = some (insert default_config_key text entries) } in
          let c = clients.config_maps.update vars.namespace new w in
          rw (filled, update_text)
            (answered-IsFine HasData c.cluster c.answer (λ c' got' empty.
              elim (keeps.data_kept vars.namespace vars.namespace vars.workers_config_map_name new
                c' (insert default_config_key text entries) w refl
                (insert-nonempty default_config_key text entries) got') [
                  | inl filled_in ↦ filled_in empty
                  | inr before ↦ h c' before empty
                ]))
    ]

    got-IsFine :
        (a : Workloads) (w : W) (r : Answer ConfigMap)
        → clients.config_maps.get vars.namespace vars.workers_config_map_name w ≡ r
        → HasData w
        → IsFine HasData (set_cm clients encode_yaml decode_yaml vars a w)
    unfolding set_cm set_config_map
    got-IsFine a w status_error e h = rw (e, set_config_map) h
    got-IsFine a w other_error e h = rw (e, set_config_map) h
    got-IsFine a w (answered cm) e h = elim (Option-cases (encode_yaml a)) [
      | inl bad ↦ rw (e, bad, set_config_map) h
      | inr (text, encoded) ↦ rw (e, encoded, set_config_map) (update_text-IsFine text cm w e h)
    ]

    update_with-IsFine :
        (a : Workloads) (sw : Swarm) (w : W)
        → HasData w
        → IsFine HasData (update_with clients.swarms vars.namespace vars.watch_label clock a sw w)
    unfolding update_with
    update_with-IsFine a sw w h =
        let c = clients.swarms.update vars.namespace (fill clock a sw) w in
        answered-IsFine HasData c.cluster c.answer (
          HasData-same c.cluster w
            (apart.swarm_updated vars.namespace vars.workers_config_map_name vars.namespace
              (fill clock a sw) w)
            h)

    created-IsFine :
        (a : Workloads) (w : W) (r : Answer Swarm)
        → (initialize_crd clients.swarms vars.namespace vars.watch_label w).answer ≡ r
        → clients.swarms.get vars.namespace vars.watch_label w ≡ status_error
        → HasData (initialize_crd clients.swarms vars.namespace vars.watch_label w).cluster
        → IsFine HasData (set_swl clients encode_yaml decode_yaml vars clock a w)
    unfolding set_swl set_swarm
    created-IsFine a w (answered sw) e missing h =
        rw (missing, e, set_swarm) (update_with-IsFine a sw _ h)
    created-IsFine a w status_error e missing h = rw (missing, e, set_swarm) h
    created-IsFine a w other_error e missing h = rw (missing, e, set_swarm) h

    swarm_got-IsFine :
        (a : Workloads) (w : W) (r : Answer Swarm)
        → clients.swarms.get vars.namespace vars.watch_label w ≡ r
        → HasData w
        → IsFine HasData (set_swl clients encode_yaml decode_yaml vars clock a w)
    unfolding set_swl set_swarm initialize_crd
    swarm_got-IsFine a w (answered sw) e h = rw (e, set_swarm) (update_with-IsFine a sw w h)
    swarm_got-IsFine a w other_error e h = rw (e, set_swarm) h
    swarm_got-IsFine a w status_error e h = created-IsFine a w _ refl e (
        HasData-same (initialize_crd clients.swarms vars.namespace vars.watch_label w).cluster w
          (apart.swarm_created vars.namespace vars.workers_config_map_name vars.namespace _ w) h)

    set_mex-IsCalm : IsCalm (set_mex clients encode_yaml decode_yaml vars clock) HasData
    unfolding set_mex
    set_mex-IsCalm = record {
      storing = λ a w h.
          first-IsFine HasData (set_cm clients encode_yaml decode_yaml vars)
            (set_swl clients encode_yaml decode_yaml vars clock) a w _ refl
            (got-IsFine a w _ refl h) (λ u k. swarm_got-IsFine a u _ refl k);
    }

    refresh_pdl-HasData :
        (name : Bytes) (w : W)
        → HasData w
        → HasData (refresh_pdl clients encode_yaml decode_yaml vars name w).cluster
    unfolding refresh_pdl refresh_pod
    refresh_pdl-HasData name w h =
        HasData-same (clients.pods vars.namespace name w).cluster w
          (apart.pod_deleted vars.namespace vars.workers_config_map_name vars.namespace name w).0 h

    module _ {Q R : Type 0} (parse_ip : Bytes → Bytes) (jobs : List Job) (calls : Queue Event Q)
        (inside : Event → Q → Type 0) (contents : Contents calls inside)
        (get_labels : Object → Option (Dict Bytes)) (key_of deletion_key_of : Object → Option Bytes)
        (read : W → R) where
      -- The command with its two storages never panics. The queue hands out only what was added to it,
      -- and it is empty at first. The informers of pods and of StatefulSets deliver objects of their
      -- kind, StatefulSets with replicas and no tombstones. The command's ConfigMap, where it exists, has
      -- data at first and after each change that is not the command's own; the clients do not lose data
      -- that is updated, and the kinds of resources are apart. Then no step, in whatever order they come
      -- and whatever the indexers answer, leaves the process without its pool: no type assertion of a
      -- handler fails, no nil pointer is followed, no nil map is written to and no slice is out of range.
      pub never_panics :
          (empty : Q) (w : W) (s : System Q W)
          → ((e : Event) → ¬ inside e empty)
          → HasData w
          → TypedReached calls
              (set_mex clients encode_yaml decode_yaml vars clock)
              (refresh_pdl clients encode_yaml decode_yaml vars)
              parse_ip
              get_labels
              key_of
              deletion_key_of
              vars.watch_label
              read
              HasData
              (run_command jobs vars.watch_label empty w)
              s
          → (p : Pool) × (s.pool ≡ some p)
      never_panics empty w s nothing_in filled_in r =
          keeps_running parse_ip jobs vars.watch_label calls inside contents
            (set_mex clients encode_yaml decode_yaml vars clock) set_mex-IsCalm
            (refresh_pdl clients encode_yaml decode_yaml vars) refresh_pdl-HasData get_labels key_of
            deletion_key_of read empty w s nothing_in filled_in r
