-- ===== src/Pod/Joining.antt =====
-- Which pods are members of the pool after an update: the handler of
-- services/controller/internal/infra/k8s/operator/pod/handler.go, beside an account of a pod that serves.
use k8s_swarm.Prelude.{
  List, [], ◌∷◌, Option, none, some, true, false, ◌&&◌, ◌||◌, ◌≡◌, ◌≢◌, ◌⊎◌, ◌↔◌, inl, inr, refl,
  subst, sym, ◌∙◌, arith, Bytes, codes, bytes_eq, bytes_eq_iff, Bool-cases,
}
use k8s_swarm.Objects.{Pod, PodCondition, ContainerStatus}
use k8s_swarm.Worker.{Worker}
use k8s_swarm.Pool.{Pool, worker}
use k8s_swarm.Pod.{
  pod_index, is_scheduled, is_host_networked, has_ip_address, is_running, is_ready_pod, any_ready,
  is_ready, is_some, has_deletion_timestamp, any_terminated, is_terminated, updated_pod,
}
use k8s_swarm.Pod.Membership.{IsIndexed, joined_member, updated_member, worker-updated_member}

abbrev pub AnyReady : List PodCondition → Type 0
AnyReady [] = ⊥
AnyReady (c ∷ conditions) =
    ((c.type_of ≡ codes "Ready") × (c.status ≡ codes "True")) ⊎ AnyReady conditions

abbrev pub AnyEnded : List ContainerStatus → Type 0
AnyEnded [] = ⊥
AnyEnded (s ∷ statuses) = (s.terminated ≢ none) ⊎ AnyEnded statuses

-- The pod is being deleted, or a container of it has ended.
abbrev pub IsLeaving : Pod → Type 0
IsLeaving pd = (pd.deletion_timestamp ≢ none) ⊎ AnyEnded pd.container_statuses

-- The pod runs on a node, with an address of its own, and is ready.
abbrev pub IsServing : Pod → Type 0
IsServing pd =
    (pd.host_network ≡ false)
    × (pd.pod_ip ≢ [])
    × (pd.node_name ≢ [])
    × (pd.phase ≡ codes "Running")
    × AnyReady pd.conditions

is_some_iff : {A : Type 0} (o : Option A) → (is_some o ≡ true) ↔ (o ≢ none)
is_some_iff none = (λ e. absurd (ground arith), λ h. absurd (h refl))
is_some_iff (some a) = (λ e q. absurd (ground arith), λ h. refl)

any_ready_iff : (cs : List PodCondition) → (any_ready cs ≡ true) ↔ AnyReady cs
unfolding any_ready
any_ready_iff [] = (λ e. absurd (ground arith), λ h. elim h [ ])
any_ready_iff (c ∷ cs) = ground (
  arith,
  any_ready_iff cs,
  bytes_eq_iff c.type_of (codes "Ready"),
  bytes_eq_iff c.status (codes "True"),
)

any_terminated_iff : (ss : List ContainerStatus) → (any_terminated ss ≡ true) ↔ AnyEnded ss
unfolding any_terminated
any_terminated_iff [] = (λ e. absurd (ground arith), λ h. elim h [ ])
any_terminated_iff (s ∷ ss) = ground (arith, any_terminated_iff ss, is_some_iff s.terminated)

IsLeaving-iff : (pd : Pod) → (has_deletion_timestamp pd || is_terminated pd ≡ true) ↔ IsLeaving pd
unfolding has_deletion_timestamp is_terminated
IsLeaving-iff pd =
    ground (arith, any_terminated_iff pd.container_statuses, is_some_iff pd.deletion_timestamp)

IsServing-iff : (pd : Pod) → (is_ready_pod pd && is_ready pd ≡ true) ↔ IsServing pd
unfolding is_ready_pod is_ready is_scheduled is_host_networked has_ip_address is_running
IsServing-iff pd = ground (
  arith,
  any_ready_iff pd.conditions,
  bytes_eq_iff pd.pod_ip [],
  bytes_eq_iff pd.node_name [],
  bytes_eq_iff pd.phase (codes "Running"),
)

-- What becomes of the member under the pod's name.
abbrev pub Becomes : (Bytes → Bytes) → Pod → (before after : Option Worker) → Type 0
Becomes parse_ip pd before after =
    (IsLeaving pd × (after ≡ none))
    ⊎ (¬ IsLeaving pd
        × IsServing pd
        × (after ≡ joined_member (pod_index pd.name) pd.name (parse_ip pd.pod_ip) before))
    ⊎ (¬ IsLeaving pd × ¬ IsServing pd × (after ≡ before))

updated_member-Becomes :
    (parse_ip : Bytes → Bytes) (pd : Pod) (before : Option Worker)
    → Becomes parse_ip pd before (updated_member parse_ip pd before)
updated_member-Becomes parse_ip pd before =
    elim (Bool-cases (has_deletion_timestamp pd || is_terminated pd)) [
      | inl leaving ↦ inl ((IsLeaving-iff pd).0 leaving, rw leaving refl)
      | inr staying ↦
          let stays : ¬ IsLeaving pd = λ h. absurd (ground (arith, (IsLeaving-iff pd).1 h)) in
          elim (Bool-cases (is_ready_pod pd && is_ready pd)) [
            | inl serving ↦
                inr (inl (stays, (IsServing-iff pd).0 serving, rw (staying, serving) refl))
            | inr idle ↦ inr (
                inr (
                  stays,
                  λ h. absurd (ground (arith, (IsServing-iff pd).1 h)),
                  rw (staying, idle) refl,
                ))
          ]
    ]

-- An updated pod, in a pool whose index has unique names that point to workers. The member under its
-- name is removed if the pod is being deleted or a container of it has ended. Else, if the pod runs on a
-- node with an address of its own and has the condition Ready with the status True, the member is
-- there: as it was, or new with the index of the name, where the name has one. Else it is as before. No
-- other member changes.
pub worker-updated_pod :
    (parse_ip : Bytes → Bytes) (p : Pool) (pd : Pod)
    → IsIndexed p
    → (k : Bytes)
    → ((pd.name ≢ k) × (worker (updated_pod parse_ip p pd) k ≡ worker p k))
      ⊎ ((pd.name ≡ k)
          × Becomes parse_ip pd (worker p pd.name) (worker (updated_pod parse_ip p pd) k))
worker-updated_pod parse_ip p pd v k = elim (Bool-cases (bytes_eq pd.name k)) [
  | inr other ↦ inl (
    λ e. absurd (ground (arith, (bytes_eq_iff pd.name k).1 e)),
    worker-updated_member parse_ip p pd v k ∙ rw other refl,
  )
  | inl same ↦ inr (
    (bytes_eq_iff pd.name k).0 same,
    subst (Becomes parse_ip pd (worker p pd.name))
        (sym (worker-updated_member parse_ip p pd v k ∙ rw same refl))
        (updated_member-Becomes parse_ip pd (worker p pd.name)),
  )
]
