-- ===== src/Pod/Membership.antt =====
-- What the pod handler's calls do to the pool's members.
use k8s_swarm.Prelude.{
  ℕ, ◌+◌, List, [], ◌∷◌, ◌++◌, Option, none, some, ◌&&◌, ◌||◌, ◌≡◌, inl, inr, refl, ap, ◌∙◌, arith,
  Bytes, lookup, lookup-insert, lookup-delete, KeysUnique, bytes_eq, bytes_eq_iff, length,
  get_elem?, get_elem?-append, if◌then◌else◌, Option-cases,
}
use k8s_swarm.Objects.{Pod}
use k8s_swarm.Worker.{Worker, new_worker}
use k8s_swarm.Pool.{Pool, add_worker_if_not_exists, remove_worker_by_name, worker}
use k8s_swarm.Pool.Pointers.{Points, get_elem?-append_left}
use k8s_swarm.Pod.{
  PodIndex, ok, malformed_name, not_a_number, pod_index, is_ready_pod, is_ready,
  has_deletion_timestamp, is_terminated, join_pool, created_pod, updated_pod, deleted_pod,
}

-- The index is well formed: its keys are unique and point to workers.
pub record IsIndexed (p : Pool) : Type 0 where
  pub keys_unique : KeysUnique p.index
  pub points : Points p.index p.heap

last_allocated :
    (heap : List Worker) (w : Worker) → get_elem? (heap ++ w ∷ []) (length heap) ≡ some w
last_allocated heap w =
    ap (get_elem? (heap ++ w ∷ [])) {x = length heap} {y = length heap + 0} (omega arith)
    ∙ get_elem?-append heap (w ∷ []) 0

-- The members after `p` is asked to add a worker.
pub worker-add_worker :
    (p : Pool) (idx : ℕ) (name ip k : Bytes)
    → IsIndexed p
    → worker (add_worker_if_not_exists p idx name ip).0 k ≡ (
        if bytes_eq name k
        then elim (worker p name) [ none ↦ some (new_worker idx name ip) | some w ↦ some w ]
        else worker p k)
unfolding worker add_worker_if_not_exists
worker-add_worker p idx name ip k v = elim (Option-cases (lookup name p.index)) [
  | inl absent ↦ elim (Option-cases (lookup k p.index)) [
    | inl out ↦ ground (
      arith,
      lookup-insert name k (length p.heap) p.index,
      bytes_eq_iff name k,
      last_allocated p.heap (new_worker idx name ip),
    )
    | inr (ptr, in_index) ↦
        let (w, at, named) = v.points k ptr in_index in
        ground (
          arith,
          lookup-insert name k (length p.heap) p.index,
          bytes_eq_iff name k,
          last_allocated p.heap (new_worker idx name ip),
          get_elem?-append_left p.heap (new_worker idx name ip) w ptr at,
        )
  ]
  | inr (ptr, present) ↦
      let (w, at, named) = v.points name ptr present in ground (arith, bytes_eq_iff name k)
]

pub worker-remove_worker :
    (p : Pool) (name k : Bytes)
    → IsIndexed p
    → worker (remove_worker_by_name p name) k ≡ (if bytes_eq name k then none else worker p k)
unfolding worker remove_worker_by_name
worker-remove_worker p name k v = ground (arith, lookup-delete name k p.index v.keys_unique)

-- What a pod's member shall be once the pod has joined under its index.
abbrev pub joined_member : PodIndex → Bytes → Bytes → Option Worker → Option Worker
joined_member (ok idx) name ip none = some (new_worker idx name ip)
joined_member (ok idx) name ip (some w) = some w
joined_member malformed_name name ip m = m
joined_member not_a_number name ip m = m

-- What a pod's member shall be after the pod was seen: gone if the pod is on its way out, in the pool if
-- the pod serves, and else as it was.
abbrev pub updated_member : (Bytes → Bytes) → Pod → Option Worker → Option Worker
updated_member parse_ip pd m =
    if has_deletion_timestamp pd || is_terminated pd
    then none
    else if is_ready_pod pd && is_ready pd
    then joined_member (pod_index pd.name) pd.name (parse_ip pd.pod_ip) m
    else m

module _ (parse_ip : Bytes → Bytes) (p : Pool) (pd : Pod) (v : IsIndexed p) where
  same_member :
      (k : Bytes) → worker p k ≡ (if bytes_eq pd.name k then worker p pd.name else worker p k)
  same_member k = ground (arith, bytes_eq_iff pd.name k, ap (worker p) {x = pd.name} {y = k})

  worker-join_as :
      (k : Bytes) (i : PodIndex)
      → pod_index pd.name ≡ i
      → worker (join_pool parse_ip p pd) k ≡ (
          if bytes_eq pd.name k
          then joined_member i pd.name (parse_ip pd.pod_ip) (worker p pd.name)
          else worker p k)
  unfolding join_pool
  worker-join_as k (ok idx) e =
      rw (e, join_pool)
        (worker-add_worker p idx pd.name (parse_ip pd.pod_ip) k v
          ∙ elim (Option-cases (worker p pd.name)) [
            | inl out ↦ rw out
            | inr (w, member) ↦ rw member
          ])
  worker-join_as k malformed_name e = rw (e, join_pool) (same_member k)
  worker-join_as k not_a_number e = rw (e, join_pool) (same_member k)

  worker-join_pool :
      (k : Bytes)
      → worker (join_pool parse_ip p pd) k ≡ (
          if bytes_eq pd.name k
          then joined_member (pod_index pd.name) pd.name (parse_ip pd.pod_ip) (worker p pd.name)
          else worker p k)
  worker-join_pool k = worker-join_as k (pod_index pd.name) refl

  pub worker-updated_member :
      (k : Bytes)
      → worker (updated_pod parse_ip p pd) k
        ≡ (if bytes_eq pd.name k then updated_member parse_ip pd (worker p pd.name) else worker p k)
  unfolding updated_pod deleted_pod
  worker-updated_member k =
      ground (arith, worker-join_pool k, worker-remove_worker p pd.name k v, same_member k)

  -- A created pod, in a pool whose index has unique names that point to workers: the member under its
  -- name is there with the index of the name if the pod runs with an address of its own and is
  -- scheduled, whether or not it is ready or on its way out; else it is as before. No other member
  -- changes.
  pub worker-created_pod :
      (k : Bytes)
      → worker (created_pod parse_ip p pd) k ≡ (
          if bytes_eq pd.name k
          then (if is_ready_pod pd
              then joined_member (pod_index pd.name) pd.name (parse_ip pd.pod_ip) (worker p pd.name)
              else worker p pd.name)
          else worker p k)
  unfolding created_pod
  worker-created_pod k = ground (arith, worker-join_pool k, same_member k)
