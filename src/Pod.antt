-- ===== src/Pod.antt =====
-- services/controller/internal/infra/k8s/operator/pod/handler.go: pods join and leave the pool.
--
-- The pool is that of `Pool`. A type assertion that does not hold panics: `none`. The worker keeps the
-- result of net.ParseIP and nothing reads it again; the function is an argument, `parse_ip`.
pub mod Index
pub mod Membership
pub mod Joining
pub mod Steps
pub mod Sharing
use k8s_swarm.Prelude.{
  ℕ, ◌-◌, List, [], ◌∷◌, Option, none, some, Bool, true, false, not, ◌&&◌, ◌||◌, Bytes, codes,
  bytes_eq, length, get_elem?, ltb, if◌then◌else◌,
}
use k8s_swarm.Text.{split, parse_int}
use k8s_swarm.Objects.{Pod, PodCondition, ContainerStatus, Object}
use k8s_swarm.Pool.{Pool, add_worker_if_not_exists, remove_worker_by_name}

unfoldable pub is_scheduled : Pod → Bool
is_scheduled p = not (bytes_eq p.node_name [])

unfoldable pub is_host_networked : Pod → Bool
is_host_networked p = p.host_network

unfoldable pub has_ip_address : Pod → Bool
has_ip_address p = not (bytes_eq p.pod_ip [])

unfoldable pub is_running : Pod → Bool
is_running p = bytes_eq p.phase (codes "Running")

unfoldable pub is_ready_pod : Pod → Bool
is_ready_pod p =
    if is_host_networked p
    then false
    else if not (has_ip_address p)
    then false
    else if not (is_scheduled p)
    then false
    else if not (is_running p)
    then false
    else true

-- The loop of `isReady`.
unfoldable pub any_ready : List PodCondition → Bool
any_ready [] = false
any_ready (cond ∷ conds) =
    if bytes_eq cond.type_of (codes "Ready") && bytes_eq cond.status (codes "True")
    then true
    else any_ready conds

unfoldable pub is_ready : Pod → Bool
is_ready p = any_ready p.conditions

abbrev pub is_some {ℓ} : {A : Type ℓ} → Option A → Bool
is_some none = false
is_some (some a) = true

unfoldable pub has_deletion_timestamp : Pod → Bool
has_deletion_timestamp p = is_some p.deletion_timestamp

-- The loop of `isTerminated`.
unfoldable pub any_terminated : List ContainerStatus → Bool
any_terminated [] = false
any_terminated (status ∷ statuses) =
    if is_some status.terminated then true else any_terminated statuses

unfoldable pub is_terminated : Pod → Bool
is_terminated p = any_terminated p.container_statuses

pub data PodIndex : Type 0 where
  ok : ℕ → PodIndex
  malformed_name not_a_number : PodIndex

abbrev or_not_a_number : Option ℕ → PodIndex
or_not_a_number none = not_a_number
or_not_a_number (some i) = ok i

-- `parts[len(parts)-1]`, read as a number.
unfoldable pub last_index : List Bytes → PodIndex
last_index parts = elim (get_elem? parts (length parts - 1)) [
  | none ↦ malformed_name
  | some idx ↦ or_not_a_number (parse_int idx)
]

unfoldable pub pod_index : Bytes → PodIndex
pod_index name =
    let parts = split b'-' name in if ltb (length parts) 2 then malformed_name else last_index parts

unfoldable pub deleted_pod : Pool → Pod → Pool
deleted_pod p pd = remove_worker_by_name p pd.name

unfoldable pub deleted : Pool → Object → Option Pool
deleted p (Object.pod pd) = some (deleted_pod p pd)
deleted p (Object.stateful_set s) = none
deleted p (Object.swarm s) = none
deleted p Object.unknown = none

module _ (parse_ip : Bytes → Bytes) where
  -- The common end of `Created` and `Updated`.
  unfoldable pub join_pool : Pool → Pod → Pool
  join_pool p pd = elim (pod_index pd.name) [
    | ok idx ↦ (add_worker_if_not_exists p idx pd.name (parse_ip pd.pod_ip)).0
    | malformed_name ↦ p
    | not_a_number ↦ p
  ]

  unfoldable pub created_pod : Pool → Pod → Pool
  created_pod p pd = if not (is_ready_pod pd) then p else join_pool p pd

  unfoldable pub updated_pod : Pool → Pod → Pool
  updated_pod p new =
      if has_deletion_timestamp new || is_terminated new
      then deleted_pod p new
      else if not (is_ready_pod new)
      then p
      else if not (is_ready new)
      then p
      else join_pool p new

  -- `Created`, `Updated` and `Deleted`, with their type assertions.
  unfoldable pub created : Pool → Object → Option Pool
  created p (Object.pod pd) = some (created_pod p pd)
  created p (Object.stateful_set s) = none
  created p (Object.swarm s) = none
  created p Object.unknown = none

  unfoldable pub updated : Pool → Object → Object → Option Pool
  updated p (Object.pod new) old = some (updated_pod p new)
  updated p (Object.stateful_set s) old = none
  updated p (Object.swarm s) old = none
  updated p Object.unknown old = none
