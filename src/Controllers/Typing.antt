-- ===== src/Controllers/Typing.antt =====
-- The kinds of objects that the two controllers work on: what their informers hand over, and what their
-- handlers, of pod/handler.go and statefulset/handler.go, make of it.
use k8s_swarm.Prelude.{ℕ, List, Option, some, ◌≡◌, refl, Bytes, Dict}
use k8s_swarm.Config.{Job}
use k8s_swarm.State.{new_state}
use k8s_swarm.Objects.{Object, StatefulSet, pod, stateful_set, swarm, unknown}
use k8s_swarm.Operator.{Call, validate}
use k8s_swarm.Operator.Typing.{
  DeliveredOf, DeliveryOf, CallOf, add-DeliveryOf, update-DeliveryOf, delete-DeliveryOf,
}
use k8s_swarm.Pool.{Pool, new_worker_pool}
use k8s_swarm.Pool.System.{Reach}
use k8s_swarm.Pool.Invariant.{reached_resizes}
use k8s_swarm.Pod
use k8s_swarm.StatefulSets
use k8s_swarm.StatefulSets.{resize_to}
use k8s_swarm.Pod.{created_pod, updated_pod, deleted_pod}
use k8s_swarm.Pod.Steps.{dispatch_pod, dispatch_stateful_set}
use k8s_swarm.Controllers.{Notice, added, deleted, updated, notify}

abbrev pub IsPod : Object → Type 0
IsPod (pod p) = Unit
IsPod (stateful_set s) = ⊥
IsPod (swarm name) = ⊥
IsPod unknown = ⊥

-- A StatefulSet whose replicas are set, as the API server's defaults see to.
abbrev pub IsSized : Object → Type 0
IsSized (pod p) = ⊥
IsSized (stateful_set s) = (n : ℕ) × (s.replicas ≡ some n)
IsSized (swarm name) = ⊥
IsSized unknown = ⊥

-- An informer of objects of a kind, which has missed no deletion.
abbrev pub NoticeOf : (Object → Type 0) → Notice → Type 0
NoticeOf P (added d) = DeliveredOf P d
NoticeOf P (deleted d) = DeliveredOf P d
NoticeOf P (updated old new) = DeliveredOf P old × DeliveredOf P new

pub notify-DeliveryOf :
    (P : Object → Type 0) (get_labels : Object → Option (Dict Bytes))
    (key_of deletion_key_of : Object → Option Bytes) (label : Bytes) (n : Notice)
    → NoticeOf P n
    → DeliveryOf P (notify get_labels key_of deletion_key_of label n)
unfolding notify
notify-DeliveryOf P get_labels key_of deletion_key_of label (added d) h =
    add-DeliveryOf P (validate get_labels label) key_of d h
notify-DeliveryOf P get_labels key_of deletion_key_of label (deleted d) h =
    delete-DeliveryOf P (validate get_labels label) deletion_key_of d h
notify-DeliveryOf P get_labels key_of deletion_key_of label (updated old new) (h, k) =
    update-DeliveryOf P (validate get_labels label) key_of old new h k

pub dispatch_pod-returns :
    (parse_ip : Bytes → Bytes) (p : Pool) (c : Call)
    → CallOf IsPod c
    → (q : Pool) × (dispatch_pod parse_ip p c ≡ some q)
unfolding dispatch_pod Pod.created Pod.updated Pod.deleted
dispatch_pod-returns parse_ip p (Call.created (pod pd)) h = (created_pod parse_ip p pd, refl)
dispatch_pod-returns parse_ip p (Call.created (stateful_set s)) h = elim h [ ]
dispatch_pod-returns parse_ip p (Call.created (swarm s)) h = elim h [ ]
dispatch_pod-returns parse_ip p (Call.created unknown) h = elim h [ ]
dispatch_pod-returns parse_ip p (Call.updated (pod pd) old) h = (updated_pod parse_ip p pd, refl)
dispatch_pod-returns parse_ip p (Call.updated (stateful_set s) old) h = elim h.0 [ ]
dispatch_pod-returns parse_ip p (Call.updated (swarm s) old) h = elim h.0 [ ]
dispatch_pod-returns parse_ip p (Call.updated unknown old) h = elim h.0 [ ]
dispatch_pod-returns parse_ip p (Call.deleted (pod pd)) h = (deleted_pod p pd, refl)
dispatch_pod-returns parse_ip p (Call.deleted (stateful_set s)) h = elim h [ ]
dispatch_pod-returns parse_ip p (Call.deleted (swarm s)) h = elim h [ ]
dispatch_pod-returns parse_ip p (Call.deleted unknown) h = elim h [ ]

module _ (jobs : List Job) (label : Bytes) {p : Pool}
    (r : Reach (new_worker_pool (new_state jobs label)) p) where
  resize_to-returns :
      (s : StatefulSet) → ((n : ℕ) × (s.replicas ≡ some n)) → (q : Pool) × (resize_to p s ≡ some q)
  unfolding resize_to
  resize_to-returns s (n, given) = let (q, e, _) = reached_resizes jobs label n r in (q, rw given e)

  pub dispatch_stateful_set-returns :
      (c : Call) → CallOf IsSized c → (q : Pool) × (dispatch_stateful_set p c ≡ some q)
  unfolding dispatch_stateful_set StatefulSets.created StatefulSets.updated StatefulSets.deleted
  dispatch_stateful_set-returns (Call.created (stateful_set s)) h = resize_to-returns s h
  dispatch_stateful_set-returns (Call.created (pod s)) h = elim h [ ]
  dispatch_stateful_set-returns (Call.created (swarm s)) h = elim h [ ]
  dispatch_stateful_set-returns (Call.created unknown) h = elim h [ ]
  dispatch_stateful_set-returns (Call.updated (stateful_set s) old) h = resize_to-returns s h.0
  dispatch_stateful_set-returns (Call.updated (pod s) old) h = elim h.0 [ ]
  dispatch_stateful_set-returns (Call.updated (swarm s) old) h = elim h.0 [ ]
  dispatch_stateful_set-returns (Call.updated unknown old) h = elim h.0 [ ]
  dispatch_stateful_set-returns (Call.deleted (stateful_set s)) h =
      let (q, e, _) = reached_resizes jobs label 0 r in (q, e)
  dispatch_stateful_set-returns (Call.deleted (pod s)) h = elim h [ ]
  dispatch_stateful_set-returns (Call.deleted (swarm s)) h = elim h [ ]
  dispatch_stateful_set-returns (Call.deleted unknown) h = elim h [ ]
