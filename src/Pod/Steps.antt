-- ===== src/Pod/Steps.antt =====
-- The calls of the pod and StatefulSet handlers as steps of the pool.
use k8s_swarm.Prelude.{
  ℕ, Bool, true, false, not, ◌||◌, Option, some, ◌≡◌, refl, subst, arith, Bytes, inl, inr,
  Option-cases, List, if◌then◌else◌,
}
use k8s_swarm.Config.{Job}
use k8s_swarm.Objects.{Pod, StatefulSet, pod, stateful_set, swarm, unknown}
use k8s_swarm.State.{new_state}
use k8s_swarm.Operator.{Call}
use k8s_swarm.Pool.{Pool, new_worker_pool, remove_worker_by_name}
use k8s_swarm.Pool.System.{Step, resize, join, leave, Reach, here, next}
use k8s_swarm.Pool.Invariant.{Inv, reached-Inv, reached_resizes}
use k8s_swarm.Pod.{
  PodIndex, ok, malformed_name, not_a_number, pod_index, is_ready_pod, is_ready,
  has_deletion_timestamp, is_terminated, join_pool, created_pod, updated_pod, deleted_pod,
}
use k8s_swarm.Pod
use k8s_swarm.StatefulSets
use k8s_swarm.StatefulSets.{resize_to}

module _ (parse_ip : Bytes → Bytes) where
  -- The handler of pods behind its processor, and that of StatefulSets behind its own.
  unfoldable pub dispatch_pod : Pool → Call → Option Pool
  dispatch_pod p (Call.created o) = Pod.created parse_ip p o
  dispatch_pod p (Call.updated new old) = Pod.updated parse_ip p new old
  dispatch_pod p (Call.deleted o) = Pod.deleted p o

unfoldable pub dispatch_stateful_set : Pool → Call → Option Pool
dispatch_stateful_set p (Call.created o) = StatefulSets.created p o
dispatch_stateful_set p (Call.updated new old) = StatefulSets.updated p new old
dispatch_stateful_set p (Call.deleted o) = StatefulSets.deleted p o

if-Reach : {p a b : Pool} (t : Bool) → Reach p a → Reach p b → Reach p (if t then a else b)
if-Reach true r r' = r
if-Reach false r r' = r'

-- A run of the controller's handlers and of the pool's own loop.
module _ (parse_ip : Bytes → Bytes) where
  pub data Run (p : Pool) : Pool → Type 0 where
    begin : Run p p
    pod_call : {q r : Pool} (c : Call) → Run p q → dispatch_pod parse_ip q c ≡ some r → Run p r
    stateful_set_call :
        {q r : Pool} (c : Call) → Run p q → dispatch_stateful_set q c ≡ some r → Run p r
    own : {q r : Pool} → Run p q → Step q r → Run p r

  join_as-Reach :
      {p q : Pool} (pd : Pod) (i : PodIndex)
      → pod_index pd.name ≡ i
      → Reach p q
      → Reach p (join_pool parse_ip q pd)
  unfolding join_pool
  join_as-Reach pd (ok idx) e r = rw (e, join_pool) (next r (join idx pd.name (parse_ip pd.pod_ip)))
  join_as-Reach pd malformed_name e r = rw (e, join_pool) r
  join_as-Reach pd not_a_number e r = rw (e, join_pool) r

  join_pool-Reach : {p q : Pool} (pd : Pod) → Reach p q → Reach p (join_pool parse_ip q pd)
  join_pool-Reach pd r = join_as-Reach pd (pod_index pd.name) refl r

  created_pod-Reach : {p q : Pool} (pd : Pod) → Reach p q → Reach p (created_pod parse_ip q pd)
  unfolding created_pod
  created_pod-Reach pd r = if-Reach (not (is_ready_pod pd)) r (join_pool-Reach pd r)

  updated_pod-Reach : {p q : Pool} (pd : Pod) → Reach p q → Reach p (updated_pod parse_ip q pd)
  unfolding updated_pod deleted_pod
  updated_pod-Reach pd r =
      if-Reach (has_deletion_timestamp pd || is_terminated pd) (next r (leave pd.name))
        (if-Reach (not (is_ready_pod pd)) r (if-Reach (not (is_ready pd)) r (join_pool-Reach pd r)))

  pub pod_call-Reach :
      {p q r : Pool} (c : Call) → dispatch_pod parse_ip q c ≡ some r → Reach p q → Reach p r
  unfolding dispatch_pod Pod.created Pod.updated Pod.deleted deleted_pod
  pod_call-Reach {p} {q} {r} (Call.created (pod pd)) e g =
      subst (Reach p) {x = created_pod parse_ip q pd} {y = r} (ground arith)
        (created_pod-Reach pd g)
  pod_call-Reach (Call.created (stateful_set s)) e g = absurd (ground arith)
  pod_call-Reach (Call.created (swarm s)) e g = absurd (ground arith)
  pod_call-Reach (Call.created unknown) e g = absurd (ground arith)
  pod_call-Reach {p} {q} {r} (Call.updated (pod pd) old) e g =
      subst (Reach p) {x = updated_pod parse_ip q pd} {y = r} (ground arith)
        (updated_pod-Reach pd g)
  pod_call-Reach (Call.updated (stateful_set s) old) e g = absurd (ground arith)
  pod_call-Reach (Call.updated (swarm s) old) e g = absurd (ground arith)
  pod_call-Reach (Call.updated unknown old) e g = absurd (ground arith)
  pod_call-Reach {p} {q} {r} (Call.deleted (pod pd)) e g =
      subst (Reach p) {x = remove_worker_by_name q pd.name} {y = r} (ground arith)
        (next g (leave pd.name))
  pod_call-Reach (Call.deleted (stateful_set s)) e g = absurd (ground arith)
  pod_call-Reach (Call.deleted (swarm s)) e g = absurd (ground arith)
  pod_call-Reach (Call.deleted unknown) e g = absurd (ground arith)

resize_to-Reach : {p q r : Pool} (s : StatefulSet) → resize_to q s ≡ some r → Reach p q → Reach p r
unfolding resize_to
resize_to-Reach s e g = elim (Option-cases s.replicas) [
  | inl absent ↦ absurd (ground arith)
  | inr (n, given) ↦ next g (resize n (ground arith))
]

pub stateful_set_call-Reach :
    {p q r : Pool} (c : Call) → dispatch_stateful_set q c ≡ some r → Reach p q → Reach p r
unfolding dispatch_stateful_set StatefulSets.created StatefulSets.updated StatefulSets.deleted
stateful_set_call-Reach (Call.created (stateful_set s)) e g = resize_to-Reach s e g
stateful_set_call-Reach (Call.created (pod s)) e g = absurd (ground arith)
stateful_set_call-Reach (Call.created (swarm s)) e g = absurd (ground arith)
stateful_set_call-Reach (Call.created unknown) e g = absurd (ground arith)
stateful_set_call-Reach (Call.updated (stateful_set s) old) e g = resize_to-Reach s e g
stateful_set_call-Reach (Call.updated (pod s) old) e g = absurd (ground arith)
stateful_set_call-Reach (Call.updated (swarm s) old) e g = absurd (ground arith)
stateful_set_call-Reach (Call.updated unknown old) e g = absurd (ground arith)
stateful_set_call-Reach (Call.deleted (stateful_set s)) e g = next g (resize 0 e)
stateful_set_call-Reach (Call.deleted (pod s)) e g = absurd (ground arith)
stateful_set_call-Reach (Call.deleted (swarm s)) e g = absurd (ground arith)
stateful_set_call-Reach (Call.deleted unknown) e g = absurd (ground arith)

module _ (parse_ip : Bytes → Bytes) where
  pub Run-Reach : {p q : Pool} → Run parse_ip p q → Reach p q
  Run-Reach begin = here
  Run-Reach (pod_call c g e) = pod_call-Reach parse_ip c e (Run-Reach g)
  Run-Reach (stateful_set_call c g e) = stateful_set_call-Reach c e (Run-Reach g)
  Run-Reach (own g st) = next (Run-Reach g) st

  -- Whatever calls the processors of pods and of StatefulSets make, in any order and between any steps
  -- of the pool's own: the assignment is the one to as many workers as are expected, it was sent out
  -- last, and each name of the index points to a worker of that name.
  pub Run-Inv :
      (jobs : List Job) (set_name : Bytes) {p : Pool}
      → Run parse_ip (new_worker_pool (new_state jobs set_name)) p
      → Inv (new_state jobs set_name) p
  Run-Inv jobs set_name r = reached-Inv jobs set_name (Run-Reach r)

-- After any run, a call of the StatefulSet processor's handler for a StatefulSet with given replicas
-- does not panic, and the replicas are then the pool's expected size.
pub replicas_expected :
    (parse_ip : Bytes → Bytes) (jobs : List Job) (set_name : Bytes) {p : Pool} (s : StatefulSet)
    (n : ℕ)
    → Run parse_ip (new_worker_pool (new_state jobs set_name)) p
    → s.replicas ≡ some n
    → (q : Pool) × (dispatch_stateful_set p (Call.created (stateful_set s)) ≡ some q)
      × (q.expected_size ≡ n)
unfolding dispatch_stateful_set StatefulSets.created resize_to
replicas_expected parse_ip jobs set_name s n r given =
    let (q, e, size) = reached_resizes jobs set_name n (Run-Reach parse_ip r) in
    (q, ground (arith, given), size)
