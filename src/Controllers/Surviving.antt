-- ===== src/Controllers/Surviving.antt =====
-- What the controller needs in order not to panic, for each of its steps.
use k8s_swarm.Prelude.{
  List, Option, some, ◌≡◌, inl, inr, refl, sym, ap, subst, ◌∙◌, arith, Bytes, Option-cases,
}
use k8s_swarm.Config.{Job, Workloads}
use k8s_swarm.State.{new_state}
use k8s_swarm.Pool.{Pool, new_worker_pool}
use k8s_swarm.Pool.System.{Step}
use k8s_swarm.Objects.{Object}
use k8s_swarm.Operator.{Event, Delivery, panics, skipped, queued, Indexed, Call, handle}
use k8s_swarm.Operator.Typing.{EventOf, CallOf, DeliveryOf, handle-CallOf}
use k8s_swarm.Operator.Queues.{Queue, process_next_item}
use k8s_swarm.Operator.Contents.{Contents, QueueOf, HandledOf, add-QueueOf, next-QueueOf}
use k8s_swarm.Pod.Steps.{
  dispatch_pod, dispatch_stateful_set, Run, pod_call, stateful_set_call, own, Run-Reach,
}
use k8s_swarm.Storage.{Outcome, stored, refused, panicked, Storage}
use k8s_swarm.Storage
use k8s_swarm.Controllers.{
  System, handle_on, sent_by, apply, process_pods, process_stateful_sets, deliver_pod,
  deliver_stateful_set,
}
use k8s_swarm.Controllers.Typing.{
  IsPod, IsSized, dispatch_pod-returns, dispatch_stateful_set-returns,
}

-- The call has returned, and left a cluster that is safe.
abbrev pub IsFine : {W : Type 0} → (W → Type 0) → Outcome W → Type 0
IsFine safe (stored v) = safe v
IsFine safe (refused v) = safe v
IsFine safe (panicked v) = ⊥

-- A storage that does not panic on a safe cluster, and leaves a safe one.
pub record IsCalm {W : Type 0} (store : Storage W) (safe : W → Type 0) : Type 0 where
  pub storing : (a : Workloads) (w : W) → safe w → IsFine safe (store a w)

module _ {Q W : Type 0} (calls : Queue Event Q) (store : Storage W) {safe : W → Type 0}
    (calm : IsCalm store safe) where
  -- What a system keeps when the pool has taken a call.
  abbrev IsApplied : System Q W → Pool → System Q W → Type 0
  IsApplied s q t =
      (t.pool ≡ some q) × (t.pods ≡ s.pods) × (t.stateful_sets ≡ s.stateful_sets) × safe t.cluster

  sent-IsApplied :
      (s : System Q W) (q : Pool) (a : Workloads) (o : Outcome W)
      → sent_by s.pool q ≡ some a
      → Storage.assign store a s.cluster ≡ o
      → safe s.cluster
      → IsApplied s q (apply calls store s (some q))
  unfolding apply Storage.assign
  sent-IsApplied s q a (stored v) sent e h =
      let good : safe v = subst (IsFine safe) e (calm.storing a s.cluster h) in
      rw (sent, e, apply) (refl, refl, refl, good)
  sent-IsApplied s q a (refused v) sent e h =
      let good : safe v = subst (IsFine safe) e (calm.storing a s.cluster h) in
      rw (sent, e, apply) (refl, refl, refl, good)
  sent-IsApplied s q a (panicked v) sent e h =
      elim (subst (IsFine safe) {x = store a s.cluster} {y = panicked v} e
        (calm.storing a s.cluster h)) [ ]

  apply-IsApplied :
      (s : System Q W) (q : Pool) → safe s.cluster → IsApplied s q (apply calls store s (some q))
  unfolding apply
  apply-IsApplied s q h = elim (Option-cases (sent_by s.pool q)) [
    | inl silent ↦ rw (silent, apply) (refl, refl, refl, h)
    | inr (a, sent) ↦ sent-IsApplied s q a (Storage.assign store a s.cluster) sent refl h
  ]

module _ (parse_ip : Bytes → Bytes) (jobs : List Job) (watch_label : Bytes) where
  abbrev pub fresh : Pool
  fresh = new_worker_pool (new_state jobs watch_label)

  -- A pool of a run.
  abbrev pub Runs : Option Pool → Type 0
  Runs o = (p : Pool) × (o ≡ some p) × Run parse_ip fresh p

  module _ (P : Object → Type 0) (dispatch : Pool → Call → Option Pool)
      (returns : (p : Pool) (c : Call) → CallOf P c → Run parse_ip fresh p → Runs (dispatch p c))
      (get_by_key : Bytes → Indexed) where
    handle_on-Runs :
        (x : Event) (p : Pool)
        → EventOf P x
        → Run parse_ip fresh p
        → Runs (handle_on dispatch get_by_key x (some p)).state
    unfolding handle_on
    handle_on-Runs x p h r = elim (Option-cases (handle get_by_key x)) [
      | inl failed ↦ rw (failed, handle_on) (p, refl, r)
      | inr (c, called) ↦
          rw (called, handle_on) (returns p c (handle-CallOf P get_by_key x c h called) r)
    ]

    handled-Runs :
        {Q : Type 0} (calls : Queue Event Q) (inside : Event → Q → Type 0)
        (contents : Contents calls inside) (o o' : Option Pool)
        → HandledOf calls inside contents P (handle_on dispatch get_by_key) o o'
        → Runs o
        → Runs o'
    handled-Runs calls inside contents o o' (inl same) (p, e, r) = (p, same ∙ e, r)
    handled-Runs calls inside contents o o' (inr (x, h, handled)) (p, e, r) =
        let (q, f, run) = handle_on-Runs x p h r in
        (q, handled ∙ ap (λ o. (handle_on dispatch get_by_key x o).state) e ∙ f, run)

  pod-Runs :
      (p : Pool) (c : Call)
      → CallOf IsPod c
      → Run parse_ip fresh p
      → Runs (dispatch_pod parse_ip p c)
  pod-Runs p c h r = let (q, e) = dispatch_pod-returns parse_ip p c h in (q, e, pod_call c r e)

  stateful_set-Runs :
      (p : Pool) (c : Call)
      → CallOf IsSized c
      → Run parse_ip fresh p
      → Runs (dispatch_stateful_set p c)
  stateful_set-Runs p c h r =
      let (q, e) = dispatch_stateful_set-returns jobs watch_label (Run-Reach parse_ip r) c h in
      (q, e, stateful_set_call c r e)

  module _ {Q W : Type 0} (calls : Queue Event Q) (inside : Event → Q → Type 0)
      (contents : Contents calls inside) (store : Storage W) {safe : W → Type 0}
      (calm : IsCalm store safe) where
    abbrev pub Holds : (Object → Type 0) → Q → Type 0
    Holds P q = QueueOf calls inside contents P q

    -- Between two steps: the pool is there, the queues hold events of their kinds, and the cluster is safe.
    pub record Alive (s : System Q W) : Type 0 where
      pub runs : Runs s.pool
      pub pods_typed : Holds IsPod s.pods
      pub sets_typed : Holds IsSized s.stateful_sets
      pub secure : safe s.cluster

    applied-Alive :
        (s : System Q W) (o : Option Pool)
        → Runs o
        → Holds IsPod s.pods
        → Holds IsSized s.stateful_sets
        → safe s.cluster
        → Alive (apply calls store s o)
    applied-Alive s o (q, e, r) pods sets h =
        let (pool, same_pods, same_sets, good) = apply-IsApplied calls store calm s q h in
        rw (e) (record {
          runs = (q, pool, r);
          pods_typed = subst (Holds IsPod) (sym same_pods) pods;
          sets_typed = subst (Holds IsSized) (sym same_sets) sets;
          secure = good;
        })

    pub pod_delivered-Alive :
        (d : Delivery) (s : System Q W)
        → DeliveryOf IsPod d
        → Alive s
        → Alive (deliver_pod calls store d s)
    unfolding deliver_pod
    pod_delivered-Alive panics s h v = elim h [ ]
    pod_delivered-Alive skipped s h v = v
    pod_delivered-Alive (queued e) s h v = record {
      runs = v.runs;
      pods_typed = add-QueueOf calls inside contents IsPod e s.pods h v.pods_typed;
      sets_typed = v.sets_typed;
      secure = v.secure;
    }

    pub set_delivered-Alive :
        (d : Delivery) (s : System Q W)
        → DeliveryOf IsSized d
        → Alive s
        → Alive (deliver_stateful_set calls store d s)
    unfolding deliver_stateful_set
    set_delivered-Alive panics s h v = elim h [ ]
    set_delivered-Alive skipped s h v = v
    set_delivered-Alive (queued e) s h v = record {
      runs = v.runs;
      pods_typed = v.pods_typed;
      sets_typed = add-QueueOf calls inside contents IsSized e s.stateful_sets h v.sets_typed;
      secure = v.secure;
    }

    pub pods-Alive :
        (get_by_key : Bytes → Indexed) {t : System Q W} (s : System Q W)
        → process_pods calls store parse_ip get_by_key s ≡ some t
        → Alive s
        → Alive t
    unfolding process_pods
    pods-Alive get_by_key {t} s e v =
        elim (Option-cases (
          process_next_item calls (handle_on (dispatch_pod parse_ip) get_by_key)
            (record { queue = s.pods; state = s.pool }))) [
              | inl shut ↦ absurd (ground arith)
              | inr (c, next) ↦
                  let (queue, handled) =
                    next-QueueOf calls inside contents IsPod
                      (handle_on (dispatch_pod parse_ip) get_by_key) s.pods s.pool c next
                      v.pods_typed in
                  subst Alive {x = apply calls store (record s { pods = c.queue }) c.state} {y = t}
                    (ground arith)
                    (applied-Alive (record s { pods = c.queue }) c.state
                      (handled-Runs IsPod (dispatch_pod parse_ip) pod-Runs get_by_key calls inside
                        contents s.pool c.state handled v.runs)
                      queue v.sets_typed v.secure)
            ]

    pub sets-Alive :
        (get_by_key : Bytes → Indexed) {t : System Q W} (s : System Q W)
        → process_stateful_sets calls store get_by_key s ≡ some t
        → Alive s
        → Alive t
    unfolding process_stateful_sets
    sets-Alive get_by_key {t} s e v =
        elim (Option-cases (
          process_next_item calls (handle_on dispatch_stateful_set get_by_key)
            (record { queue = s.stateful_sets; state = s.pool }))) [
              | inl shut ↦ absurd (ground arith)
              | inr (c, next) ↦
                  let (queue, handled) =
                    next-QueueOf calls inside contents IsSized
                      (handle_on dispatch_stateful_set get_by_key) s.stateful_sets s.pool c next
                      v.sets_typed in
                  subst Alive {x = apply calls store (record s { stateful_sets = c.queue }) c.state}
                    {y = t} (ground arith)
                    (applied-Alive (record s { stateful_sets = c.queue }) c.state
                      (handled-Runs IsSized dispatch_stateful_set stateful_set-Runs get_by_key calls
                        inside contents s.pool c.state handled v.runs)
                      v.pods_typed queue v.secure)
            ]

    -- A step of the pool's own.
    own-Runs : {o : Option Pool} (p q : Pool) → Runs o → o ≡ some p → Step p q → Runs (some q)
    own-Runs p q (p', e, r) f st =
        (q, refl, own (subst (Run parse_ip fresh) {x = p'} {y = p} (ground arith) r) st)

    pub with_pool-Alive :
        (s : System Q W) (w : W) (p q : Pool)
        → s.pool ≡ some p
        → Step p q
        → safe w
        → Alive s
        → Alive (record s { pool = some q; cluster = w })
    with_pool-Alive s w p q e st h v = record {
      runs = own-Runs p q v.runs e st;
      pods_typed = v.pods_typed;
      sets_typed = v.sets_typed;
      secure = h;
    }
