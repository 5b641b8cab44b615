-- ===== src/Pool/Invariant.antt =====
-- What holds of a pool between any two steps.
use native.Mathlib.Decide.{ℕ_discrete}
use k8s_swarm.Prelude.{
  ℕ, List, [], ◌∷◌, ◌++◌, some, Bool, true, false, ◌≡◌, refl, arith, ap, ◌∙◌, subst, ◌⊎◌, inl, inr,
  Bytes, lookup, KeysUnique, lookup-delete, insert-KeysUnique, delete-KeysUnique, length,
  Bool-cases, Option-cases,
}
use k8s_swarm.Config.{Job, Workloads}
use k8s_swarm.State.{State, new_state}
use k8s_swarm.State.Labels.{label}
use k8s_swarm.State.Shares.{shares}
use k8s_swarm.State.Balance.{IsNumbered}
use k8s_swarm.Worker.{mark_refreshed}
use k8s_swarm.Pool.{
  Pool, new_worker_pool, get_all_workers, modify, update_expected_size, add_worker_if_not_exists,
  remove_worker_by_name, terminate, conciliate, request_restart, finish, to_restart,
}
use k8s_swarm.Pool.Conciliation.{conciliate_idle, conciliate_busy}
use k8s_swarm.Pool.System.{Step, resize, join, leave, tick, restart, stop, Reach, here, next}
use k8s_swarm.Pool.Resize.{IsResized, update_expected_size-IsResized}
use k8s_swarm.Pool.Pointers.{
  Points, Points-KeepsNames, modify-KeepsNames, resized-KeepsNames, add_worker-Points,
}

-- The assignment to `size` workers of all jobs that the state holds.
abbrev pub Assigned : State → ℕ → Type 0
Assigned s size = s.config.workloads ≡ label s.set_name 0 (shares s.jobs size size 0)

pub record Inv (jobs_of : State) (p : Pool) : Type 0 where
  pub keys_unique : KeysUnique p.index
  pub points : Points p.index p.heap
  pub same_jobs : (p.state.jobs ≡ jobs_of.jobs) × (p.state.set_name ≡ jobs_of.set_name)
  pub assigned : Assigned p.state p.expected_size
  pub current : (p.expected_size ≡ 0) ⊎ (p.state.config.version ≡ p.version)
  pub announced :
      ((p.published ≡ []) × (p.expected_size ≡ 0))
      ⊎ ((older : List Workloads) × (p.published ≡ p.state.config ∷ older))

add_worker-Inv :
    (c : State) (p : Pool) (idx : ℕ) (name ip : Bytes)
    → Inv c p
    → Inv c (add_worker_if_not_exists p idx name ip).0
unfolding add_worker_if_not_exists
add_worker-Inv c p idx name ip v = elim (Option-cases (lookup name p.index)) [
  | inl absent ↦
      rw (absent, add_worker_if_not_exists)
        (record {
          keys_unique = insert-KeysUnique name (length p.heap) p.index v.keys_unique;
          points = add_worker-Points p idx name ip v.points;
          same_jobs = v.same_jobs;
          assigned = v.assigned;
          current = v.current;
          announced = v.announced;
        })
  | inr (ptr, present) ↦ rw (present, add_worker_if_not_exists) v
]

remove_worker-Inv :
    (c : State) (p : Pool) (name : Bytes) → Inv c p → Inv c (remove_worker_by_name p name)
unfolding remove_worker_by_name
remove_worker-Inv c p name v = record {
  keys_unique = delete-KeysUnique name p.index v.keys_unique;
  points = λ k ptr e. v.points k ptr (ground (arith, lookup-delete name k p.index v.keys_unique));
  same_jobs = v.same_jobs;
  assigned = v.assigned;
  current = v.current;
  announced = v.announced;
}

version_of_resized :
    (p q : Pool) (new_size : ℕ)
    → IsResized p new_size q
    → (q.expected_size ≡ 0) ⊎ (q.state.config.version ≡ q.version)
version_of_resized p q new_size r = elim (ℕ_discrete new_size 0) [
  | yes e ↦ inl (r.size_set ∙ e)
  | no some_left ↦ inr (ground (arith, ap (λ (s : State). s.config.version) r.shared_out))
]

resized-Inv : (c : State) (p q : Pool) (new_size : ℕ) → IsResized p new_size q → Inv c p → Inv c q
resized-Inv c p q new_size r v = record {
  keys_unique = rw r.members_kept v.keys_unique;
  points =
      rw r.members_kept
        (Points-KeepsNames p.index p.heap q.heap (resized-KeepsNames p q new_size r) v.points);
  same_jobs = rw r.shared_out v.same_jobs;
  assigned = rw (r.size_set, r.shared_out) refl;
  current = version_of_resized p q new_size r;
  announced = inr (p.published, r.announced);
}

IsNumbered-of_Assigned : (s : State) (size : ℕ) → Assigned s size → IsNumbered s
IsNumbered-of_Assigned s size e = record { entries = shares s.jobs size size 0; numbered = e }

update_expected_size-Inv :
    (c : State) (p : Pool) {q : Pool} (new_size : ℕ)
    → update_expected_size p new_size ≡ some q
    → Inv c p
    → Inv c q
update_expected_size-Inv c p {q} new_size e v =
    let num = IsNumbered-of_Assigned p.state p.expected_size v.assigned in
    let (r, e', outcome) = update_expected_size-IsResized p new_size num in
    elim outcome [
      | inl (same, kept) ↦ subst (Inv c) {x = p} {y = q} (cc) v
      | inr (other, resized) ↦
          subst (Inv c) {x = r} {y = q} (cc) (resized-Inv c p r new_size resized v)
    ]

-- Which restarts run, and whether the loop has work, is no part of the invariant.
bookkeeping-Inv :
    (c : State) (p : Pool) (restarts : List ℕ) (varies stopped : Bool)
    → Inv c p
    → Inv c (record p { restarting = restarts; under_variation = varies; stopped = stopped })
bookkeeping-Inv c p restarts varies stopped v = record {
  keys_unique = v.keys_unique;
  points = v.points;
  same_jobs = v.same_jobs;
  assigned = v.assigned;
  current = v.current;
  announced = v.announced;
}

conciliate-Inv : (c : State) (p : Pool) → Inv c p → Inv c (conciliate p)
conciliate-Inv c p v = elim (ℕ_discrete p.expected_size 0) [
  | yes empty ↦ rw (conciliate_idle p (inl empty)) v
  | no sized ↦ elim (Bool-cases p.under_variation) [
    | inl varies ↦
        rw (conciliate_busy p sized varies)
          (bookkeeping-Inv c p (p.restarting ++ to_restart (get_all_workers p)) false p.stopped v)
    | inr settled ↦ rw (conciliate_idle p (inr settled)) v
  ]
]

terminate-Inv : (c : State) (p : Pool) {q : Pool} → terminate p ≡ some q → Inv c p → Inv c q
unfolding terminate
terminate-Inv c p {q} e v =
    subst (Inv c) {x = record p { stopped = true }} {y = q} (ground arith)
      (bookkeeping-Inv c p p.restarting p.under_variation true v)

request_restart-Inv :
    (c : State) (p : Pool) (ptr : ℕ) (restarted : Bool)
    → Inv c p
    → Inv c (request_restart p ptr restarted)
unfolding request_restart
request_restart-Inv c p ptr true v = record {
  keys_unique = v.keys_unique;
  points =
      Points-KeepsNames p.index p.heap (modify ptr mark_refreshed p.heap)
        (modify-KeepsNames ptr p.heap) v.points;
  same_jobs = v.same_jobs;
  assigned = v.assigned;
  current = v.current;
  announced = v.announced;
}
request_restart-Inv c p ptr false v =
    bookkeeping-Inv c p (finish ptr p.restarting) p.under_variation p.stopped v

pub Step-Inv : {c : State} {p q : Pool} → Step p q → Inv c p → Inv c q
Step-Inv {c} {p} (resize new_size e) v = update_expected_size-Inv c p new_size e v
Step-Inv {c} {p} (join idx name ip) v = add_worker-Inv c p idx name ip v
Step-Inv {c} {p} (leave name) v = remove_worker-Inv c p name v
Step-Inv {c} {p} (tick running) v = conciliate-Inv c p v
Step-Inv {c} {p} (restart ptr restarted started) v = request_restart-Inv c p ptr restarted v
Step-Inv {c} {p} (stop e) v = terminate-Inv c p e v

new_worker_pool-Inv :
    (jobs : List Job) (set_name : Bytes)
    → Inv (new_state jobs set_name) (new_worker_pool (new_state jobs set_name))
unfolding new_worker_pool new_state label shares
new_worker_pool-Inv jobs set_name = record {
  keys_unique = tt;
  points = λ name ptr e. cc;
  same_jobs = (refl, refl);
  assigned = refl;
  current = inl refl;
  announced = inl (refl, refl);
}

Reach-Inv : {c : State} {p q : Pool} → Reach p q → Inv c p → Inv c q
Reach-Inv here v = v
Reach-Inv (next r st) v = Step-Inv st (Reach-Inv r v)

-- Whatever sizes, joining and leaving workers, conciliations and restarts a new pool has seen, in any
-- order: each name of the index points to a worker of that name; the state assigns to as many workers
-- as are expected, and of all the jobs that the pool was made with; the version of that assignment is
-- the pool's, unless no worker is expected; and the assignment that was sent out last is this one.
pub reached-Inv :
    (jobs : List Job) (set_name : Bytes) {p : Pool}
    → Reach (new_worker_pool (new_state jobs set_name)) p
    → Inv (new_state jobs set_name) p
reached-Inv jobs set_name r = Reach-Inv r (new_worker_pool-Inv jobs set_name)

-- Two names of a reachable pool's index never share a worker object.
pub pointers_apart :
    (jobs : List Job) (set_name : Bytes) {p : Pool} (name other : Bytes) (ptr : ℕ)
    → Reach (new_worker_pool (new_state jobs set_name)) p
    → lookup name p.index ≡ some ptr
    → lookup other p.index ≡ some ptr
    → name ≡ other
pointers_apart jobs set_name name other ptr r e f =
    let v = reached-Inv jobs set_name r in
    let (w, at, named) = v.points name ptr e in let (w', at', named') = v.points other ptr f in cc

-- A reachable pool accepts every new size: `UpdateExpectedSize` does not panic.
pub reached_resizes :
    (jobs : List Job) (set_name : Bytes) {p : Pool} (new_size : ℕ)
    → Reach (new_worker_pool (new_state jobs set_name)) p
    → (q : Pool) × (update_expected_size p new_size ≡ some q) × (q.expected_size ≡ new_size)
reached_resizes jobs set_name {p} new_size r =
    let v = reached-Inv jobs set_name r in
    let num = IsNumbered-of_Assigned p.state p.expected_size v.assigned in
    let (q, e, outcome) = update_expected_size-IsResized p new_size num in
    (
      q,
      e,
      elim outcome [
        | inl (same, kept) ↦ ap (λ (x : Pool). x.expected_size) kept ∙ same
        | inr (_, z) ↦ z.size_set
      ],
    )
