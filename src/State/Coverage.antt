-- ===== src/State/Coverage.antt =====
-- Which jobs the assignment reaches.
use native.Mathlib.Nat.{div-add-mod, mod-lt, div-eq_of_lt}
use k8s_swarm.Prelude.{
  ℕ, zero, suc, ◌+◌, ◌*◌, ◌/◌, ◌%◌, ◌<◌, min, List, [], ◌∷◌, ◌++◌, some, ◌≡◌, ◌⊎◌, inl, inr, sym,
  ap, subst, ◌∙◌, arith, Bytes, Dict, length, take, drop, length-append, drop_all, take-drop-append,
  ltb, Bool-cases,
}
use k8s_swarm.Config.{Job, Workload}
use k8s_swarm.State.{State, worker_size, balance_workload}
use k8s_swarm.State.Labels.{label}
use k8s_swarm.State.Shares.{share, share_size, shares, length-share}
use k8s_swarm.State.Balance.{IsNumbered, balanced_of_balance_workload}

-- The jobs of all workers, worker after worker.
abbrev pub all_jobs : Dict Workload → List Job
all_jobs [] = []
all_jobs ((k, w) ∷ m) = w.jobs ++ all_jobs m

-- Where worker i's share would start if the shares lay side by side.
abbrev side_by_side : ℕ → ℕ → ℕ → ℕ
side_by_side n t i = i * (n / t) + min i (n % t)

next_start : (n t i : ℕ) → side_by_side n t i + share_size n t i ≡ side_by_side n t (suc i)
unfolding worker_size
next_start n t i = ground arith

last_start : (n t : ℕ) → 0 < t → side_by_side n t t ≡ n
last_start n t h = omega (arith, div-add-mod n t, mod-lt n {m = t} h)

length-all_jobs-shares :
    (set_name : Bytes) (jobs : List Job) (t rounds i a : ℕ)
    → 0 < t
    → i + rounds ≡ t
    → side_by_side (length jobs) t i + length (all_jobs (label set_name a (shares jobs t rounds i)))
      ≡ length jobs
unfolding label shares
length-all_jobs-shares set_name jobs t zero i a pos h = omega (
  arith,
  last_start (length jobs) t pos,
  ap (side_by_side (length jobs) t) {x = i} {y = t} (omega arith),
)
length-all_jobs-shares set_name jobs t (suc rounds) i a pos h =
    let rest = all_jobs (label set_name (suc a) (shares jobs t rounds (suc i))) in
    omega (
      arith,
      length-append (share jobs t i) rest,
      length-share jobs t i (omega arith),
      next_start (length jobs) t i,
      length-all_jobs-shares set_name jobs t rounds (suc i) (suc a) pos (omega arith),
    )

-- With one worker at least, as many jobs are handed out as there are, counted over all workers.
pub length-all_jobs :
    (s : State) (t version : ℕ) {s' : State}
    → 0 < t
    → IsNumbered s
    → balance_workload s t version ≡ some s'
    → length (all_jobs s'.config.workloads) ≡ length s.jobs
length-all_jobs s t version {s'} pos num h =
    subst {A = State} (λ x. length (all_jobs x.config.workloads) ≡ length s.jobs)
      (balanced_of_balance_workload s t version num h)
      (omega (arith, length-all_jobs-shares s.set_name s.jobs t t 0 0 pos (omega arith)))

few_no_gap : (r i : ℕ) → (worker_size 0 r i ≡ 0) ⊎ (i * worker_size 0 r i ≡ i * 0 + min i r)
unfolding worker_size
few_no_gap r i = elim (Bool-cases (ltb i r)) [
  | inl early ↦ inr (ground arith)
  | inr late ↦ inl (ground arith)
]

even_no_gap : (q i : ℕ) → i * worker_size q 0 i ≡ i * q + min i 0
unfolding worker_size
even_no_gap q i = ground arith

-- If there are fewer jobs than workers, or no worker gets an extra job, then a share that is not empty
-- starts where the shares before it end.
no_gap :
    (q r i : ℕ)
    → (q ≡ 0) ⊎ (r ≡ 0)
    → (worker_size q r i ≡ 0) ⊎ (i * worker_size q r i ≡ i * q + min i r)
no_gap q r i (inl e) = rw e (few_no_gap r i)
no_gap q r i (inr e) = rw e (inr (even_no_gap q i))

share-append :
    (jobs : List Job) (t i : ℕ)
    → (length jobs / t ≡ 0) ⊎ (length jobs % t ≡ 0)
    → share jobs t i ++ drop (side_by_side (length jobs) t (suc i)) jobs
      ≡ drop (side_by_side (length jobs) t i) jobs
share-append jobs t i even =
    let size = share_size (length jobs) t i in
    let next = next_start (length jobs) t i in
    elim (no_gap (length jobs / t) (length jobs % t) i even) [
      | inl nothing ↦
          ap
            (λ k. take k (drop (i * size) jobs) ++ drop (side_by_side (length jobs) t (suc i)) jobs)
            nothing
          ∙ ap (λ k. drop k jobs) (omega arith)
      | inr adjacent ↦
          ap (λ k. share jobs t i ++ drop k jobs) {x = side_by_side (length jobs) t (suc i)}
            {y = i * size + size} (omega arith)
          ∙ take-drop-append size (i * size) jobs
          ∙ ap (λ k. drop k jobs) adjacent
    ]

all_jobs-shares :
    (set_name : Bytes) (jobs : List Job) (t rounds i a : ℕ)
    → 0 < t
    → (length jobs / t ≡ 0) ⊎ (length jobs % t ≡ 0)
    → i + rounds ≡ t
    → all_jobs (label set_name a (shares jobs t rounds i))
      ≡ drop (side_by_side (length jobs) t i) jobs
unfolding label shares
all_jobs-shares set_name jobs t zero i a pos even h = sym (
    drop_all _ jobs (
      omega (
        arith,
        last_start (length jobs) t pos,
        ap (side_by_side (length jobs) t) {x = i} {y = t} (omega arith),
      )))
all_jobs-shares set_name jobs t (suc rounds) i a pos even h =
    ap (◌++◌ (share jobs t i))
      (all_jobs-shares set_name jobs t rounds (suc i) (suc a) pos even (omega arith))
    ∙ share-append jobs t i even

-- If the number of workers divides the number of jobs, or there are fewer jobs than workers, then the
-- shares laid end to end are the job list: each job is assigned once, and in order.
pub all_jobs_complete :
    (s : State) (t version : ℕ) {s' : State}
    → 0 < t
    → (length s.jobs < t) ⊎ (length s.jobs % t ≡ 0)
    → IsNumbered s
    → balance_workload s t version ≡ some s'
    → all_jobs s'.config.workloads ≡ s.jobs
all_jobs_complete s t version {s'} pos even num h =
    subst {A = State} (λ x. all_jobs x.config.workloads ≡ s.jobs)
      (balanced_of_balance_workload s t version num h)
      (all_jobs-shares s.set_name s.jobs t t 0 0 pos few (omega arith)
        ∙ ap (λ k. drop k s.jobs) {x = side_by_side (length s.jobs) t 0} {y = 0} (omega arith))
  where
    few : (length s.jobs / t ≡ 0) ⊎ (length s.jobs % t ≡ 0)
    few = elim even [ inl h ↦ inl (div-eq_of_lt h) | inr e ↦ inr e ]
