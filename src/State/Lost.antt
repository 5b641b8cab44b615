-- ===== src/State/Lost.antt =====
-- The assignment leaves the last job out whenever some workers get one job more than the others.
use native.Mathlib.Nat.{div-add-mod, mod-lt, mul-le-mul_right}
use k8s_swarm.Prelude.{
  ℕ, zero, suc, ◌+◌, ◌*◌, ◌/◌, ◌%◌, ◌≤◌, ◌<◌, List, [], ◌∷◌, ◌++◌, some, ◌≡◌, ◌↔◌, ◌⊎◌, inl, inr,
  refl, sym, subst, arith, Bytes, length, take, drop, length-append, ltb, Bool-cases,
}
use k8s_swarm.Config.{Job}
use k8s_swarm.Config.Sets.{Contains, here, there, Contains-cases}
use k8s_swarm.State.{State, worker_size, balance_workload}
use k8s_swarm.State.Labels.{label}
use k8s_swarm.State.Shares.{share, share_size, shares}
use k8s_swarm.State.Balance.{IsNumbered, balanced_of_balance_workload}
use k8s_swarm.State.Coverage.{all_jobs, all_jobs_complete}

Contains-append :
    {k : Job} (xs ys : List Job) → Contains k (xs ++ ys) → Contains k xs ⊎ Contains k ys
Contains-append [] ys c = inr c
Contains-append (x ∷ xs) ys c = elim (Contains-cases c) [
  | inl e ↦ inl (here e)
  | inr later ↦ elim (Contains-append xs ys later) [ inl d ↦ inl (there d) | inr d ↦ inr d ]
]

Contains-append_right : {k : Job} (xs ys : List Job) → Contains k ys → Contains k (xs ++ ys)
Contains-append_right [] ys c = c
Contains-append_right (x ∷ xs) ys c = there (Contains-append_right xs ys c)

-- A piece that ends before the last job is a piece of the jobs before it.
take-drop-before :
    (a s : ℕ) (before : List Job) (x k : Job)
    → s + a ≤ length before
    → Contains k (take a (drop s (before ++ x ∷ [])))
    → Contains k before
take-drop-before zero s before x k h c = elim c [ ]
take-drop-before (suc a) zero [] x k h c = absurd (omega arith)
take-drop-before (suc a) zero (b ∷ before) x k h c = elim (Contains-cases c) [
  | inl e ↦ here e
  | inr later ↦ there (take-drop-before a zero before x k (omega arith) later)
]
take-drop-before (suc a) (suc s) [] x k h c = absurd (omega arith)
take-drop-before (suc a) (suc s) (b ∷ before) x k h c =
    there (take-drop-before (suc a) s before x k (omega arith) c)

early_ends : (q r t i : ℕ) → 0 < q → i < r → r < t → (i + 1) * (q + 1) < t * q + r
early_ends q r t i pos h k = omega (
  arith,
  mul-le-mul_right {m = i + 1} {n = r} (q + 1) (omega arith),
  mul-le-mul_right {m = r + 1} {n = t} q (omega arith),
)

late_ends : (q r t i : ℕ) → 0 < r → i < t → (i + 1) * q < t * q + r
late_ends q r t i pos h = omega (arith, mul-le-mul_right {m = i + 1} {n = t} q (omega arith))

-- With extra jobs to give, every share ends before the last job.
share_ends : (n t i : ℕ) → 0 < n / t → 0 < n % t → i < t → (i + 1) * share_size n t i < n
unfolding worker_size
share_ends n t i some_each extra h =
    let whole = div-add-mod n t in
    let below = mod-lt n {m = t} (omega arith) in
    elim (Bool-cases (ltb i (n % t))) [
      | inl early ↦
          rw early
            (omega (arith, early_ends (n / t) (n % t) t i some_each (ground arith) below, whole))
      | inr late ↦ rw late (omega (arith, late_ends (n / t) (n % t) t i extra h, whole))
    ]

shares_miss :
    (set_name : Bytes) (before : List Job) (x : Job) (t rounds i a : ℕ)
    → let jobs = before ++ x ∷ [] in
      0 < length jobs / t
      → 0 < length jobs % t
      → i + rounds ≡ t
      → (k : Job) → Contains k (all_jobs (label set_name a (shares jobs t rounds i)))
      → Contains k before
unfolding label shares
shares_miss set_name before x t zero i a each extra h k c = elim c [ ]
shares_miss set_name before x t (suc rounds) i a each extra h k c =
    let jobs = before ++ x ∷ [] in
    let size = share_size (length jobs) t i in
    elim (Contains-append (share jobs t i)
      (all_jobs (label set_name (suc a) (shares jobs t rounds (suc i)))) c) [
        | inl now ↦
            take-drop-before size (i * size) before x k
              (omega (
                arith,
                share_ends (length jobs) t i each extra (omega arith),
                length-append before (x ∷ []),
              ))
              now
        | inr later ↦
            shares_miss set_name before x t rounds (suc i) (suc a) each extra (omega arith) k later
      ]

quotient_pos : (q r t n : ℕ) → t * q + r ≡ n → r < t → t ≤ n → 0 < q
quotient_pos zero r t n e h k = absurd (omega arith)
quotient_pos (suc q) r t n e h k = omega arith

-- If there are at least as many jobs as workers and the number of workers does not divide the number of
-- jobs, then a last job that occurs once in the list is assigned to no worker.
pub last_job_lost :
    (s : State) (t version : ℕ) (before : List Job) (x : Job) {s' : State}
    → s.jobs ≡ before ++ x ∷ []
    → ¬ Contains x before
    → 0 < t
    → t ≤ length s.jobs
    → 0 < length s.jobs % t
    → IsNumbered s
    → balance_workload s t version ≡ some s'
    → ¬ Contains x (all_jobs s'.config.workloads)
last_job_lost s t version before x {s'} split once pos many extra num h c =
    once
      (missed (omega (arith, quotient_pos (length s.jobs / t) _ t _ whole below many)) extra held)
  where
    whole : t * (length s.jobs / t) + length s.jobs % t ≡ length s.jobs
    whole = div-add-mod (length s.jobs) t

    below : length s.jobs % t < t
    below = mod-lt (length s.jobs) pos

    held : Contains x (all_jobs (label s.set_name 0 (shares s.jobs t t 0)))
    held =
        subst {A = State} (λ y. Contains x (all_jobs y.config.workloads))
          (sym (balanced_of_balance_workload s t version num h)) c

    missed :
        0 < length s.jobs / t
        → 0 < length s.jobs % t
        → Contains x (all_jobs (label s.set_name 0 (shares s.jobs t t 0)))
        → Contains x before
    missed =
        subst
          (λ jobs.
            0 < length jobs / t
            → 0 < length jobs % t
            → Contains x (all_jobs (label s.set_name 0 (shares jobs t t 0)))
            → Contains x before)
          (sym split)
          (λ each more. shares_miss s.set_name before x t t 0 0 each more (omega arith) x)

-- Whether each job is assigned, when the last one occurs once: exactly if the number of workers divides
-- the number of jobs or there are fewer jobs than workers.
pub all_assigned_iff :
    (s : State) (t version : ℕ) (before : List Job) (x : Job) {s' : State}
    → s.jobs ≡ before ++ x ∷ []
    → ¬ Contains x before
    → 0 < t
    → IsNumbered s
    → balance_workload s t version ≡ some s'
    → ((k : Job) → Contains k s.jobs → Contains k (all_jobs s'.config.workloads))
      ↔ ((length s.jobs < t) ⊎ (length s.jobs % t ≡ 0))
all_assigned_iff s t version before x {s'} split once pos num h = (sound, complete)
  where
    last_in : Contains x s.jobs
    last_in = rw split (Contains-append_right before (x ∷ []) (here refl))

    sound :
        ((k : Job) → Contains k s.jobs → Contains k (all_jobs s'.config.workloads))
        → (length s.jobs < t) ⊎ (length s.jobs % t ≡ 0)
    sound all = elim (Bool-cases (ltb (length s.jobs) t)) [
      | inl few ↦ inl (ground arith)
      | inr many ↦ elim (Bool-cases (ltb 0 (length s.jobs % t))) [
        | inl extra ↦ absurd (
            last_job_lost s t version before x split once pos (ground arith) (ground arith) num h
              (all x last_in))
        | inr even ↦ inr (ground arith)
      ]
    ]

    complete :
        (length s.jobs < t) ⊎ (length s.jobs % t ≡ 0)
        → (k : Job) → Contains k s.jobs
        → Contains k (all_jobs s'.config.workloads)
    complete even k c = rw (all_jobs_complete s t version pos even num h) c
