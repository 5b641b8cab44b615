-- ===== src/Examples/State.antt =====
-- The assignment of five jobs to three workers, of four to two, and of one to three.
use k8s_swarm.Prelude.{
  ◌<◌, ◌%◌, List, [], ◌∷◌, ◌++◌, some, ◌≡◌, ◌↔◌, ◌⊎◌, inl, inr, refl, arith, codes, length, ◌>>=◌,
}
use k8s_swarm.Config.{Job}
use k8s_swarm.Config.Sets.{Contains, Contains-cases}
use k8s_swarm.State.{State, new_state, balance_workload, workload}
use k8s_swarm.State.Balance.{
  IsNumbered, balanced, new_state-IsNumbered, balance_workload-balanced, run_balances,
  run_balances_deterministic,
}
use k8s_swarm.State.Reads.{Reads, balance_workload-Reads}
use k8s_swarm.State.Coverage.{all_jobs, length-all_jobs, all_jobs_complete}
use k8s_swarm.State.Lost.{last_job_lost, all_assigned_iff}

abbrev four : List Job
four = codes "a" ∷ codes "b" ∷ codes "c" ∷ codes "d" ∷ []

abbrev last : Job
last = codes "e"

abbrev five : State
five = new_state (four ++ last ∷ []) (codes "w")

abbrev even : State
even = new_state four (codes "w")

five-IsNumbered : IsNumbered five
five-IsNumbered = new_state-IsNumbered (four ++ last ∷ []) (codes "w")

even-IsNumbered : IsNumbered even
even-IsNumbered = new_state-IsNumbered four (codes "w")

not-Contains-four : ¬ Contains last four
not-Contains-four c = elim (Contains-cases c) [
  | inl e ↦ ground arith
  | inr c ↦ elim (Contains-cases c) [
    | inl e ↦ ground arith
    | inr c ↦ elim (Contains-cases c) [
      | inl e ↦ ground arith
      | inr c ↦ elim (Contains-cases c) [ inl e ↦ ground arith | inr c ↦ elim c [ ] ]
    ]
  ]
]

-- Job c goes to two workers and job e to none.
five_on_three :
    balance_workload five 3 7
      >>= (λ s. workload s 1 >>= λ v. workload s 2 >>= λ w. some (v.jobs ∷ w.jobs ∷ []))
    ≡ some ((codes "c" ∷ codes "d" ∷ []) ∷ (codes "c" ∷ []) ∷ [])
unfolding new_state balance_workload workload k8s_swarm.State.assign_workers
    k8s_swarm.State.assign_worker k8s_swarm.State.slice k8s_swarm.State.worker_size
    k8s_swarm.State.worker_name k8s_swarm.Text.format
five_on_three = refl

balance_workload-balanced_example : balance_workload five 3 7 ≡ some (balanced five 3 7)
balance_workload-balanced_example = balance_workload-balanced five 3 7 five-IsNumbered

run_balances_deterministic_example :
    run_balances even ((3, 1) ∷ (1, 2) ∷ (2, 3) ∷ []) ≡ balance_workload even 2 3
run_balances_deterministic_example =
    run_balances_deterministic four (codes "w") ((3, 1) ∷ (1, 2) ∷ []) 1 3

balance_workload-Reads_example : Reads five (balanced five 3 7) 3
balance_workload-Reads_example =
    balance_workload-Reads five 3 7 five-IsNumbered
      (balance_workload-balanced five 3 7 five-IsNumbered)

length-all_jobs_example : length (all_jobs (balanced five 3 7).config.workloads) ≡ length five.jobs
length-all_jobs_example =
    length-all_jobs five 3 7 (omega arith) five-IsNumbered
      (balance_workload-balanced five 3 7 five-IsNumbered)

all_jobs_complete_example : all_jobs (balanced even 2 7).config.workloads ≡ even.jobs
unfolding new_state
all_jobs_complete_example =
    all_jobs_complete even 2 7 (omega arith) (inr refl) even-IsNumbered
      (balance_workload-balanced even 2 7 even-IsNumbered)

last_job_lost_example : ¬ Contains last (all_jobs (balanced five 3 7).config.workloads)
unfolding new_state
last_job_lost_example =
    last_job_lost five 3 7 four last refl not-Contains-four (omega arith) (omega arith)
      (omega arith) five-IsNumbered (balance_workload-balanced five 3 7 five-IsNumbered)

all_assigned_iff_example :
    ((k : Job) → Contains k five.jobs → Contains k (all_jobs (balanced five 3 7).config.workloads))
    ↔ ((length five.jobs < 3) ⊎ (length five.jobs % 3 ≡ 0))
unfolding new_state
all_assigned_iff_example =
    all_assigned_iff five 3 7 four last refl not-Contains-four (omega arith) five-IsNumbered
      (balance_workload-balanced five 3 7 five-IsNumbered)
