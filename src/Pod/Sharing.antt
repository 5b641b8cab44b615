-- ===== src/Pod/Sharing.antt =====
-- What the controller has sent out for a pod.
use k8s_swarm.Prelude.{
  ℕ, ◌+◌, ◌<◌, List, ◌∷◌, some, ◌≡◌, ◌⊎◌, inl, inr, ap, ◌∙◌, arith, Bytes, Dict, lookup,
}
use k8s_swarm.Config.{Job, Workload, Workloads}
use k8s_swarm.State.{new_state, worker_name}
use k8s_swarm.State.Labels.{label, lookup-label}
use k8s_swarm.State.Shares.{share, shares, get_elem?-shares}
use k8s_swarm.Pool.{Pool, new_worker_pool}
use k8s_swarm.Pool.Invariant.{Inv}
use k8s_swarm.Pod.Steps.{Run, Run-Inv}

lookup-shares :
    (jobs : List Job) (set_name : Bytes) (size i : ℕ)
    → i < size
    → lookup (worker_name set_name i) (label set_name 0 (shares jobs size size 0))
      ≡ some (record { jobs = share jobs size i; version = 0 })
lookup-shares jobs set_name size i h =
    ap (λ j. lookup (worker_name set_name j) (label set_name 0 (shares jobs size size 0))) {x = i}
      {y = 0 + i} (omega arith)
    ∙ lookup-label set_name 0 i (shares jobs size size 0)
    ∙ get_elem?-shares jobs size size 0 i h
    ∙ ap (λ j. some (record { jobs = share jobs size j; version = 0 })) (omega arith)

-- What was sent out last, as far as it concerns worker `i`.
pub record IsSent (jobs : List Job) (set_name : Bytes) (p : Pool) (i : ℕ) : Type 0 where
  pub sent : Workloads
  pub older : List Workloads
  pub sent_last : p.published ≡ sent ∷ older
  pub versioned : sent.version ≡ p.version
  pub shared :
      lookup (worker_name set_name i) sent.workloads
      ≡ some (record { jobs = share jobs p.expected_size i; version = 0 })

pub IsSent-of_Inv :
    (jobs : List Job) (set_name : Bytes) (p : Pool) (i : ℕ)
    → Inv (new_state jobs set_name) p
    → i < p.expected_size
    → IsSent jobs set_name p i
unfolding new_state
IsSent-of_Inv jobs set_name p i v h = elim v.announced [
  | inl (none_sent, empty) ↦ absurd (omega (arith, empty))
  | inr (older, last) ↦ record {
    sent = p.state.config;
    older = older;
    sent_last = last;
    versioned = current v.current;
    shared =
        ap (λ (m : Dict Workload). lookup (worker_name set_name i) m) entries
        ∙ lookup-shares jobs set_name p.expected_size i h;
  }
]
  where
    current :
        (p.expected_size ≡ 0) ⊎ (p.state.config.version ≡ p.version)
        → p.state.config.version ≡ p.version
    current (inl empty) = absurd (omega (arith, empty))
    current (inr same) = same

    entries :
        p.state.config.workloads ≡ label set_name 0 (shares jobs p.expected_size p.expected_size 0)
    entries =
        v.assigned
        ∙ ap (λ js. label p.state.set_name 0 (shares js p.expected_size p.expected_size 0))
            v.same_jobs.0
        ∙ ap (λ n. label n 0 (shares jobs p.expected_size p.expected_size 0)) v.same_jobs.1

-- After any run of the handlers and the pool: for each worker below the expected size, the assignment
-- that was sent out last has the pool's version, and has under that worker's name its share of the jobs
-- that the controller was started with, counted for the expected size.
pub share-IsSent :
    (parse_ip : Bytes → Bytes) (jobs : List Job) (set_name : Bytes) {p : Pool} (i : ℕ)
    → Run parse_ip (new_worker_pool (new_state jobs set_name)) p
    → i < p.expected_size
    → IsSent jobs set_name p i
share-IsSent parse_ip jobs set_name {p} i r h =
    IsSent-of_Inv jobs set_name p i (Run-Inv parse_ip jobs set_name r) h
