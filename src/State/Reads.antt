-- ===== src/State/Reads.antt =====
-- What the state shows after `BalanceWorkload`.
use k8s_swarm.Prelude.{
  ℕ, ◌+◌, none, some, true, false, ◌≡◌, ◌⊎◌, inl, inr, ap, subst, ◌∙◌, arith, lookup, get_elem?,
  get_elem?-none, ltb, if◌then◌else◌, Bool-cases,
}
use k8s_swarm.State.{State, worker_name, balance_workload, workload, size}
use k8s_swarm.State.Labels.{label, length-label, lookup-label}
use k8s_swarm.State.Shares.{share, shares, length-shares, get_elem?-shares}
use k8s_swarm.State.Balance.{IsNumbered, balanced, balanced_of_balance_workload}

-- What the state `s'` shows of an assignment to `t` workers.
pub record Reads (s s' : State) (t : ℕ) : Type 0 where
  pub one_each : size s' ≡ t
  pub shared :
      (i : ℕ)
      → workload s' i
        ≡ (if ltb i t then some (record { jobs = share s.jobs t i; version = 0 }) else none)

balanced-workload :
    (s : State) (t version i : ℕ)
    → workload (balanced s t version) i ≡ get_elem? (shares s.jobs t t 0) i
unfolding workload
balanced-workload s t version i =
    ap (λ j. lookup (worker_name s.set_name j) (label s.set_name 0 (shares s.jobs t t 0))) {x = i}
      {y = 0 + i} (omega arith)
    ∙ lookup-label s.set_name 0 i (shares s.jobs t t 0)

balanced-Reads : (s : State) (t version : ℕ) → Reads s (balanced s t version) t
unfolding size
balanced-Reads s t version = record {
  one_each = length-label s.set_name 0 (shares s.jobs t t 0) ∙ length-shares s.jobs t t 0;
  shared = λ i. balanced-workload s t version i ∙ read i (Bool-cases (ltb i t));
}
  where
    read :
        (i : ℕ)
        → (ltb i t ≡ true) ⊎ (ltb i t ≡ false)
        → get_elem? (shares s.jobs t t 0) i
          ≡ (if ltb i t then some (record { jobs = share s.jobs t i; version = 0 }) else none)
    read i (inl below) = rw below (
        get_elem?-shares s.jobs t t 0 i (ground arith)
        ∙ ap (λ j. some (record { jobs = share s.jobs t j; version = 0 })) (omega arith))
    read i (inr beyond) =
        rw beyond
          (get_elem?-none (shares s.jobs t t 0) i (ground (arith, length-shares s.jobs t t 0)))

-- After a call the state has one entry for each worker: `size` is t, and `Workload(i)` is the share of
-- worker i for i below t and an error from t on.
pub balance_workload-Reads :
    (s : State) (t version : ℕ) {s' : State}
    → IsNumbered s
    → balance_workload s t version ≡ some s'
    → Reads s s' t
balance_workload-Reads s t version {s'} num h =
    subst (λ x. Reads s x t) (balanced_of_balance_workload s t version num h)
      (balanced-Reads s t version)
