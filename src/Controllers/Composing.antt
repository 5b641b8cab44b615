-- ===== src/Controllers/Composing.antt =====
-- What a call on the pool of pool.go sends out.
use k8s_swarm.Prelude.{
  ℕ, suc, ◌+◌, ◌≤◌, ◌%◌, ◌^◌, List, [], ◌∷◌, none, some, true, false, ◌≡◌, ◌⊎◌, inl, inr, refl, sym,
  ap, ◌∙◌, arith, Bytes, KeysUnique, length, get_elem?, ◌==◌, Bool-cases, Option-cases,
}
use k8s_swarm.Config.{Workload, Workloads}
use k8s_swarm.State.{State, balance_workload}
use k8s_swarm.State.Labels.{label, lookup-label_below}
use k8s_swarm.Pool.{
  Pool, update_expected_size, add_worker_if_not_exists, remove_worker_by_name, terminate,
  conciliate, request_restart,
}
use k8s_swarm.Pool.System.{Step, resize, join, leave, tick, restart, stop, Reach, here, next}
use k8s_swarm.Controllers.{sent_by}

-- From `p` to `q` nothing was sent out, and the assignment is the same, or the last that was sent out is
-- the assignment of `q`.
pub data Sends (p q : Pool) : Type 0 where
  nothing : q.published ≡ p.published → q.state ≡ p.state → Sends p q
  something :
      (older : List Workloads)
      → q.published ≡ q.state.config ∷ older
      → length p.published ≤ length older
      → Sends p q

Sends-trans : {p q r : Pool} → Sends p q → Sends q r → Sends p r
Sends-trans (nothing e f) (nothing g h) = nothing (g ∙ e) (h ∙ f)
Sends-trans (nothing e f) (something older g h) = something older g (omega (arith, ap length e))
Sends-trans (something older e f) (nothing g h) =
    something older (g ∙ e ∙ ap (λ (s : State). s.config ∷ older) (sym h)) f
Sends-trans (something older e f) (something newer g h) =
    something newer g (omega (arith, ap length e))

update_expected_size-Sends :
    (p : Pool) {q : Pool} (n : ℕ) → update_expected_size p n ≡ some q → Sends p q
unfolding update_expected_size
update_expected_size-Sends p {q} n e = elim (Bool-cases (p.expected_size == n)) [
  | inl known ↦ nothing (ground arith) (ground arith)
  | inr news ↦ elim (Option-cases (balance_workload p.state n ((p.version + 1) % 2 ^ 64))) [
    | inl bad ↦ absurd (ground arith)
    | inr (s, good) ↦ something p.published (ground arith) (omega arith)
  ]
]

Step-Sends : {p q : Pool} → Step p q → Sends p q
unfolding add_worker_if_not_exists remove_worker_by_name request_restart terminate conciliate
Step-Sends {p} (resize n e) = update_expected_size-Sends p n e
Step-Sends {p} (join idx name ip) = nothing (ground arith) (ground arith)
Step-Sends {p} (leave name) = nothing refl refl
Step-Sends {p} (tick running) = nothing (ground arith) (ground arith)
Step-Sends {p} (restart ptr true started) = nothing refl refl
Step-Sends {p} (restart ptr false started) = nothing refl refl
Step-Sends {p} (stop e) = nothing (ground arith) (ground arith)

pub Reach-Sends : {p q : Pool} → Reach p q → Sends p q
Reach-Sends here = nothing refl refl
Reach-Sends (next r st) = Sends-trans (Reach-Sends r) (Step-Sends st)

pub label-KeysUnique :
    (set_name : Bytes) (a : ℕ) (ws : List Workload) → KeysUnique (label set_name a ws)
unfolding label
label-KeysUnique set_name a [] = tt
label-KeysUnique set_name a (w ∷ ws) =
    (lookup-label_below set_name (suc a) a ws (omega arith), label-KeysUnique set_name (suc a) ws)

-- What is stored in the step of the call.
pub sent_by-Sends :
    (p q : Pool)
    → Sends p q
    → ((sent_by (some p) q ≡ none) × (q.state ≡ p.state))
      ⊎ (sent_by (some p) q ≡ some q.state.config)
unfolding sent_by
sent_by-Sends p q (nothing e f) = inl (ground (arith, ap length e), f)
sent_by-Sends p q (something older e f) =
    inr (ground (arith, ap length e, ap (λ l. get_elem? l 0) e))
