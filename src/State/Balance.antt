-- ===== src/State/Balance.antt =====
-- `BalanceWorkload` against its specification: the map holds the shares of workers 0 to
-- `totalWorkers - 1`, and nothing else, whatever it held before.
use mathlib.Core.List.{append-nil, append_assoc}
use k8s_swarm.Prelude.{
  ℕ, zero, suc, ◌+◌, ◌-◌, ◌/◌, ◌%◌, ◌<◌, List, [], ◌∷◌, ◌++◌, Option, some, false, ◌≡◌, inl, inr,
  refl, sym, ap, ◌∙◌, arith, Bytes, Dict, lookup, insert, length, drop, length-append,
  drop-drop_one, nil_of_length, ltb, ◌==◌, if◌then◌else◌, ◌>>=◌, Bool-cases, Option-cases,
}
use k8s_swarm.Config.{Job, Workload}
use k8s_swarm.State.{
  State, new_state, worker_name, assign_worker, assign_workers, delete_workers, clean_assignations,
  balance_workload,
}
use k8s_swarm.State.Labels.{label, length-label, insert-label, delete_workers-append}
use k8s_swarm.State.Shares.{share, shares, length-shares, slice-share}

-- The map's workers are numbered from 0 without a gap.
pub record IsNumbered (s : State) : Type 0 where
  pub entries : List Workload
  pub numbered : s.config.workloads ≡ label s.set_name 0 entries

-- What the state shall be once the jobs are shared out. With no worker the version stays.
abbrev pub balanced : State → ℕ → ℕ → State
balanced s t version = record s {
  config = record {
    workloads = label s.set_name 0 (shares s.jobs t t 0);
    version = if t == 0 then s.config.version else version;
  };
}

module _ (s : State) (t : ℕ) where
  abbrev part_size : ℕ
  part_size = length s.jobs / t

  abbrev module_part_size : ℕ
  module_part_size = length s.jobs % t

  abbrev given : ℕ → Workload
  given i = record { jobs = share s.jobs t i; version = 0 }

  assign_worker-label :
      (done rest : List Workload)
      → length done < t
      → assign_worker s part_size module_part_size (length done) (label s.set_name 0 (done ++ rest))
        ≡ some (label s.set_name 0 (done ++ given (length done) ∷ drop 1 rest))
  unfolding assign_worker
  assign_worker-label done rest h =
      rw (slice-share s.jobs t (length done) h)
        (elim (Option-cases
          (lookup (worker_name s.set_name (length done)) (label s.set_name 0 (done ++ rest)))) [
            | inl absent ↦ rw absent (
                ap some (
                  ap (insert (worker_name s.set_name (length done)) (given (length done)))
                    (insert-label s.set_name 0 (length done) done rest blank (omega arith))
                  ∙ insert-label s.set_name 0 (length done) done (blank ∷ drop 1 rest)
                      (given (length done)) (omega arith)))
            | inr (w, present) ↦ rw present (
                ap some (
                  insert-label s.set_name 0 (length done) done rest (given (length done))
                    (omega arith)))
          ])
    where
      blank : Workload
      blank = record { jobs = []; version = 0 }

  -- The loop from worker `length done` on.
  assign_workers-label :
      (rounds i : ℕ) (done rest : List Workload)
      → i ≡ length done
      → i + rounds ≡ t
      → assign_workers s part_size module_part_size rounds i (label s.set_name 0 (done ++ rest))
        ≡ some (label s.set_name 0 (done ++ shares s.jobs t rounds i ++ drop rounds rest))
  unfolding assign_workers shares
  assign_workers-label zero i done rest e h = rw (append-nil done)
  assign_workers-label (suc rounds) i done rest e h =
      rw (e, assign_worker-label done rest (omega arith))
        (ap
            (λ ws.
              assign_workers s part_size module_part_size rounds (suc (length done))
                (label s.set_name 0 ws))
            (sym (append_assoc done (given (length done) ∷ []) (drop 1 rest)))
          ∙ assign_workers-label rounds (suc (length done)) (done ++ given (length done) ∷ [])
              (drop 1 rest) (omega (arith, length-append done (given (length done) ∷ [])))
              (omega arith)
          ∙ ap (λ ws. some (label s.set_name 0 ws)) regroup)
    where
      regroup :
          ((done ++ given (length done) ∷ []) ++ shares s.jobs t rounds (suc (length done)))
            ++ drop rounds (drop 1 rest)
          ≡ (done ++ given (length done) ∷ shares s.jobs t rounds (suc (length done)))
            ++ drop (suc rounds) rest
      regroup = simp (append_assoc, drop-drop_one)

-- What `cleanAssignations` computes from a map of `kept ++ rest`, when `kept` shall stay.
clean-label :
    (set_name : Bytes) (n : ℕ) (kept rest : List Workload)
    → n ≡ length kept
    → let m = label set_name 0 (kept ++ rest) in
      delete_workers set_name (length m - n) n m ≡ label set_name 0 kept
clean-label set_name n kept rest e =
    rw (e, length-label set_name 0 (kept ++ rest), rounds)
      (delete_workers-append set_name kept rest)
  where
    rounds : length (kept ++ rest) - length kept ≡ length rest
    rounds = omega (arith, length-append kept rest)

-- The state once the loop has run: the workers behind `t` are deleted if there are any.
settled : State → ℕ → ℕ → Dict Workload → State
settled s t version workloads =
    let b : State = record s { config = record { workloads = workloads; version = version } } in
    if ltb t (length workloads) then clean_assignations b t else b

settled-label :
    (s : State) (t version : ℕ) (kept rest : List Workload)
    → t ≡ length kept
    → settled s t version (label s.set_name 0 (kept ++ rest))
      ≡ record s { config = record { workloads = label s.set_name 0 kept; version = version } }
unfolding settled clean_assignations
settled-label s t version kept rest e =
    elim (Bool-cases (ltb t (length (label s.set_name 0 (kept ++ rest))))) [
      | inl more ↦ rw more (
          ap (λ m. record s { config = record { workloads = m; version = version } })
            (clean-label s.set_name t kept rest e))
      | inr none_left ↦ rw none_left (
          ap
            (λ r. record s {
              config = record { workloads = label s.set_name 0 r; version = version };
            })
            (ap (◌++◌ kept) (nil_of_length rest (ground (arith, label_length))) ∙ append-nil kept))
    ]
  where
    label_length : length (label s.set_name 0 (kept ++ rest)) ≡ t + length rest
    label_length = omega (arith, length-label s.set_name 0 (kept ++ rest), length-append kept rest)

-- From a state whose workers are numbered, `BalanceWorkload` returns with no panic and leaves exactly
-- the shares of the workers 0 to t - 1 under their names, whatever the map held before; the version is
-- the one given, but with no workers the old one.
pub balance_workload-balanced :
    (s : State) (t version : ℕ)
    → IsNumbered s
    → balance_workload s t version ≡ some (balanced s t version)
unfolding balance_workload clean_assignations settled shares
balance_workload-balanced s zero version num =
    ap (λ m. some (record s { config = record { workloads = m; version = s.config.version } }))
      (ap (λ m. delete_workers s.set_name (length m - 0) 0 m) num.numbered
        ∙ clean-label s.set_name 0 [] num.entries refl)
balance_workload-balanced s (suc t) version num = rw more_than_none (
    rw loop (
      ap some (
        settled-label s (suc t) version (shares s.jobs (suc t) (suc t) 0) (drop (suc t) num.entries)
          (sym (length-shares s.jobs (suc t) (suc t) 0)))))
  where
    more_than_none : (suc t == 0) ≡ false
    more_than_none = ground arith

    loop :
        assign_workers s
          (part_size s (suc t))
          (module_part_size s (suc t))
          (suc t)
          0
          s.config.workloads
        ≡ some (label s.set_name 0 (shares s.jobs (suc t) (suc t) 0 ++ drop (suc t) num.entries))
    loop =
        ap (assign_workers s (part_size s (suc t)) (module_part_size s (suc t)) (suc t) 0)
          num.numbered
        ∙ assign_workers-label s (suc t) (suc t) 0 [] num.entries refl (omega arith)

pub balanced_of_balance_workload :
    (s : State) (t version : ℕ) {s' : State}
    → IsNumbered s
    → balance_workload s t version ≡ some s'
    → balanced s t version ≡ s'
balanced_of_balance_workload s t version num h = cc (balance_workload-balanced s t version num)

pub new_state-IsNumbered :
    (jobs : List Job) (set_name : Bytes) → IsNumbered (new_state jobs set_name)
unfolding new_state label
new_state-IsNumbered jobs set_name = record { entries = []; numbered = refl }

pub balanced-IsNumbered : (s : State) (t version : ℕ) → IsNumbered (balanced s t version)
balanced-IsNumbered s t version = record { entries = shares s.jobs t t 0; numbered = refl }

-- Several calls one after the other, each with its count of workers and its version.
unfoldable pub run_balances : State → List (ℕ × ℕ) → Option State
run_balances s [] = some s
run_balances s ((t, version) ∷ calls) =
    balance_workload s t version >>= λ next. run_balances next calls

run_balances-append :
    (s : State) (calls : List (ℕ × ℕ)) (t version : ℕ)
    → IsNumbered s
    → run_balances s (calls ++ (suc t, version) ∷ []) ≡ some (balanced s (suc t) version)
unfolding run_balances
run_balances-append s [] t version num = rw (balance_workload-balanced s (suc t) version num)
run_balances-append s ((u, v) ∷ calls) t version num = rw (balance_workload-balanced s u v num) (
    run_balances-append (balanced s u v) calls t version (balanced-IsNumbered s u v)
    ∙ ap some (ground arith))

-- The assignment is deterministic: after any calls on a new state, a call with at least one worker
-- leaves the state that this call alone leaves, so scaling up and down and back again gives the same
-- assignment.
pub run_balances_deterministic :
    (jobs : List Job) (set_name : Bytes) (calls : List (ℕ × ℕ)) (t version : ℕ)
    → run_balances (new_state jobs set_name) (calls ++ (suc t, version) ∷ [])
      ≡ balance_workload (new_state jobs set_name) (suc t) version
run_balances_deterministic jobs set_name calls t version =
    let num = new_state-IsNumbered jobs set_name in
    run_balances-append (new_state jobs set_name) calls t version num
    ∙ sym (balance_workload-balanced (new_state jobs set_name) (suc t) version num)
