-- ===== src/Pool/Resize.antt =====
-- `UpdateExpectedSize`: what a new size does to the pool.
use mathlib.Core.Option
use mathlib.Core.List.{Permᴰ}
use Prim.Native.Nat.{min}
use native.Mathlib.Decide.{ℕ_discrete}
use k8s_swarm.Prelude.{
  ℕ, List, ◌+◌, ◌%◌, ◌^◌, ◌∷◌, some, true, false, ◌≡◌, ◌≢◌, refl, arith, ap, ◌⊎◌, inl, inr,
  get_elem?, length, ◌==◌, if◌then◌else◌, Bool-cases,
}
use k8s_swarm.State.Balance.{IsNumbered, balanced, balance_workload-balanced}
use k8s_swarm.Worker.{Worker, needs_refresh, mark_to_refresh}
use k8s_swarm.Pool.{Pool, get_all_workers, total_to_refresh, mark_first, update_expected_size}
use k8s_swarm.Pool.Sorting.{IsSorted}
use k8s_swarm.Pool.Members.{members, get_all_workers-members}
use k8s_swarm.Pool.Marks.{among, get_elem?-mark_first}

-- How many of `known` workers keep their place when the size changes: none on the first size.
abbrev pub survivors : (old_size new_size known : ℕ) → ℕ
survivors old_size new_size known = if old_size == 0 then 0 else min (min old_size new_size) known

pub record IsResized (p : Pool) (new_size : ℕ) (q : Pool) : Type 0 where
  pub size_set : q.expected_size ≡ new_size
  pub version_bumped : q.version ≡ (p.version + 1) % 2 ^ 64
  pub varies : q.under_variation ≡ true
  pub shared_out : q.state ≡ balanced p.state new_size q.version
  pub announced : q.published ≡ q.state.config ∷ p.published
  pub in_order : List (ℕ × Worker)
  pub of_members : Permᴰ in_order (members p.heap p.index)
  pub by_index : IsSorted in_order
  pub marked :
      (j : ℕ)
      → get_elem? q.heap j ≡ (
          if among (survivors p.expected_size new_size (length in_order)) in_order j
          then Option.map (λ (w : Worker). record w { state = needs_refresh }) (get_elem? p.heap j)
          else get_elem? p.heap j)
  pub members_kept : q.index ≡ p.index
  pub restarts_kept : q.restarting ≡ p.restarting
  pub running_kept : q.stopped ≡ p.stopped

-- The pool once the jobs are shared out and before the workers are marked.
abbrev shared_pool : Pool → ℕ → Pool
shared_pool p new_size = record p {
  expected_size = new_size;
  under_variation = true;
  version = (p.version + 1) % 2 ^ 64;
  state = balanced p.state new_size ((p.version + 1) % 2 ^ 64);
  published = (balanced p.state new_size ((p.version + 1) % 2 ^ 64)).config ∷ p.published;
}

abbrev resized : Pool → ℕ → Pool
resized p new_size = record (shared_pool p new_size) {
  heap =
      mark_first (survivors p.expected_size new_size (length (get_all_workers p)))
        (get_all_workers p) p.heap;
}

total_to_refresh-min :
    (previous_size new_size known : ℕ)
    → total_to_refresh previous_size new_size known ≡ min (min previous_size new_size) known
unfolding total_to_refresh
total_to_refresh-min previous_size new_size known = ground arith

update_expected_size-resized :
    (p : Pool) (new_size : ℕ)
    → IsNumbered p.state
    → p.expected_size ≢ new_size
    → update_expected_size p new_size ≡ some (resized p new_size)
unfolding update_expected_size get_all_workers mark_first
update_expected_size-resized p new_size num other =
    let differs : (p.expected_size == new_size) ≡ false = ground arith in
    rw (differs, balance_workload-balanced p.state new_size ((p.version + 1) % 2 ^ 64) num)
      (elim (Bool-cases (p.expected_size == 0)) [
        | inl first ↦ rw first
        | inr later ↦ rw later (
            ap
              (λ k. some (record (shared_pool p new_size) {
                heap = mark_first k (get_all_workers p) p.heap;
              }))
              (total_to_refresh-min p.expected_size new_size (length (get_all_workers p))))
      ])

resized-IsResized : (p : Pool) (new_size : ℕ) → IsResized p new_size (resized p new_size)
unfolding mark_to_refresh
resized-IsResized p new_size = record {
  size_set = refl;
  version_bumped = refl;
  varies = refl;
  shared_out = refl;
  announced = refl;
  in_order = get_all_workers p;
  of_members = (get_all_workers-members p).1;
  by_index = (get_all_workers-members p).0;
  marked =
      get_elem?-mark_first (survivors p.expected_size new_size (length (get_all_workers p)))
        (get_all_workers p) p.heap;
  members_kept = refl;
  restarts_kept = refl;
  running_kept = refl;
}

pub update_expected_size_total :
    (p : Pool) (new_size : ℕ)
    → IsNumbered p.state
    → p.expected_size ≢ new_size
    → (q : Pool) × (update_expected_size p new_size ≡ some q) × IsResized p new_size q
update_expected_size_total p new_size num other = (
  resized p new_size,
  update_expected_size-resized p new_size num other,
  resized-IsResized p new_size,
)

-- On every branch: a size that is no news changes nothing, and any other size resizes the pool, with no
-- panic. The version goes up by one, the jobs are shared out among the new number of workers, the
-- result is sent to the delegate, and of the workers that the index points to, in an order of rising
-- indices, the first min(old size, new size) are marked to refresh (as many as there are), none if the old
-- size was 0; no other worker, nor the index, nor a pending restart changes.
pub update_expected_size-IsResized :
    (p : Pool) (new_size : ℕ)
    → IsNumbered p.state
    → (q : Pool) × (update_expected_size p new_size ≡ some q)
      × (((p.expected_size ≡ new_size) × (q ≡ p))
          ⊎ ((p.expected_size ≢ new_size) × IsResized p new_size q))
unfolding update_expected_size
update_expected_size-IsResized p new_size num = elim (ℕ_discrete p.expected_size new_size) [
  | yes same ↦
      let known : (p.expected_size == new_size) ≡ true = ground arith in
      (p, rw known refl, inl (same, refl))
  | no other ↦
      let (q, e, r) = update_expected_size_total p new_size num other in (q, e, inr (other, r))
]
