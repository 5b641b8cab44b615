-- ===== src/Pool/Members.antt =====
-- The workers of the pool's index, apart from how geAllWorkers of
-- services/controller/internal/app/swarm/pool.go finds and sorts them.
use mathlib.Core.List.{Permᴰ}
use mathlib.Core.List.Permᴰ
use k8s_swarm.Prelude.{ℕ, List, [], ◌∷◌, none, some, ◌≡◌, refl, ap, ◌∙◌, subst, Dict, get_elem?}
use k8s_swarm.Worker.{
  Worker, WorkerState, needs_refresh, waiting_assignation, syncing, is_to_refresh,
}
use k8s_swarm.Pool.{Pool, collect, get_all_workers, to_restart}
use k8s_swarm.Pool.Sorting.{IsSorted}
use k8s_swarm.Pool.Order.{get_all_workers-IsSorted}

-- The worker that each entry of the index points to, once per entry.
abbrev pub members : List Worker → Dict ℕ → List (ℕ × Worker)
members heap [] = []
members heap ((name, ptr) ∷ index) = elim (get_elem? heap ptr) [
  | none ↦ members heap index
  | some w ↦ (ptr, w) ∷ members heap index
]

collect-members : (heap : List Worker) (index : Dict ℕ) → collect heap index ≡ members heap index
unfolding collect
collect-members heap [] = refl
collect-members heap ((name, ptr) ∷ index) =
    ap (λ ws. elim (get_elem? heap ptr) [ none ↦ ws | some w ↦ (ptr, w) ∷ ws ])
      (collect-members heap index)

-- `geAllWorkers` sorts the members by their indices.
pub get_all_workers-members :
    (p : Pool) → IsSorted (get_all_workers p) × Permᴰ (get_all_workers p) (members p.heap p.index)
get_all_workers-members p =
    let (sorted, same) = get_all_workers-IsSorted p in
    (sorted, subst (Permᴰ (get_all_workers p)) (collect-members p.heap p.index) same)

-- In front of the pointers, one more if the state asks for a refresh.
abbrev pub if_stale : WorkerState → ℕ → List ℕ → List ℕ
if_stale needs_refresh ptr rest = ptr ∷ rest
if_stale waiting_assignation ptr rest = rest
if_stale syncing ptr rest = rest

-- The pointers of the workers in the state that asks for a refresh.
abbrev pub stale_pointers : List (ℕ × Worker) → List ℕ
stale_pointers [] = []
stale_pointers ((ptr, w) ∷ ws) = if_stale w.state ptr (stale_pointers ws)

to_restart-cons :
    (ptr : ℕ) (w : Worker) (ws : List (ℕ × Worker)) (s : WorkerState)
    → w.state ≡ s
    → to_restart ((ptr, w) ∷ ws) ≡ if_stale s ptr (to_restart ws)
unfolding to_restart is_to_refresh
to_restart-cons ptr w ws needs_refresh e = rw (e, is_to_refresh, to_restart)
to_restart-cons ptr w ws waiting_assignation e = rw (e, is_to_refresh, to_restart)
to_restart-cons ptr w ws syncing e = rw (e, is_to_refresh, to_restart)

pub to_restart-stale_pointers : (ws : List (ℕ × Worker)) → to_restart ws ≡ stale_pointers ws
unfolding to_restart
to_restart-stale_pointers [] = refl
to_restart-stale_pointers ((ptr, w) ∷ ws) =
    to_restart-cons ptr w ws w.state refl ∙ ap (if_stale w.state ptr) (to_restart-stale_pointers ws)

if_stale-perm :
    (s : WorkerState) (ptr : ℕ) (xs ys : List ℕ)
    → Permᴰ xs ys
    → Permᴰ (if_stale s ptr xs) (if_stale s ptr ys)
if_stale-perm needs_refresh ptr xs ys r = Permᴰ.cons refl r
if_stale-perm waiting_assignation ptr xs ys r = r
if_stale-perm syncing ptr xs ys r = r

if_stale-swap :
    (s t : WorkerState) (i j : ℕ) (xs : List ℕ)
    → Permᴰ (if_stale s i (if_stale t j xs)) (if_stale t j (if_stale s i xs))
if_stale-swap needs_refresh needs_refresh i j xs = Permᴰ.swap refl refl
if_stale-swap needs_refresh waiting_assignation i j xs = Permᴰ.refl _
if_stale-swap needs_refresh syncing i j xs = Permᴰ.refl _
if_stale-swap waiting_assignation t i j xs = Permᴰ.refl _
if_stale-swap syncing t i j xs = Permᴰ.refl _

pub stale_pointers-perm :
    {xs ys : List (ℕ × Worker)} → Permᴰ xs ys → Permᴰ (stale_pointers xs) (stale_pointers ys)
stale_pointers-perm Permᴰ.nil = Permᴰ.refl _
stale_pointers-perm (Permᴰ.cons {a = a} {b = b} {l₁ = l₁} {l₂ = l₂} e r) =
    subst (λ x. Permᴰ (stale_pointers (a ∷ l₁)) (stale_pointers (x ∷ l₂))) e
      (if_stale-perm a.1.state a.0 _ _ (stale_pointers-perm r))
stale_pointers-perm (Permᴰ.swap {a = a} {b = b} {b' = b'} {l = l} e f) =
    subst (λ y. Permᴰ (stale_pointers (a ∷ b ∷ l)) (stale_pointers (y ∷ b' ∷ l))) f
      (subst (λ x. Permᴰ (stale_pointers (a ∷ b ∷ l)) (stale_pointers (b ∷ x ∷ l))) e
        (if_stale-swap a.1.state b.1.state a.0 b.0 (stale_pointers l)))
stale_pointers-perm (Permᴰ.trans r q) = Permᴰ.trans (stale_pointers-perm r) (stale_pointers-perm q)
