-- ===== src/Pool/Pointers.antt =====
-- The pointers of the index, and the writes that keep them right.
use k8s_swarm.Prelude.{
  ℕ, zero, suc, ◌+◌, List, [], ◌∷◌, ◌++◌, some, true, ◌≡◌, refl, arith, ap, ◌∙◌, inl, inr, Bytes,
  Dict, lookup, insert, lookup-insert, bytes_eq, bytes_eq_iff, get_elem?, get_elem?-append, length,
  ◌==◌, Bool-cases,
}
use k8s_swarm.Worker.{Worker, new_worker, mark_to_refresh, mark_refreshed}
use k8s_swarm.Pool.{Pool, modify}
use k8s_swarm.Pool.Marks.{among, get_elem?-modify}
use k8s_swarm.Pool.Resize.{IsResized, survivors}

-- Each entry of the index points to a worker of that name.
abbrev pub Points : Dict ℕ → List Worker → Type 0
Points index heap =
    (name : Bytes) (ptr : ℕ)
    → lookup name index ≡ some ptr
    → (w : Worker) × (get_elem? heap ptr ≡ some w) × (w.name ≡ name)

-- A write that keeps the workers' names keeps the pointers right.
unfoldable pub KeepsNames : List Worker → List Worker → Type 0
KeepsNames heap heap' =
    (ptr : ℕ) (w : Worker)
    → get_elem? heap ptr ≡ some w
    → (w' : Worker) × (get_elem? heap' ptr ≡ some w') × (w'.name ≡ w.name)

pub Points-KeepsNames :
    (index : Dict ℕ) (heap heap' : List Worker)
    → KeepsNames heap heap'
    → Points index heap
    → Points index heap'
unfolding KeepsNames
Points-KeepsNames index heap heap' keep pts name ptr e =
    let (w, at, named) = pts name ptr e in
    let (w', at', kept) = keep ptr w at in (w', at', kept ∙ named)

pub modify-KeepsNames :
    (ptr : ℕ) (heap : List Worker) → KeepsNames heap (modify ptr mark_refreshed heap)
unfolding KeepsNames mark_refreshed
modify-KeepsNames ptr heap j w e = elim (Bool-cases (ptr == j)) [
  | inl hit ↦ (mark_refreshed w, ground (arith, get_elem?-modify ptr j mark_refreshed heap), refl)
  | inr miss ↦ (w, ground (arith, get_elem?-modify ptr j mark_refreshed heap), refl)
]

pub resized-KeepsNames :
    (p q : Pool) (new_size : ℕ) → IsResized p new_size q → KeepsNames p.heap q.heap
unfolding KeepsNames mark_to_refresh
resized-KeepsNames p q new_size r j w e =
    elim (Bool-cases
      (among (survivors p.expected_size new_size (length r.in_order)) r.in_order j)) [
        | inl hit ↦ (mark_to_refresh w, ground (arith, r.marked j), refl)
        | inr miss ↦ (w, ground (arith, r.marked j), refl)
      ]

pub get_elem?-append_left :
    (heap : List Worker) (v w : Worker) (ptr : ℕ)
    → get_elem? heap ptr ≡ some w
    → get_elem? (heap ++ v ∷ []) ptr ≡ some w
get_elem?-append_left [] v w ptr e = cc
get_elem?-append_left (x ∷ heap) v w zero e = e
get_elem?-append_left (x ∷ heap) v w (suc ptr) e = get_elem?-append_left heap v w ptr e

pub add_worker-Points :
    (p : Pool) (idx : ℕ) (name ip : Bytes)
    → Points p.index p.heap
    → Points (insert name (length p.heap) p.index) (p.heap ++ new_worker idx name ip ∷ [])
unfolding new_worker
add_worker-Points p idx name ip pts k ptr e = elim (Bool-cases (bytes_eq name k)) [
  | inl new ↦ (new_worker idx name ip, found new, (bytes_eq_iff name k).0 new)
  | inr old ↦
      let (w, at, named) =
        pts k ptr (ground (arith, lookup-insert name k (length p.heap) p.index)) in
      (w, get_elem?-append_left p.heap (new_worker idx name ip) w ptr at, named)
]
  where
    fresh_ptr : bytes_eq name k ≡ true → ptr ≡ length p.heap + 0
    fresh_ptr new = ground (arith, lookup-insert name k (length p.heap) p.index)

    found :
        bytes_eq name k ≡ true
        → get_elem? (p.heap ++ new_worker idx name ip ∷ []) ptr ≡ some (new_worker idx name ip)
    found new =
        ap (get_elem? (p.heap ++ new_worker idx name ip ∷ [])) (fresh_ptr new)
        ∙ get_elem?-append p.heap (new_worker idx name ip ∷ []) 0
