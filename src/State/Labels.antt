-- ===== src/State/Labels.antt =====
-- The map of a state that numbers its workers from 0, and what the map operations do to it.
use k8s_swarm.Prelude.{
  ℕ, zero, suc, ◌+◌, ◌≤◌, ◌<◌, List, [], ◌∷◌, ◌++◌, none, ◌≡◌, ◌≢◌, refl, sym, ap, ◌∙◌, arith,
  Bytes, Dict, lookup, insert, delete, length, drop, get_elem?, bytes_eq, bytes_eq_iff,
  bytes_eq_of_ne, bytes_eq_self, ◌==◌,
}
use mathlib.Core.List.{append-nil}
use native.Mathlib.Nat.{zero-add}
use k8s_swarm.Text.RoundTrip.{format-injective}
use k8s_swarm.Text.{format}
use k8s_swarm.Config.{Workload}
use k8s_swarm.State.{worker_name, delete_workers}

append-cancel : (s x y : Bytes) → s ++ x ≡ s ++ y → x ≡ y
append-cancel [] x y e = e
append-cancel (c ∷ s) x y e = append-cancel s x y (cc)

-- Different workers have different names.
pub worker_name-injective :
    (set_name : Bytes) (i j : ℕ) → worker_name set_name i ≡ worker_name set_name j → i ≡ j
unfolding worker_name
worker_name-injective set_name i j e =
    format-injective i j (cc (append-cancel set_name (b'-' ∷ format i) (b'-' ∷ format j) e))

pub bytes_eq-worker_name :
    (set_name : Bytes) (i j : ℕ)
    → bytes_eq (worker_name set_name i) (worker_name set_name j) ≡ (i == j)
bytes_eq-worker_name set_name i j = ground (
  arith,
  worker_name-injective set_name i j,
  bytes_eq_iff (worker_name set_name i) (worker_name set_name j),
  ap (worker_name set_name) {x = i} {y = j},
)

-- The workers' entries, numbered from `a`.
unfoldable pub label : Bytes → ℕ → List Workload → Dict Workload
label set_name a [] = []
label set_name a (w ∷ ws) = (worker_name set_name a, w) ∷ label set_name (suc a) ws

module _ (set_name : Bytes) where
  pub length-label : (a : ℕ) (ws : List Workload) → length (label set_name a ws) ≡ length ws
  unfolding label
  length-label a [] = refl
  length-label a (w ∷ ws) = ap suc (length-label (suc a) ws)

  pub lookup-label_below :
      (a j : ℕ) (ws : List Workload)
      → j < a
      → lookup (worker_name set_name j) (label set_name a ws) ≡ none
  unfolding label
  lookup-label_below a j [] h = refl
  lookup-label_below a j (w ∷ ws) h =
      ground (arith, bytes_eq-worker_name set_name a j, lookup-label_below (suc a) j ws)

  pub lookup-label :
      (a i : ℕ) (ws : List Workload)
      → lookup (worker_name set_name (a + i)) (label set_name a ws) ≡ get_elem? ws i
  unfolding label
  lookup-label a i [] = refl
  lookup-label a zero (w ∷ ws) = ground (arith, bytes_eq-worker_name set_name a (a + zero))
  lookup-label a (suc i) (w ∷ ws) = ground (
    arith,
    bytes_eq-worker_name set_name a (a + suc i),
    lookup-label (suc a) i ws,
    ap (worker_name set_name) {x = a + suc i} {y = suc a + i},
  )

  -- A name of no worker of the map is not a key.
  pub lookup-label_ne :
      (k : Bytes) (a : ℕ) (ws : List Workload)
      → ((i : ℕ) → k ≢ worker_name set_name i)
      → lookup k (label set_name a ws) ≡ none
  unfolding label
  lookup-label_ne k a [] h = refl
  lookup-label_ne k a (w ∷ ws) h =
      rw (bytes_eq_of_ne (worker_name set_name a) k (λ e. h a (sym e)))
        (lookup-label_ne k (suc a) ws h)

  -- A write to the worker behind `done` replaces its entry, or adds one at the end.
  pub insert-label :
      (a j : ℕ) (done rest : List Workload) (w : Workload)
      → j ≡ a + length done
      → insert (worker_name set_name j) w (label set_name a (done ++ rest))
        ≡ label set_name a (done ++ w ∷ drop 1 rest)
  unfolding label
  insert-label a j [] [] w e = ground (arith, ap (worker_name set_name) {x = j} {y = a})
  insert-label a j [] (x ∷ rest) w e =
      ground (arith, bytes_eq-worker_name set_name a j, ap (worker_name set_name) {x = j} {y = a})
  insert-label a j (x ∷ done) rest w e =
      ground
        (arith, bytes_eq-worker_name set_name a j, insert-label (suc a) j done rest w (omega arith))

  pub label-append :
      (a : ℕ) (xs ys : List Workload)
      → label set_name a (xs ++ ys) ≡ label set_name a xs ++ label set_name (a + length xs) ys
  unfolding label
  label-append a [] ys = ap (λ b. label set_name b ys) (omega arith)
  label-append a (x ∷ xs) ys = ground (
    arith,
    label-append (suc a) xs ys,
    ap (λ b. label set_name b ys) {x = suc a + length xs} {y = a + suc (length xs)},
  )

  delete-label :
      (a j : ℕ) (ws : List Workload) (m : Dict Workload)
      → a + length ws ≤ j
      → delete (worker_name set_name j) (label set_name a ws ++ m)
        ≡ label set_name a ws ++ delete (worker_name set_name j) m
  unfolding label
  delete-label a j [] m h = refl
  delete-label a j (w ∷ ws) m h =
      ground (arith, bytes_eq-worker_name set_name a j, delete-label (suc a) j ws m (omega arith))

  -- Deleting the workers behind `kept`, one after the other, leaves `kept`.
  delete_workers-label :
      (kept rest : List Workload) (j : ℕ)
      → length kept ≤ j
      → delete_workers set_name (length rest) j (label set_name 0 kept ++ label set_name j rest)
        ≡ label set_name 0 kept
  unfolding delete_workers label
  delete_workers-label kept [] j h = append-nil (label set_name 0 kept)
  delete_workers-label kept (w ∷ rest) j h =
      ap (delete_workers set_name (length rest) (suc j)) removed
      ∙ delete_workers-label kept rest (suc j) (omega arith)
    where
      tail : Dict Workload
      tail = label set_name (suc j) rest

      at_head : delete (worker_name set_name j) ((worker_name set_name j, w) ∷ tail) ≡ tail
      at_head = rw (bytes_eq_self (worker_name set_name j))

      removed :
          delete
            (worker_name set_name j)
            (label set_name 0 kept ++ (worker_name set_name j, w) ∷ tail)
          ≡ label set_name 0 kept ++ tail
      removed =
          delete-label 0 j kept ((worker_name set_name j, w) ∷ tail) (omega arith)
          ∙ ap (◌++◌ (label set_name 0 kept)) at_head

  pub delete_workers-append :
      (kept rest : List Workload)
      → delete_workers set_name (length rest) (length kept) (label set_name 0 (kept ++ rest))
        ≡ label set_name 0 kept
  delete_workers-append kept rest =
      rw (label-append 0 kept rest)
        (rw (zero-add) (delete_workers-label kept rest (length kept) (omega arith)))
