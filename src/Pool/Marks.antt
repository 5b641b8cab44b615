-- ===== src/Pool/Marks.antt =====
-- Writes through pointers: what the heap holds after the workers are marked.
use mathlib.Core.Option
use k8s_swarm.Prelude.{
  ℕ, zero, suc, List, [], ◌∷◌, Option, none, some, Bool, false, ◌||◌, ◌≡◌, refl, arith, get_elem?,
  length, ◌==◌, if◌then◌else◌, ap,
}
use k8s_swarm.Worker.{Worker, mark_to_refresh}
use k8s_swarm.Pool.{modify, mark_first}

pub get_elem?-modify :
    (ptr j : ℕ) (f : Worker → Worker) (heap : List Worker)
    → get_elem? (modify ptr f heap) j
      ≡ (if ptr == j then Option.map f (get_elem? heap j) else get_elem? heap j)
unfolding modify
get_elem?-modify ptr j f [] = ground arith
get_elem?-modify zero zero f (w ∷ heap) = refl
get_elem?-modify zero (suc j) f (w ∷ heap) = ground arith
get_elem?-modify (suc ptr) zero f (w ∷ heap) = ground arith
get_elem?-modify (suc ptr) (suc j) f (w ∷ heap) = ground (arith, get_elem?-modify ptr j f heap)

-- The pointer is one of the first `total`.
abbrev pub among : ℕ → List (ℕ × Worker) → ℕ → Bool
among zero ws j = false
among (suc total) [] j = false
among (suc total) ((ptr, w) ∷ ws) j = ptr == j || among total ws j

mark_twice :
    (o : Option Worker)
    → Option.map mark_to_refresh (Option.map mark_to_refresh o) ≡ Option.map mark_to_refresh o
unfolding mark_to_refresh
mark_twice none = refl
mark_twice (some w) = refl

-- The first `total` workers are marked, and no other.
pub get_elem?-mark_first :
    (total : ℕ) (ws : List (ℕ × Worker)) (heap : List Worker) (j : ℕ)
    → get_elem? (mark_first total ws heap) j ≡ (
        if among total ws j
        then Option.map mark_to_refresh (get_elem? heap j)
        else get_elem? heap j)
unfolding mark_first
get_elem?-mark_first zero ws heap j = refl
get_elem?-mark_first (suc total) [] heap j = refl
get_elem?-mark_first (suc total) ((ptr, w) ∷ ws) heap j = ground (
  arith,
  get_elem?-mark_first total ws (modify ptr mark_to_refresh heap) j,
  get_elem?-modify ptr j mark_to_refresh heap,
  mark_twice (get_elem? heap j),
)

pub length-modify :
    (ptr : ℕ) (f : Worker → Worker) (heap : List Worker) → length (modify ptr f heap) ≡ length heap
unfolding modify
length-modify ptr f [] = refl
length-modify zero f (w ∷ heap) = refl
length-modify (suc ptr) f (w ∷ heap) = ap suc (length-modify ptr f heap)

pub length-mark_first :
    (total : ℕ) (ws : List (ℕ × Worker)) (heap : List Worker)
    → length (mark_first total ws heap) ≡ length heap
unfolding mark_first
length-mark_first zero ws heap = refl
length-mark_first (suc total) [] heap = refl
length-mark_first (suc total) ((ptr, w) ∷ ws) heap = ground (
  arith,
  length-mark_first total ws (modify ptr mark_to_refresh heap),
  length-modify ptr mark_to_refresh heap,
)
