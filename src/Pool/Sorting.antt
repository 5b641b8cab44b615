-- ===== src/Pool/Sorting.antt =====
-- `geAllWorkers`: the order of the workers, whatever order the map is visited in.
use mathlib.Core.List.{Permᴰ}
use mathlib.Core.List.Permᴰ
use native.Mathlib.Decide.{dec_lt}
use k8s_swarm.Prelude.{ℕ, ◌≤◌, ◌<◌, List, [], ◌∷◌, ◌≡◌, refl, ap, ◌∙◌, arith}
use k8s_swarm.Worker.{Worker, less}
use k8s_swarm.Pool.{insert_sorted, sort}

-- Each worker stands before the workers of greater or equal index.
abbrev pub AtLeast : ℕ → List (ℕ × Worker) → Type 0
AtLeast i [] = Unit {0}
AtLeast i ((p, w) ∷ ws) = (i ≤ w.index) × AtLeast i ws

abbrev pub IsSorted : List (ℕ × Worker) → Type 0
IsSorted [] = Unit {0}
IsSorted ((p, w) ∷ ws) = AtLeast w.index ws × IsSorted ws

AtLeast-mono : (i j : ℕ) (ws : List (ℕ × Worker)) → i ≤ j → AtLeast j ws → AtLeast i ws
AtLeast-mono i j [] h a = tt
AtLeast-mono i j ((p, w) ∷ ws) h a = (omega arith, AtLeast-mono i j ws h a.1)

AtLeast-insert_sorted :
    (i p : ℕ) (w : Worker) (ws : List (ℕ × Worker))
    → i ≤ w.index
    → AtLeast i ws
    → AtLeast i (insert_sorted (p, w) ws)
unfolding insert_sorted
AtLeast-insert_sorted i p w [] h a = (h, tt)
AtLeast-insert_sorted i p w ((q, v) ∷ ws) h a = ground (arith, AtLeast-insert_sorted i p w ws h a.1)

insert_sorted-IsSorted :
    (p : ℕ) (w : Worker) (ws : List (ℕ × Worker)) → IsSorted ws → IsSorted (insert_sorted (p, w) ws)
unfolding insert_sorted less
insert_sorted-IsSorted p w [] s = (tt, tt)
insert_sorted-IsSorted p w ((q, v) ∷ ws) s = ground (
  arith,
  insert_sorted-IsSorted p w ws s.1,
  AtLeast-insert_sorted v.index p w ws,
  AtLeast-mono w.index v.index ws,
)

pub sort-IsSorted : (ws : List (ℕ × Worker)) → IsSorted (sort ws)
unfolding sort
sort-IsSorted [] = tt
sort-IsSorted ((p, w) ∷ ws) = insert_sorted-IsSorted p w (sort ws) (sort-IsSorted ws)

insert_sorted-behind :
    (p q : ℕ) (w v : Worker) (ws : List (ℕ × Worker))
    → v.index < w.index
    → insert_sorted (p, w) ((q, v) ∷ ws) ≡ (q, v) ∷ insert_sorted (p, w) ws
unfolding insert_sorted less
insert_sorted-behind p q w v ws h = ground arith

insert_sorted-before :
    (p q : ℕ) (w v : Worker) (ws : List (ℕ × Worker))
    → w.index ≤ v.index
    → insert_sorted (p, w) ((q, v) ∷ ws) ≡ (p, w) ∷ (q, v) ∷ ws
unfolding insert_sorted less
insert_sorted-before p q w v ws h = ground arith

insert_sorted-perm :
    (p : ℕ) (w : Worker) (ws : List (ℕ × Worker)) → Permᴰ (insert_sorted (p, w) ws) ((p, w) ∷ ws)
unfolding insert_sorted less
insert_sorted-perm p w [] = Permᴰ.refl ((p, w) ∷ [])
insert_sorted-perm p w ((q, v) ∷ ws) = elim (dec_lt v.index w.index) [
  | yes h ↦
      rw (insert_sorted-behind p q w v ws h)
        (Permᴰ.trans (Permᴰ.cons refl (insert_sorted-perm p w ws)) (Permᴰ.swap refl refl))
  | no h ↦ rw (insert_sorted-before p q w v ws (omega arith)) (Permᴰ.refl ((p, w) ∷ (q, v) ∷ ws))
]

insert_sorted_nil :
    (p q : ℕ) (v w : Worker)
    → v.index < w.index
    → insert_sorted (p, v) (insert_sorted (q, w) [])
      ≡ insert_sorted (q, w) (insert_sorted (p, v) [])
unfolding insert_sorted less
insert_sorted_nil p q v w h = ground arith

module _ (p q : ℕ) (v w : Worker) (smaller : v.index < w.index) where
  -- Two workers of different index may be put in in either order.
  pub insert_sorted_comm :
      (ws : List (ℕ × Worker))
      → insert_sorted (p, v) (insert_sorted (q, w) ws)
        ≡ insert_sorted (q, w) (insert_sorted (p, v) ws)
  insert_sorted_comm [] = insert_sorted_nil p q v w smaller
  insert_sorted_comm ((r, u) ∷ ws) = elim (dec_lt u.index v.index) [
    | yes first ↦
        rw
          (
            insert_sorted-behind p r v u ws first,
            insert_sorted-behind q r w u ws (omega arith),
            insert_sorted-behind p r v u (insert_sorted (q, w) ws) first,
            insert_sorted-behind q r w u (insert_sorted (p, v) ws) (omega arith),
          )
          (ap {B = List (ℕ × Worker)} (λ l. (r, u) ∷ l) (insert_sorted_comm ws))
    | no later ↦ elim (dec_lt u.index w.index) [
      | yes between ↦ rw (
        insert_sorted-behind q r w u ws between,
        insert_sorted-before p r v u ws (omega arith),
        insert_sorted-before p r v u (insert_sorted (q, w) ws) (omega arith),
        insert_sorted-behind q p w v ((r, u) ∷ ws) smaller,
        insert_sorted-behind q r w u ws between,
      )
      | no last ↦ rw (
        insert_sorted-before q r w u ws (omega arith),
        insert_sorted-before p r v u ws (omega arith),
        insert_sorted-before p q v w ((r, u) ∷ ws) (omega arith),
        insert_sorted-behind q p w v ((r, u) ∷ ws) smaller,
        insert_sorted-before q r w u ws (omega arith),
      )
    ]
  ]

pub sort-perm : (ws : List (ℕ × Worker)) → Permᴰ (sort ws) ws
unfolding sort
sort-perm [] = Permᴰ.nil
sort-perm ((p, w) ∷ ws) =
    Permᴰ.trans (insert_sorted-perm p w (sort ws)) (Permᴰ.cons refl (sort-perm ws))

pub sort_sorted : (ws : List (ℕ × Worker)) → IsSorted ws → sort ws ≡ ws
unfolding sort insert_sorted less
sort_sorted [] s = refl
sort_sorted ((p, w) ∷ []) s = refl
sort_sorted ((p, w) ∷ (q, v) ∷ ws) s =
    ap (insert_sorted (p, w)) (sort_sorted ((q, v) ∷ ws) s.1)
    ∙ insert_sorted-before p q w v ws s.0.0
