-- ===== src/Pool/Order.antt =====
-- The order of the workers does not depend on the order in which the map is visited.
use mathlib.Core.List.{Permᴰ}
use mathlib.Core.List.Permᴰ
use native.Mathlib.Decide.{dec_lt}
use k8s_swarm.Prelude.{
  ℕ, List, [], ◌∷◌, none, some, ◌≡◌, ◌≢◌, inl, inr, refl, sym, ap, subst, ◌∙◌, arith, Bytes, Dict,
  get_elem?, Option-cases,
}
use k8s_swarm.Worker.{Worker}
use k8s_swarm.Pool.{Pool, collect, insert_sorted, sort, get_all_workers}
use k8s_swarm.Pool.Sorting.{IsSorted, insert_sorted_comm, sort_sorted, sort-IsSorted, sort-perm}

-- No two workers of the list have the same index.
abbrev pub Differs : ℕ → List (ℕ × Worker) → Type 0
Differs i [] = Unit {0}
Differs i ((p, w) ∷ ws) = (i ≢ w.index) × Differs i ws

abbrev pub IndicesDistinct : List (ℕ × Worker) → Type 0
IndicesDistinct [] = Unit {0}
IndicesDistinct ((p, w) ∷ ws) = Differs w.index ws × IndicesDistinct ws

Differs-perm : (i : ℕ) {xs ys : List (ℕ × Worker)} → Permᴰ xs ys → Differs i xs → Differs i ys
Differs-perm i Permᴰ.nil d = tt
Differs-perm i (Permᴰ.cons e r) d = (subst (λ x. i ≢ x.1.index) e d.0, Differs-perm i r d.1)
Differs-perm i (Permᴰ.swap e f) d =
    (subst (λ x. i ≢ x.1.index) f d.1.0, (subst (λ x. i ≢ x.1.index) e d.0, d.1.1))
Differs-perm i (Permᴰ.trans r q) d = Differs-perm i q (Differs-perm i r d)

IndicesDistinct-perm :
    {xs ys : List (ℕ × Worker)} → Permᴰ xs ys → IndicesDistinct xs → IndicesDistinct ys
IndicesDistinct-perm Permᴰ.nil d = tt
IndicesDistinct-perm (Permᴰ.cons {b = b} {l₂ = l₂} e r) d =
    (subst (λ x. Differs x.1.index l₂) e (Differs-perm _ r d.0), IndicesDistinct-perm r d.1)
IndicesDistinct-perm (Permᴰ.swap {a = a} {b = b} {b' = b'} {l = l} e f) d =
    subst (λ y. IndicesDistinct (y ∷ b' ∷ l)) f
      (subst (λ x. IndicesDistinct (b ∷ x ∷ l)) e ((λ q. d.0.0 (sym q), d.1.0), (d.0.1, d.1.1)))
IndicesDistinct-perm (Permᴰ.trans r q) d = IndicesDistinct-perm q (IndicesDistinct-perm r d)

insert_sorted_swap :
    (a b : ℕ × Worker) (ws : List (ℕ × Worker))
    → a.1.index ≢ b.1.index
    → insert_sorted a (insert_sorted b ws) ≡ insert_sorted b (insert_sorted a ws)
insert_sorted_swap a b ws h = elim (dec_lt a.1.index b.1.index) [
  | yes less_ab ↦ insert_sorted_comm a.0 b.0 a.1 b.1 less_ab ws
  | no ge ↦ sym (insert_sorted_comm b.0 a.0 b.1 a.1 (omega arith) ws)
]

sort_unique : {xs ys : List (ℕ × Worker)} → Permᴰ xs ys → IndicesDistinct xs → sort xs ≡ sort ys
unfolding sort
sort_unique Permᴰ.nil d = refl
sort_unique (Permᴰ.cons {a = a} {l₂ = l₂} e r) d =
    ap (insert_sorted a) (sort_unique r d.1) ∙ ap (λ x. insert_sorted x (sort l₂)) e
sort_unique (Permᴰ.swap {a = a} {b = b} {b' = b'} {l = l} e f) d =
    insert_sorted_swap a b (sort l) d.0.0
    ∙ ap (λ x. insert_sorted b (insert_sorted x (sort l))) e
    ∙ ap (λ x. insert_sorted x (insert_sorted b' (sort l))) f
sort_unique (Permᴰ.trans r q) d = sort_unique r d ∙ sort_unique q (IndicesDistinct-perm r d)

pub collect-cons_known :
    (heap : List Worker) (entry : Bytes × ℕ) (index : Dict ℕ) (w : Worker)
    → get_elem? heap entry.1 ≡ some w
    → collect heap (entry ∷ index) ≡ (entry.1, w) ∷ collect heap index
unfolding collect
collect-cons_known heap entry index w e = rw (e, collect)

pub collect-cons_none :
    (heap : List Worker) (entry : Bytes × ℕ) (index : Dict ℕ)
    → get_elem? heap entry.1 ≡ none
    → collect heap (entry ∷ index) ≡ collect heap index
unfolding collect
collect-cons_none heap entry index e = rw (e, collect)

collect-perm_cons :
    (heap : List Worker) (a b : Bytes × ℕ) (l₁ l₂ : Dict ℕ)
    → a ≡ b
    → Permᴰ (collect heap l₁) (collect heap l₂)
    → Permᴰ (collect heap (a ∷ l₁)) (collect heap (b ∷ l₂))
collect-perm_cons heap a b l₁ l₂ e r =
    subst (λ x. Permᴰ (collect heap (a ∷ l₁)) (collect heap (x ∷ l₂))) e
      (elim (Option-cases (get_elem? heap a.1)) [
        | inl q ↦ rw (collect-cons_none heap a l₁ q, collect-cons_none heap a l₂ q) r
        | inr (w, q) ↦
            rw (collect-cons_known heap a l₁ w q, collect-cons_known heap a l₂ w q)
              (Permᴰ.cons refl r)
      ])

collect-perm_swap :
    (heap : List Worker) (a b : Bytes × ℕ) (l : Dict ℕ)
    → Permᴰ (collect heap (a ∷ b ∷ l)) (collect heap (b ∷ a ∷ l))
collect-perm_swap heap a b l = elim (Option-cases (get_elem? heap a.1)) [
  | inl q ↦
      rw (collect-cons_none heap a (b ∷ l) q) (
        collect-perm_cons heap b b l (a ∷ l) refl
          (rw (collect-cons_none heap a l q) (Permᴰ.refl _)))
  | inr (w, q) ↦ elim (Option-cases (get_elem? heap b.1)) [
    | inl r ↦
        rw
          (
            collect-cons_known heap a (b ∷ l) w q,
            collect-cons_none heap b l r,
            collect-cons_none heap b (a ∷ l) r,
            collect-cons_known heap a l w q,
          )
          (Permᴰ.refl _)
    | inr (v, r) ↦
        rw
          (
            collect-cons_known heap a (b ∷ l) w q,
            collect-cons_known heap b l v r,
            collect-cons_known heap b (a ∷ l) v r,
            collect-cons_known heap a l w q,
          )
          (Permᴰ.swap refl refl)
  ]
]

collect-perm :
    (heap : List Worker) {m n : Dict ℕ} → Permᴰ m n → Permᴰ (collect heap m) (collect heap n)
collect-perm heap Permᴰ.nil = Permᴰ.refl _
collect-perm heap (Permᴰ.cons {a = a} {b = b} {l₁ = l₁} {l₂ = l₂} e r) =
    collect-perm_cons heap a b l₁ l₂ e (collect-perm heap r)
collect-perm heap (Permᴰ.swap {a = a} {b = b} {b' = b'} {l = l} e f) =
    subst (λ y. Permᴰ (collect heap (a ∷ b ∷ l)) (collect heap (y ∷ b' ∷ l))) f
      (subst (λ x. Permᴰ (collect heap (a ∷ b ∷ l)) (collect heap (b ∷ x ∷ l))) e
        (collect-perm_swap heap a b l))
collect-perm heap (Permᴰ.trans r q) = Permᴰ.trans (collect-perm heap r) (collect-perm heap q)

-- `geAllWorkers` returns the workers of the index, each once, in the order of their indices.
pub get_all_workers-IsSorted :
    (p : Pool) → IsSorted (get_all_workers p) × Permᴰ (get_all_workers p) (collect p.heap p.index)
unfolding get_all_workers
get_all_workers-IsSorted p = (sort-IsSorted (collect p.heap p.index), sort-perm _)

-- If no two workers have the same index, the result does not depend on the order in which the map is
-- visited (nor then on how the sort treats equal elements).
pub get_all_workers_deterministic :
    (p : Pool) (index : Dict ℕ)
    → Permᴰ p.index index
    → IndicesDistinct (collect p.heap p.index)
    → get_all_workers p ≡ get_all_workers (record p { index = index })
unfolding get_all_workers
get_all_workers_deterministic p index r d = sort_unique (collect-perm p.heap r) d

-- Any way to sort the workers gives the same list, if no two have the same index.
pub sorted_unique :
    (p : Pool) (ws : List (ℕ × Worker))
    → IndicesDistinct (collect p.heap p.index)
    → Permᴰ (collect p.heap p.index) ws
    → IsSorted ws
    → ws ≡ get_all_workers p
unfolding get_all_workers
sorted_unique p ws d r s = sym (sort_unique r d ∙ sort_sorted ws s)
