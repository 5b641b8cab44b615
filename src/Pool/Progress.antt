-- ===== src/Pool/Progress.antt =====
-- The end of a variation: the restarts that conciliate of pool.go starts.
use k8s_swarm.Prelude.{
  ℕ, zero, suc, ◌+◌, ◌<◌, ◌≤◌, List, [], ◌∷◌, true, false, ◌≡◌, ◌≢◌, inl, inr, refl, subst, arith,
  get_elem?, length, ◌==◌, Bool-cases, Option-cases, KeysUnique,
}
use k8s_swarm.Worker.{Worker, mark_refreshed, is_to_refresh}
use k8s_swarm.Pool.{Pool, conciliate, request_restart, among_restarts, finish}
use k8s_swarm.Pool.Conciliation.{Marked, conciliate-Marked, conciliate_busy}
use k8s_swarm.Pool.Marks.{get_elem?-modify}

-- `k` restarts that run have come to their end, and each has succeeded.
pub data Drain (p : Pool) : ℕ → Pool → Type 0 where
  none_yet : Drain p 0 p
  one_more :
      {k : ℕ} {q : Pool} (ptr : ℕ)
      → Drain p k q
      → among_restarts ptr q.restarting ≡ true
      → Drain p (suc k) (request_restart q ptr true)

-- A restart runs for each worker of the index that is marked to refresh.
abbrev Covered : Pool → Type 0
Covered p = (ptr : ℕ) → Marked p ptr → among_restarts ptr p.restarting ≡ true

among_restarts-finish_other :
    (ptr other : ℕ) (qs : List ℕ)
    → other ≢ ptr
    → among_restarts ptr qs ≡ true
    → among_restarts ptr (finish other qs) ≡ true
unfolding among_restarts finish
among_restarts-finish_other ptr other [] ne h = h
among_restarts-finish_other ptr other (q ∷ qs) ne h =
    ground (arith, among_restarts-finish_other ptr other qs ne)

length-finish :
    (ptr : ℕ) (qs : List ℕ)
    → among_restarts ptr qs ≡ true
    → suc (length (finish ptr qs)) ≡ length qs
unfolding among_restarts finish
length-finish ptr [] h = absurd (ground arith)
length-finish ptr (q ∷ qs) h = ground (arith, length-finish ptr qs)

is_to_refresh-mark_refreshed : (w : Worker) → is_to_refresh (mark_refreshed w) ≡ false
unfolding is_to_refresh mark_refreshed
is_to_refresh-mark_refreshed w = refl

-- A worker that is marked after the restart of another was marked before.
Marked-request_restart :
    (p : Pool) (r ptr : ℕ) → Marked (request_restart p r true) ptr → (r ≢ ptr) × Marked p ptr
unfolding request_restart
Marked-request_restart p r ptr m = elim (Bool-cases (r == ptr)) [
  | inl same ↦ elim (Option-cases (get_elem? p.heap ptr)) [
    | inl dangling ↦ absurd (ground (arith, get_elem?-modify r ptr mark_refreshed p.heap, m.points))
    | inr (w, at) ↦ absurd (
        ground (
          arith,
          get_elem?-modify r ptr mark_refreshed p.heap,
          m.points,
          m.stale,
          is_to_refresh-mark_refreshed w,
        ))
  ]
  | inr other ↦ (
    λ e. ground arith,
    record {
      name = m.name;
      held = m.held;
      indexed = m.indexed;
      points = ground (arith, get_elem?-modify r ptr mark_refreshed p.heap, m.points);
      stale = m.stale;
    },
  )
]

Covered-request_restart : (p : Pool) (r : ℕ) → Covered p → Covered (request_restart p r true)
unfolding request_restart
Covered-request_restart p r c ptr m =
    let (ne, before) = Marked-request_restart p r ptr m in
    among_restarts-finish_other ptr r p.restarting ne (c ptr before)

Covered-Drain : {p q : Pool} {k : ℕ} → Covered p → Drain p k q → Covered q
Covered-Drain c none_yet = c
Covered-Drain c (one_more {q} ptr d runs) = Covered-request_restart q ptr (Covered-Drain c d)

length-Drain : {p q : Pool} {k : ℕ} → Drain p k q → k + length q.restarting ≡ length p.restarting
unfolding request_restart
length-Drain none_yet = omega arith
length-Drain (one_more {q} ptr d runs) =
    omega (arith, length-Drain d, length-finish ptr q.restarting runs)

Covered-conciliate :
    (p : Pool)
    → KeysUnique p.index
    → p.expected_size ≢ 0
    → p.under_variation ≡ true
    → Covered (conciliate p)
Covered-conciliate p u sized varies ptr m =
    let m' = subst (λ q. Marked q ptr) (conciliate_busy p sized varies) m in
    (conciliate-Marked p ptr u sized varies).0.1 (
      inr (record {
        name = m'.name;
        held = m'.held;
        indexed = m'.indexed;
        points = m'.points;
        stale = m'.stale;
      }))

first_among : (qs : List ℕ) → 0 < length qs → (ptr : ℕ) × (among_restarts ptr qs ≡ true)
unfolding among_restarts
first_among [] h = absurd (omega arith)
first_among (q ∷ qs) h = (q, ground arith)

Drain-of_length : (p : Pool) (k : ℕ) → k ≤ length p.restarting → (q : Pool) × Drain p k q
Drain-of_length p zero h = (p, none_yet)
Drain-of_length p (suc k) h =
    let (q, d) = Drain-of_length p k (omega arith) in
    let (ptr, runs) = first_among q.restarting (omega (arith, length-Drain d)) in
    (request_restart q ptr true, one_more ptr d runs)

nil_of_none : (qs : List ℕ) → length qs ≡ 0 → qs ≡ []
nil_of_none [] e = refl
nil_of_none (q ∷ qs) e = absurd (omega arith)

-- A variation comes to an end if its restarts succeed. The conciliation that sees it, in a pool whose
-- index has unique names and which expects a worker, starts some number of restarts; that many can come
-- to their end, in some order. In whatever order they do, each with success, afterwards no restart runs
-- and no worker of the index is marked to refresh.
pub restarts_end :
    (p : Pool) (ptr : ℕ) {q : Pool}
    → KeysUnique p.index
    → p.expected_size ≢ 0
    → p.under_variation ≡ true
    → Drain (conciliate p) (length (conciliate p).restarting) q
    → ((r : Pool) × Drain (conciliate p) (length (conciliate p).restarting) r)
      × (q.restarting ≡ [])
      × ¬ Marked q ptr
unfolding among_restarts
restarts_end p ptr {q} u sized varies d =
    let over : q.restarting ≡ [] = nil_of_none q.restarting (omega (arith, length-Drain d)) in
    (
      Drain-of_length (conciliate p) (length (conciliate p).restarting) (omega arith),
      over,
      λ m.
          let runs = Covered-Drain (Covered-conciliate p u sized varies) d ptr m in
          let ended : among_restarts ptr [] ≡ true =
            subst (λ l. among_restarts ptr l ≡ true) over runs in
          cc,
    )
