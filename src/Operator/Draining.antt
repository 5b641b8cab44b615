-- ===== src/Operator/Draining.antt =====
-- How long the worker loop of controller.go needs for its queue.
use mathlib.Core.List.{Permᴰ}
use mathlib.Core.List.Permᴰ
use k8s_swarm.Prelude.{
  ℕ, zero, suc, ◌+◌, ◌-◌, ◌*◌, ◌≤◌, ◌<◌, List, [], ◌∷◌, some, ◌≡◌, ◌≢◌, inl, inr, refl, sym, ap,
  ◌∙◌, subst, arith, length, ltb, Bool-cases,
}
use k8s_swarm.Operator.Queues.{
  Queue, got, Item, an_event, Handled, Controller, handle_error, process_event, process_item,
  process_next_item, run_worker,
}
use k8s_swarm.Operator.Retries.{Counts}

-- `e` is none of the list.
abbrev pub Apart : {E : Type 0} → E → List E → Type 0
Apart e [] = Unit
Apart e (x ∷ l) = (e ≢ x) × Apart e l

abbrev pub Distinct : {E : Type 0} → List E → Type 0
Distinct [] = Unit
Distinct (e ∷ l) = Apart e l × Distinct l

-- What the queue documents, of one that is not shut down and of the items that wait in it, those whose
-- back-off is not over among them: Get waits until an item is ready, and hands out one that waits; a
-- rate-limited item that does not wait yet waits again; and to forget an item or to be done with it
-- takes and adds none. In which order they are handed out, and when, is left open.
pub record Waits {E Q : Type 0} (calls : Queue E Q) (waiting : Q → List E) : Type 0 where
  pub handed_out :
      (q : Q)
      → waiting q ≢ []
      → (e : E) × (r : Q) × (calls.get q ≡ got (an_event e) r) × Permᴰ (waiting q) (e ∷ waiting r)
  pub requeued :
      (e : E) (q : Q)
      → Apart e (waiting q)
      → Permᴰ (waiting (calls.add_rate_limited e q)) (e ∷ waiting q)
  pub forgotten : (e : E) (q : Q) → Permᴰ (waiting (calls.forget e q)) (waiting q)
  pub done_with : (i : Item E) (q : Q) → Permᴰ (waiting (calls.done i q)) (waiting q)

Apart-perm : {E : Type 0} (x : E) {xs ys : List E} → Permᴰ xs ys → Apart x xs → Apart x ys
Apart-perm x Permᴰ.nil a = tt
Apart-perm x (Permᴰ.cons e r) a = (subst (λ y. x ≢ y) e a.0, Apart-perm x r a.1)
Apart-perm x (Permᴰ.swap e f) a = (subst (λ y. x ≢ y) f a.1.0, (subst (λ y. x ≢ y) e a.0, a.1.1))
Apart-perm x (Permᴰ.trans r q) a = Apart-perm x q (Apart-perm x r a)

Distinct-perm : {E : Type 0} {xs ys : List E} → Permᴰ xs ys → Distinct xs → Distinct ys
Distinct-perm Permᴰ.nil d = tt
Distinct-perm (Permᴰ.cons {l₂ = l₂} e r) d =
    (subst (λ x. Apart x l₂) e (Apart-perm _ r d.0), Distinct-perm r d.1)
Distinct-perm (Permᴰ.swap {a = a} {b = b} {b' = b'} {l = l} e f) d =
    subst (λ y. Distinct (y ∷ b' ∷ l)) f
      (subst (λ x. Distinct (b ∷ x ∷ l)) e ((λ q. d.0.0 (sym q), d.1.0), (d.0.1, d.1.1)))
Distinct-perm (Permᴰ.trans r q) d = Distinct-perm q (Distinct-perm r d)

-- How often the events of a list are at most handled, by their counts.
abbrev total : {E : Type 0} → (E → ℕ) → List E → ℕ
total counts [] = 0
total counts (e ∷ l) = suc (5 - counts e) + total counts l

total-perm :
    {E : Type 0} (counts : E → ℕ) {xs ys : List E} → Permᴰ xs ys → total counts xs ≡ total counts ys
total-perm counts Permᴰ.nil = refl
total-perm counts (Permᴰ.cons e r) = omega (arith, ap (λ x. 5 - counts x) e, total-perm counts r)
total-perm counts (Permᴰ.swap e f) =
    omega (arith, ap (λ x. 5 - counts x) e, ap (λ x. 5 - counts x) f)
total-perm counts (Permᴰ.trans r q) = total-perm counts r ∙ total-perm counts q

total-of_agree :
    {E : Type 0} (counts other : E → ℕ) (e : E) (l : List E)
    → Apart e l
    → ((x : E) → e ≢ x → counts x ≡ other x)
    → total counts l ≡ total other l
total-of_agree counts other e [] a same = refl
total-of_agree counts other e (x ∷ l) (ne, a) same =
    omega (arith, ap (λ n. 5 - n) (same x ne), total-of_agree counts other e l a same)

total-bound : {E : Type 0} (counts : E → ℕ) (l : List E) → total counts l ≤ 6 * length l
total-bound counts [] = omega arith
total-bound counts (e ∷ l) = omega (arith, total-bound counts l)

module _ {E Q S : Type 0} (calls : Queue E Q) (counts : Counts calls) (waiting : Q → List E)
    (waits : Waits calls waiting) (handle : E → S → Handled S) where
  abbrev left : Q → ℕ
  left q = total (λ x. calls.num_requeues x q) (waiting q)

  -- What the worker has left to do after `e`, which it took from the queue `q`.
  abbrev IsLess : Q → Q → Type 0
  IsLess q r = Distinct (waiting r) × (left r < left q)

  module _ (e : E) (q r : Q) (given : calls.get q ≡ got (an_event e) r)
      (taken : Permᴰ (waiting q) (e ∷ waiting r)) (distinct : Distinct (e ∷ waiting r)) where
    left_before :
        left q ≡ suc (5 - calls.num_requeues e q) + total (λ x. calls.num_requeues x q) (waiting r)
    left_before = total-perm (λ x. calls.num_requeues x q) taken

    forgotten-IsLess : IsLess q (calls.done (an_event e) (calls.forget e r))
    forgotten-IsLess =
        (Distinct-perm (Permᴰ.symm waits_for) distinct.1, omega (arith, left_before, after))
      where
        waits_for : Permᴰ (waiting (calls.done (an_event e) (calls.forget e r))) (waiting r)
        waits_for =
            Permᴰ.trans (waits.done_with (an_event e) (calls.forget e r)) (waits.forgotten e r)

        after :
            left (calls.done (an_event e) (calls.forget e r))
            ≡ total (λ x. calls.num_requeues x q) (waiting r)
        after =
            total-perm (λ x. calls.num_requeues x (calls.done (an_event e) (calls.forget e r)))
              waits_for
            ∙ total-of_agree _ _ e (waiting r) distinct.0 (λ x ne.
              counts.after_done x (an_event e) (calls.forget e r)
              ∙ counts.forget_other x e r ne
              ∙ counts.after_get x (an_event e) q r given)

    requeued-IsLess :
        calls.num_requeues e q < 5 → IsLess q (calls.done (an_event e) (calls.add_rate_limited e r))
    requeued-IsLess below = (
      Distinct-perm (Permᴰ.symm waits_for) distinct,
      omega (arith, left_before, after, below, counted),
    )
      where
        waits_for :
            Permᴰ (waiting (calls.done (an_event e) (calls.add_rate_limited e r))) (e ∷ waiting r)
        waits_for =
            Permᴰ.trans (waits.done_with (an_event e) (calls.add_rate_limited e r))
              (waits.requeued e r distinct.0)

        counted :
            calls.num_requeues e (calls.done (an_event e) (calls.add_rate_limited e r))
            ≡ calls.num_requeues e q + 1
        counted =
            counts.after_done e (an_event e) (calls.add_rate_limited e r)
            ∙ counts.after_requeue e r
            ∙ ap (λ n. n + 1) (counts.after_get e (an_event e) q r given)

        after :
            left (calls.done (an_event e) (calls.add_rate_limited e r))
            ≡ suc (5 - calls.num_requeues e (calls.done (an_event e) (calls.add_rate_limited e r)))
              + total (λ x. calls.num_requeues x q) (waiting r)
        after =
            total-perm
              (λ x. calls.num_requeues x (calls.done (an_event e) (calls.add_rate_limited e r)))
              waits_for
            ∙ ap
                (λ n.
                  suc (
                    5 - calls.num_requeues e (calls.done (an_event e) (calls.add_rate_limited e r)))
                  + n)
                (total-of_agree _ _ e (waiting r) distinct.0 (λ x ne.
                  counts.after_done x (an_event e) (calls.add_rate_limited e r)
                  ∙ counts.requeue_other x e r ne
                  ∙ counts.after_get x (an_event e) q r given))

  -- One item less to do.
  processed-IsLess :
      (c : Controller Q S)
      → waiting c.queue ≢ []
      → Distinct (waiting c.queue)
      → (d : Controller Q S) × (process_next_item calls handle c ≡ some d) × IsLess c.queue d.queue
  unfolding process_next_item process_item process_event handle_error
  processed-IsLess c some_wait distinct =
      let (e, r, given, taken) = waits.handed_out c.queue some_wait in
      let apart = Distinct-perm taken distinct in
      elim (Bool-cases (handle e c.state).failed) [
        | inr fine ↦ (
          record {
            queue = calls.done (an_event e) (calls.forget e r);
            state = (handle e c.state).state;
          },
          ground arith,
          forgotten-IsLess e c.queue r given taken apart,
        )
        | inl failed ↦ elim (Bool-cases (ltb (calls.num_requeues e r) 5)) [
          | inl again ↦ (
            record {
              queue = calls.done (an_event e) (calls.add_rate_limited e r);
              state = (handle e c.state).state;
            },
            ground arith,
            requeued-IsLess e c.queue r given taken apart
                (ground (arith, counts.after_get e (an_event e) c.queue r given)),
          )
          | inr over ↦ (
            record {
              queue = calls.done (an_event e) (calls.forget e r);
              state = (handle e c.state).state;
            },
            ground arith,
            forgotten-IsLess e c.queue r given taken apart,
          )
        ]
      ]

  abbrev Drains : Controller Q S → ℕ → Type 0
  Drains c most =
      (n : ℕ) × (d : Controller Q S) × (n ≤ most)
      × (run_worker calls handle n c ≡ some d)
      × (waiting d.queue ≡ [])

  Drains-of_total :
      (most : ℕ) (c : Controller Q S) (l : List E)
      → waiting c.queue ≡ l
      → Distinct (waiting c.queue)
      → left c.queue ≤ most
      → Drains c most
  unfolding run_worker
  Drains-of_total most c [] e distinct h = (0, c, omega arith, refl, e)
  Drains-of_total zero c (x ∷ l) e distinct h =
      absurd (omega (arith, ap (total (λ y. calls.num_requeues y c.queue)) e))
  Drains-of_total (suc most) c (x ∷ l) e distinct h =
      let (d, done, less) = processed-IsLess c (λ n. absurd (ground (arith, e, n))) distinct in
      let (n, f, bound, runs, empty) =
        Drains-of_total most d (waiting d.queue) refl less.0 (omega (arith, less.1, h)) in
      (suc n, f, omega arith, rw (done) runs, empty)

  -- The worker loop comes to an empty queue. If no event waits twice and none is added, then after at most
  -- six items for each event that waits the queue is empty, whichever handlings fail and in whatever order
  -- the queue hands out. The queue counts as `Counts` says, is not shut down, and keeps and hands out its
  -- items as `Waits` says.
  pub queue_drains :
      (c : Controller Q S)
      → Distinct (waiting c.queue)
      → (n : ℕ) × (d : Controller Q S) × (n ≤ 6 * length (waiting c.queue))
        × (run_worker calls handle n c ≡ some d)
        × (waiting d.queue ≡ [])
  queue_drains c distinct =
      Drains-of_total (6 * length (waiting c.queue)) c (waiting c.queue) refl distinct
        (total-bound (λ x. calls.num_requeues x c.queue) (waiting c.queue))
