-- ===== src/Operator/Retries.antt =====
-- How often an event that fails is tried.
use k8s_swarm.Prelude.{ℕ, suc, ◌+◌, ◌%◌, true, some, ◌≡◌, ◌≢◌, ap, ◌∙◌, arith, ltb, if◌then◌else◌}
use k8s_swarm.Operator.Queues.{
  Queue, got, Item, an_event, not_event, Handled, Controller, handle_error, process_event,
  process_item, process_next_item,
}

-- What the queue documents of its counts: an added item is not counted, a rate-limited one once more, a
-- forgotten one no longer, and nothing else changes the count of an item.
pub record Counts {E Q : Type 0} (calls : Queue E Q) : Type 0 where
  pub after_add : (e x : E) (q : Q) → calls.num_requeues e (calls.add x q) ≡ calls.num_requeues e q
  pub after_get :
      (e : E) (i : Item E) (q r : Q)
      → calls.get q ≡ got i r
      → calls.num_requeues e r ≡ calls.num_requeues e q
  pub after_done :
      (e : E) (i : Item E) (q : Q) → calls.num_requeues e (calls.done i q) ≡ calls.num_requeues e q
  pub after_forget : (e : E) (q : Q) → calls.num_requeues e (calls.forget e q) ≡ 0
  pub after_requeue :
      (e : E) (q : Q)
      → calls.num_requeues e (calls.add_rate_limited e q) ≡ calls.num_requeues e q + 1
  pub forget_other :
      (e x : E) (q : Q) → x ≢ e → calls.num_requeues e (calls.forget x q) ≡ calls.num_requeues e q
  pub requeue_other :
      (e x : E) (q : Q)
      → x ≢ e
      → calls.num_requeues e (calls.add_rate_limited x q) ≡ calls.num_requeues e q

module _ {E Q S : Type 0} (calls : Queue E Q) (handle : E → S → Handled S) (e : E) where
  -- From `c` on, `k` runs of `processNextItem` have met `e`, and `Handle` failed each time; in between,
  -- other items were processed with any outcome, and items were added.
  pub data Failures (c : Controller Q S) : ℕ → Controller Q S → Type 0 where
    start : Failures c 0 c
    failure :
        {k : ℕ} {d d' : Controller Q S} {q : Q}
        → Failures c k d
        → calls.get d.queue ≡ got (an_event e) q
        → (handle e d.state).failed ≡ true
        → process_next_item calls handle d ≡ some d'
        → Failures c (suc k) d'
    other :
        {k : ℕ} {d d' : Controller Q S} {q : Q} (i : Item E)
        → Failures c k d
        → calls.get d.queue ≡ got i q
        → i ≢ an_event e
        → process_next_item calls handle d ≡ some d'
        → Failures c k d'
    added :
        {k : ℕ} {d : Controller Q S} (x : E)
        → Failures c k d
        → Failures c k (record d { queue = calls.add x d.queue })

module _ {E Q S : Type 0} (calls : Queue E Q) (counts : Counts calls) (handle : E → S → Handled S)
    (e : E) where
  count : Controller Q S → ℕ
  count c = calls.num_requeues e c.queue

  handle_error-count :
      (q : Q)
      → calls.num_requeues e (handle_error calls handle e q)
        ≡ (if ltb (calls.num_requeues e q) 5 then calls.num_requeues e q + 1 else 0)
  unfolding handle_error
  handle_error-count q = ground (arith, counts.after_forget e q, counts.after_requeue e q)

  -- One more failure.
  processed_failure :
      (d d' : Controller Q S) (q : Q)
      → calls.get d.queue ≡ got (an_event e) q
      → (handle e d.state).failed ≡ true
      → process_next_item calls handle d ≡ some d'
      → count d' ≡ (if ltb (count d) 5 then count d + 1 else 0)
  unfolding process_next_item process_item process_event count
  processed_failure d d' q g f p = ground (
    arith,
    counts.after_get e (an_event e) d.queue q g,
    handle_error-count q,
    counts.after_done e (an_event e) (handle_error calls handle e q),
  )

  process_event-count :
      (x : E) (q : Q) (s : S)
      → x ≢ e
      → calls.num_requeues e (process_event calls handle x q s).queue ≡ calls.num_requeues e q
  unfolding process_event handle_error
  process_event-count x q s ne =
      ground (arith, counts.forget_other e x q ne, counts.requeue_other e x q ne)

  process_item-count :
      (i : Item E) (q : Q) (s : S)
      → i ≢ an_event e
      → calls.num_requeues e (process_item calls handle i q s).queue ≡ calls.num_requeues e q
  unfolding process_item
  process_item-count (an_event x) q s ne =
      counts.after_done e (an_event x) (process_event calls handle x q s).queue
      ∙ process_event-count x q s (λ same. ne (ap an_event same))
  process_item-count not_event q s ne = counts.after_done e not_event q

  processed_other :
      (d d' : Controller Q S) (q : Q) (i : Item E)
      → calls.get d.queue ≡ got i q
      → i ≢ an_event e
      → process_next_item calls handle d ≡ some d'
      → count d' ≡ count d
  unfolding process_next_item count
  processed_other d d' q i g ne p =
      ground (arith, process_item-count i q d.state ne, counts.after_get e i d.queue q g)

  -- With a queue that counts as documented: an event that the queue did not count at first is counted
  -- `k` modulo 6 times after `Handle` has failed for it `k` times and never succeeded, whatever else was
  -- processed or added in between. So it is requeued after each of the first five failures and
  -- forgotten at the sixth.
  pub count-Failures :
      {c : Controller Q S}
      → calls.num_requeues e c.queue ≡ 0
      → {k : ℕ} {d : Controller Q S} → Failures calls handle e c k d
      → calls.num_requeues e d.queue ≡ k % 6
  unfolding count
  count-Failures z start = z
  count-Failures z (failure {k} {d} {d'} {q} r g f p) =
      let ih = count-Failures z r in ground (arith, processed_failure d d' q g f p)
  count-Failures z (other {d} {d'} {q} i r g ne p) =
      processed_other d d' q i g ne p ∙ count-Failures z r
  count-Failures z (added {d} x r) = counts.after_add e x d.queue ∙ count-Failures z r
