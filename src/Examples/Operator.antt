-- ===== src/Examples/Operator.antt =====
-- Deliveries of a pod, and a queue with one event that fails.
use mathlib.Core.List.{Permᴰ}
use mathlib.Core.List.Permᴰ
use k8s_swarm.Prelude.{
  ◌≢◌, ℕ, ◌+◌, ◌*◌, ◌≤◌, List, ◌++◌, sym, ap, ◌%◌, [], ◌∷◌, Option, none, some, true, ◌≡◌, ◌↔◌,
  refl, arith, Bytes, codes, Dict, ◌==◌, if◌then◌else◌,
}
use k8s_swarm.Objects.{Object, swarm}
use k8s_swarm.Operator.{event, object, queued, validate, add}
use k8s_swarm.Examples.Clientset.{stored_swarm}
use k8s_swarm.Operator.Filtering.{IsQueuedAs, add_iff}
use k8s_swarm.Operator.Queues.{
  Queue, Got, shut_down, Item, run_worker, got, an_event, Handled, Controller, process_next_item,
  process_item, process_event, handle_error,
}
use k8s_swarm.Operator.Draining.{Waits, queue_drains}
use k8s_swarm.Operator.Retries.{Counts, Failures, start, failure, count-Failures}

-- A Swarm's labels are its own, and its key is its name.
abbrev get_labels : Object → Option (Dict Bytes)
get_labels (swarm s) = some s.labels
get_labels _ = none

abbrev key_of : Object → Option Bytes
key_of (swarm s) = some s.resource.name
key_of _ = none

abbrev mine : Object
mine = swarm (record {
  labels = (codes "app", codes "mine") ∷ [];
  resource = record stored_swarm { name = codes "mine" };
})

abbrev other : Object
other = swarm (record { labels = (codes "app", codes "other") ∷ []; resource = stored_swarm })

add_iff_example :
    (add (validate get_labels (codes "mine")) key_of (object mine)
      ≡ queued (event (codes "mine") mine))
    ↔ IsQueuedAs get_labels (codes "mine") key_of (object mine) (event (codes "mine") mine)
add_iff_example = add_iff get_labels (codes "mine") key_of (event (codes "mine") mine) (object mine)

-- Events are numbers; the queue is a function that counts, and it always hands out event 7.
abbrev Requeues : Type 0
Requeues = ℕ → ℕ

abbrev set_count : ℕ → ℕ → Requeues → Requeues
set_count e n q = λ x. if x == e then n else q x

abbrev sevens : Queue ℕ Requeues
sevens = record {
  add = λ e q. q;
  get = λ q. got (an_event 7) q;
  done = λ i q. q;
  forget = λ e q. set_count e 0 q;
  add_rate_limited = λ e q. set_count e (q e + 1) q;
  num_requeues = λ e q. q e;
}

sevens-Counts : Counts sevens
sevens-Counts = record {
  after_add = λ e x q. refl;
  after_get = λ e i q r g. ground arith;
  after_done = λ e i q. refl;
  after_forget = λ e q. ground arith;
  after_requeue = λ e q. ground arith;
  forget_other = λ e x q ne. ground arith;
  requeue_other = λ e x q ne. ground arith;
}

abbrev always_fails : ℕ → Unit {0} → Handled (Unit {0})
always_fails e s = record { state = s; failed = true }

abbrev empty : Controller Requeues (Unit {0})
empty = record { queue = λ e. 0; state = tt }

abbrev once : Controller Requeues (Unit {0})
once = record { queue = set_count 7 1 (λ e. 0); state = tt }

once-Failures : Failures sevens always_fails 7 empty 1 once
unfolding process_next_item process_item process_event handle_error
once-Failures = failure start refl refl refl

count-Failures_example : sevens.num_requeues 7 once.queue ≡ 1 % 6
count-Failures_example = count-Failures sevens sevens-Counts always_fails 7 refl once-Failures

-- A queue in order of arrival, with its counts; an item of a rate limit waits behind the others at once.
abbrev Line : Type 0
Line = List ℕ × Requeues

abbrev take_first : List ℕ → Requeues → Got (Item ℕ) Line
take_first [] n = shut_down
take_first (e ∷ l) n = got (an_event e) (l, n)

abbrev line : Queue ℕ Line
line = record {
  add = λ e q. (q.0 ++ e ∷ [], q.1);
  get = λ q. take_first q.0 q.1;
  done = λ i q. q;
  forget = λ e q. (q.0, set_count e 0 q.1);
  add_rate_limited = λ e q. (q.0 ++ e ∷ [], set_count e (q.1 e + 1) q.1);
  num_requeues = λ e q. q.1 e;
}

take_first-count :
    (e : ℕ) (i : Item ℕ) (l : List ℕ) (n : Requeues) (r : Line)
    → take_first l n ≡ got i r
    → r.1 e ≡ n e
take_first-count e i [] n r g = absurd (ground arith)
take_first-count e i (x ∷ l) n r g = sym (ap (λ (q : Line). q.1 e) {x = (l, n)} {y = r} (cc g))

line-Counts : Counts line
line-Counts = record {
  after_add = λ e x q. refl;
  after_get = λ e i q r g. take_first-count e i q.0 q.1 r g;
  after_done = λ e i q. refl;
  after_forget = λ e q. ground arith;
  after_requeue = λ e q. ground arith;
  forget_other = λ e x q ne. ground arith;
  requeue_other = λ e x q ne. ground arith;
}

line-handed_out :
    (l : List ℕ) (n : Requeues)
    → l ≢ []
    → (e : ℕ) × (r : Line) × (line.get (l, n) ≡ got (an_event e) r) × Permᴰ l (e ∷ r.0)
line-handed_out [] n some_wait = absurd (some_wait refl)
line-handed_out (e ∷ l) n some_wait = (e, (l, n), refl, Permᴰ.refl (e ∷ l))

line-Waits : Waits line (λ q. q.0)
line-Waits = record {
  handed_out = λ q some_wait. line-handed_out q.0 q.1 some_wait;
  requeued = λ e q apart. Permᴰ.append_comm q.0 (e ∷ []);
  forgotten = λ e q. Permᴰ.refl q.0;
  done_with = λ i q. Permᴰ.refl q.0;
}

abbrev three_wait : Controller Line (Unit {0})
three_wait = record { queue = (4 ∷ 7 ∷ 9 ∷ [], λ e. 0); state = tt }

queue_drains_example :
    (n : ℕ) × (d : Controller Line (Unit {0})) × (n ≤ 6 * 3)
    × (run_worker line always_fails n three_wait ≡ some d)
    × (d.queue.0 ≡ [])
queue_drains_example =
    queue_drains line line-Counts (λ q. q.0) line-Waits always_fails three_wait
      ((ground arith, (ground arith, tt)), ((ground arith, tt), (tt, tt)))
