-- ===== src/Operator/Contents.antt =====
-- What is in the queue of controller.go: the kinds of its events.
use k8s_swarm.Prelude.{some, ◌≡◌, ◌⊎◌, inl, inr, refl, subst, arith, ltb, Bool-cases}
use k8s_swarm.Objects.{Object}
use k8s_swarm.Operator.{Event}
use k8s_swarm.Operator.Typing.{EventOf}
use k8s_swarm.Operator.Queues.{
  Queue, Got, shut_down, got, Item, an_event, not_event, Handled, Controller, handle_error,
  process_event, process_item, process_next_item,
}

-- The queue hands out only what was added to it; nothing else puts an event in. `inside` tells of an event
-- that it may be handed out later.
pub record Contents {E Q : Type 0} (calls : Queue E Q) (inside : E → Q → Type 0) : Type 0 where
  pub of_add : (e x : E) (q : Q) → inside e (calls.add x q) → (x ≡ e) ⊎ inside e q
  pub of_got : (e : E) (q r : Q) → calls.get q ≡ got (an_event e) r → inside e q
  pub of_get : (e : E) (i : Item E) (q r : Q) → calls.get q ≡ got i r → inside e r → inside e q
  pub of_done : (e : E) (i : Item E) (q : Q) → inside e (calls.done i q) → inside e q
  pub of_forget : (e x : E) (q : Q) → inside e (calls.forget x q) → inside e q
  pub of_requeue : (e x : E) (q : Q) → inside e (calls.add_rate_limited x q) → (x ≡ e) ⊎ inside e q

module _ {Q : Type 0} (calls : Queue Event Q) (inside : Event → Q → Type 0)
    (contents : Contents calls inside) (P : Object → Type 0) where
  -- Every event in the queue is one of objects of the kind.
  abbrev pub QueueOf : Q → Type 0
  QueueOf q = (e : Event) → inside e q → EventOf P e

  pub add-QueueOf : (x : Event) (q : Q) → EventOf P x → QueueOf q → QueueOf (calls.add x q)
  add-QueueOf x q h all e m = elim (contents.of_add e x q m) [
    | inl same ↦ subst (EventOf P) same h
    | inr old ↦ all e old
  ]

  handle_error-QueueOf :
      {S : Type 0} (handle : Event → S → Handled S) (x : Event) (q : Q)
      → EventOf P x
      → QueueOf q
      → QueueOf (handle_error calls handle x q)
  unfolding handle_error
  handle_error-QueueOf handle x q h all = elim (Bool-cases (ltb (calls.num_requeues x q) 5)) [
    | inl again ↦
        rw (again, handle_error)
          (λ e m. elim (contents.of_requeue e x q m) [
            | inl same ↦ subst (EventOf P) same h
            | inr old ↦ all e old
          ])
    | inr over ↦ rw (over, handle_error) (λ e m. all e (contents.of_forget e x q m))
  ]

  module _ {S : Type 0} (handle : Event → S → Handled S) where
    item-QueueOf :
        (i : Item Event) (q r : Q) (s : S)
        → calls.get q ≡ got i r
        → QueueOf q
        → QueueOf (process_item calls handle i r s).queue
    unfolding process_item process_event
    item-QueueOf not_event q r s g all =
        λ e m. all e (contents.of_get e not_event q r g (contents.of_done e not_event r m))
    item-QueueOf (an_event x) q r s g all = elim (Bool-cases (handle x s).failed) [
      | inl failed ↦
          rw (failed, process_item, process_event)
            (λ e m.
              handle_error-QueueOf handle x r (all x (contents.of_got x q r g))
                (λ e m. all e (contents.of_get e (an_event x) q r g m)) e
                (contents.of_done e (an_event x) (handle_error calls handle x r) m))
      | inr fine ↦
          rw (fine, process_item, process_event)
            (λ e m. all e (
              contents.of_get e (an_event x) q r g
                (contents.of_forget e x r (contents.of_done e (an_event x) (calls.forget x r) m))))
    ]

    -- What an item leaves of the state: it is untouched, or an event of the kind was handled.
    abbrev pub HandledOf : S → S → Type 0
    HandledOf s t = (t ≡ s) ⊎ ((x : Event) × EventOf P x × (t ≡ (handle x s).state))

    item-HandledOf :
        (i : Item Event) (q r : Q) (s : S)
        → calls.get q ≡ got i r
        → QueueOf q
        → HandledOf s (process_item calls handle i r s).state
    unfolding process_item process_event
    item-HandledOf not_event q r s g all = inl refl
    item-HandledOf (an_event x) q r s g all = elim (Bool-cases (handle x s).failed) [
      | inl failed ↦ inr (x, all x (contents.of_got x q r g), ground arith)
      | inr fine ↦ inr (x, all x (contents.of_got x q r g), ground arith)
    ]

    got-QueueOf :
        (g : Got (Item Event) Q) (q : Q) (s : S) (d : Controller Q S)
        → calls.get q ≡ g
        → process_next_item calls handle (record { queue = q; state = s }) ≡ some d
        → QueueOf q
        → QueueOf d.queue × HandledOf s d.state
    unfolding process_next_item
    got-QueueOf shut_down q s d e h all = absurd (ground arith)
    got-QueueOf (got i r) q s d e h all =
        subst (λ (d : Controller Q S). QueueOf d.queue × HandledOf s d.state)
          {x = process_item calls handle i r s} {y = d} (ground arith)
          (item-QueueOf i q r s e all, item-HandledOf i q r s e all)

    pub next-QueueOf :
        (q : Q) (s : S) (d : Controller Q S)
        → process_next_item calls handle (record { queue = q; state = s }) ≡ some d
        → QueueOf q
        → QueueOf d.queue × HandledOf s d.state
    next-QueueOf q s d h all = got-QueueOf (calls.get q) q s d refl h all
