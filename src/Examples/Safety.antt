-- ===== src/Examples/Safety.antt =====
-- What is in the queue of the examples.
use k8s_swarm.Prelude.{List, [], ◌∷◌, ◌++◌, ◌≡◌, arith, subst, ◌⊎◌, inl, inr}
use k8s_swarm.Operator.{Event}
use k8s_swarm.Operator.Queues.{Item, an_event, got}
use k8s_swarm.Operator.Contents.{Contents}
use k8s_swarm.Examples.Controllers.{next_item, calls}

abbrev pub Inside : Event → List Event → Type 0
Inside e [] = ⊥
Inside e (x ∷ q) = (x ≡ e) ⊎ Inside e q

Inside-append : (e x : Event) (q : List Event) → Inside e (q ++ x ∷ []) → (x ≡ e) ⊎ Inside e q
Inside-append e x [] m = m
Inside-append e x (y ∷ q) (inl here) = inr (inl here)
Inside-append e x (y ∷ q) (inr there) = elim (Inside-append e x q there) [
  | inl new ↦ inl new
  | inr old ↦ inr (inr old)
]

next_item-Inside : (e : Event) (q r : List Event) → next_item q ≡ got (an_event e) r → Inside e q
next_item-Inside e [] r g = absurd (ground arith)
next_item-Inside e (x ∷ q) r g = inl (ground arith)

Inside-rest :
    (e : Event) (i : Item Event) (q r : List Event)
    → next_item q ≡ got i r
    → Inside e r
    → Inside e q
Inside-rest e i [] r g m = absurd (ground arith)
Inside-rest e i (x ∷ q) r g m = inr (subst (Inside e) {x = r} {y = q} (ground arith) m)

pub calls-Contents : Contents calls Inside
calls-Contents = record {
  of_add = λ e x q m. Inside-append e x q m;
  of_got = next_item-Inside;
  of_get = Inside-rest;
  of_done = λ e i q m. m;
  of_forget = λ e x q m. m;
  of_requeue = λ e x q m. Inside-append e x q m;
}
