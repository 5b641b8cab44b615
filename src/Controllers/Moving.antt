-- ===== src/Controllers/Moving.antt =====
-- What one item of a controller's queue does to the pool.
use k8s_swarm.Prelude.{
  Option, none, some, ◌≡◌, inl, inr, refl, subst, arith, Bytes, Option-cases, Bool-cases,
}
use k8s_swarm.Pool.{Pool}
use k8s_swarm.Pool.System.{here}
use k8s_swarm.Operator.{Event, Indexed, Call, handle}
use k8s_swarm.Operator.Queues.{
  Queue, Controller, Item, an_event, not_event, Got, shut_down, got, process_event, process_item,
  process_next_item,
}
use k8s_swarm.Pod.Steps.{
  dispatch_pod, dispatch_stateful_set, Run, pod_call, stateful_set_call, pod_call-Reach,
  stateful_set_call-Reach,
}
use k8s_swarm.Controllers.{handle_on}
use k8s_swarm.Controllers.Composing.{Sends, nothing, Reach-Sends}

-- What a call may make of the pool of a controller with these jobs and this label.
pub data Moves (parse_ip : Bytes → Bytes) (fresh : Pool) (o r : Option Pool) : Type 0 where
  lost : r ≡ none → Moves parse_ip fresh o r
  moved :
      (p q : Pool)
      → o ≡ some p
      → r ≡ some q
      → (Run parse_ip fresh p → Run parse_ip fresh q)
      → Sends p q
      → Moves parse_ip fresh o r

module _ (parse_ip : Bytes → Bytes) (fresh : Pool) where
  keeps-Moves : (o : Option Pool) → Moves parse_ip fresh o o
  keeps-Moves none = lost refl
  keeps-Moves (some p) = moved p p refl refl (λ r. r) (nothing refl refl)

  pub pod-Moves : (p : Pool) (c : Call) → Moves parse_ip fresh (some p) (dispatch_pod parse_ip p c)
  pod-Moves p c = elim (Option-cases (dispatch_pod parse_ip p c)) [
    | inl e ↦ lost e
    | inr (q, e) ↦
        moved p q refl e (λ r. pod_call c r e) (Reach-Sends (pod_call-Reach parse_ip c e here))
  ]

  pub stateful_set-Moves :
      (p : Pool) (c : Call) → Moves parse_ip fresh (some p) (dispatch_stateful_set p c)
  stateful_set-Moves p c = elim (Option-cases (dispatch_stateful_set p c)) [
    | inl e ↦ lost e
    | inr (q, e) ↦
        moved p q refl e (λ r. stateful_set_call c r e)
          (Reach-Sends (stateful_set_call-Reach c e here))
  ]

  module _ (dispatch : Pool → Call → Option Pool)
      (moves : (p : Pool) (c : Call) → Moves parse_ip fresh (some p) (dispatch p c))
      (get_by_key : Bytes → Indexed) where
    handled-Moves :
        (e : Event) (o : Option Pool)
        → Moves parse_ip fresh o (handle_on dispatch get_by_key e o).state
    unfolding handle_on
    handled-Moves e none = lost refl
    handled-Moves e (some p) = elim (Option-cases (handle get_by_key e)) [
      | inl failed ↦ rw (failed, handle_on) (keeps-Moves (some p))
      | inr (c, called) ↦ rw (called, handle_on) (moves p c)
    ]

    module _ {Q : Type 0} (calls : Queue Event Q) where
      item-Moves :
          (i : Item Event) (queue : Q) (o : Option Pool)
          → Moves parse_ip fresh o
              (process_item calls (handle_on dispatch get_by_key) i queue o).state
      unfolding process_item process_event
      item-Moves not_event queue o = keeps-Moves o
      item-Moves (an_event e) queue o =
          elim (Bool-cases (handle_on dispatch get_by_key e o).failed) [
            | inl failed ↦ rw (failed, process_item, process_event) (handled-Moves e o)
            | inr fine ↦ rw (fine, process_item, process_event) (handled-Moves e o)
          ]

      got-Moves :
          (g : Got (Item Event) Q) (queue : Q) (o : Option Pool) (c : Controller Q (Option Pool))
          → calls.get queue ≡ g
          → process_next_item calls
              (handle_on dispatch get_by_key)
              (record { queue = queue; state = o })
            ≡ some c
          → Moves parse_ip fresh o c.state
      unfolding process_next_item
      got-Moves shut_down queue o c e h = absurd (ground arith)
      got-Moves (got i rest) queue o c e h =
          subst (λ (c : Controller Q (Option Pool)). Moves parse_ip fresh o c.state)
            {x = process_item calls (handle_on dispatch get_by_key) i rest o} {y = c} (ground arith)
            (item-Moves i rest o)

      pub next-Moves :
          (queue : Q) (o : Option Pool) (c : Controller Q (Option Pool))
          → process_next_item calls
              (handle_on dispatch get_by_key)
              (record { queue = queue; state = o })
            ≡ some c
          → Moves parse_ip fresh o c.state
      next-Moves queue o c h = got-Moves (calls.get queue) queue o c refl h
