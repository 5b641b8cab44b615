-- ===== src/Controllers/External/Simulation.antt =====
-- The external command as a transition system, beside the internal one.
use k8s_swarm.Prelude.{
  ℕ, List, [], ◌∷◌, ◌++◌, Option, some, Bool, ◌≡◌, inl, inr, refl, sym, subst, ◌∙◌, arith, Bytes,
  Dict, Option-cases,
}
use k8s_swarm.Config.{Job}
use k8s_swarm.Objects.{SwarmObject, Object, pod, stateful_set, swarm, unknown}
use k8s_swarm.Operator.{
  Event, Delivery, panics, skipped, queued, nop_validate, Indexed, Call, handle,
}
use k8s_swarm.Operator.Typing.{
  EventOf, CallOf, DeliveryOf, add-DeliveryOf, update-DeliveryOf, delete-DeliveryOf, handle-CallOf,
}
use k8s_swarm.Operator.Queues.{Queue, process_next_item}
use k8s_swarm.Operator.Contents.{Contents, QueueOf, HandledOf, add-QueueOf, next-QueueOf}
use k8s_swarm.Storage.{Storage}
use k8s_swarm.Storage
use k8s_swarm.SwarmHandler
use k8s_swarm.SwarmHandler.{Output, dispatch_swarm}
use k8s_swarm.Controllers.{System, run_command, Notice, added, deleted, updated}
use k8s_swarm.Controllers.Stepping.{Step}
use k8s_swarm.Controllers.Typing.{NoticeOf}
use k8s_swarm.Controllers.Safety.{IsTyped, TypedReached, begun, further}
use k8s_swarm.Controllers.External.{
  External, run_external, notify_swarm, handle_swarm, deliver_swarm, printed, process_swarms,
}

abbrev pub IsSwarm : Object → Type 0
IsSwarm (pod p) = ⊥
IsSwarm (stateful_set s) = ⊥
IsSwarm (swarm name) = Unit
IsSwarm unknown = ⊥

notify_swarm-DeliveryOf :
    (key_of deletion_key_of : Object → Option Bytes) (n : Notice)
    → NoticeOf IsSwarm n
    → DeliveryOf IsSwarm (notify_swarm key_of deletion_key_of n)
unfolding notify_swarm
notify_swarm-DeliveryOf key_of deletion_key_of (added d) h =
    add-DeliveryOf IsSwarm nop_validate key_of d h
notify_swarm-DeliveryOf key_of deletion_key_of (deleted d) h =
    delete-DeliveryOf IsSwarm nop_validate deletion_key_of d h
notify_swarm-DeliveryOf key_of deletion_key_of (updated old new) (h, k) =
    update-DeliveryOf IsSwarm nop_validate key_of old new h k

module _ (diff : (old new : SwarmObject) → List ℕ) (is_graphic : ℕ → Bool) where
  dispatch_swarm-returns :
      (c : Call)
      → CallOf IsSwarm c
      → (line : Output) × (dispatch_swarm diff is_graphic c ≡ some line)
  unfolding dispatch_swarm SwarmHandler.created SwarmHandler.updated SwarmHandler.deleted
  dispatch_swarm-returns (Call.created (swarm s)) h = (_, refl)
  dispatch_swarm-returns (Call.created (pod s)) h = elim h [ ]
  dispatch_swarm-returns (Call.created (stateful_set s)) h = elim h [ ]
  dispatch_swarm-returns (Call.created unknown) h = elim h [ ]
  dispatch_swarm-returns (Call.updated (swarm s) (swarm t)) h = (_, refl)
  dispatch_swarm-returns (Call.updated (swarm s) (pod t)) h = elim h.1 [ ]
  dispatch_swarm-returns (Call.updated (swarm s) (stateful_set t)) h = elim h.1 [ ]
  dispatch_swarm-returns (Call.updated (swarm s) unknown) h = elim h.1 [ ]
  dispatch_swarm-returns (Call.updated (pod s) old) h = elim h.0 [ ]
  dispatch_swarm-returns (Call.updated (stateful_set s) old) h = elim h.0 [ ]
  dispatch_swarm-returns (Call.updated unknown old) h = elim h.0 [ ]
  dispatch_swarm-returns (Call.deleted (swarm s)) h = (_, refl)
  dispatch_swarm-returns (Call.deleted (pod s)) h = elim h [ ]
  dispatch_swarm-returns (Call.deleted (stateful_set s)) h = elim h [ ]
  dispatch_swarm-returns (Call.deleted unknown) h = elim h [ ]

  module _ (get_by_key : Bytes → Indexed) where
    handle_swarm-returns :
        (x : Event) (out : List Output)
        → EventOf IsSwarm x
        → (out' : List Output) × ((handle_swarm diff is_graphic get_by_key x (some out)).state
            ≡ some out')
    unfolding handle_swarm
    handle_swarm-returns x out h = elim (Option-cases (handle get_by_key x)) [
      | inl failed ↦ (out, rw (failed, handle_swarm))
      | inr (c, called) ↦
          let (line, e) =
            dispatch_swarm-returns c (handle-CallOf IsSwarm get_by_key x c h called) in
          (out ++ line ∷ [], rw (called, handle_swarm) (rw e refl))
    ]

    module _ {Q : Type 0} (calls : Queue Event Q) (inside : Event → Q → Type 0)
        (contents : Contents calls inside) where
      handled_swarm-returns :
          (out : List Output) (o : Option (List Output))
          → HandledOf calls inside contents IsSwarm
              (handle_swarm diff is_graphic get_by_key)
              (some out)
              o
          → (out' : List Output) × (o ≡ some out')
      handled_swarm-returns out o (inl same) = (out, same)
      handled_swarm-returns out o (inr (x, h, handled)) =
          let (out', e) = handle_swarm-returns x out h in (out', handled ∙ e)

module _ {Q W R : Type 0} (calls : Queue Event Q) (store : Storage W)
    (refresh : Bytes → W → Storage.Call W (Unit {0})) (parse_ip : Bytes → Bytes)
    (get_labels : Object → Option (Dict Bytes)) (key_of deletion_key_of : Object → Option Bytes)
    (watch_label : Bytes) (read : W → R) (safe : W → Type 0)
    (diff : (old new : SwarmObject) → List ℕ) (is_graphic : ℕ → Bool) where
  -- The two controllers take a step, or the informer of Swarms delivers, or their controller works off an
  -- item. Each informer delivers objects of its kind and misses no deletion.
  pub data ExternalReached (e : External Q W) : External Q W → Type 0 where
    launched : ExternalReached e e
    inner :
        {f : External Q W} {t : System Q W}
        → ExternalReached e f
        → (st : Step calls store refresh parse_ip get_labels key_of deletion_key_of watch_label read
            f.controllers t)
        → IsTyped calls store refresh parse_ip get_labels key_of deletion_key_of watch_label read
            safe st
        → ExternalReached e (record f { controllers = t })
    swarm_notice :
        {f : External Q W} (n : Notice)
        → ExternalReached e f
        → NoticeOf IsSwarm n
        → ExternalReached e (deliver_swarm calls (notify_swarm key_of deletion_key_of n) f)
    swarm_item :
        (get_by_key : Bytes → Indexed) {f g : External Q W}
        → ExternalReached e f
        → process_swarms calls diff is_graphic get_by_key f ≡ some g
        → ExternalReached e g

  module _ (inside : Event → Q → Type 0) (contents : Contents calls inside) where
    abbrev SwarmQueue : Q → Type 0
    SwarmQueue q = QueueOf calls inside contents IsSwarm q

    delivered-SwarmQueue :
        (d : Delivery) (f : External Q W)
        → DeliveryOf IsSwarm d
        → SwarmQueue f.swarms
        → SwarmQueue (deliver_swarm calls d f).swarms
          × ((deliver_swarm calls d f).controllers ≡ f.controllers)
    unfolding deliver_swarm
    delivered-SwarmQueue panics f h v = elim h [ ]
    delivered-SwarmQueue skipped f h v = (v, refl)
    delivered-SwarmQueue (queued x) f h v =
        (add-QueueOf calls inside contents IsSwarm x f.swarms h v, refl)

    processed-SwarmQueue :
        (swarm_by_key : Bytes → Indexed) (f g : External Q W)
        → process_swarms calls diff is_graphic swarm_by_key f ≡ some g
        → SwarmQueue f.swarms
        → SwarmQueue g.swarms × (g.controllers ≡ f.controllers)
    unfolding process_swarms printed
    processed-SwarmQueue swarm_by_key f g e v =
        elim (Option-cases (
          process_next_item calls (handle_swarm diff is_graphic swarm_by_key)
            (record { queue = f.swarms; state = some f.output }))) [
              | inl shut ↦ absurd (ground arith)
              | inr (c, next) ↦
                  let (queue, handled) =
                    next-QueueOf calls inside contents IsSwarm
                      (handle_swarm diff is_graphic swarm_by_key) f.swarms (some f.output) c next
                      v in
                  let (out, lines) =
                    handled_swarm-returns diff is_graphic swarm_by_key calls inside contents
                      f.output c.state handled in
                  subst
                    (λ (g : External Q W). SwarmQueue g.swarms × (g.controllers ≡ f.controllers))
                    {x = record f { swarms = c.queue; output = out }} {y = g} (ground arith)
                    (queue, refl)
            ]

    module _ (jobs : List Job) (empty : Q) (w : W)
        (nothing_in : (x : Event) → ¬ inside x empty) where
      simulated :
          {e : External Q W}
          → ExternalReached (run_external jobs watch_label empty w) e
          → TypedReached calls store refresh parse_ip get_labels key_of deletion_key_of watch_label
              read safe
              (run_command jobs watch_label empty w)
              e.controllers
            × SwarmQueue e.swarms
      unfolding run_external
      simulated launched = (begun, λ x m. absurd (nothing_in x m))
      simulated (inner r st h) = let (t, v) = simulated r in (further t st h, v)
      simulated (swarm_notice {f} n r h) =
          let (t, v) = simulated r in
          let (v', same) =
            delivered-SwarmQueue (notify_swarm key_of deletion_key_of n) f
              (notify_swarm-DeliveryOf key_of deletion_key_of n h) v in
          (subst (TypedReached _ _ _ _ _ _ _ _ _ _ _) (sym same) t, v')
      simulated (swarm_item get_by_key {f} {g} r e) =
          let (t, v) = simulated r in
          let (v', same) = processed-SwarmQueue get_by_key f g e v in
          (subst (TypedReached _ _ _ _ _ _ _ _ _ _ _) (sym same) t, v')

      -- The external command is the internal one with a third controller that only prints: the queue
      -- hands out only what was added to it, and is empty at first; and each informer delivers objects of
      -- its kind, with no tombstone, and changes elsewhere leave the cluster `safe`, whatever that asks;
      -- what an indexer answers may differ at each item. Then each state that the external command reaches has, without its
      -- queue of Swarms and its output, a state of the two controllers that they reach by themselves.
      pub external_simulates :
          {e : External Q W}
          → ExternalReached (run_external jobs watch_label empty w) e
          → TypedReached calls store refresh parse_ip get_labels key_of deletion_key_of watch_label
              read safe
              (run_command jobs watch_label empty w)
              e.controllers
      external_simulates r = (simulated r).0
