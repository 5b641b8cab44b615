-- ===== src/Controllers/Keeping.antt =====
-- What a call on the pool, and a step of the pool itself, leave of what was stored.
use k8s_swarm.Prelude.{
  List, Option, none, some, Bool, true, ◌≡◌, ◌⊎◌, inl, inr, refl, sym, ap, subst, ◌∙◌, arith, Bytes,
  KeysUnique,
}
use k8s_swarm.Config.{Job, Workloads}
use k8s_swarm.State.{State, new_state}
use k8s_swarm.State.Shares.{shares}
use k8s_swarm.Pool.{Pool, new_worker_pool}
use k8s_swarm.Pool.System.{Step}
use k8s_swarm.Operator.{Event}
use k8s_swarm.Operator.Queues.{Queue}
use k8s_swarm.Pod.Steps.{Run, own, Run-Inv}
use k8s_swarm.Storage.{Outcome, stored, refused, panicked, Storage}
use k8s_swarm.Storage
use k8s_swarm.Controllers.Moving.{Moves, lost, moved}
use k8s_swarm.Controllers.{System, sent_by, apply}
use k8s_swarm.Controllers.Composing.{sent_by-Sends, label-KeysUnique}

-- A storage that gives back the view of what it has stored, in a cluster where restarts leave it alone.
pub record IsKeeping {W R : Type 0} (store : Storage W)
    (refresh : Bytes → W → Storage.Call W (Unit {0})) (read : W → R) (view : Workloads → R)
    : Type 0 where
  pub read_store :
      (a : Workloads) (w v : W) → KeysUnique a.workloads → store a w ≡ stored v → read v ≡ view a
  pub read_refresh : (name : Bytes) (w : W) → read (refresh name w).cluster ≡ read w

module _ {W R : Type 0} (parse_ip : Bytes → Bytes) (jobs : List Job) (watch_label : Bytes)
    (read : W → R) (view : Workloads → R) where
  -- The pool is that of a run, and what was stored with no error is its assignment.
  pub data Kept : Option Pool → W → Bool → Type 0 where
    gone : {w : W} {b : Bool} → Kept none w b
    kept :
        {p : Pool} {w : W} {b : Bool}
        → Run parse_ip (new_worker_pool (new_state jobs watch_label)) p
        → (b ≡ true → read w ≡ view p.state.config)
        → Kept (some p) w b

  pub Run-of_Kept :
      {o : Option Pool} {w : W} {b : Bool} (p : Pool)
      → Kept o w b
      → o ≡ some p
      → Run parse_ip (new_worker_pool (new_state jobs watch_label)) p
  Run-of_Kept p gone e = absurd (ground arith)
  Run-of_Kept p (kept {p = q} r known) e =
      subst (Run parse_ip (new_worker_pool (new_state jobs watch_label))) {x = q} {y = p}
        (ground arith) r

  pub read-of_Kept :
      {o : Option Pool} {w : W} {b : Bool} (p : Pool)
      → Kept o w b
      → o ≡ some p
      → b ≡ true
      → read w ≡ view p.state.config
  read-of_Kept p gone e h = absurd (ground arith)
  read-of_Kept {w = w} p (kept {p = q} r known) e h =
      subst (λ (p : Pool). read w ≡ view p.state.config) {x = q} {y = p} (ground arith) (known h)

  module _ {Q : Type 0} (calls : Queue Event Q) (store : Storage W)
      (refresh : Bytes → W → Storage.Call W (Unit {0}))
      (keeping : IsKeeping store refresh read view) where
    abbrev pub KeptIn : System Q W → Type 0
    KeptIn s = Kept s.pool s.cluster s.stored

    KeysUnique-of_Run :
        (q : Pool)
        → Run parse_ip (new_worker_pool (new_state jobs watch_label)) q
        → KeysUnique q.state.config.workloads
    KeysUnique-of_Run q r =
        let v = Run-Inv parse_ip jobs watch_label r in
        subst KeysUnique (sym v.assigned) (
          label-KeysUnique q.state.set_name 0
            (shares q.state.jobs q.expected_size q.expected_size 0))

    stores :
        (s : System Q W) (a : Workloads) (v : W)
        → Storage.assign store a s.cluster ≡ stored v
        → store a s.cluster ≡ stored v
    unfolding Storage.assign
    stores s a v e = e

    assigned-Kept :
        (s : System Q W) (q : Pool) (a : Workloads) (o : Outcome W)
        → Run parse_ip (new_worker_pool (new_state jobs watch_label)) q
        → a ≡ q.state.config
        → Storage.assign store a s.cluster ≡ o
        → sent_by s.pool q ≡ some a
        → KeptIn (apply calls store s (some q))
    unfolding apply
    assigned-Kept s q a (stored v) r same e sent =
        rw (sent, e, apply)
          (kept r (λ h.
            keeping.read_store a s.cluster v (rw (same) (KeysUnique-of_Run q r)) (stores s a v e)
            ∙ ap view same))
    assigned-Kept s q a (refused v) r same e sent =
        rw (sent, e, apply) (kept r (λ h. absurd (ground arith)))
    assigned-Kept s q a (panicked v) r same e sent = rw (sent, e, apply) gone

    apply-Kept :
        (s : System Q W) (p q : Pool)
        → KeptIn s
        → s.pool ≡ some p
        → Run parse_ip (new_worker_pool (new_state jobs watch_label)) q
        → ((sent_by (some p) q ≡ none) × (q.state ≡ p.state))
          ⊎ (sent_by (some p) q ≡ some q.state.config)
        → KeptIn (apply calls store s (some q))
    unfolding apply
    apply-Kept s p q k e r (inl (silent, same)) =
        rw (ap (λ o. sent_by o q) e ∙ silent, apply)
          (kept r (λ h. read-of_Kept p k e h ∙ ap (λ (s : State). view s.config) (sym same)))
    apply-Kept s p q k e r (inr sent) =
        assigned-Kept s q q.state.config (Storage.assign store q.state.config s.cluster) r refl refl
          (ap (λ o. sent_by o q) e ∙ sent)

    pub moved-Kept :
        (s : System Q W) (r : Option Pool)
        → KeptIn s
        → Moves parse_ip (new_worker_pool (new_state jobs watch_label)) s.pool r
        → KeptIn (apply calls store s r)
    unfolding apply
    moved-Kept s r k (lost e) = rw (e, apply) gone
    moved-Kept s r k (moved p q e f run sends) =
        rw (f) (apply-Kept s p q k e (run (Run-of_Kept p k e)) (sent_by-Sends p q sends))

    pub own-Kept :
        (s : System Q W) (w : W) (p q : Pool)
        → KeptIn s
        → s.pool ≡ some p
        → Step p q
        → q.state ≡ p.state
        → read w ≡ read s.cluster
        → Kept (some q) w s.stored
    own-Kept s w p q k e st same unread =
        kept (own (Run-of_Kept p k e) st)
          (λ h. unread ∙ read-of_Kept p k e h ∙ ap (λ (s : State). view s.config) (sym same))
