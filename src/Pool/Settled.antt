-- ===== src/Pool/Settled.antt =====
-- Restarts that have failed are not tried again.
use k8s_swarm.Prelude.{
  ℕ, List, [], ◌∷◌, some, true, false, ◌≡◌, inl, inr, refl, ap, ◌∙◌, subst, arith, ◌==◌, Bool-cases,
}
use k8s_swarm.Pool.{
  Pool, among_restarts, finish, request_restart, update_expected_size, add_worker_if_not_exists,
  remove_worker_by_name, terminate,
}
use k8s_swarm.Pool.System.{Step, resize, join, leave, tick, restart, stop}
use k8s_swarm.Pool.Conciliation.{conciliate_idle}

-- One step in which the expected size stays the same.
pub data Calm (p : Pool) : Pool → Type 0 where
  here : Calm p p
  next : {q r : Pool} → Calm p q → Step q r → r.expected_size ≡ q.expected_size → Calm p r

among_restarts-finish :
    (ptr other : ℕ) (qs : List ℕ)
    → among_restarts ptr qs ≡ false
    → among_restarts ptr (finish other qs) ≡ false
unfolding among_restarts finish
among_restarts-finish ptr other [] h = refl
among_restarts-finish ptr other (q ∷ qs) h = ground (arith, among_restarts-finish ptr other qs)

-- The variation is over, and no restart of the worker runs.
pub record IsSettled (ptr : ℕ) (p : Pool) : Type 0 where
  pub over : p.under_variation ≡ false
  pub idle : among_restarts ptr p.restarting ≡ false

update_expected_size_same :
    (p : Pool) {q : Pool} (new_size : ℕ)
    → update_expected_size p new_size ≡ some q
    → q.expected_size ≡ p.expected_size
    → p ≡ q
unfolding update_expected_size
update_expected_size_same p {q} new_size e same = elim (Bool-cases (p.expected_size == new_size)) [
  | inl known ↦ ground arith
  | inr news ↦ absurd (ground arith)
]

-- What starts no restart keeps a worker settled.
restarts_kept-IsSettled :
    (ptr : ℕ) (p q : Pool)
    → q.under_variation ≡ p.under_variation
    → q.restarting ≡ p.restarting
    → IsSettled ptr p
    → IsSettled ptr q
restarts_kept-IsSettled ptr p q v r s = record {
  over = v ∙ s.over;
  idle = ap (among_restarts ptr) r ∙ s.idle;
}

Step-IsSettled :
    (ptr : ℕ) {p q : Pool}
    → Step p q
    → q.expected_size ≡ p.expected_size
    → IsSettled ptr p
    → IsSettled ptr q
unfolding add_worker_if_not_exists remove_worker_by_name request_restart terminate
Step-IsSettled ptr {p} (resize new_size e) same s =
    subst (IsSettled ptr) (update_expected_size_same p new_size e same) s
Step-IsSettled ptr {p} (join idx name ip) same s =
    restarts_kept-IsSettled ptr p _ (ground arith) (ground arith) s
Step-IsSettled ptr {p} (leave name) same s = restarts_kept-IsSettled ptr p _ refl refl s
Step-IsSettled ptr {p} (tick running) same s = rw (conciliate_idle p (inr s.over)) s
Step-IsSettled ptr {p} (restart other true started) same s = record {
  over = s.over;
  idle = among_restarts-finish ptr other p.restarting s.idle;
}
Step-IsSettled ptr {p} (restart other false started) same s = record {
  over = s.over;
  idle = among_restarts-finish ptr other p.restarting s.idle;
}
Step-IsSettled ptr {p} {q} (stop e) same s =
    restarts_kept-IsSettled ptr p q (ground arith) (ground arith) s

-- A restart that has failed is not tried again: once a variation is over and no restart of a worker
-- runs, none is started until the expected size changes, though the worker may still be marked.
pub Calm-IsSettled : (ptr : ℕ) {p q : Pool} → Calm p q → IsSettled ptr p → IsSettled ptr q
Calm-IsSettled ptr here s = s
Calm-IsSettled ptr (next r st same) s = Step-IsSettled ptr st same (Calm-IsSettled ptr r s)

pub request_restart_failed :
    (p : Pool) (ptr : ℕ)
    → p.under_variation ≡ false
    → p.restarting ≡ ptr ∷ []
    → IsSettled ptr (request_restart p ptr false) × ((request_restart p ptr false).heap ≡ p.heap)
unfolding request_restart finish among_restarts
request_restart_failed p ptr over one = (record { over = over; idle = rw one (ground arith) }, refl)
