-- ===== src/Pool/System.antt =====
-- The pool as a transition system: its methods and the ends of its restarts, in any order.
use k8s_swarm.Prelude.{ℕ, some, Bool, true, false, ◌≡◌, Bytes}
use k8s_swarm.Pool.{
  Pool, update_expected_size, add_worker_if_not_exists, remove_worker_by_name, terminate,
  conciliate, among_restarts, request_restart,
}

-- What may happen to a pool. The conciliation loop runs until `Terminate`; a restart ends only if it
-- was started, and succeeds or fails.
pub data Step (p : Pool) : Pool → Type 0 where
  resize : {q : Pool} (new_size : ℕ) → update_expected_size p new_size ≡ some q → Step p q
  join : (idx : ℕ) (name ip : Bytes) → Step p (add_worker_if_not_exists p idx name ip).0
  leave : (name : Bytes) → Step p (remove_worker_by_name p name)
  tick : p.stopped ≡ false → Step p (conciliate p)
  restart :
      (ptr : ℕ) (restarted : Bool)
      → among_restarts ptr p.restarting ≡ true
      → Step p (request_restart p ptr restarted)
  stop : {q : Pool} → terminate p ≡ some q → Step p q

pub data Reach (p : Pool) : Pool → Type 0 where
  here : Reach p p
  next : {q r : Pool} → Reach p q → Step q r → Reach p r
