-- ===== src/Pool/Restarting.antt =====
-- Which restarts `conciliate` starts: services/controller/internal/app/swarm/pool.go.
use mathlib.Core.List.{Permᴰ}
use k8s_swarm.Prelude.{ℕ, List, ◌++◌, true, ◌≡◌, ◌≢◌, inr, refl, sym, subst}
use k8s_swarm.Pool.{Pool, get_all_workers, to_restart, conciliate}
use k8s_swarm.Pool.Conciliation.{conciliate_idle, conciliate_busy}
use k8s_swarm.Pool.Members.{
  members, get_all_workers-members, stale_pointers, to_restart-stale_pointers, stale_pointers-perm,
}

-- In a variation of a pool that expects workers, `conciliate` adds to the restarts that run one for each
-- entry of the index whose worker needs a refresh, and no other; a second call starts nothing.
pub conciliate_restarts :
    (p : Pool)
    → p.expected_size ≢ 0
    → p.under_variation ≡ true
    → ((new : List ℕ) × ((conciliate p).restarting ≡ p.restarting ++ new)
        × Permᴰ new (stale_pointers (members p.heap p.index)))
      × (conciliate (conciliate p) ≡ conciliate p)
conciliate_restarts p sized varies = rw (conciliate_busy p sized varies) (
  (
    to_restart (get_all_workers p),
    refl,
    subst (λ xs. Permᴰ xs (stale_pointers (members p.heap p.index)))
        (sym (to_restart-stale_pointers (get_all_workers p)))
        (stale_pointers-perm (get_all_workers-members p).1),
  ),
  conciliate_idle _ (inr refl),
)
