-- ===== src/Storage/Chain.antt =====
-- When the two chained storages store an assignment.
use k8s_swarm.Prelude.{◌≡◌, ◌↔◌, ◌⊎◌, inl, inr, refl, arith}
use k8s_swarm.Config.{Workloads}
use k8s_swarm.Storage.{Outcome, stored, refused, panicked, Storage, set_both}

module _ {W : Type 0} (prev next : Storage W) (a : Workloads) (w v : W) where
  split_stored :
      (r : Outcome W)
      → prev a w ≡ r
      → set_both prev next a w ≡ stored v
      → (u : W) × (prev a w ≡ stored u) × (next a u ≡ stored v)
  unfolding set_both
  split_stored (stored u) e h = (u, e, ground arith)
  split_stored (refused u) e h = absurd (ground arith)
  split_stored (panicked u) e h = absurd (ground arith)

  split_refused :
      (r : Outcome W)
      → prev a w ≡ r
      → set_both prev next a w ≡ refused v
      → (prev a w ≡ refused v) ⊎ ((u : W) × (prev a w ≡ stored u) × (next a u ≡ refused v))
  unfolding set_both
  split_refused (stored u) e h = inr (u, e, ground arith)
  split_refused (refused u) e h = inl (ground arith)
  split_refused (panicked u) e h = absurd (ground arith)

  join_refused :
      (prev a w ≡ refused v) ⊎ ((u : W) × (prev a w ≡ stored u) × (next a u ≡ refused v))
      → set_both prev next a w ≡ refused v
  unfolding set_both
  join_refused (inl e) = ground arith
  join_refused (inr (u, e, f)) = ground arith

  -- A `Set` of the two chained storages returns no error exactly if the first's does and then the
  -- second's, on the cluster that the first left. It returns an error exactly if the first's does or the
  -- second's after it: the cluster then is the one that the second left, with the first's write in it.
  pub set_both-outcomes :
      ((set_both prev next a w ≡ stored v)
        ↔ ((u : W) × (prev a w ≡ stored u) × (next a u ≡ stored v)))
      × ((set_both prev next a w ≡ refused v)
          ↔ ((prev a w ≡ refused v) ⊎ ((u : W) × (prev a w ≡ stored u) × (next a u ≡ refused v))))
  unfolding set_both
  set_both-outcomes = (
    (split_stored (prev a w) refl, λ (u, e, f). ground arith),
    (split_refused (prev a w) refl, join_refused),
  )
