-- ===== src/SwarmHandler.antt =====
-- services/controller/internal/infra/k8s/operator/crd/handler.go: what the handler of Swarms logs and prints.
--
-- cmp.Diff is an argument, and so is unicode.IsGraphic, of a rune. A
-- text is its list of runes. A type assertion that does not hold panics: `none`.
use k8s_swarm.Prelude.{List, [], ◌∷◌, Option, none, some, Bool, true, false, not, ℕ, Bytes}
use mathlib.Core.List.{reverse}
use k8s_swarm.Objects.{Object, SwarmObject}
use k8s_swarm.Operator.{Call}

-- A line of the log, or of the standard output.
pub data Output : Type 0 where
  created_swarm deleted_swarm : SwarmObject → Output
  update_diff : Bytes → Output

unfoldable pub trim_left_func : (ℕ → Bool) → List ℕ → List ℕ
trim_left_func drops [] = []
trim_left_func drops (r ∷ s) = elim (drops r) [ true ↦ trim_left_func drops s | false ↦ r ∷ s ]

-- strings.TrimFunc.
unfoldable pub trim_func : (ℕ → Bool) → List ℕ → List ℕ
trim_func drops s = reverse (trim_left_func drops (reverse (trim_left_func drops s)))

unfoldable pub created : Object → Option Output
created (Object.swarm sw) = some (created_swarm sw)
created (Object.pod p) = none
created (Object.stateful_set s) = none
created Object.unknown = none

unfoldable pub deleted : Object → Option Output
deleted (Object.swarm sw) = some (deleted_swarm sw)
deleted (Object.pod p) = none
deleted (Object.stateful_set s) = none
deleted Object.unknown = none

module _ (diff : (old new : SwarmObject) → List ℕ) (is_graphic : ℕ → Bool) where
  updated_from : SwarmObject → Object → Option Output
  updated_from swn (Object.swarm swo) =
      some (update_diff (trim_func (λ r. not (is_graphic r)) (diff swo swn)))
  updated_from swn (Object.pod p) = none
  updated_from swn (Object.stateful_set s) = none
  updated_from swn Object.unknown = none

  -- `Updated`, with the assertions on the new object and then on the old one.
  unfoldable pub updated : Object → Object → Option Output
  unfolding updated_from
  updated (Object.swarm swn) old = updated_from swn old
  updated (Object.pod p) old = none
  updated (Object.stateful_set s) old = none
  updated Object.unknown old = none

  -- The handler of Swarms behind its processor.
  unfoldable pub dispatch_swarm : Call → Option Output
  dispatch_swarm (Call.created o) = created o
  dispatch_swarm (Call.updated new old) = updated new old
  dispatch_swarm (Call.deleted o) = deleted o
