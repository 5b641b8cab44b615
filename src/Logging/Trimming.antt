-- ===== src/Logging/Trimming.antt =====
-- The callers' names and files in the log: CallerPrettyfier of formatter.go.
use k8s_swarm.Prelude.{
  ℕ, suc, ◌+◌, [], ◌∷◌, ◌++◌, none, some, ◌≡◌, ◌⊎◌, inl, inr, refl, ap, subst, arith, Bytes, drop,
  Option-cases,
}
use k8s_swarm.Text.RoundTrip.{Lacks}
use k8s_swarm.Logging.{last_index_any, trim_path}

-- `t` is what stands behind the last `sep` of `s`, or all of `s`.
abbrev pub IsBehindLast : ℕ → Bytes → Bytes → Type 0
IsBehindLast sep s t = Lacks sep t × ((s ≡ t) ⊎ ((before : Bytes) × (s ≡ before ++ sep ∷ t)))

Lacks-last_index_any : (sep : ℕ) (s : Bytes) → last_index_any sep s ≡ none → Lacks sep s
unfolding last_index_any
Lacks-last_index_any sep [] e = tt
Lacks-last_index_any sep (c ∷ s) e = elim (Option-cases (last_index_any sep s)) [
  | inl out ↦ (ground arith, Lacks-last_index_any sep s out)
  | inr (i, found) ↦ absurd (ground arith)
]

-- The text splits at a separator in front of its last part, from position `n` on.
abbrev SplitsAt : ℕ → Bytes → ℕ → Type 0
SplitsAt sep s n = Lacks sep (drop n s) × ((before : Bytes) × (s ≡ before ++ sep ∷ drop n s))

drop-last_index_any :
    (sep i : ℕ) (s : Bytes) → last_index_any sep s ≡ some i → SplitsAt sep s (i + 1)
unfolding last_index_any
drop-last_index_any sep i [] e = absurd (ground arith)
drop-last_index_any sep i (c ∷ s) e = elim (Option-cases (last_index_any sep s)) [
  | inl out ↦
      let here : SplitsAt sep (c ∷ s) 1 =
        (Lacks-last_index_any sep s out, ([], ap (λ x. x ∷ s) {x = c} {y = sep} (ground arith))) in
      subst (SplitsAt sep (c ∷ s)) {x = 1} {y = i + 1} (ground arith) here
  | inr (j, found) ↦
      let (lacks, split) = drop-last_index_any sep j s found in
      let behind : SplitsAt sep (c ∷ s) (suc (j + 1)) =
        (lacks, (c ∷ split.0, ap (λ x. c ∷ x) split.1)) in
      subst (SplitsAt sep (c ∷ s)) {x = suc (j + 1)} {y = i + 1} (ground arith) behind
]

-- The name of a caller, and its file, are what stands behind the last separator: the result has no
-- separator, and it is the whole text or follows a separator in it.
pub trim_path-IsBehindLast : (sep : ℕ) (s : Bytes) → IsBehindLast sep s (trim_path sep s)
unfolding trim_path
trim_path-IsBehindLast sep s = elim (Option-cases (last_index_any sep s)) [
  | inl out ↦ rw (out, trim_path) (Lacks-last_index_any sep s out, inl refl)
  | inr (i, found) ↦
      let (lacks, split) = drop-last_index_any sep i s found in
      rw (found, trim_path) (lacks, inr split)
]
