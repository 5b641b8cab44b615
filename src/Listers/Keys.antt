-- ===== src/Listers/Keys.antt =====
-- The keys of the indexer: a namespace, a slash and a name.
use k8s_swarm.Prelude.{ℕ, [], ◌∷◌, ◌++◌, ◌≡◌, refl, ap, ◌∙◌, arith, Bytes}
use k8s_swarm.Text.RoundTrip.{Lacks}
use mathlib.Core.List.{head-eq_of_cons-eq, tail-eq_of_cons-eq}

-- A text is cut at its first separator.
pub cut :
    (sep : ℕ) (s t u v : Bytes)
    → Lacks sep s
    → Lacks sep t
    → s ++ sep ∷ u ≡ t ++ sep ∷ v
    → (s ≡ t) × (u ≡ v)
cut sep [] [] u v l m e = (refl, tail-eq_of_cons-eq e)
cut sep [] (d ∷ t) u v l m e =
    let h : sep ≡ d = head-eq_of_cons-eq e in absurd (ground (arith, m.0, h))
cut sep (c ∷ s) [] u v l m e =
    let h : c ≡ sep = head-eq_of_cons-eq e in absurd (ground (arith, l.0, h))
cut sep (c ∷ s) (d ∷ t) u v l m e =
    let h : c ≡ d = head-eq_of_cons-eq e in
    let (same, rest) = cut sep s t u v l.1 m.1 (tail-eq_of_cons-eq e) in
    (ap (λ x. x ∷ s) h ∙ ap (λ r. d ∷ r) same, rest)
