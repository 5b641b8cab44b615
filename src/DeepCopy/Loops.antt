-- ===== src/DeepCopy/Loops.antt =====
-- The loops over arrays copy each element.
use k8s_swarm.Prelude.{List, [], ◌∷◌, Option, some, ◌≡◌, refl, ap, subst, ◌∙◌}
use k8s_swarm.DeepCopy.{Memory, Copied, copy_all, read_all}
use k8s_swarm.DeepCopy.Extending.{
  extend, extend_assoc, SameSize-extend, nothing, extend-nothing, Stable, Copies, >>=-eq-some,
}

module _ {M X V : Type 0} (read : Memory M → X → Option V) where
  pub read_all-Stable : Stable read → Stable (λ mem xs. read_all (read mem) xs)
  unfolding read_all
  read_all-Stable st mem more [] vs e = e
  read_all-Stable st mem more (x ∷ xs) vs e =
      let (v, e1, e2) = >>=-eq-some (read mem x) _ e in
      let (ws, e3, e4) = >>=-eq-some (read_all (read mem) xs) _ e2 in
      rw (st mem more x v e1, read_all-Stable st mem more xs ws e3) e4

module _ {M X V : Type 0} (copy : X → Memory M → Copied M X) (read : Memory M → X → Option V) where
  copy_all-cons :
      (x x' : X) (xs xs' : List X) (mem n1 n2 : Memory M)
      → copy x mem ≡ some (x', extend mem n1)
      → copy_all copy xs (extend mem n1) ≡ some (xs', extend (extend mem n1) n2)
      → copy_all copy (x ∷ xs) mem ≡ some (x' ∷ xs', extend mem (extend n1 n2))
  unfolding copy_all
  copy_all-cons x x' xs xs' mem n1 n2 c cs =
      rw (c, cs) (ap (λ m. some (x' ∷ xs', m)) (extend_assoc mem n1 n2))

  read_all-cons :
      (x' : X) (xs' : List X) (old n1 n2 : Memory M) (v : V) (vs : List V)
      → Stable read
      → read (extend old n1) x' ≡ some v
      → read_all (read (extend (extend old n1) n2)) xs' ≡ some vs
      → read_all (read (extend old (extend n1 n2))) (x' ∷ xs') ≡ some (v ∷ vs)
  unfolding read_all
  read_all-cons x' xs' old n1 n2 v vs st r rs =
      subst (λ m. read_all (read m) (x' ∷ xs') ≡ some (v ∷ vs)) (extend_assoc old n1 n2)
        (rw (st (extend old n1) n2 x' v r, rs) refl)

  pub copy_all-Copies :
      Stable read → Copies copy read → Copies (copy_all copy) (λ mem xs. read_all (read mem) xs)
  unfolding copy_all read_all
  copy_all-Copies st ok [] vs mem old s e =
      ([], nothing, ap (λ m. some ([], m)) (extend-nothing mem), e)
  copy_all-Copies st ok (x ∷ xs) vs mem old s e =
      let (v, e1, e2) = >>=-eq-some (read mem x) _ e in
      let (ws, e3, e4) = >>=-eq-some (read_all (read mem) xs) _ e2 in
      let (x', n1, c1, r1) = ok x v mem old s e1 in
      let (xs', n2, c2, r2) =
        copy_all-Copies st ok xs ws (extend mem n1) (extend old n1) (SameSize-extend old mem n1 s)
          (read_all-Stable read st mem n1 xs ws e3) in
      (
        x' ∷ xs',
        extend n1 n2,
        copy_all-cons x x' xs xs' mem n1 n2 c1 c2,
        read_all-cons x' xs' old n1 n2 v ws st r1 r2 ∙ e4,
      )
