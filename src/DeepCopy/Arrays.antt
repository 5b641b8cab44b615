-- ===== src/DeepCopy/Arrays.antt =====
-- New arrays, and what is read through them.
use mathlib.Core.List.{append-nil, append_assoc}
use k8s_swarm.Prelude.{
  ℕ, ◌+◌, List, [], ◌∷◌, ◌++◌, none, some, ◌≡◌, ap, subst, ◌∙◌, arith, length, get_elem?,
  get_elem?-append, ◌>>=◌,
}
use k8s_swarm.DeepCopy.{
  Slice, MemberObject, SwarmObject, Memory, copy_jobs, read_slice, read_all, read_member, read_spec,
  read_swarm, MemberView, SwarmView,
}
use k8s_swarm.DeepCopy.Extending.{
  extend, SameSize, extend_assoc, SameSize-extend, nothing, extend-nothing, get_elem?-append_some,
  Stable, Copies, >>=-eq-some,
}
use k8s_swarm.DeepCopy.Loops.{read_all-Stable}

read_slice-append :
    {X : Type 0} (xs ys : List (List X)) (slice : Slice) (v : List X)
    → read_slice xs slice ≡ some v
    → read_slice (xs ++ ys) slice ≡ some v
unfolding read_slice
read_slice-append xs ys none v e = e
read_slice-append xs ys (some ptr) v e = get_elem?-append_some xs ys ptr v e

get_elem?-append_last :
    {A : Type 0} (xs : List A) (a : A) (n : ℕ) → length xs ≡ n → get_elem? (xs ++ a ∷ []) n ≡ some a
get_elem?-append_last xs a n e =
    ap (get_elem? (xs ++ a ∷ [])) {x = n} {y = length xs + 0} (omega arith)
    ∙ get_elem?-append xs (a ∷ []) 0

module _ (M : Type 0) where
  pub read_member-Stable : Stable {M = M} read_member
  unfolding read_member
  read_member-Stable mem more m v e =
      let (jobs, e1, e2) = >>=-eq-some (read_slice mem.job_arrays m.jobs) _ e in
      rw (read_slice-append mem.job_arrays more.job_arrays m.jobs jobs e1) e2

  pub read_spec-Stable : Stable {M = M} read_spec
  unfolding read_spec
  read_spec-Stable mem more s v e =
      let (members, e1, e2) = >>=-eq-some (read_slice mem.member_arrays s.members) _ e in
      let (views, e3, e4) = >>=-eq-some (read_all (read_member mem) members) _ e2 in
      rw
        (
          read_slice-append mem.member_arrays more.member_arrays s.members members e1,
          read_all-Stable read_member read_member-Stable mem more members views e3,
        )
        e4

  pub copy_jobs-Copies : Copies {M = M} copy_jobs (λ mem slice. read_slice mem.job_arrays slice)
  unfolding copy_jobs read_slice
  copy_jobs-Copies none v mem old s e =
      (none, nothing, ap (λ m. some (none, m)) (extend-nothing mem), e)
  copy_jobs-Copies (some ptr) v mem old s e = (
    some (length mem.job_arrays),
    record { job_arrays = v ∷ []; member_arrays = []; swarm_arrays = [] },
    rw e (simp append-nil),
    get_elem?-append_last old.job_arrays v (length mem.job_arrays) s.jobs,
  )

  pub read_swarm-Stable : Stable {M = M} read_swarm
  unfolding read_swarm
  read_swarm-Stable mem more s v e =
      let (spec, e1, e2) = >>=-eq-some (read_spec mem s.spec) _ e in
      rw (read_spec-Stable mem more s.spec spec e1) e2

  abbrev pub member_array : List (MemberObject M) → Memory M
  member_array xs = record nothing { member_arrays = xs ∷ [] }

  pub copied-member_array :
      (mem n : Memory M) (xs : List (MemberObject M))
      → ◌≡◌ {A = Memory M}
          (record (extend mem n) { member_arrays = (extend mem n).member_arrays ++ xs ∷ [] })
          (extend mem (extend n (member_array xs)))
  copied-member_array mem n xs = simp (append-nil, append_assoc)

  pub read-member_array :
      (mem old n : Memory M) (xs : List (MemberObject M)) (vs : List (MemberView M))
      → SameSize old mem
      → read_all (read_member (extend old n)) xs ≡ some vs
      → (read_slice
            (extend old (extend n (member_array xs))).member_arrays
            (some (length (mem.member_arrays ++ n.member_arrays)))
          >>= λ ys. read_all (read_member (extend old (extend n (member_array xs)))) ys)
        ≡ some vs
  unfolding read_slice
  read-member_array mem old n xs vs s r =
      let last =
        subst (λ l. get_elem? l (length (mem.member_arrays ++ n.member_arrays)) ≡ some xs)
          (append_assoc old.member_arrays n.member_arrays (xs ∷ []))
          (get_elem?-append_last (old.member_arrays ++ n.member_arrays) xs
            (length (mem.member_arrays ++ n.member_arrays))
            (SameSize-extend old mem n s).members) in
      rw last (
        subst (λ m. read_all (read_member m) xs ≡ some vs) (extend_assoc old n (member_array xs))
          (read_all-Stable read_member read_member-Stable (extend old n) (member_array xs) xs vs r))

  abbrev pub swarm_array : List (SwarmObject M) → Memory M
  swarm_array xs = record nothing { swarm_arrays = xs ∷ [] }

  pub copied-swarm_array :
      (mem n : Memory M) (xs : List (SwarmObject M))
      → ◌≡◌ {A = Memory M}
          (record (extend mem n) { swarm_arrays = (extend mem n).swarm_arrays ++ xs ∷ [] })
          (extend mem (extend n (swarm_array xs)))
  copied-swarm_array mem n xs = simp (append-nil, append_assoc)

  pub read-swarm_array :
      (mem old n : Memory M) (xs : List (SwarmObject M)) (vs : List (SwarmView M))
      → SameSize old mem
      → read_all (read_swarm (extend old n)) xs ≡ some vs
      → (read_slice
            (extend old (extend n (swarm_array xs))).swarm_arrays
            (some (length (mem.swarm_arrays ++ n.swarm_arrays)))
          >>= λ ys. read_all (read_swarm (extend old (extend n (swarm_array xs)))) ys)
        ≡ some vs
  unfolding read_slice
  read-swarm_array mem old n xs vs s r =
      let last =
        subst (λ l. get_elem? l (length (mem.swarm_arrays ++ n.swarm_arrays)) ≡ some xs)
          (append_assoc old.swarm_arrays n.swarm_arrays (xs ∷ []))
          (get_elem?-append_last (old.swarm_arrays ++ n.swarm_arrays) xs
            (length (mem.swarm_arrays ++ n.swarm_arrays)) (SameSize-extend old mem n s).swarms) in
      rw last (
        subst (λ m. read_all (read_swarm m) xs ≡ some vs) (extend_assoc old n (swarm_array xs))
          (read_all-Stable read_swarm read_swarm-Stable (extend old n) (swarm_array xs) xs vs r))
