-- ===== src/Informers/Starting.antt =====
-- What the loop of `Start` runs.
use k8s_swarm.Prelude.{
  ℕ, ◌+◌, List, [], ◌∷◌, ◌++◌, none, some, Bool, true, ◌≡◌, inl, inr, refl, ap, ◌∙◌, arith, Bytes,
  Dict, lookup, insert, lookup-insert, bytes_eq, bytes_eq_iff, ◌==◌, if◌then◌else◌, Bool-cases,
}
use k8s_swarm.Informers.{is_started, start_loop}
use k8s_swarm.Informers.Entries.{Lacks, Only}

-- How often an informer is run.
abbrev pub count : ℕ → List ℕ → ℕ
count h [] = 0
count h (x ∷ xs) = (if x == h then 1 else 0) + count h xs

count-append : (h : ℕ) (xs ys : List ℕ) → count h (xs ++ ys) ≡ count h xs + count h ys
count-append h [] ys = omega arith
count-append h (x ∷ xs) ys = omega (arith, count-append h xs ys)

is_started-insert :
    (t k : Bytes) (s : Dict Bool)
    → is_started t (insert k true s) ≡ (if bytes_eq k t then true else is_started t s)
unfolding is_started
is_started-insert t k s = ground (arith, lookup-insert k t true s)

started_stays :
    (t : Bytes) (l : Dict ℕ) (s : Dict Bool) (r : List ℕ)
    → is_started t s ≡ true
    → is_started t (start_loop l s r).0 ≡ true
unfolding start_loop
started_stays t [] s r h = h
started_stays t ((k, g) ∷ l) s r h = elim (Bool-cases (is_started k s)) [
  | inl known ↦ rw known (started_stays t l s r h)
  | inr fresh ↦
      rw fresh (
        started_stays t l (insert k true s) (r ++ g ∷ []) (ground (arith, is_started-insert t k s)))
]

-- An informer of the list is started.
pub started_of_lookup :
    (t : Bytes) (h : ℕ) (l : Dict ℕ) (s : Dict Bool) (r : List ℕ)
    → lookup t l ≡ some h
    → is_started t (start_loop l s r).0 ≡ true
unfolding start_loop
started_of_lookup t h [] s r e = absurd (ground arith)
started_of_lookup t h ((k, g) ∷ l) s r e = elim (Bool-cases (bytes_eq k t)) [
  | inl same ↦ elim (Bool-cases (is_started k s)) [
    | inl known ↦ rw known (
        started_stays t l s r
          (ground (arith, bytes_eq_iff k t, ap (λ x. is_started x s) {x = k} {y = t})))
    | inr fresh ↦ rw fresh (
        started_stays t l (insert k true s) (r ++ g ∷ []) (ground (arith, is_started-insert t k s)))
  ]
  | inr other ↦ elim (Bool-cases (is_started k s)) [
    | inl known ↦ rw known (started_of_lookup t h l s r (ground arith))
    | inr fresh ↦ rw fresh (started_of_lookup t h l (insert k true s) (r ++ g ∷ []) (ground arith))
  ]
]

-- A type that is not in the list is started if it was.
pub started_other :
    (t : Bytes) (l : Dict ℕ) (s : Dict Bool) (r : List ℕ)
    → lookup t l ≡ none
    → is_started t (start_loop l s r).0 ≡ is_started t s
unfolding start_loop
started_other t [] s r e = refl
started_other t ((k, g) ∷ l) s r e = elim (Bool-cases (is_started k s)) [
  | inl known ↦ rw known (started_other t l s r (ground arith))
  | inr fresh ↦ rw fresh (
      started_other t l (insert k true s) (r ++ g ∷ []) (ground arith)
      ∙ ground (arith, is_started-insert t k s))
]

pub count_other :
    (h : ℕ) (l : Dict ℕ) (s : Dict Bool) (r : List ℕ)
    → Lacks h l
    → count h (start_loop l s r).1 ≡ count h r
unfolding start_loop
count_other h [] s r e = refl
count_other h ((k, g) ∷ l) s r (ne, e) = elim (Bool-cases (is_started k s)) [
  | inl known ↦ rw known (count_other h l s r e)
  | inr fresh ↦ rw fresh (
      count_other h l (insert k true s) (r ++ g ∷ []) e ∙ ground (arith, count-append h r (g ∷ [])))
]

pub count-Only :
    (t : Bytes) (h : ℕ) (l : Dict ℕ) (s : Dict Bool) (r : List ℕ)
    → Only t h l
    → count h (start_loop l s r).1 ≡ count h r + (if is_started t s then 0 else 1)
unfolding start_loop
count-Only t h [] s r o = elim o [ ]
count-Only t h ((k, g) ∷ l) s r (inl (here, same, lacks)) = elim (Bool-cases (is_started k s)) [
  | inl known ↦ rw known (count_other h l s r lacks ∙ ground (arith, ap (λ x. is_started x s) here))
  | inr fresh ↦ rw fresh (
      count_other h l (insert k true s) (r ++ g ∷ []) lacks
      ∙ ground (arith, count-append h r (g ∷ []), ap (λ x. is_started x s) here))
]
count-Only t h ((k, g) ∷ l) s r (inr (later, other, o)) = elim (Bool-cases (is_started k s)) [
  | inl known ↦ rw known (count-Only t h l s r o)
  | inr fresh ↦ rw fresh (
      count-Only t h l (insert k true s) (r ++ g ∷ []) o
      ∙ ground (arith, count-append h r (g ∷ []), is_started-insert t k s, bytes_eq_iff k t))
]
