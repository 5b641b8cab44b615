-- ===== src/Informers/Entries.antt =====
-- The entries of the factory's map of informers.
use k8s_swarm.Prelude.{
  ℕ, [], ◌∷◌, none, some, ◌≡◌, ◌≢◌, ◌⊎◌, inl, inr, refl, arith, Bytes, Dict, lookup, insert,
  lookup-insert, bytes_eq, bytes_eq_iff, Bool-cases,
}

-- No entry of the list is the informer `h`.
abbrev pub Lacks : ℕ → Dict ℕ → Type 0
Lacks h [] = Unit
Lacks h ((k, g) ∷ l) = (g ≢ h) × Lacks h l

-- The entry of `t` is the informer `h`, and no other entry is.
abbrev pub Only : Bytes → ℕ → Dict ℕ → Type 0
Only t h [] = ⊥
Only t h ((k, g) ∷ l) = ((k ≡ t) × (g ≡ h) × Lacks h l) ⊎ ((k ≢ t) × (g ≢ h) × Only t h l)

pub Lacks-insert :
    (h n : ℕ) (t : Bytes) (l : Dict ℕ)
    → n ≢ h
    → lookup t l ≡ none
    → Lacks h l
    → Lacks h (insert t n l)
Lacks-insert h n t [] ne e m = (ne, tt)
Lacks-insert h n t ((k, g) ∷ l) ne e m = elim (Bool-cases (bytes_eq k t)) [
  | inl same ↦ absurd (ground arith)
  | inr other ↦ rw other (m.0, Lacks-insert h n t l ne (ground arith) m.1)
]

pub Only-insert :
    (n : ℕ) (t : Bytes) (l : Dict ℕ) → lookup t l ≡ none → Lacks n l → Only t n (insert t n l)
Only-insert n t [] e m = inl (refl, refl, tt)
Only-insert n t ((k, g) ∷ l) e m = elim (Bool-cases (bytes_eq k t)) [
  | inl same ↦ absurd (ground arith)
  | inr other ↦
      rw other
        (inr ((λ q. ground (arith, bytes_eq_iff k t)), m.0, Only-insert n t l (ground arith) m.1))
]

pub Only-insert_other :
    (n h : ℕ) (t u : Bytes) (l : Dict ℕ)
    → t ≢ u
    → n ≢ h
    → lookup t l ≡ none
    → Only u h l
    → Only u h (insert t n l)
Only-insert_other n h t u [] tu nh e o = elim o [ ]
Only-insert_other n h t u ((k, g) ∷ l) tu nh e (inl (here, same, lacks)) =
    elim (Bool-cases (bytes_eq k t)) [
      | inl hit ↦ absurd (ground arith)
      | inr miss ↦ rw miss (inl (here, same, Lacks-insert h n t l nh (ground arith) lacks))
    ]
Only-insert_other n h t u ((k, g) ∷ l) tu nh e (inr (later, other, o)) =
    elim (Bool-cases (bytes_eq k t)) [
      | inl hit ↦ absurd (ground arith)
      | inr miss ↦ rw miss (inr (later, other, Only-insert_other n h t u l tu nh (ground arith) o))
    ]

pub ne_of_lookup : (n h : ℕ) (u : Bytes) (l : Dict ℕ) → lookup u l ≡ some h → Lacks n l → n ≢ h
ne_of_lookup n h u [] e m = absurd (ground arith)
ne_of_lookup n h u ((k, g) ∷ l) e m = elim (Bool-cases (bytes_eq k u)) [
  | inl hit ↦ λ q. m.0 (ground arith)
  | inr miss ↦ ne_of_lookup n h u l (ground arith) m.1
]

pub lookup_inserted :
    (n h : ℕ) (t u : Bytes) (l : Dict ℕ)
    → lookup u (insert t n l) ≡ some h
    → ((t ≡ u) × (n ≡ h)) ⊎ ((t ≢ u) × (lookup u l ≡ some h))
lookup_inserted n h t u l e = elim (Bool-cases (bytes_eq t u)) [
  | inl same ↦ inl ((bytes_eq_iff t u).0 same, ground (arith, lookup-insert t u n l))
  | inr other ↦ inr ((λ q. ground (arith, bytes_eq_iff t u)), ground (arith, lookup-insert t u n l))
]

pub lookup_not_inserted :
    (n : ℕ) (t u : Bytes) (l : Dict ℕ) → lookup u (insert t n l) ≡ none → lookup u l ≡ none
lookup_not_inserted n t u l e = ground (arith, lookup-insert t u n l)
