-- ===== src/Config/Sets.antt =====
-- `toMap` and `Difference` against membership in the job lists.
use k8s_swarm.Prelude.{
  List, [], ◌∷◌, true, false, ◌≡◌, ◌↔◌, ◌⊎◌, inl, inr, sym, arith, Dict, insert, lookup-insert,
  bytes_eq, bytes_eq_iff, if◌then◌else◌, Bool-cases, subst,
}
use k8s_swarm.Config.{Job, Workload, add_all, to_map, has_key, missing_from, difference}

-- The job stands in the list.
pub data Contains (k : Job) : List Job → Type 0 where
  here : {x : Job} {xs : List Job} → x ≡ k → Contains k (x ∷ xs)
  there : {x : Job} {xs : List Job} → Contains k xs → Contains k (x ∷ xs)

pub Contains-cases : {k x : Job} {xs : List Job} → Contains k (x ∷ xs) → (x ≡ k) ⊎ Contains k xs
Contains-cases (here e) = inl e
Contains-cases (there c) = inr c

pub not-Contains-nil : {k : Job} → ¬ Contains k []
not-Contains-nil c = elim c [ ]

has_key-insert :
    (k x : Job) (m : Dict (Unit {0}))
    → has_key k (insert x tt m) ≡ (if bytes_eq x k then true else has_key k m)
has_key-insert k x m = ground (arith, lookup-insert x k tt m)

has_key-add_all_sound :
    (k : Job) (xs : List Job) (m : Dict (Unit {0}))
    → has_key k (add_all xs m) ≡ true
    → Contains k xs ⊎ (has_key k m ≡ true)
unfolding add_all
has_key-add_all_sound k [] m h = inr h
has_key-add_all_sound k (x ∷ xs) m h = elim (has_key-add_all_sound k xs (insert x tt m) h) [
  | inl c ↦ inl (there c)
  | inr later ↦ elim (Bool-cases (bytes_eq x k)) [
    | inl e ↦ inl (here ((bytes_eq_iff x k).0 e))
    | inr n ↦ inr (ground (arith, has_key-insert k x m))
  ]
]

has_key-add_all_kept :
    (k : Job) (xs : List Job) (m : Dict (Unit {0}))
    → has_key k m ≡ true
    → has_key k (add_all xs m) ≡ true
unfolding add_all
has_key-add_all_kept k [] m h = h
has_key-add_all_kept k (x ∷ xs) m h =
    has_key-add_all_kept k xs (insert x tt m) (ground (arith, has_key-insert k x m))

has_key-add_all_complete :
    (k : Job) (xs : List Job) (m : Dict (Unit {0}))
    → Contains k xs
    → has_key k (add_all xs m) ≡ true
unfolding add_all
has_key-add_all_complete k [] m c = elim c [ ]
has_key-add_all_complete k (x ∷ xs) m (here e) =
    has_key-add_all_kept k xs (insert x tt m)
      (ground (arith, has_key-insert k x m, bytes_eq_iff x k))
has_key-add_all_complete k (x ∷ xs) m (there c) = has_key-add_all_complete k xs (insert x tt m) c

-- `toMap` holds exactly the jobs of the list.
pub has_key-to_map : (k : Job) (xs : List Job) → (has_key k (to_map xs) ≡ true) ↔ Contains k xs
unfolding to_map
has_key-to_map k xs = (sound, has_key-add_all_complete k xs [])
  where
    sound : has_key k (add_all xs []) ≡ true → Contains k xs
    sound h = elim (has_key-add_all_sound k xs [] h) [ inl c ↦ c | inr e ↦ cc ]

pub dec_Contains : (k : Job) (xs : List Job) → Contains k xs ⊎ (¬ Contains k xs)
dec_Contains k xs = elim (Bool-cases (has_key k (to_map xs))) [
  | inl h ↦ inl ((has_key-to_map k xs).0 h)
  | inr n ↦ inr (λ c. cc (n, (has_key-to_map k xs).1 c))
]

missing_from_sound :
    (k : Job) (m : Dict (Unit {0})) (xs : List Job)
    → Contains k (missing_from m xs)
    → Contains k xs × (has_key k m ≡ false)
unfolding missing_from
missing_from_sound k m [] c = absurd (not-Contains-nil c)
missing_from_sound k m (x ∷ xs) c = elim (Bool-cases (has_key x m)) [
  | inl h ↦ let (in_rest, out) = missing_from_sound k m xs (rw h at c) in (there in_rest, out)
  | inr n ↦ elim (Contains-cases (rw n at c)) [
    | inl e ↦ (here e, subst (λ j. has_key j m ≡ false) e n)
    | inr later ↦ let (in_rest, out) = missing_from_sound k m xs later in (there in_rest, out)
  ]
]

missing_from_complete :
    (k : Job) (m : Dict (Unit {0})) (xs : List Job)
    → Contains k xs
    → has_key k m ≡ false
    → Contains k (missing_from m xs)
unfolding missing_from
missing_from_complete k m [] c h = elim c [ ]
missing_from_complete k m (x ∷ xs) (here e) h =
    rw (subst (λ j. has_key j m ≡ false) (sym e) h) (here e)
missing_from_complete k m (x ∷ xs) (there c) h = elim (Bool-cases (has_key x m)) [
  | inl p ↦ rw p (missing_from_complete k m xs c h)
  | inr n ↦ rw n (there (missing_from_complete k m xs c h))
]

-- The jobs of `xs` that `ys` lacks, exactly.
missing_from-to_map :
    (k : Job) (xs ys : List Job)
    → Contains k (missing_from (to_map ys) xs) ↔ (Contains k xs × (¬ Contains k ys))
missing_from-to_map k xs ys = (sound, complete)
  where
    sound : Contains k (missing_from (to_map ys) xs) → Contains k xs × (¬ Contains k ys)
    sound c =
        let (inside, out) = missing_from_sound k (to_map ys) xs c in
        (inside, λ d. cc (out, (has_key-to_map k ys).1 d))

    complete : Contains k xs × (¬ Contains k ys) → Contains k (missing_from (to_map ys) xs)
    complete (inside, out) = elim (Bool-cases (has_key k (to_map ys))) [
      | inl h ↦ absurd (out ((has_key-to_map k ys).0 h))
      | inr n ↦ missing_from_complete k (to_map ys) xs inside n
    ]

-- A job is reported as included exactly when the new workload has it and the old one has not, and as
-- excluded exactly when the old one has it and the new one has not.
pub difference-Contains :
    (a b : Workload) (k : Job)
    → (Contains k (difference a b).0 ↔ (Contains k b.jobs × (¬ Contains k a.jobs)))
      × (Contains k (difference a b).1 ↔ (Contains k a.jobs × (¬ Contains k b.jobs)))
unfolding difference
difference-Contains a b k =
    (missing_from-to_map k b.jobs a.jobs, missing_from-to_map k a.jobs b.jobs)
