-- ===== src/Config/Equality.antt =====
-- What `Equals` and `jobsEquals` decide.
use k8s_swarm.Prelude.{
  List, [], ◌∷◌, none, some, true, false, ◌≡◌, ◌↔◌, inl, inr, refl, sym, arith, Bytes, Dict, lookup,
  bytes_eq, bytes_eq_iff, length, ◌==◌, Bool-cases, Option-cases, subst, KeysUnique, ap, ◌∙◌,
  Option, Bool, not, if◌then◌else◌, ◌>>=◌,
}
use k8s_swarm.Config.{
  Job, Workload, Pointers, to_map, difference, workload_equals, entries_match, workloads_equals,
  all_in, jobs_equals,
}
use k8s_swarm.Config.Sets.{Contains, here, there, dec_Contains, has_key-to_map, difference-Contains}

-- The same jobs, whatever their order and their number of occurrences.
abbrev pub SameJobs : List Job → List Job → Type 0
SameJobs xs ys = (k : Job) → Contains k xs ↔ Contains k ys

length-eq-zero : (xs : List Job) → (length xs == 0) ≡ true → (k : Job) → ¬ Contains k xs
length-eq-zero [] h k c = elim c [ ]
length-eq-zero (x ∷ xs) h k c = ground arith

empty_of_not_Contains : (xs : List Job) → ((k : Job) → ¬ Contains k xs) → (length xs == 0) ≡ true
empty_of_not_Contains [] h = refl
empty_of_not_Contains (x ∷ xs) h = absurd (h x (here refl))

no_difference_sound :
    (a b : Workload)
    → (length (difference a b).0 == 0) ≡ true
    → (length (difference a b).1 == 0) ≡ true
    → SameJobs a.jobs b.jobs
no_difference_sound a b i e k = (to, from)
  where
    to : Contains k a.jobs → Contains k b.jobs
    to c = elim (dec_Contains k b.jobs) [
      | inl d ↦ d
      | inr n ↦ absurd (length-eq-zero _ e k ((difference-Contains a b k).1.1 (c, n)))
    ]

    from : Contains k b.jobs → Contains k a.jobs
    from c = elim (dec_Contains k a.jobs) [
      | inl d ↦ d
      | inr n ↦ absurd (length-eq-zero _ i k ((difference-Contains a b k).0.1 (c, n)))
    ]

no_difference_complete :
    (a b : Workload)
    → SameJobs a.jobs b.jobs
    → ((length (difference a b).0 == 0) ≡ true) × ((length (difference a b).1 == 0) ≡ true)
no_difference_complete a b same = (
  empty_of_not_Contains _
      (λ k c. let (inside, out) = (difference-Contains a b k).0.0 c in out ((same k).1 inside)),
  empty_of_not_Contains _
      (λ k c. let (inside, out) = (difference-Contains a b k).1.0 c in out ((same k).0 inside)),
)

-- Two workloads are equal for the program exactly when neither pointer is nil and their job lists have the
-- same length and the same jobs: neither the order, nor how often a job occurs, nor the workload's
-- version counts.
abbrev pub AreEqual : Option Workload → Option Workload → Type 0
AreEqual v w =
    (x : Workload) × (y : Workload) × (v ≡ some x)
    × (w ≡ some y)
    × (length x.jobs ≡ length y.jobs)
    × SameJobs x.jobs y.jobs

same_workload : {x y : Workload} → ◌≡◌ {A = Option Workload} (some x) (some y) → x ≡ y
same_workload e = ground arith

pub workload_equals_iff : (v w : Option Workload) → (workload_equals v w ≡ some true) ↔ AreEqual v w
unfolding workload_equals
workload_equals_iff v none =
    (λ h. absurd (ground arith), λ (x, y, e, f, _, _). absurd (ground (arith, f)))
workload_equals_iff none (some b) =
    (λ h. absurd (ground arith), λ (x, y, e, f, _, _). absurd (ground (arith, e)))
workload_equals_iff (some a) (some b) = (sound, complete)
  where
    sound : workload_equals (some a) (some b) ≡ some true → AreEqual (some a) (some b)
    sound h =
        (a, b, refl, refl, ground arith, no_difference_sound a b (ground arith) (ground arith))

    both :
        (length a.jobs ≡ length b.jobs)
        → SameJobs a.jobs b.jobs
        → workload_equals (some a) (some b) ≡ some true
    both e same = ground (arith, no_difference_complete a b same, e)

    complete : AreEqual (some a) (some b) → workload_equals (some a) (some b) ≡ some true
    complete (x, y, f, g, e, same) =
        both
          (ap (λ (w : Workload). length w.jobs) (same_workload f)
            ∙ e
            ∙ ap (λ (w : Workload). length w.jobs) (sym (same_workload g)))
          (subst (λ u. SameJobs u.jobs b.jobs) (sym (same_workload f))
            (subst (λ u. SameJobs x.jobs u.jobs) (sym (same_workload g)) same))

all_in_sound :
    (o t : List Job) → all_in (to_map t) o ≡ true → (k : Job) → Contains k o → Contains k t
unfolding all_in
all_in_sound [] t h k c = elim c [ ]
all_in_sound (x ∷ o) t h k (here e) =
    subst (λ j. Contains j t) e ((has_key-to_map x t).0 (ground arith))
all_in_sound (x ∷ o) t h k (there c) = all_in_sound o t (ground arith) k c

all_in_complete :
    (o t : List Job) → ((k : Job) → Contains k o → Contains k t) → all_in (to_map t) o ≡ true
unfolding all_in
all_in_complete [] t h = refl
all_in_complete (x ∷ o) t h =
    let present = (has_key-to_map x t).1 (h x (here refl)) in
    let rest = all_in_complete o t (λ k c. h k (there c)) in rw (present, rest)

-- `jobsEquals` holds exactly when the lists have the same length and each job of the first stands in
-- the second; the other direction is not looked at.
pub jobs_equals_iff :
    (o t : List Job)
    → (jobs_equals o t ≡ true) ↔ ((length o ≡ length t) × ((k : Job) → Contains k o → Contains k t))
unfolding jobs_equals
jobs_equals_iff o t = (sound, complete)
  where
    sound :
        jobs_equals o t ≡ true → (length o ≡ length t) × ((k : Job) → Contains k o → Contains k t)
    sound h = (ground arith, all_in_sound o t (ground arith))

    complete :
        (length o ≡ length t) × ((k : Job) → Contains k o → Contains k t) → jobs_equals o t ≡ true
    complete (e, inside) = ground (arith, all_in_complete o t inside, e)

-- Each entry of the first map has one in the second with the same length and the same jobs.
abbrev pub Covers : (mine theirs : Dict (Option Workload)) → Type 0
Covers m theirs =
    (k : Bytes) (w : Option Workload)
    → lookup k m ≡ some w
    → (v : Option Workload) × (lookup k theirs ≡ some v) × AreEqual v w

some_bind :
    (o : Option Bool) (later : Option Bool)
    → (o >>= λ same. if not same then some false else later) ≡ some true
    → (o ≡ some true) × (later ≡ some true)
some_bind none later h = absurd (ground arith)
some_bind (some true) later h = (refl, h)
some_bind (some false) later h = absurd (ground arith)

entries_match-cons :
    (s : Bytes) (u : Option Workload) (m theirs : Dict (Option Workload))
    → entries_match ((s, u) ∷ m) theirs ≡ some true
    → (v : Option Workload) × (lookup s theirs ≡ some v)
      × AreEqual v u
      × (entries_match m theirs ≡ some true)
unfolding entries_match
entries_match-cons s u m theirs h = elim (Option-cases (lookup s theirs)) [
  | inl q ↦ absurd (ground arith)
  | inr (v, q) ↦
      let (same, rest) = some_bind (workload_equals v u) (entries_match m theirs) (ground arith) in
      (v, q, (workload_equals_iff v u).0 same, rest)
]

entries_match_sound :
    (m theirs : Dict (Option Workload)) → entries_match m theirs ≡ some true → Covers m theirs
unfolding entries_match
entries_match_sound [] theirs h k w e = absurd (ground arith)
entries_match_sound ((s, u) ∷ m) theirs h k w e =
    let (v, found, equal, rest) = entries_match-cons s u m theirs h in
    elim (Bool-cases (bytes_eq s k)) [
      | inl same ↦
          let this : u ≡ w = ground arith in
          (v, ground (arith, bytes_eq_iff s k), subst (AreEqual v) this equal)
      | inr other ↦ entries_match_sound m theirs rest k w (ground arith)
    ]

entries_match_complete :
    (m theirs : Dict (Option Workload))
    → KeysUnique m
    → Covers m theirs
    → entries_match m theirs ≡ some true
unfolding entries_match
entries_match_complete [] theirs uniq h = refl
entries_match_complete ((s, u) ∷ m) theirs uniq h =
    let (v, found, equal) = h s u (ground (arith, bytes_eq_iff s s)) in
    let later = entries_match_complete m theirs uniq.1 covers_rest in
    rw (found, entries_match) (rw ((workload_equals_iff v u).1 equal) later)
  where
    covers_rest : Covers m theirs
    covers_rest k w e = h k w (ground (arith, bytes_eq_iff s k, uniq.0))

-- `Workloads.Equals` returns true exactly when the versions agree and each worker of the receiver stands
-- in the argument, neither pointer nil, with a job list of the same length and with the same jobs, in
-- whatever order and however often a job occurs. Workers that only the argument has do not count, nor
-- do the versions of single workloads. Where it is not true it may be false or, at a nil pointer of the
-- argument, panic.
pub workloads_equals_iff :
    (a b : Pointers)
    → KeysUnique a.workloads
    → (workloads_equals a (some b) ≡ some true)
      ↔ ((b.version ≡ a.version) × Covers a.workloads b.workloads)
unfolding workloads_equals
workloads_equals_iff a b uniq = (sound, complete)
  where
    sound :
        workloads_equals a (some b) ≡ some true
        → (b.version ≡ a.version) × Covers a.workloads b.workloads
    sound h = (ground arith, entries_match_sound a.workloads b.workloads (ground arith))

    complete :
        (b.version ≡ a.version) × Covers a.workloads b.workloads
        → workloads_equals a (some b) ≡ some true
    complete (e, covers) =
        ground (arith, entries_match_complete a.workloads b.workloads uniq covers, e)

-- A nil pointer of the argument, where the receiver has a worker, panics when it is met.
pub nil_entry_panics :
    (k : Bytes) (w : Workload) (m theirs : Dict (Option Workload))
    → lookup k theirs ≡ some none
    → entries_match ((k, some w) ∷ m) theirs ≡ none
unfolding entries_match workload_equals
nil_entry_panics k w m theirs e = rw (e, entries_match) refl
