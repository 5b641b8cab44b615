-- ===== src/DeepCopy/Extending.antt =====
-- Memory that only grows: what is a copy, and what stays readable.
use mathlib.Core.List.{append-nil, append_assoc}
use k8s_swarm.Prelude.{
  ℕ, zero, suc, List, [], ◌∷◌, ◌++◌, Option, none, some, ◌≡◌, refl, arith, length, length-append,
  get_elem?, ◌>>=◌,
}
use k8s_swarm.DeepCopy.{Memory, Copied}

-- The memory with more arrays at its end.
abbrev pub extend : {M : Type 0} → Memory M → Memory M → Memory M
extend mem more = record {
  job_arrays = mem.job_arrays ++ more.job_arrays;
  member_arrays = mem.member_arrays ++ more.member_arrays;
  swarm_arrays = mem.swarm_arrays ++ more.swarm_arrays;
}

-- As many arrays of each type.
pub record SameSize {M : Type 0} (old mem : Memory M) : Type 0 where
  pub jobs : length old.job_arrays ≡ length mem.job_arrays
  pub members : length old.member_arrays ≡ length mem.member_arrays
  pub swarms : length old.swarm_arrays ≡ length mem.swarm_arrays

module _ {M : Type 0} where
  pub extend_assoc : (a b c : Memory M) → extend (extend a b) c ≡ extend a (extend b c)
  extend_assoc a b c = simp append_assoc

  pub SameSize-extend :
      (old mem more : Memory M) → SameSize old mem → SameSize (extend old more) (extend mem more)
  SameSize-extend old mem more s = record {
    jobs = omega (
      arith,
      length-append old.job_arrays more.job_arrays,
      length-append mem.job_arrays more.job_arrays,
      s.jobs,
    );
    members = omega (
      arith,
      length-append old.member_arrays more.member_arrays,
      length-append mem.member_arrays more.member_arrays,
      s.members,
    );
    swarms = omega (
      arith,
      length-append old.swarm_arrays more.swarm_arrays,
      length-append mem.swarm_arrays more.swarm_arrays,
      s.swarms,
    );
  }

module _ {M : Type 0} where
  -- The empty addition.
  abbrev pub nothing : Memory M
  nothing = record { job_arrays = []; member_arrays = []; swarm_arrays = [] }

  pub extend-nothing : (mem : Memory M) → mem ≡ extend mem nothing
  extend-nothing mem = simp append-nil

pub get_elem?-append_some :
    {A : Type 0} (xs ys : List A) (i : ℕ) (a : A)
    → get_elem? xs i ≡ some a
    → get_elem? (xs ++ ys) i ≡ some a
get_elem?-append_some [] ys i a e = cc
get_elem?-append_some (x ∷ xs) ys zero a e = e
get_elem?-append_some (x ∷ xs) ys (suc i) a e = get_elem?-append_some xs ys i a e

-- Reading is stable when arrays are added.
abbrev pub Stable : {M X V : Type 0} → (Memory M → X → Option V) → Type 0
Stable {M} {X} {V} read =
    (mem more : Memory M) (x : X) (v : V) → read mem x ≡ some v → read (extend mem more) x ≡ some v

-- The copy adds arrays, and behind those it reads as `v`, whatever the older arrays hold.
abbrev pub IsCopy :
    {M X V : Type 0}
    → (X → Memory M → Copied M X)
    → (Memory M → X → Option V)
    → X
    → V
    → Memory M
    → Memory M
    → Type 0
IsCopy {M} {X} copy read x v mem old =
    (x' : X) × (more : Memory M) × (copy x mem ≡ some (x', extend mem more))
    × (read (extend old more) x' ≡ some v)

abbrev pub Copies :
    {M X V : Type 0} → (X → Memory M → Copied M X) → (Memory M → X → Option V) → Type 0
Copies {M} {X} {V} copy read =
    (x : X) (v : V) (mem old : Memory M)
    → SameSize old mem
    → read mem x ≡ some v
    → IsCopy copy read x v mem old

pub >>=-eq-some :
    {A B : Type 0} (m : Option A) (f : A → Option B) {b : B}
    → (m >>= f) ≡ some b
    → (a : A) × (m ≡ some a) × (f a ≡ some b)
>>=-eq-some none f e = cc
>>=-eq-some (some a) f e = (a, refl, e)
