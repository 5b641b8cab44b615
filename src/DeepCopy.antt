-- ===== src/DeepCopy.antt =====
-- services/controller/internal/infra/k8s/apis/swarm/v1alpha1/zz_generated.deepcopy.go: copies of a Swarm
-- that share no memory with the original.
--
-- A slice is nil or a pointer to its array; the arrays of each element type stand in a list of their own,
-- and a new array goes to its end. TypeMeta and ObjectMeta are a type `M`, whose own DeepCopyInto is an
-- argument. `none` is a dangling pointer, which Go does not have.
pub mod Extending
pub mod Loops
pub mod Arrays
pub mod Independence
use k8s_swarm.Prelude.{ℕ, List, [], ◌∷◌, ◌++◌, Option, none, some, Bytes, length, get_elem?, ◌>>=◌}
use k8s_swarm.Config.{Job}
use k8s_swarm.Storage.Swarms.{MemberStatus}

abbrev pub Slice : Type 0
Slice = Option ℕ

pub record MemberObject (M : Type 0) : Type 0 where
  pub meta : M
  pub name : Bytes
  pub jobs : Slice
  pub state : MemberStatus
  pub created_at : ℕ

pub record SpecObject : Type 0 where
  pub version : ℕ
  pub expected_size : ℕ
  pub size : ℕ
  pub members : Slice

pub record StatusObject : Type 0 where
  pub phase : Bytes

pub record SwarmObject (M : Type 0) : Type 0 where
  pub meta : M
  pub spec : SpecObject
  pub status : StatusObject

pub record SwarmListObject (M : Type 0) : Type 0 where
  pub meta : M
  pub items : Slice

pub record Memory (M : Type 0) : Type 0 where
  pub job_arrays : List (List Job)
  pub member_arrays : List (List (MemberObject M))
  pub swarm_arrays : List (List (SwarmObject M))

-- What a copy leaves: the object, and the memory with the arrays that were made.
abbrev pub Copied : Type 0 → Type 0 → Type 0
Copied M X = Option (X × Memory M)

-- The loop over an array that copies each element.
unfoldable pub copy_all :
    {M X : Type 0} → (X → Memory M → Copied M X) → List X → Memory M → Copied M (List X)
copy_all copy [] mem = some ([], mem)
copy_all copy (x ∷ xs) mem =
    copy x mem >>= λ c. copy_all copy xs c.1 >>= λ cs. some (c.0 ∷ cs.0, cs.1)

-- `DeepCopy` of a pointer, which may be nil.
unfoldable pub copy_pointer :
    {M X : Type 0} → (X → Memory M → Copied M X) → Option X → Memory M → Copied M (Option X)
copy_pointer copy none mem = some (none, mem)
copy_pointer copy (some x) mem = copy x mem >>= λ c. some (some c.0, c.1)

module _ {M : Type 0} where
  -- `if in.Jobs != nil`, with `make` and `copy`.
  unfoldable pub copy_jobs : Slice → Memory M → Copied M Slice
  copy_jobs none mem = some (none, mem)
  copy_jobs (some ptr) mem = get_elem? mem.job_arrays ptr >>= λ jobs.
      some (some (length mem.job_arrays), record mem { job_arrays = mem.job_arrays ++ jobs ∷ [] })

-- Structs with no pointer.
unfoldable pub copy_member_status : MemberStatus → MemberStatus
copy_member_status s = s

unfoldable pub copy_swarm_status : StatusObject → StatusObject
copy_swarm_status s = s

module _ {M : Type 0} (copy_meta : M → M) where
  unfoldable pub copy_member : MemberObject M → Memory M → Copied M (MemberObject M)
  copy_member m mem = copy_jobs m.jobs mem >>= λ c.
      some
        (record m { meta = copy_meta m.meta; jobs = c.0; state = copy_member_status m.state }, c.1)

  -- `if in.Members != nil`, with `make` and the loop.
  unfoldable pub copy_members : Slice → Memory M → Copied M Slice
  copy_members none mem = some (none, mem)
  copy_members (some ptr) mem = get_elem? mem.member_arrays ptr >>= λ members.
      copy_all copy_member members mem >>= λ c. some (
        some (length c.1.member_arrays),
        record c.1 { member_arrays = c.1.member_arrays ++ c.0 ∷ [] },
      )

  unfoldable pub copy_spec : SpecObject → Memory M → Copied M SpecObject
  copy_spec s mem = copy_members s.members mem >>= λ c. some (record s { members = c.0 }, c.1)

  unfoldable pub copy_swarm : SwarmObject M → Memory M → Copied M (SwarmObject M)
  copy_swarm s mem = copy_spec s.spec mem >>= λ c.
      some
        (record s { meta = copy_meta s.meta; spec = c.0; status = copy_swarm_status s.status }, c.1)

  -- `if in.Items != nil`, with `make` and the loop.
  unfoldable pub copy_items : Slice → Memory M → Copied M Slice
  copy_items none mem = some (none, mem)
  copy_items (some ptr) mem = get_elem? mem.swarm_arrays ptr >>= λ swarms.
      copy_all copy_swarm swarms mem >>= λ c.
      some
        (some (length c.1.swarm_arrays), record c.1 { swarm_arrays = c.1.swarm_arrays ++ c.0 ∷ [] })

  unfoldable pub copy_swarm_list : SwarmListObject M → Memory M → Copied M (SwarmListObject M)
  copy_swarm_list l mem =
      copy_items l.items mem >>= λ c. some (record l { meta = copy_meta l.meta; items = c.0 }, c.1)

  -- `DeepCopy` of pointers, and so `DeepCopyObject`.
  unfoldable pub deep_copy_member :
      Option (MemberObject M) → Memory M → Copied M (Option (MemberObject M))
  unfolding copy_pointer
  deep_copy_member = copy_pointer copy_member

  unfoldable pub deep_copy_spec : Option SpecObject → Memory M → Copied M (Option SpecObject)
  unfolding copy_pointer
  deep_copy_spec = copy_pointer copy_spec

  unfoldable pub deep_copy_swarm :
      Option (SwarmObject M) → Memory M → Copied M (Option (SwarmObject M))
  unfolding copy_pointer
  deep_copy_swarm = copy_pointer copy_swarm

  unfoldable pub deep_copy_list :
      Option (SwarmListObject M) → Memory M → Copied M (Option (SwarmListObject M))
  unfolding copy_pointer
  deep_copy_list = copy_pointer copy_swarm_list

unfoldable pub deep_copy_member_status : Option MemberStatus → Option MemberStatus
deep_copy_member_status none = none
deep_copy_member_status (some s) = some (copy_member_status s)

unfoldable pub deep_copy_swarm_status : Option StatusObject → Option StatusObject
deep_copy_swarm_status none = none
deep_copy_swarm_status (some s) = some (copy_swarm_status s)

-- What can be read of an object: its own fields, and the elements behind its slices.
unfoldable pub read_slice : {X : Type 0} → List (List X) → Slice → Option (List X)
read_slice arrays none = some []
read_slice arrays (some ptr) = get_elem? arrays ptr

unfoldable pub read_all : {X V : Type 0} → (X → Option V) → List X → Option (List V)
read_all read [] = some []
read_all read (x ∷ xs) = read x >>= λ v. read_all read xs >>= λ vs. some (v ∷ vs)

unfoldable pub read_pointer : {X V : Type 0} → (X → Option V) → Option X → Option (Option V)
read_pointer read none = some none
read_pointer read (some x) = read x >>= λ v. some (some v)

abbrev pub MemberView : Type 0 → Type 0
MemberView M = M × Bytes × MemberStatus × ℕ × List Job

abbrev pub SpecView : Type 0 → Type 0
SpecView M = ℕ × ℕ × ℕ × List (MemberView M)

abbrev pub SwarmView : Type 0 → Type 0
SwarmView M = M × StatusObject × SpecView M

module _ {M : Type 0} (mem : Memory M) where
  unfoldable pub read_member : MemberObject M → Option (MemberView M)
  read_member m = read_slice mem.job_arrays m.jobs >>= λ jobs.
      some (m.meta, m.name, m.state, m.created_at, jobs)

  unfoldable pub read_spec : SpecObject → Option (SpecView M)
  read_spec s = read_slice mem.member_arrays s.members >>= λ members.
      read_all read_member members >>= λ views. some (s.version, s.expected_size, s.size, views)

  unfoldable pub read_swarm : SwarmObject M → Option (SwarmView M)
  read_swarm s = read_spec s.spec >>= λ spec. some (s.meta, s.status, spec)

  unfoldable pub read_swarm_list : SwarmListObject M → Option (M × List (SwarmView M))
  read_swarm_list l = read_slice mem.swarm_arrays l.items >>= λ swarms.
      read_all read_swarm swarms >>= λ views. some (l.meta, views)
