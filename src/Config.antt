-- ===== src/Config.antt =====
-- pkg/config/config.go: jobs, workloads and their comparison.
--
-- An int64 is its bit pattern. The maps that the program makes hold no nil pointer; a pointer that the code
-- tests against nil is an `Option`, and so are the map's in the comparison, where a panic is `none`. Logging is left out.
pub mod Sets
pub mod Equality
use k8s_swarm.Prelude.{
  ℕ, List, [], ◌∷◌, Option, none, some, Bool, true, false, not, ◌&&◌, Bytes, Dict, lookup, insert,
  length, ◌==◌, if◌then◌else◌, ◌>>=◌,
}

-- `type Job string`.
abbrev pub Job : Type 0
Job = Bytes

pub record Workload : Type 0 where
  pub jobs : List Job
  pub version : ℕ

pub record Workloads : Type 0 where
  pub workloads : Dict Workload
  pub version : ℕ

-- The loop of `toMap`, over the set built so far.
unfoldable pub add_all : List Job → Dict (Unit {0}) → Dict (Unit {0})
add_all [] res = res
add_all (s ∷ set) res = add_all set (insert s tt res)

unfoldable pub to_map : List Job → Dict (Unit {0})
unfolding add_all
to_map set = add_all set []

abbrev pub has_key : Job → Dict (Unit {0}) → Bool
has_key k m = elim (lookup k m) [ none ↦ false | some _ ↦ true ]

-- A loop of `Difference`: the jobs of the list that the set lacks, in the list's order.
unfoldable pub missing_from : Dict (Unit {0}) → List Job → List Job
missing_from m [] = []
missing_from m (k ∷ ks) = let rest = missing_from m ks in if has_key k m then rest else k ∷ rest

-- `(a *Workload) Difference(newWorkload)`: the included and the excluded jobs.
unfoldable pub difference : Workload → Workload → List Job × List Job
unfolding missing_from to_map
difference a new_workload =
    let excluded = missing_from (to_map new_workload.jobs) a.jobs in
    let included = missing_from (to_map a.jobs) new_workload.jobs in (included, excluded)

-- `(a *Workload) Equals(wrk)`, of pointers that may be nil; `none` where it follows a nil receiver.
unfoldable pub workload_equals : Option Workload → Option Workload → Option Bool
unfolding difference
workload_equals a none = some false
workload_equals none (some wrk) = none
workload_equals (some a) (some wrk) =
    if not (length a.jobs == length wrk.jobs)
    then some false
    else let (i, e) = difference a wrk in some (length i == 0 && length e == 0)

-- `Workloads` with the pointers of its map, some of which may be nil.
pub record Pointers : Type 0 where
  pub workloads : Dict (Option Workload)
  pub version : ℕ

-- The loop of `(a *Workloads) Equals(asg)` over `a.Workloads`, in the order in which the map is visited.
unfoldable pub entries_match : (mine theirs : Dict (Option Workload)) → Option Bool
entries_match [] theirs = some true
entries_match ((s, w) ∷ rest) theirs =
    let later = entries_match rest theirs in
    elim (lookup s theirs) [
      | none ↦ some false
      | some v ↦ workload_equals v w >>= λ same. if not same then some false else later
    ]

unfoldable pub workloads_equals : Pointers → Option Pointers → Option Bool
workloads_equals a none = some false
workloads_equals a (some asg) =
    if not (asg.version == a.version) then some false else entries_match a.workloads asg.workloads

-- The loop of `jobsEquals`.
unfoldable pub all_in : Dict (Unit {0}) → List Job → Bool
all_in theirs [] = true
all_in theirs (k ∷ o) =
    let later = all_in theirs o in if not (has_key k theirs) then false else later

unfoldable pub jobs_equals : List Job → List Job → Bool
unfolding to_map all_in
jobs_equals o t =
    if not (length o == length t) then false else let theirs = to_map t in all_in theirs o
