-- ===== src/Examples/Config.antt =====
-- Workloads compared.
use k8s_swarm.Prelude.{[], ◌∷◌, some, true, ◌≡◌, ◌↔◌, refl, codes}
use k8s_swarm.Config.{Job, Workload, Pointers, workload_equals, workloads_equals, jobs_equals}
use k8s_swarm.Config.Equality.{Covers, workloads_equals_iff}

abbrev a : Job
a = codes "a"

abbrev b : Job
b = codes "b"

abbrev left : Workload
left = record { jobs = a ∷ a ∷ b ∷ []; version = 0 }

abbrev right : Workload
right = record { jobs = a ∷ b ∷ b ∷ []; version = 1 }

abbrev one_worker : Pointers
one_worker = record { workloads = (codes "w-0", some left) ∷ []; version = 4 }

-- How often a job occurs does not count.
multiplicity_ignored : workload_equals (some left) (some right) ≡ some true
unfolding workload_equals
multiplicity_ignored = refl

one_sided : jobs_equals (a ∷ a ∷ []) (a ∷ b ∷ []) ≡ true
unfolding jobs_equals
one_sided = refl

workloads_equals_iff_example :
    (workloads_equals one_worker (some one_worker) ≡ some true)
    ↔ ((one_worker.version ≡ one_worker.version) × Covers one_worker.workloads one_worker.workloads)
workloads_equals_iff_example = workloads_equals_iff one_worker one_worker (refl, tt)
