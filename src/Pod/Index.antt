-- ===== src/Pod/Index.antt =====
-- A pod's index is the number in its name.
use k8s_swarm.Prelude.{
  ℕ, ◌+◌, ◌-◌, ◌^◌, ◌<◌, List, [], ◌∷◌, ◌++◌, some, false, ◌≡◌, ap, arith, Bytes, length,
  length-append, get_elem?, get_elem?-append, ltb, ◌∙◌,
}
use k8s_swarm.Text.{format, split}
use k8s_swarm.Text.RoundTrip.{
  format-AllDigits, AllDigits-Lacks, split-append, split-pos, parse_int-format,
}
use k8s_swarm.State.{worker_name}
use k8s_swarm.Pod.{ok, last_index, pod_index}

last_index-append :
    (parts : List Bytes) (i : ℕ) → i < 2 ^ 63 → last_index (parts ++ format i ∷ []) ≡ ok i
unfolding last_index
last_index-append parts i h = rw (last_part, last_index, parse_int-format i h)
  where
    last_part :
        get_elem? (parts ++ format i ∷ []) (length (parts ++ format i ∷ []) - 1) ≡ some (format i)
    last_part =
        ap (get_elem? (parts ++ format i ∷ [])) {x = length (parts ++ format i ∷ []) - 1}
          {y = length parts + 0} (omega (arith, length-append parts (format i ∷ [])))
        ∙ get_elem?-append parts (format i ∷ []) 0

-- The handler reads back the index from the name that the assignment gives to a worker, for every
-- index of an int64: the workload under a pod's name is that of its index.
pub pod_index-worker_name :
    (set_name : Bytes) (i : ℕ) → i < 2 ^ 63 → pod_index (worker_name set_name i) ≡ ok i
unfolding pod_index worker_name
pod_index-worker_name set_name i h =
    let lacks = AllDigits-Lacks (format i) (format-AllDigits i) in
    let long : ltb (length (split b'-' set_name ++ format i ∷ [])) 2 ≡ false =
      ground
        (arith, length-append (split b'-' set_name) (format i ∷ []), split-pos b'-' set_name) in
    rw (split-append b'-' set_name (format i) lacks, long)
      (last_index-append (split b'-' set_name) i h)
