-- ===== src/Examples/Storage.antt =====
-- A cluster that holds at most one Swarm, and nothing else.
use k8s_swarm.Prelude.{
  ℕ, [], ◌∷◌, Option, none, some, ◌≡◌, refl, arith, Bytes, codes, bytes_eq, bytes_eq_iff,
  if◌then◌else◌,
}
use k8s_swarm.Config.{Workloads}
use k8s_swarm.Storage.{Answer, answered, status_error, stored}
use k8s_swarm.Storage.Swarms.{
  Swarm, SwarmClient, set_swarm, get_swarm, initialize_crd, update_with, fill,
}
use k8s_swarm.Storage.Decoding.{unversioned}
use k8s_swarm.Storage.Writing.{SwarmClientLaws, get_swarm-set_swarm}

abbrev pub Cluster : Type 0
Cluster = Option Swarm

abbrev pub get : Bytes → Bytes → Cluster → Answer Swarm
get namespace name none = status_error
get namespace name (some sw) = if bytes_eq sw.name name then answered sw else status_error

abbrev pub client : SwarmClient Cluster
client = record {
  get = get;
  create = λ namespace sw w. record { cluster = some sw; answer = answered sw };
  update = λ namespace sw w. record { cluster = some sw; answer = answered sw };
}

pub got_name : (ns n : Bytes) (w : Cluster) (sw : Swarm) → get ns n w ≡ answered sw → sw.name ≡ n
got_name ns n none sw e = absurd (ground arith)
got_name ns n (some s) sw e = ground (arith, bytes_eq_iff s.name n)

pub client-Laws : SwarmClientLaws client
client-Laws = record {
  got_name = got_name;
  created_name = λ ns sw r w e. ground arith;
  updated = λ ns sw r w e. (sw, ground (arith, bytes_eq_iff sw.name sw.name), refl);
}

abbrev assignment : Workloads
assignment = record {
  workloads = (codes "w-0", record { jobs = codes "a" ∷ []; version = 4 }) ∷ [];
  version = 4;
}

abbrev pub clock : Bytes → ℕ
clock name = 1600000000

abbrev after : Cluster
after = some (
    fill clock assignment (record {
      kind = codes "Swarm";
      api_version = codes "v1alpha1";
      name = codes "swarm";
      namespace = codes "ns";
      resource_version = [];
      spec = record { version = 0; expected_size = 0; size = 0; members = [] };
      phase = [];
    }))

stored_after : set_swarm client (codes "ns") (codes "swarm") clock assignment none ≡ stored after
unfolding set_swarm initialize_crd update_with
stored_after = refl

get_swarm-set_swarm_example :
    get_swarm client (codes "ns") (codes "swarm") after ≡ some (unversioned assignment)
get_swarm-set_swarm_example =
    get_swarm-set_swarm client client-Laws (codes "ns") (codes "swarm") clock assignment (refl, tt)
      after none stored_after
