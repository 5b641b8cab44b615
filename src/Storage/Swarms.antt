-- ===== src/Storage/Swarms.antt =====
-- services/controller/internal/infra/k8s/operator/crd/provider.go: an assignment as a Swarm resource, of
-- services/controller/internal/infra/k8s/apis/swarm/v1alpha1/types.go.
--
-- Of the metadata the model has the names and the resource version. The clientset is an argument, and so
-- is `clock`, the time at which a member is appended. A map is visited in the order of its list.
use k8s_swarm.Prelude.{
  ℕ, List, [], ◌∷◌, ◌++◌, Option, none, some, Bytes, codes, Dict, insert, length,
}
use k8s_swarm.Config.{Job, Workload, Workloads}
use k8s_swarm.Storage.{
  Answer, answered, status_error, other_error, Call, Outcome, stored, refused, Storage,
}

pub record MemberStatus : Type 0 where
  pub phase : Bytes

pub record Member : Type 0 where
  pub name : Bytes
  pub jobs : List Bytes
  pub state : MemberStatus
  pub created_at : ℕ

pub record SwarmSpec : Type 0 where
  pub version : ℕ
  pub expected_size : ℕ
  pub size : ℕ
  pub members : List Member

pub record Swarm : Type 0 where
  pub kind : Bytes
  pub api_version : Bytes
  pub name : Bytes
  pub namespace : Bytes
  pub resource_version : Bytes
  pub spec : SwarmSpec
  pub phase : Bytes

abbrev pub phase_running : Bytes
phase_running = codes "RUNNING"

-- The clientset's Swarms.
pub record SwarmClient (W : Type 0) : Type 0 where
  pub get : (namespace name : Bytes) → W → Answer Swarm
  pub create : (namespace : Bytes) → Swarm → W → Call W Swarm
  pub update : (namespace : Bytes) → Swarm → W → Call W Swarm

unfoldable pub adapt_jobs_to_alpha : List Job → List Bytes
adapt_jobs_to_alpha [] = []
adapt_jobs_to_alpha (job ∷ j) = job ∷ adapt_jobs_to_alpha j

unfoldable pub adapt_jobs_from_alpha : List Bytes → List Job
adapt_jobs_from_alpha [] = []
adapt_jobs_from_alpha (job ∷ j) = job ∷ adapt_jobs_from_alpha j

-- The loop of `Set` over the workloads.
unfoldable pub append_members : (Bytes → ℕ) → Dict Workload → List Member → List Member
append_members clock [] members = members
append_members clock ((n, s) ∷ rest) members = append_members clock rest (
    members
    ++ record {
      name = n;
      jobs = adapt_jobs_to_alpha s.jobs;
      state = record { phase = phase_running };
      created_at = clock n;
    }
      ∷ [])

-- The assignments to `sw.Spec` in `Set`.
unfoldable pub fill : (Bytes → ℕ) → Workloads → Swarm → Swarm
fill clock a sw = record sw {
  spec = record {
    version = a.version;
    expected_size = sw.spec.expected_size;
    size = length a.workloads;
    members = append_members clock a.workloads [];
  };
}

-- The loop of `decode`.
unfoldable pub decode_members : List Member → Dict Workload → Dict Workload
decode_members [] c = c
decode_members (member ∷ members) c =
    decode_members members
      (insert member.name (record { jobs = adapt_jobs_from_alpha member.jobs; version = 0 }) c)

unfoldable pub decode : SwarmSpec → Workloads
decode sw = record { workloads = decode_members sw.members []; version = sw.version }

abbrev pub empty_swarm : Bytes → Bytes → Swarm
empty_swarm namespace swarm_name = record {
  kind = codes "Swarm";
  api_version = codes "v1alpha1";
  name = swarm_name;
  namespace = namespace;
  resource_version = [];
  spec = record { version = 0; expected_size = 0; size = 0; members = [] };
  phase = [];
}

-- A `Provider`: its client, namespace and swarm name.
module _ {W : Type 0} (client : SwarmClient W) (namespace swarm_name : Bytes) where
  unfoldable pub initialize_crd : W → Call W Swarm
  initialize_crd w = client.create namespace (empty_swarm namespace swarm_name) w

  -- The end of `Set`, from the resource on.
  unfoldable pub update_with : (Bytes → ℕ) → Workloads → Swarm → W → Outcome W
  update_with clock a sw w =
      let c = client.update namespace (fill clock a sw) w in
      elim c.answer [
        | answered _ ↦ stored c.cluster
        | status_error ↦ refused c.cluster
        | other_error ↦ refused c.cluster
      ]

  unfoldable pub set_swarm : (Bytes → ℕ) → Storage W
  set_swarm clock a w = elim (client.get namespace swarm_name w) [
    | answered sw ↦ update_with clock a sw w
    | other_error ↦ refused w
    | status_error ↦
        let c = initialize_crd w in
        elim c.answer [
          | answered sw ↦ update_with clock a sw c.cluster
          | status_error ↦ refused c.cluster
          | other_error ↦ refused c.cluster
        ]
  ]

  -- `Get`; `none` is an error.
  unfoldable pub get_swarm : W → Option Workloads
  get_swarm w = elim (client.get namespace swarm_name w) [
    | answered sw ↦ some (decode sw.spec)
    | status_error ↦ none
    | other_error ↦ none
  ]
