-- ===== src/Remote.antt =====
-- The controller asks a worker for its assignment:
-- services/controller/internal/infra/transport/http/version.go asks,
-- services/worker/internal/transport/http/version.go answers on its route, beside the health check of
-- pkg/infra/transport/http/health.go.
--
-- The network is an argument, and so are the JSON encodings. A route stands for the handler that mux
-- calls for exactly that path; a path with no route gets the status 404.
pub mod Asking
use k8s_swarm.Prelude.{
  ℕ, List, [], ◌∷◌, ◌++◌, Option, none, some, Bytes, codes, Dict, lookup, insert, ◌==◌,
  if◌then◌else◌, ◌>>=◌,
}
use k8s_swarm.Config.{Workload}
use k8s_swarm.WorkerApp.{Process, version_handler}

pub record Url : Type 0 where
  pub scheme : Bytes
  pub host : Bytes
  pub path : Bytes

pub record Response : Type 0 where
  pub status_code : ℕ
  pub body : Bytes

-- A handler that only writes a body answers 200.
abbrev pub ok_response : Bytes → Response
ok_response body = record { status_code = 200; body = body }

pub record Checker : Type 0 where
  pub version : Bytes
  pub date : Bytes

unfoldable pub new_checker : Bytes → Bytes → Checker
new_checker commit_version date = record { version = commit_version; date = date }

unfoldable pub health_handler : (Dict Bytes → Bytes) → Checker → Response
health_handler encode_map a =
    ok_response (encode_map ((codes "version", a.version) ∷ (codes "date", a.date) ∷ []))

-- The `Routes` of the two checkers.
unfoldable pub health_routes : (Dict Bytes → Bytes) → Checker → Dict Response → Dict Response
health_routes encode_map a r = insert (codes "/internal/health") (health_handler encode_map a) r

unfoldable pub version_routes : (Workload → Bytes) → Process → Bytes → Dict Response → Dict Response
version_routes encode_workload p host r =
    insert (codes "/internal/version") (ok_response (encode_workload (version_handler p host))) r

-- The worker's server, with the routes of `workerCmd`.
unfoldable pub serve :
    (Dict Bytes → Bytes) → (Workload → Bytes) → Checker → Process → Bytes → Bytes → Response
serve encode_map encode_workload ch p host path =
    elim (lookup path (version_routes encode_workload p host (health_routes encode_map ch []))) [
      | none ↦ record { status_code = 404; body = [] }
      | some res ↦ res
    ]

-- `(v *VersionProvider) Assignation`, to the text of an IP; `none` is an error.
unfoldable pub assignation :
    (Url → Option Response) → (Bytes → Option Workload) → Bytes → Bytes → Option Workload
assignation send decode_workload remote_port ip =
    send (record {
      scheme = codes "http";
      host = ip ++ codes ":" ++ remote_port;
      path = codes "/internal/version";
    })
    >>= λ res. if res.status_code == 200 then decode_workload res.body else none
