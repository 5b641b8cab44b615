-- ===== src/Remote/Asking.antt =====
-- The two ends of a request: Assignation of the controller, and the routes of the worker.
use k8s_swarm.Prelude.{[], none, lookup, ◌++◌, Option, some, ◌≡◌, refl, Bytes, codes, Dict}
use k8s_swarm.Config.{Workload}
use k8s_swarm.WorkerApp.{Process, version_handler, adapter_workload, host_workload}
use k8s_swarm.Remote.{Url, Response, Checker, health_routes, version_routes, serve, assignation}

-- The jobs that the configuration has under the host's name, or none, under the version of the whole
-- configuration.
abbrev pub named_workload : Process → Bytes → Workload
named_workload p host = record {
  jobs = elim (lookup host p.config.workload) [ none ↦ [] | some w ↦ w.jobs ];
  version = p.config.version;
}

serve_version :
    (encode_map : Dict Bytes → Bytes) (encode_workload : Workload → Bytes) (ch : Checker)
    (p : Process) (host : Bytes)
    → serve encode_map encode_workload ch p host (codes "/internal/version")
      ≡ record { status_code = 200; body = encode_workload (named_workload p host) }
unfolding serve version_routes health_routes version_handler adapter_workload host_workload
serve_version encode_map encode_workload ch p host = refl

-- If the network hands the controller's request to the worker's server, and JSON gives back what was
-- encoded, then `Assignation` returns the jobs that the worker's configuration has under the host's
-- name, or none if it has no such entry, under the version of the whole configuration.
pub assignation-serve :
    (send : Url → Option Response) (encode_map : Dict Bytes → Bytes)
    (encode_workload : Workload → Bytes) (decode_workload : Bytes → Option Workload) (ch : Checker)
    (p : Process) (host remote_port ip : Bytes)
    → ((path : Bytes)
        → send
            (record { scheme = codes "http"; host = ip ++ codes ":" ++ remote_port; path = path })
          ≡ some (serve encode_map encode_workload ch p host path))
    → ((w : Workload) → decode_workload (encode_workload w) ≡ some w)
    → assignation send decode_workload remote_port ip ≡ some (named_workload p host)
unfolding assignation
assignation-serve send encode_map encode_workload decode_workload ch p host remote_port ip reaches
      back =
    rw (reaches (codes "/internal/version"), serve_version encode_map encode_workload ch p host)
      (back (named_workload p host))
