-- ===== src/Examples/Remote.antt =====
-- A worker that answers, and an event whose text is asked for.
use k8s_swarm.Prelude.{
  ℕ, zero, suc, List, [], ◌∷◌, Option, none, some, ◌≡◌, refl, ap, ◌∙◌, Bytes, codes, Dict,
}
use k8s_swarm.Config.{Workload}
use k8s_swarm.Worker.{syncing}
use k8s_swarm.Events.{SwarmEvent, state_event}
use k8s_swarm.WorkerApp.{Process}
use k8s_swarm.Remote.{Url, Response, Checker, serve, assignation}
use k8s_swarm.Remote.Asking.{assignation-serve}

-- A job ends with 0, and each of its bytes is one larger.
abbrev encode_job : Bytes → Bytes → Bytes
encode_job [] rest = 0 ∷ rest
encode_job (c ∷ s) rest = suc c ∷ encode_job s rest

abbrev encode_jobs : List Bytes → Bytes
encode_jobs [] = []
encode_jobs (job ∷ jobs) = encode_job job (encode_jobs jobs)

abbrev push : ℕ → List Bytes → List Bytes
push c [] = (c ∷ []) ∷ []
push c (job ∷ jobs) = (c ∷ job) ∷ jobs

abbrev decode_jobs : Bytes → List Bytes
decode_jobs [] = []
decode_jobs (zero ∷ s) = [] ∷ decode_jobs s
decode_jobs (suc c ∷ s) = push c (decode_jobs s)

abbrev as_text : Workload → Bytes
as_text w = w.version ∷ encode_jobs w.jobs

abbrev of_text : Bytes → Option Workload
of_text [] = none
of_text (version ∷ s) = some (record { jobs = decode_jobs s; version = version })

decode_jobs-encode_job :
    (job rest : Bytes) → decode_jobs (encode_job job rest) ≡ job ∷ decode_jobs rest
decode_jobs-encode_job [] rest = refl
decode_jobs-encode_job (c ∷ s) rest = ap (push c) (decode_jobs-encode_job s rest)

decode_jobs-encode_jobs : (jobs : List Bytes) → decode_jobs (encode_jobs jobs) ≡ jobs
decode_jobs-encode_jobs [] = refl
decode_jobs-encode_jobs (job ∷ jobs) =
    decode_jobs-encode_job job (encode_jobs jobs) ∙ ap (◌∷◌ job) (decode_jobs-encode_jobs jobs)

abbrev checker : Checker
checker = record { version = codes "1"; date = codes "today" }

abbrev process : Process
process = record {
  config = record {
    workload = (codes "w-0", record { jobs = codes "a" ∷ []; version = 2 }) ∷ [];
    version = 5;
  };
  app = record { state = none };
}

abbrev encode_map : Dict Bytes → Bytes
encode_map d = []

abbrev network : Url → Option Response
network url = some (serve encode_map as_text checker process (codes "w-0") url.path)

assignation-serve_example :
    assignation network of_text (codes "9090") (codes "10.0.0.1")
    ≡ some (record { jobs = codes "a" ∷ []; version = 5 })
assignation-serve_example =
    assignation-serve network encode_map as_text of_text checker process (codes "w-0")
      (codes "9090") (codes "10.0.0.1") (λ path. refl)
      (λ w.
        ap (λ jobs. some (record { jobs = jobs; version = w.version }))
          (decode_jobs-encode_jobs w.jobs))

abbrev show_time : ℕ → Bytes
show_time t = codes "now"

abbrev synced : SwarmEvent ℕ Bytes
synced = state_event 3 syncing
