-- ===== src/Examples/Serving.antt =====
-- A reload between the two reads of a request to the version handler.
use k8s_swarm.Prelude.{[], ◌∷◌, Option, some, refl, codes}
use k8s_swarm.WorkerApp.{Config, load_config, host_workload}
use k8s_swarm.WorkerApp.Serving.{
  Handling, replied, handler_step, Interleaved, asked, stepped, reloaded, IsExplained,
  Interleaved-IsExplained,
}

abbrev read_in_config : Config → Option Config
read_in_config file = some file

abbrev unmarshal : Config → Config → Option Config
unmarshal content config = some content

abbrev first : Config
first = record {
  workload = (codes "w-0", record { jobs = codes "a" ∷ []; version = 0 }) ∷ [];
  version = 2;
}

abbrev second : Config
second = record {
  workload = (codes "w-0", record { jobs = codes "b" ∷ []; version = 0 }) ∷ [];
  version = 3;
}

-- The jobs of the first configuration, under the version of the second.
abbrev torn : Handling
torn = replied (record { jobs = codes "a" ∷ []; version = 3 })

torn-Interleaved : Interleaved read_in_config unmarshal (codes "w-0") second (first ∷ []) torn
unfolding handler_step host_workload load_config
torn-Interleaved = stepped (reloaded second (stepped (stepped (asked first))) refl)

Interleaved-IsExplained_example : IsExplained (codes "w-0") (second ∷ first ∷ []) torn
Interleaved-IsExplained_example =
    Interleaved-IsExplained read_in_config unmarshal (codes "w-0") torn-Interleaved
