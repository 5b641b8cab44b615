-- ===== src/WorkerApp/Serving.antt =====
-- services/worker/internal/transport/http/version.go: the version handler with its reads of the
-- configuration one by one, and services/worker/internal/config/config.go, which loads a new one between
-- them.
--
-- Each read holds the lock for itself. The two reads for the log line have no effect and are left out.
use k8s_swarm.Prelude.{
  List, [], ◌∷◌, Option, none, some, ◌≡◌, ◌⊎◌, inl, inr, refl, Bytes, Option-cases,
}
use k8s_swarm.Config.{Job, Workload}
use k8s_swarm.WorkerApp.{
  Config, Process, host_workload, load_config, adapter_workload, version_handler,
}

-- Where `versionHandler` stands: before it compares `Workload()` to nil, before it reads `Workload().Jobs`,
-- before it reads `Version()`, or at its end, which may be a nil dereference.
pub data Handling : Type 0 where
  checking taking : Handling
  versioning : List Job → Handling
  replied : Workload → Handling
  crashed : Handling

-- The next read, of the configuration as it is then.
unfoldable pub handler_step : Bytes → Config → Handling → Handling
handler_step host c checking = elim (host_workload c host) [
  | none ↦ versioning []
  | some w ↦ taking
]
handler_step host c taking = elim (host_workload c host) [
  | none ↦ crashed
  | some w ↦ versioning w.jobs
]
handler_step host c (versioning jobs) = replied (record { jobs = jobs; version = c.version })
handler_step host c (replied w) = replied w
handler_step host c crashed = crashed

abbrev pub Held : Config → List Config → Type 0
Held c [] = ⊥
Held c (d ∷ l) = (d ≡ c) ⊎ Held c l

-- The list, newest first, has `j`, and `i` there or further back.
abbrev pub IsBefore : Config → Config → List Config → Type 0
IsBefore i j [] = ⊥
IsBefore i j (d ∷ l) = ((d ≡ j) × Held i (d ∷ l)) ⊎ IsBefore i j l

module _ {F : Type 0} (read_in_config : F → Option F) (unmarshal : F → Config → Option Config)
    (host : Bytes) where
  -- A request and the loads while it is handled: the configuration, and the former ones, newest first.
  pub data Interleaved : Config → List Config → Handling → Type 0 where
    asked : (c : Config) → Interleaved c [] checking
    stepped :
        {c : Config} {older : List Config} {h : Handling}
        → Interleaved c older h
        → Interleaved c older (handler_step host c h)
    reloaded :
        {c d : Config} {older : List Config} {h : Handling} (file : F)
        → Interleaved c older h
        → load_config read_in_config unmarshal file c ≡ some d
        → Interleaved d (c ∷ older) h

-- The jobs that a configuration has for a host.
abbrev pub HasJobs : Config → Bytes → List Job → Type 0
HasJobs c host jobs =
    ((w : Workload) × (host_workload c host ≡ some w) × (w.jobs ≡ jobs))
    ⊎ ((host_workload c host ≡ none) × (jobs ≡ []))

-- How the configurations explain where a request stands.
abbrev pub IsExplained : Bytes → List Config → Handling → Type 0
IsExplained host l checking = Unit {0}
IsExplained host l taking =
    (i : Config) × Held i l × ((w : Workload) × (host_workload i host ≡ some w))
IsExplained host l (versioning jobs) = (i : Config) × Held i l × HasJobs i host jobs
IsExplained host l (replied r) =
    (i : Config) × (j : Config) × IsBefore i j l × HasJobs i host r.jobs × (r.version ≡ j.version)
IsExplained host l crashed =
    (i : Config) × (j : Config) × IsBefore i j l
    × ((w : Workload) × (host_workload i host ≡ some w))
    × (host_workload j host ≡ none)

IsExplained-older :
    (host : Bytes) (d : Config) (l : List Config) (h : Handling)
    → IsExplained host l h
    → IsExplained host (d ∷ l) h
IsExplained-older host d l checking e = tt
IsExplained-older host d l taking (i, held, known) = (i, inr held, known)
IsExplained-older host d l (versioning jobs) (i, held, has) = (i, inr held, has)
IsExplained-older host d l (replied r) (i, j, before, has, v) = (i, j, inr before, has, v)
IsExplained-older host d l crashed (i, j, before, known, unknown) =
    (i, j, inr before, known, unknown)

handler_step-IsExplained :
    (host : Bytes) (c : Config) (older : List Config) (h : Handling)
    → IsExplained host (c ∷ older) h
    → IsExplained host (c ∷ older) (handler_step host c h)
unfolding handler_step
handler_step-IsExplained host c older checking e = elim (Option-cases (host_workload c host)) [
  | inl unknown ↦ rw (unknown, handler_step) (c, inl refl, inr (unknown, refl))
  | inr (w, known) ↦ rw (known, handler_step) (c, inl refl, (w, known))
]
handler_step-IsExplained host c older taking (i, held, known) =
    elim (Option-cases (host_workload c host)) [
      | inl unknown ↦ rw (unknown, handler_step) (i, c, inl (refl, held), known, unknown)
      | inr (w, found) ↦ rw (found, handler_step) (c, inl refl, inl (w, found, refl))
    ]
handler_step-IsExplained host c older (versioning jobs) (i, held, has) =
    (i, c, inl (refl, held), has, refl)
handler_step-IsExplained host c older (replied r) e = e
handler_step-IsExplained host c older crashed e = e

module _ {F : Type 0} (read_in_config : F → Option F) (unmarshal : F → Config → Option Config)
    (host : Bytes) where
  -- Whatever is loaded while a request is handled: a reply has the jobs of one configuration, which are
  -- none if it does not know the host, and the version of that one or of a later one; and the handler
  -- dereferences nil only if one configuration knows the host and a later one does not. What was read
  -- before the end is that of a configuration, too.
  pub Interleaved-IsExplained :
      {c : Config} {older : List Config} {h : Handling}
      → Interleaved read_in_config unmarshal host c older h
      → IsExplained host (c ∷ older) h
  Interleaved-IsExplained (asked c) = tt
  Interleaved-IsExplained (stepped {c} {older} {h} r) =
      handler_step-IsExplained host c older h (Interleaved-IsExplained r)
  Interleaved-IsExplained (reloaded {c} {d} {older} {h} file r e) =
      IsExplained-older host d (c ∷ older) h (Interleaved-IsExplained r)

-- A request during which nothing is loaded gets what the atomic `version_handler` has: a third read
-- changes nothing if the second was the last.
alone-version_handler :
    (host : Bytes) (p : Process)
    → handler_step host p.config (handler_step host p.config (handler_step host p.config checking))
      ≡ replied (version_handler p host)
unfolding handler_step version_handler adapter_workload
alone-version_handler host p = elim (Option-cases (host_workload p.config host)) [
  | inl unknown ↦ rw (unknown, handler_step, adapter_workload, version_handler) refl
  | inr (w, known) ↦
      rw (known, handler_step, adapter_workload, version_handler) (rw (known, handler_step) refl)
]
