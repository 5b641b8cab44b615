-- ===== src/WorkerApp/Watching.antt =====
-- How often a worker loads its configuration: viper.WatchConfig in LoadConfig, and the callback that Run of
-- services/worker/cmd/worker.go registers, which loads the configuration again.
--
-- Each call of WatchConfig starts one watcher more, and each watcher calls the callback once for a change of
-- the file. A change is over when those watchers have called it that ran when it began.
use native.Mathlib.Nat.{mul_comm, pow-suc}
use k8s_swarm.Prelude.{
  ℕ, zero, suc, ◌+◌, ◌*◌, ◌^◌, List, [], ◌∷◌, Option, some, ◌≡◌, refl, sym, ap, ◌∙◌, arith, Bytes,
  codes, ◌>>=◌, Option-cases, inl, inr, length,
}
use k8s_swarm.WorkerApp.{
  Config, Process, new_process, host_name, host_workload, load_config, update_workload_from_config,
}

-- The process, with the number of watchers.
pub record Watched : Type 0 where
  pub process : Process
  pub watchers : ℕ

abbrev pub default_host_name : Bytes
default_host_name = codes "swarm-worker-0"

module _ {F : Type 0} (read_in_config : F → Option F) (unmarshal : F → Config → Option Config)
    (env : Bytes) where
  -- `updateWorkloadFromConfig`, whose `LoadConfig` ends with WatchConfig.
  unfoldable pub update_watched : F → Watched → Option Watched
  update_watched file w =
      update_workload_from_config read_in_config unmarshal file (host_name env default_host_name)
        w.process
      >>= λ p. some (record { process = p; watchers = w.watchers + 1 })

  -- The callbacks of some watchers.
  unfoldable pub call_back : ℕ → F → Watched → Option Watched
  call_back zero file w = some w
  call_back (suc n) file w = update_watched file w >>= λ v. call_back n file v

  unfoldable pub change_file : F → Watched → Option Watched
  change_file file w = call_back w.watchers file w

  unfoldable pub change_files : List F → Watched → Option Watched
  change_files [] w = some w
  change_files (file ∷ files) w = change_file file w >>= λ v. change_files files v

  -- `initConfig` and then `Run`, up to the callback.
  unfoldable pub start_worker : F → Option Watched
  unfolding new_process
  start_worker file = load_config read_in_config unmarshal file new_process.config >>= λ c.
      update_watched file (record { process = record new_process { config = c }; watchers = 1 })

-- A file that loads, whatever configuration there is.
abbrev pub Loads : {F : Type 0} → (F → Option F) → (F → Config → Option Config) → F → Type 0
Loads read_in_config unmarshal file =
    (c : Config) → (d : Config) × (load_config read_in_config unmarshal file c ≡ some d)

abbrev pub AllLoad : {F : Type 0} → (F → Option F) → (F → Config → Option Config) → List F → Type 0
AllLoad read_in_config unmarshal [] = Unit
AllLoad read_in_config unmarshal (file ∷ files) =
    Loads read_in_config unmarshal file × AllLoad read_in_config unmarshal files

twice_times : (a n : ℕ) → (a + a) * 2 ^ n ≡ a * 2 ^ suc n
twice_times a n = doubled a (2 ^ n) ∙ ap (λ m. a * m) (sym (pow-suc 2 n))
  where
    doubled : (a b : ℕ) → (a + a) * b ≡ a * (b * 2)
    doubled a b = grind arith

two_times : (n : ℕ) → (1 + 1) * 2 ^ n ≡ 2 ^ suc n
two_times n = mul_comm 2 (2 ^ n) ∙ sym (pow-suc 2 n)

module _ {F : Type 0} (read_in_config : F → Option F) (unmarshal : F → Config → Option Config)
    (env : Bytes) where
  update_watched_lem :
      (file : F) (w : Watched)
      → Loads read_in_config unmarshal file
      → (v : Watched) × (update_watched read_in_config unmarshal env file w ≡ some v)
        × (v.watchers ≡ w.watchers + 1)
  unfolding update_watched update_workload_from_config
  update_watched_lem file w loads =
      let (c, loaded) = loads w.process.config in
      elim (Option-cases (host_workload c (host_name env default_host_name))) [
        | inl unknown ↦ (
          record { process = record w.process { config = c }; watchers = w.watchers + 1 },
          ground arith,
          refl,
        )
        | inr (wl, known) ↦ (
          record {
            process = record { config = c; app = k8s_swarm.WorkerApp.assign w.process.app wl };
            watchers = w.watchers + 1;
          },
          ground arith,
          refl,
        )
      ]

  call_back_lem :
      (n : ℕ) (file : F) (w : Watched)
      → Loads read_in_config unmarshal file
      → (v : Watched) × (call_back read_in_config unmarshal env n file w ≡ some v)
        × (v.watchers ≡ w.watchers + n)
  unfolding call_back
  call_back_lem zero file w loads = (w, refl, omega arith)
  call_back_lem (suc n) file w loads =
      let (v, updated, one_more) = update_watched_lem file w loads in
      let (u, called, more) = call_back_lem n file v loads in
      (u, rw (updated) called, omega (arith, one_more, more))

  change_files_lem :
      (files : List F) (w : Watched)
      → AllLoad read_in_config unmarshal files
      → (v : Watched) × (change_files read_in_config unmarshal env files w ≡ some v)
        × (v.watchers ≡ w.watchers * 2 ^ length files)
  unfolding change_files change_file
  change_files_lem [] w all = (w, refl, omega arith)
  change_files_lem (file ∷ files) w (loads, all) =
      let (v, changed, twice) = call_back_lem w.watchers file w loads in
      let (u, rest, many) = change_files_lem files v all in
      (
        u,
        rw (changed) rest,
        many ∙ ap (λ n. n * 2 ^ length files) twice ∙ twice_times w.watchers (length files),
      )

  -- Each change of the file doubles the watchers. A worker that has started with a file that loads, and
  -- has seen changes to files that load, still runs, and has 2 to the number of changes and one watchers:
  -- that is how often it loads the configuration at the next change.
  pub watchers_double :
      (file : F) (files : List F)
      → Loads read_in_config unmarshal file
      → AllLoad read_in_config unmarshal files
      → (v : Watched) × ((start_worker read_in_config unmarshal env file >>= λ w.
            change_files read_in_config unmarshal env files w)
          ≡ some v)
        × (v.watchers ≡ 2 ^ suc (length files))
  unfolding start_worker new_process
  watchers_double file files loads all =
      let (c, loaded) = loads new_process.config in
      let (w, updated, two) =
        update_watched_lem file
          (record { process = record new_process { config = c }; watchers = 1 }) loads in
      let (v, changed, many) = change_files_lem files w all in
      (
        v,
        rw (loaded, updated) changed,
        many ∙ ap (λ n. n * 2 ^ length files) two ∙ two_times (length files),
      )
