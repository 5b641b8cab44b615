-- ===== src/Controllers/Wiring/Mounted.antt =====
-- From the command's ConfigMap, which is mounted as the worker's configuration file, to the answer of
-- services/worker/internal/transport/http/version.go.
use k8s_swarm.Prelude.{
  ℕ, suc, ◌<◌, ◌∷◌, ◌++◌, ◌≢◌, ◌⊎◌, inl, subst, List, [], Option, none, some, Bool, true, false,
  ◌≡◌, refl, sym, ap, ◌∙◌, same_pair, arith, Bytes, Dict, lookup,
}
use k8s_swarm.Config.{Job, Workload, Workloads}
use k8s_swarm.Text.{format, is_digit}
use k8s_swarm.Text.RoundTrip.{AllDigits, format-AllDigits}
use k8s_swarm.State.{worker_name, new_state}
use k8s_swarm.State.Labels.{label}
use k8s_swarm.State.Shares.{share}
use k8s_swarm.Pool.{Pool}
use k8s_swarm.Objects.{Object}
use k8s_swarm.Operator.{Event}
use k8s_swarm.Operator.Queues.{Queue}
use k8s_swarm.Executor.{refresh_pod}
use k8s_swarm.Storage.{Answer, answered, status_error, other_error, stored}
use k8s_swarm.Storage.Chain.{set_both-outcomes}
use k8s_swarm.Storage.ConfigMaps.{ConfigMap, config_text}
use k8s_swarm.Storage.ReadingBack.{ConfigMapClientLaws, config_text-set_config_map}
use k8s_swarm.Controllers.{System, run_command}
use k8s_swarm.Controllers.Stepping.{Reached}
use k8s_swarm.Controllers.Keeping.{IsKeeping}
use k8s_swarm.Controllers.Storing.{stored_assignment, Inv-of_Reached}
use k8s_swarm.Controllers.Answering.{config-share, reloaded-version_handler}
use k8s_swarm.Controllers.Wiring.{Clients, Variables, set_cm, set_swl, set_mex, refresh_pdl}
use k8s_swarm.Controllers.Wiring.Both.{AreApart, set_swarm-apart}
use k8s_swarm.WorkerApp.{Config, Process, load_config, update_workload_from_config, version_handler}

-- A name that viper does not take apart at a dot or change to lower case: of ASCII, with no dot and no upper
-- case letter.
abbrev pub IsPlain : Bytes → Type 0
IsPlain [] = Unit
IsPlain (c ∷ name) = (c ≢ b'.') × ((c < b'A') ⊎ ((b'Z' < c) × (c < 128))) × IsPlain name

abbrev pub HavePlainNames : Dict Workload → Type 0
HavePlainNames [] = Unit
HavePlainNames ((name, w) ∷ d) = IsPlain name × HavePlainNames d

-- What viper documents, of the text that YAML makes of an assignment with plain names, for the host's name:
-- it loads, whatever was loaded before, with the assignment's version and the host's jobs.
pub record ReadsYaml (encode_yaml : Workloads → Option Bytes)
    (read_in_config : Bytes → Option Bytes) (unmarshal : Bytes → Config → Option Config)
    (host : Bytes) : Type 0 where
  pub reads :
      (a : Workloads) (text : Bytes) (w : Workload) (c : Config)
      → HavePlainNames a.workloads
      → encode_yaml a ≡ some text
      → lookup host a.workloads ≡ some w
      → (d : Config) × (load_config read_in_config unmarshal text c ≡ some d)
        × (d.version ≡ a.version)
        × ((v : Workload) × (lookup host d.workload ≡ some v) × (v.jobs ≡ w.jobs))

IsPlain-append : (s t : Bytes) → IsPlain s → IsPlain t → IsPlain (s ++ t)
IsPlain-append [] t p q = q
IsPlain-append (c ∷ s) t (dot, case, p) q = (dot, case, IsPlain-append s t p q)

AllDigits-IsPlain : (s : Bytes) → AllDigits s → IsPlain s
unfolding is_digit
AllDigits-IsPlain [] d = tt
AllDigits-IsPlain (c ∷ s) d =
    ((λ e. absurd (ground (arith, d.0, e))), inl (ground (arith, d.0)), AllDigits-IsPlain s d.1)

label-HavePlainNames :
    (set_name : Bytes) (a : ℕ) (ws : List Workload)
    → IsPlain set_name
    → HavePlainNames (label set_name a ws)
unfolding label worker_name
label-HavePlainNames set_name a [] p = tt
label-HavePlainNames set_name a (w ∷ ws) p = (
  IsPlain-append set_name (b'-' ∷ format a) p
      (omega arith, inl (omega arith), AllDigits-IsPlain (format a) (format-AllDigits a)),
  label-HavePlainNames set_name (suc a) ws p,
)

abbrev is_given : Option Bytes → Bool
is_given none = false
is_given (some text) = true

given_text : (o : Option Bytes) → is_given o ≡ true → (text : Bytes) × (o ≡ some text)
given_text none e = absurd (ground arith)
given_text (some text) e = (text, refl)

abbrev text_of : Answer ConfigMap → Option Bytes
text_of (answered c) = some (config_text c)
text_of status_error = none
text_of other_error = none

module _ {W : Type 0} (clients : Clients W) (encode_yaml : Workloads → Option Bytes)
    (decode_yaml : Bytes → Option Workloads) (vars : Variables) where
  -- The text of the file, and whether there is one.
  abbrev pub mounted : W → Option Bytes
  mounted w = text_of (clients.config_maps.get vars.namespace vars.workers_config_map_name w)

  abbrev pub mounted_file : W → Option Bytes × Bool
  mounted_file w = (mounted w, is_given (mounted w))

  mounted_file-same :
      (v w : W)
      → clients.config_maps.get vars.namespace vars.workers_config_map_name v
        ≡ clients.config_maps.get vars.namespace vars.workers_config_map_name w
      → mounted_file v ≡ mounted_file w
  mounted_file-same v w e = ap {B = Option Bytes × Bool} (λ r. (text_of r, is_given (text_of r))) e

  module _ (config_map_laws : ConfigMapClientLaws clients.config_maps) (apart : AreApart clients)
      (clock : Bytes → ℕ) where
    mounted_file-set_mex :
        (a : Workloads) (w v : W)
        → set_mex clients encode_yaml decode_yaml vars clock a w ≡ stored v
        → mounted_file v ≡ (encode_yaml a, true)
    unfolding set_mex set_cm set_swl
    mounted_file-set_mex a w v h =
        let (u, first, second) =
          (set_both-outcomes (set_cm clients encode_yaml decode_yaml vars)
              (set_swl clients encode_yaml decode_yaml vars clock) a w v).0.0
            h in
        let same =
          set_swarm-apart clients apart vars.namespace vars.workers_config_map_name vars.namespace
            vars.watch_label clock a u v _ refl second in
        let (text, c, encoded, left, kept) =
          config_text-set_config_map clients.config_maps encode_yaml decode_yaml vars.namespace
            vars.workers_config_map_name config_map_laws a w u first in
        let at_v : mounted v ≡ some text = ap text_of (same ∙ left) ∙ ap some kept in
        same_pair (mounted_file v) _ _ (at_v ∙ sym encoded) (ap is_given at_v)

    set_mex-IsKeeping :
        IsKeeping
          (set_mex clients encode_yaml decode_yaml vars clock)
          (refresh_pdl clients encode_yaml decode_yaml vars)
          mounted_file
          (λ a. (encode_yaml a, true))
    unfolding refresh_pdl refresh_pod
    set_mex-IsKeeping = record {
      read_store = λ a w v unique h. mounted_file-set_mex a w v h;
      read_refresh = λ name w.
          mounted_file-same _ w
            (apart.pod_deleted vars.namespace vars.workers_config_map_name vars.namespace name w).0;
    }

    module _ {Q : Type 0} (parse_ip : Bytes → Bytes) (jobs : List Job) (calls : Queue Event Q)
        (get_labels : Object → Option (Dict Bytes)) (key_of deletion_key_of : Object → Option Bytes)
        (i : ℕ) (read_in_config : Bytes → Option Bytes) (unmarshal : Bytes → Config → Option Config)
        (viper : ReadsYaml encode_yaml read_in_config unmarshal (worker_name vars.watch_label i))
        (plain : IsPlain vars.watch_label) where
      -- The way of a job through the ConfigMap. The command reaches a state in which it runs and its last
      -- assignment was stored with no error; then the ConfigMap has a text, and worker `i`, for an `i`
      -- below the expected size, whose file has that text, updates and answers with its share of the
      -- jobs that the controller was started with, under the pool's version, whatever it has loaded
      -- before and whatever the indexers of the informers answer. The clients keep accepted updates, their
      -- kinds of resources are apart, and viper reads what YAML writes of plain names, of which the watch
      -- label is one.
      pub mounted-share_answered :
          (empty : Q) (w : W) (s : System Q W) (p : Pool) (process : Process)
          → Reached calls
              (set_mex clients encode_yaml decode_yaml vars clock)
              (refresh_pdl clients encode_yaml decode_yaml vars)
              parse_ip
              get_labels
              key_of
              deletion_key_of
              vars.watch_label
              mounted_file
              (run_command jobs vars.watch_label empty w)
              s
          → s.pool ≡ some p
          → s.stored ≡ true
          → i < p.expected_size
          → (text : Bytes) × (r : Process) × (mounted s.cluster ≡ some text)
            × (update_workload_from_config read_in_config unmarshal text
                  (worker_name vars.watch_label i)
                  process
                ≡ some r)
            × (version_handler r (worker_name vars.watch_label i)
                ≡ record { jobs = share jobs p.expected_size i; version = p.version })
      unfolding new_state
      mounted-share_answered empty w s p process reached runs good below =
          let store = set_mex clients encode_yaml decode_yaml vars clock in
          let refresh = refresh_pdl clients encode_yaml decode_yaml vars in
          let (known, _, _) =
            stored_assignment parse_ip jobs vars.watch_label mounted_file
              (λ a. (encode_yaml a, true)) calls store refresh set_mex-IsKeeping get_labels key_of
              deletion_key_of empty w s p reached runs good in
          let inv =
            Inv-of_Reached parse_ip jobs vars.watch_label mounted_file (λ a. (encode_yaml a, true))
              calls store refresh set_mex-IsKeeping get_labels key_of deletion_key_of empty w s p
              reached runs in
          let (entry, versioned) = config-share jobs vars.watch_label p i inv below in
          let (text, there) =
            given_text (mounted s.cluster) (ap (λ (x : Option Bytes × Bool). x.1) known) in
          let encoded : encode_yaml p.state.config ≡ some text =
            sym (ap (λ (x : Option Bytes × Bool). x.0) known) ∙ there in
          let named : HavePlainNames p.state.config.workloads =
            subst HavePlainNames (sym inv.assigned) (
              label-HavePlainNames p.state.set_name 0 _
                (subst IsPlain (sym inv.same_jobs.1) plain)) in
          let (d, loaded, version, (v, found, same)) =
            viper.reads p.state.config text _ process.config named encoded entry in
          let (r, updated, answers) =
            reloaded-version_handler read_in_config unmarshal text (worker_name vars.watch_label i)
              process d v loaded found in
          (
            text,
            r,
            there,
            updated,
            answers
                ∙ ap (λ js. record { jobs = js; version = d.version }) same
                ∙ ap (λ n. record { jobs = share jobs p.expected_size i; version = n })
                    (version ∙ versioned),
          )
