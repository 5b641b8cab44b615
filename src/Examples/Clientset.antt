-- ===== src/Examples/Clientset.antt =====
-- An API server that holds at most one Swarm.
use k8s_swarm.Prelude.{
  ℕ, List, [], ◌∷◌, Option, none, some, ◌≡◌, refl, sym, ap, ◌∙◌, arith, false, Bytes, codes,
  bytes_eq, bytes_eq_iff, if◌then◌else◌,
}
use k8s_swarm.Storage.{Answer, answered, status_error, other_error, Call, stored}
use k8s_swarm.Storage.Swarms.{Swarm, get_swarm, set_swarm, update_with, fill}
use k8s_swarm.Storage.Decoding.{unversioned}
use k8s_swarm.Config.{Workloads}
use k8s_swarm.Clientset.{
  Request, RestClient, Verb, get_verb, post_verb, put_verb, delete_verb, patch_verb, Body,
  swarm_body, timeout_of, get, update, swarm_client, new_swarms,
}
use k8s_swarm.Clientset.Serving.{ServerLaws, Reads, Writes, read_back_served}

abbrev pub Options : Type 0
Options = Unit {0}

abbrev pub Cluster : Type 0
Cluster = Option Swarm

abbrev pub find : Option Bytes → Cluster → Answer Swarm
find none w = status_error
find (some name) none = status_error
find (some name) (some sw) = if bytes_eq sw.name name then answered sw else status_error

abbrev pub post : Body Options → Cluster → Call Cluster Swarm
post (swarm_body sw) w = record { cluster = some sw; answer = answered sw }
post _ w = record { cluster = w; answer = other_error }

-- A PUT to a subresource changes nothing that the model has.
abbrev pub put : List Bytes → Body Options → Cluster → Call Cluster Swarm
put [] (swarm_body sw) w = record { cluster = some sw; answer = answered sw }
put (sub ∷ subs) (swarm_body sw) w = record { cluster = w; answer = find (some sw.name) w }
put _ _ w = record { cluster = w; answer = other_error }

abbrev pub answer : Verb → Option Bytes → List Bytes → Body Options → Cluster → Call Cluster Swarm
answer get_verb name subs body w = record { cluster = w; answer = find name w }
answer post_verb name subs body w = post body w
answer put_verb name subs body w = put subs body w
answer delete_verb name subs body w = record { cluster = w; answer = other_error }
answer (patch_verb pt) name subs body w = record { cluster = w; answer = other_error }

abbrev pub server : RestClient Options Cluster Options
server = record {
  into_swarm = λ r w. answer r.verb r.name r.subresources r.body w;
  into_list = λ r w. record { cluster = w; answer = other_error };
  error = λ r w. record { cluster = none; answer = answered tt };
  watch = λ r w. other_error;
}

find-name :
    (name : Bytes) (w : Cluster) (sw : Swarm) → find (some name) w ≡ answered sw → sw.name ≡ name
find-name name none sw e = absurd (ground arith)
find-name name (some s) sw e = ground (arith, bytes_eq_iff s.name name)

pub reading :
    (g : Request Options) (ns name : Bytes) (w : Cluster)
    → Reads g ns name
    → server.into_swarm g w ≡ record { cluster = w; answer = find (some name) w }
reading g ns name w (get, _, _, named, _) = rw (get, named) refl

pub posting :
    (r : Request Options) (sw : Swarm) (w : Cluster)
    → r.verb ≡ post_verb
    → r.body ≡ swarm_body sw
    → server.into_swarm r w ≡ post (swarm_body sw) w
posting r sw w verb body = rw (verb, body) refl

pub putting :
    (r : Request Options) (ns : Bytes) (subs : List Bytes) (sw : Swarm) (w : Cluster)
    → Writes r ns subs sw
    → server.into_swarm r w ≡ put subs (swarm_body sw) w
putting r ns subs sw w (put, _, _, _, main, body) = rw (put, main, body) refl

found : (sw : Swarm) → find (some sw.name) (some sw) ≡ answered sw
found sw = ground (arith, bytes_eq_iff sw.name sw.name)

same_name : (a b : Swarm) → answered a ≡ answered b → b.name ≡ a.name
same_name a b e = ground arith

server-Laws : ServerLaws server
server-Laws = record {
  read_name = λ r ns name w sw reads e.
      find-name name w sw
        (sym (ap (λ (c : Call Cluster Swarm). c.answer) (reading r ns name w reads)) ∙ e);
  read_only =
      λ r ns name w reads. ap (λ (c : Call Cluster Swarm). c.cluster) (reading r ns name w reads);
  created = λ r sw s w verb _ body e.
      same_name sw s
        (sym (ap (λ (c : Call Cluster Swarm). c.answer) (posting r sw w verb body)) ∙ e);
  replaced = λ r g ns sw s w writes reads e. (
    sw,
    ap (λ (c : Call Cluster Swarm). c.answer)
          (ap (λ (c : Call Cluster Swarm). server.into_swarm g c.cluster)
              (putting r ns [] sw w writes)
            ∙ reading g ns sw.name (some sw) reads)
        ∙ found sw,
    refl,
  );
}

abbrev pub stored_swarm : Swarm
stored_swarm = record {
  kind = codes "Swarm";
  api_version = codes "v1alpha1";
  name = codes "swarm";
  namespace = codes "ns";
  resource_version = [];
  spec = record { version = 3; expected_size = 2; size = 2; members = [] };
  phase = [];
}

abbrev assignment : Workloads
assignment = record {
  workloads = (codes "w-0", record { jobs = codes "a" ∷ []; version = 4 }) ∷ [];
  version = 4;
}

abbrev clock : Bytes → ℕ
clock name = 1600000000

abbrev after : Cluster
after = some (fill clock assignment stored_swarm)

stored_after :
    set_swarm
      (swarm_client server tt)
      (codes "ns")
      (codes "swarm")
      clock
      assignment
      (some stored_swarm)
    ≡ stored after
unfolding set_swarm update_with swarm_client get update new_swarms
stored_after = refl

read_back_served_example :
    get_swarm (swarm_client server tt) (codes "ns") (codes "swarm") after
    ≡ some (unversioned assignment)
read_back_served_example =
    read_back_served server server-Laws tt (codes "ns") (codes "swarm") clock assignment
      (some stored_swarm) after (refl, tt) stored_after

an_hour :
    timeout_of (record {
      label_selector = [];
      field_selector = [];
      watch = false;
      timeout_seconds = some 3600;
    })
    ≡ 3600000000000
unfolding timeout_of
an_hour = refl
