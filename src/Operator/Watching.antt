-- ===== src/Operator/Watching.antt =====
-- What the event processors watch: operator/pod/watcher.go and operator/statefulset/watcher.go in
-- services/controller/internal/infra/k8s, beside operator/crd/watcher.go, and NewEventProcessor of
-- operator/processor.go.
--
-- The client of package kubernetes is an argument: for a kind of resource and a namespace, its `List` and
-- its `Watch`, which give objects of types `A` and `V`. Options are of a type `O`.
use k8s_swarm.Prelude.{ℕ, Option, Bytes}
use k8s_swarm.Storage.{Answer, Call}
use k8s_swarm.Objects.{Object}
use k8s_swarm.Operator.{SelectorError, Delivered, Delivery, add, update, delete}
use k8s_swarm.Clientset
use k8s_swarm.Clientset.{ListOptions, SwarmList, RestClient}

pub record KindClient (O W A V : Type 0) : Type 0 where
  pub list_kind : O → W → Call W A
  pub watch_kind : O → W → Answer V

-- kubernetes.Interface: `CoreV1().Pods` and `AppsV1().StatefulSets`.
pub record Kubernetes (O W A V : Type 0) : Type 0 where
  pub pods : Bytes → KindClient O W A V
  pub stateful_sets : Bytes → KindClient O W A V

-- The interface ListWatcher.
pub record ListWatcher (O W A V : Type 0) : Type 0 where
  pub list_objects : O → W → Call W A
  pub watch_objects : O → W → Answer V

-- `listWatcherAdapter` of the pods, and of the StatefulSets, with `List` and `Watch`.
unfoldable pub new_pod_list_watcher :
    {O W A V : Type 0} → Kubernetes O W A V → Bytes → ListWatcher O W A V
new_pod_list_watcher client namespace = record {
  list_objects = λ options w. (client.pods namespace).list_kind options w;
  watch_objects = λ options w. (client.pods namespace).watch_kind options w;
}

unfoldable pub new_stateful_set_list_watcher :
    {O W A V : Type 0} → Kubernetes O W A V → Bytes → ListWatcher O W A V
new_stateful_set_list_watcher client namespace = record {
  list_objects = λ options w. (client.stateful_sets namespace).list_kind options w;
  watch_objects = λ options w. (client.stateful_sets namespace).watch_kind options w;
}

-- That of the Swarms.
unfoldable pub new_swarm_list_watcher :
    {O W V : Type 0} → RestClient O W V → Bytes → ListWatcher ListOptions W SwarmList V
new_swarm_list_watcher rest namespace = record {
  list_objects = λ options w. Clientset.list_swarms rest namespace options w;
  watch_objects = λ options w. Clientset.watch_swarms rest namespace options w;
}

-- What NewIndexerInformer is given: what to list and to watch, the type of the objects, the time between
-- resyncs, and the functions that it hands objects over to.
pub record InformerSettings (O W A V : Type 0) : Type 0 where
  pub list_func : O → W → Call W A
  pub watch_func : O → W → Answer V
  pub type_name : Bytes
  pub resync_period : ℕ
  pub add_func : Delivered → Delivery
  pub update_func : Delivered → Delivered → Delivery
  pub delete_func : Delivered → Delivery

-- `NewEventProcessor`, with the event handler of a selector and its key functions.
unfoldable pub new_event_processor :
    {O W A V : Type 0}
    → Bytes
    → ListWatcher O W A V
    → (Object → Option SelectorError)
    → (Object → Option Bytes)
    → (Object → Option Bytes)
    → InformerSettings O W A V
new_event_processor type_name w validates key_of deletion_key_of = record {
  list_func = w.list_objects;
  watch_func = w.watch_objects;
  type_name = type_name;
  resync_period = 0;
  add_func = λ d. add validates key_of d;
  update_func = λ old new. update validates key_of old new;
  delete_func = λ d. delete validates deletion_key_of d;
}
