-- ===== src/Operator.antt =====
-- services/controller/internal/infra/k8s/operator: from the informer's deliveries to the handlers'
-- calls. event.go, selector.go, resource_event_handler.go and processor.go.
--
-- Of client-go and apimachinery the code uses meta.Accessor, the two key functions and the indexer:
-- arguments of the definitions. DeepCopyObject gives an equal object.
pub mod Filtering
pub mod Queues
pub mod Retries
pub mod Draining
pub mod Typing
pub mod Contents
pub mod Lifecycle
pub mod Watching
use k8s_swarm.Prelude.{
  Option, none, some, Bool, not, Bytes, codes, Dict, lookup, bytes_eq, if◌then◌else◌,
}
use k8s_swarm.Objects.{Object}

-- event.go: the two kinds of events.
pub data Event : Type 0 where
  event : Bytes → Object → Event
  update_event : (key : Bytes) (old_obj new_obj : Object) → Event

unfoldable pub get_key : Event → Bytes
get_key (event key obj) = key
get_key (update_event key old_obj new_obj) = key

-- What the informer hands over: nil, an object, or the tombstone of an object whose deletion was missed
-- (cache.DeletedFinalStateUnknown), which is no runtime.Object.
pub data Delivered : Type 0 where
  nil tombstone : Delivered
  object : Object → Delivered

pub data SelectorError : Type 0 where
  accessor_failed no_app_label : SelectorError
  other_label : Bytes → SelectorError

pub data Label : Type 0 where
  found : Bytes → Label
  failed : SelectorError → Label

-- What a call of the event handler does: it panics, leaves the queue alone, or adds an event.
pub data Delivery : Type 0 where
  panics skipped : Delivery
  queued : Event → Delivery

-- `labels["app"]`, of labels that the accessor may fail to give.
unfoldable pub app_label : Option (Dict Bytes) → Label
app_label none = failed accessor_failed
app_label (some labels) = elim (lookup (codes "app") labels) [
  | none ↦ failed no_app_label
  | some v ↦ found v
]

module _ (get_labels : Object → Option (Dict Bytes)) where
  -- `getAppLabel`.
  unfoldable pub get_app_label : Object → Label
  get_app_label obj = app_label (get_labels obj)

  -- `Validate` of the selector of a label, with `hasWatchedLabel`; `none` is no error.
  unfoldable pub validate : Bytes → Object → Option SelectorError
  validate label obj = elim (get_app_label obj) [
    | failed e ↦ some e
    | found v ↦
        if not (bytes_eq v label)
        then elim (get_app_label obj) [ failed e ↦ some e | found l ↦ some (other_label l) ]
        else none
  ]

-- `Validate` of the selector that lets everything through.
unfoldable pub nop_validate : Object → Option SelectorError
nop_validate obj = none

-- The event handler, with its selector's `Validate` and the key functions.
module _ (validates : Object → Option SelectorError) where
  add_object : (Object → Option Bytes) → Object → Delivery
  add_object key_of o = elim (validates o) [
    | some e ↦ skipped
    | none ↦ elim (key_of o) [ none ↦ skipped | some key ↦ queued (event key o) ]
  ]

  unfoldable pub add : (Object → Option Bytes) → Delivered → Delivery
  unfolding add_object
  add key_of nil = skipped
  add key_of tombstone = panics
  add key_of (object o) = add_object key_of o

  update_objects : (Object → Option Bytes) → Delivered → Object → Delivery
  update_objects key_of old n = elim (validates n) [
    | some e ↦ skipped
    | none ↦ elim (key_of n) [
      | none ↦ skipped
      | some key ↦ elim old [
        | nil ↦ skipped
        | tombstone ↦ panics
        | object o ↦ queued (update_event key o n)
      ]
    ]
  ]

  unfoldable pub update : (Object → Option Bytes) → Delivered → Delivered → Delivery
  unfolding update_objects
  update key_of nil new = skipped
  update key_of tombstone nil = skipped
  update key_of tombstone tombstone = panics
  update key_of tombstone (object n) = update_objects key_of tombstone n
  update key_of (object o) nil = skipped
  update key_of (object o) tombstone = panics
  update key_of (object o) (object n) = update_objects key_of (object o) n

  -- The type assertion stands before the key function that knows tombstones.
  unfoldable pub delete : (Object → Option Bytes) → Delivered → Delivery
  unfolding add_object
  delete deletion_key_of nil = skipped
  delete deletion_key_of tombstone = panics
  delete deletion_key_of (object o) = add_object deletion_key_of o

-- processor.go. The indexer's answer for a key.
pub data Indexed : Type 0 where
  index_error absent present : Indexed

-- The call of the resource handler.
pub data Call : Type 0 where
  created : Object → Call
  updated : (new_obj old_obj : Object) → Call
  deleted : Object → Call

-- `Handle`: an error of the indexer, or the call that is made.
unfoldable pub handle : (Bytes → Indexed) → Event → Option Call
handle get_by_key (event key obj) = elim (get_by_key key) [
  | index_error ↦ none
  | absent ↦ some (deleted obj)
  | present ↦ some (created obj)
]
handle get_by_key (update_event key old_obj new_obj) = elim (get_by_key key) [
  | index_error ↦ none
  | absent ↦ some (deleted old_obj)
  | present ↦ some (updated new_obj old_obj)
]
