-- ===== src/Operator/Filtering.antt =====
-- Which deliveries reach the queue, and which call an event ends in.
use k8s_swarm.Prelude.{
  Option, none, some, ◌≡◌, ◌↔◌, inl, inr, refl, arith, Bytes, codes, Dict, lookup, bytes_eq_iff,
  Option-cases,
}
use k8s_swarm.Objects.{Object}
use k8s_swarm.Operator.{
  Event, event, update_event, Delivered, nil, tombstone, object, panics, skipped, queued,
  SelectorError, app_label, get_app_label, validate, add, update, delete, Indexed, index_error,
  absent, Call, handle, get_key,
}

-- The object carries the watched value under the label `app`.
abbrev pub IsWatched : (Object → Option (Dict Bytes)) → Bytes → Object → Type 0
IsWatched get_labels label o =
    (labels : Dict Bytes) × (get_labels o ≡ some labels)
    × (lookup (codes "app") labels ≡ some label)

module _ (get_labels : Object → Option (Dict Bytes)) (label : Bytes) (o : Object) where
  validate_sound : validate get_labels label o ≡ none → IsWatched get_labels label o
  unfolding validate get_app_label app_label
  validate_sound h = elim (Option-cases (get_labels o)) [
    | inl e ↦ absurd (ground arith)
    | inr (labels, e) ↦ elim (Option-cases (lookup (codes "app") labels)) [
      | inl n ↦ absurd (ground arith)
      | inr (v, s) ↦ (labels, e, ground (arith, bytes_eq_iff v label))
    ]
  ]

  validate_complete : IsWatched get_labels label o → validate get_labels label o ≡ none
  unfolding validate get_app_label app_label
  validate_complete (labels, e, s) = ground (arith, bytes_eq_iff label label)

-- The delivery is an object that carries the watched label and has a key, and the event is that object
-- under its key.
pub record IsQueuedAs (get_labels : Object → Option (Dict Bytes)) (label : Bytes)
    (key_of : Object → Option Bytes) (d : Delivered) (e : Event) : Type 0 where
  pub obj : Object
  pub key : Bytes
  pub delivered : d ≡ object obj
  pub watched : IsWatched get_labels label obj
  pub keyed : key_of obj ≡ some key
  pub queued_event : e ≡ event key obj

module _ (get_labels : Object → Option (Dict Bytes)) (label : Bytes)
    (key_of : Object → Option Bytes) (e : Event) where
  add_sound :
      (d : Delivered)
      → add (validate get_labels label) key_of d ≡ queued e
      → IsQueuedAs get_labels label key_of d e
  unfolding add
  add_sound nil h = absurd (ground arith)
  add_sound tombstone h = absurd (ground arith)
  add_sound (object o) h = elim (Option-cases (validate get_labels label o)) [
    | inr (x, refused) ↦ absurd (ground arith)
    | inl passed ↦ elim (Option-cases (key_of o)) [
      | inl no_key ↦ absurd (ground arith)
      | inr (key, keyed) ↦ record {
        obj = o;
        key = key;
        delivered = refl;
        watched = validate_sound get_labels label o passed;
        keyed = keyed;
        queued_event = ground arith;
      }
    ]
  ]

  add_complete :
      (d : Delivered)
      → IsQueuedAs get_labels label key_of d e
      → add (validate get_labels label) key_of d ≡ queued e
  unfolding add
  add_complete d q =
      rw q.delivered (
        ground (arith, validate_complete get_labels label q.obj q.watched, q.keyed, q.queued_event))

  -- A delivery is queued by `Add` exactly if it is an object that carries the watched label and has a
  -- key; the event is then that object under its key.
  pub add_iff :
      (d : Delivered)
      → (add (validate get_labels label) key_of d ≡ queued e)
        ↔ IsQueuedAs get_labels label key_of d e
  add_iff d = (add_sound d, add_complete d)

-- `Delete` does with every delivery what `Add` does with it, key function for key function: an event in
-- the queue does not tell whether its object was added or deleted. Both panic on a tombstone, for which
-- `Delete` is called when the watch has missed a deletion.
pub delete-add :
    (validates : Object → Option SelectorError) (key_of : Object → Option Bytes) (d : Delivered)
    → (delete validates key_of d ≡ add validates key_of d)
      × (delete validates key_of tombstone ≡ panics)
unfolding delete add
delete-add validates key_of nil = (refl, refl)
delete-add validates key_of tombstone = (refl, refl)
delete-add validates key_of (object o) = (refl, refl)

-- An update is queued only by the label of the new object: if that is not the watched one, then nothing
-- is queued, though the old object was watched.
pub update_unwatched :
    (get_labels : Object → Option (Dict Bytes)) (label : Bytes) (key_of : Object → Option Bytes)
    (old new : Object)
    → ¬ IsWatched get_labels label new
    → update (validate get_labels label) key_of (object old) (object new) ≡ skipped
unfolding update
update_unwatched get_labels label key_of old new un =
    elim (Option-cases (validate get_labels label new)) [
      | inl passed ↦ absurd (un (validate_sound get_labels label new passed))
      | inr (x, refused) ↦ ground arith
    ]

-- The object of an event whose key has left the indexer: of an update the old one.
abbrev pub object_of : Event → Object
object_of (event key obj) = obj
object_of (update_event key old_obj new_obj) = old_obj

-- `Handle` fails exactly if the indexer does, and ends in `Deleted` exactly if the key is absent from the
-- indexer, whatever the event says: `Deleted` is given the event's object, and of an update the old one.
pub handle_calls :
    (get_by_key : Bytes → Indexed) (e : Event)
    → ((handle get_by_key e ≡ none) ↔ (get_by_key (get_key e) ≡ index_error))
      × ((handle get_by_key e ≡ some (Call.deleted (object_of e)))
          ↔ (get_by_key (get_key e) ≡ absent))
unfolding handle get_key
handle_calls get_by_key (event key obj) =
    ((λ h. ground arith, λ h. ground arith), (λ h. ground arith, λ h. ground arith))
handle_calls get_by_key (update_event key old_obj new_obj) =
    ((λ h. ground arith, λ h. ground arith), (λ h. ground arith, λ h. ground arith))
