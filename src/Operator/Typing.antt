-- ===== src/Operator/Typing.antt =====
-- The objects of one kind on their way from the informer to the handler: event.go, resource_event_handler.go
-- and processor.go.
use k8s_swarm.Prelude.{Option, some, ◌≡◌, inl, inr, refl, sym, subst, arith, Bytes, Option-cases}
use k8s_swarm.Objects.{Object}
use k8s_swarm.Operator.{
  Event, event, update_event, Delivered, nil, tombstone, object, SelectorError, Delivery, panics,
  skipped, queued, add, update, delete, Indexed, index_error, absent, present, Call, handle,
  get_key,
}

module _ (P : Object → Type 0) where
  abbrev pub EventOf : Event → Type 0
  EventOf (event key o) = P o
  EventOf (update_event key old_obj new_obj) = P old_obj × P new_obj

  abbrev pub DeliveredOf : Delivered → Type 0
  DeliveredOf nil = Unit
  DeliveredOf tombstone = ⊥
  DeliveredOf (object o) = P o

  abbrev pub DeliveryOf : Delivery → Type 0
  DeliveryOf panics = ⊥
  DeliveryOf skipped = Unit
  DeliveryOf (queued e) = EventOf e

  abbrev pub CallOf : Call → Type 0
  CallOf (Call.created o) = P o
  CallOf (Call.updated new_obj old_obj) = P new_obj × P old_obj
  CallOf (Call.deleted o) = P o

  module _ (validates : Object → Option SelectorError) (key_of : Object → Option Bytes) where
    object-DeliveryOf : (o : Object) → P o → DeliveryOf (add validates key_of (object o))
    unfolding add
    object-DeliveryOf o h = elim (Option-cases (validates o)) [
      | inr (x, refused) ↦ as_skipped (ground arith)
      | inl passed ↦ elim (Option-cases (key_of o)) [
        | inl no_key ↦ as_skipped (ground arith)
        | inr (key, keyed) ↦ as_queued (event key o) (ground arith) h
      ]
    ]
      where
        as_skipped :
            add validates key_of (object o) ≡ skipped → DeliveryOf (add validates key_of (object o))
        as_skipped e = subst DeliveryOf (sym e) tt

        as_queued :
            (e : Event)
            → add validates key_of (object o) ≡ queued e
            → EventOf e
            → DeliveryOf (add validates key_of (object o))
        as_queued e q h = subst DeliveryOf (sym q) h

    pub add-DeliveryOf : (d : Delivered) → DeliveredOf d → DeliveryOf (add validates key_of d)
    unfolding add
    add-DeliveryOf nil h = tt
    add-DeliveryOf tombstone h = elim h [ ]
    add-DeliveryOf (object o) h = object-DeliveryOf o h

    pub delete-DeliveryOf : (d : Delivered) → DeliveredOf d → DeliveryOf (delete validates key_of d)
    unfolding delete add
    delete-DeliveryOf nil h = tt
    delete-DeliveryOf tombstone h = elim h [ ]
    delete-DeliveryOf (object o) h = object-DeliveryOf o h

    updated_objects-DeliveryOf :
        (o n : Object) → P o → P n → DeliveryOf (update validates key_of (object o) (object n))
    unfolding update
    updated_objects-DeliveryOf o n old new = elim (Option-cases (validates n)) [
      | inr (x, refused) ↦ as_skipped (ground arith)
      | inl passed ↦ elim (Option-cases (key_of n)) [
        | inl no_key ↦ as_skipped (ground arith)
        | inr (key, keyed) ↦ as_queued (update_event key o n) (ground arith) (old, new)
      ]
    ]
      where
        as_skipped :
            update validates key_of (object o) (object n) ≡ skipped
            → DeliveryOf (update validates key_of (object o) (object n))
        as_skipped e = subst DeliveryOf (sym e) tt

        as_queued :
            (e : Event)
            → update validates key_of (object o) (object n) ≡ queued e
            → EventOf e
            → DeliveryOf (update validates key_of (object o) (object n))
        as_queued e q h = subst DeliveryOf (sym q) h

    pub update-DeliveryOf :
        (old new : Delivered)
        → DeliveredOf old
        → DeliveredOf new
        → DeliveryOf (update validates key_of old new)
    unfolding update
    update-DeliveryOf nil new h k = tt
    update-DeliveryOf tombstone new h k = elim h [ ]
    update-DeliveryOf (object o) nil h k = tt
    update-DeliveryOf (object o) tombstone h k = elim k [ ]
    update-DeliveryOf (object o) (object n) h k = updated_objects-DeliveryOf o n h k

  indexed-CallOf :
      (get_by_key : Bytes → Indexed) (e : Event) (c : Call) (i : Indexed)
      → get_by_key (get_key e) ≡ i
      → EventOf e
      → handle get_by_key e ≡ some c
      → CallOf c
  unfolding handle get_key
  indexed-CallOf get_by_key (event key o) c index_error g h e = absurd (ground arith)
  indexed-CallOf get_by_key (event key o) c absent g h e =
      subst CallOf {x = Call.deleted o} {y = c} (ground arith) h
  indexed-CallOf get_by_key (event key o) c present g h e =
      subst CallOf {x = Call.created o} {y = c} (ground arith) h
  indexed-CallOf get_by_key (update_event key o n) c index_error g h e = absurd (ground arith)
  indexed-CallOf get_by_key (update_event key o n) c absent g h e =
      subst CallOf {x = Call.deleted o} {y = c} (ground arith) h.0
  indexed-CallOf get_by_key (update_event key o n) c present g h e =
      subst CallOf {x = Call.updated n o} {y = c} (ground arith) (h.1, h.0)

  pub handle-CallOf :
      (get_by_key : Bytes → Indexed) (e : Event) (c : Call)
      → EventOf e
      → handle get_by_key e ≡ some c
      → CallOf c
  handle-CallOf get_by_key e c h r = indexed-CallOf get_by_key e c (get_by_key (get_key e)) refl h r
