-- ===== src/Operator/Lifecycle/Syncing.antt =====
-- What holds while `Run` of the controller goes on.
use k8s_swarm.Prelude.{true, false, ◌≡◌, ◌≢◌, ◌⊎◌, inl, inr, refl, arith, Option-cases, Bool-cases}
use k8s_swarm.Operator.Queues.{Queue, Handled, process_next_item}
use k8s_swarm.Operator.Lifecycle.{
  returned, pausing, working, Running, new_controller, leave_sync, begin_period, shut_queue, work,
  Reached, launched, added, synced, stopped, in_sync, given_up, period, round, finished,
}

module _ {E Q S : Type 0} (calls : Queue E Q) (handle : E → S → Handled S) (shut_down : Q → Q)
    (s : S) where
  -- A worker that pauses has a cache that is synced, or a closed stop channel; one that works has the
  -- former; and so has each state but the first.
  abbrev IsOrdered : Running Q S → Type 0
  IsOrdered r =
      ((r.loop ≡ pausing) → (r.synced ≡ true) ⊎ (r.stopped ≡ true))
      × ((r.loop ≡ working) → r.synced ≡ true)
      × ((r.controller.state ≡ s) ⊎ (r.synced ≡ true))
      × ((r.stage ≡ returned) → r.stopped ≡ true)

  reached-IsOrdered :
      (q : Q) (r : Running Q S)
      → Reached calls handle shut_down (new_controller q s) r
      → IsOrdered r
  unfolding new_controller leave_sync begin_period shut_queue work
  reached-IsOrdered q _ launched =
      (λ e. absurd (ground arith), λ e. absurd (ground arith), inl refl, λ e. absurd (ground arith))
  reached-IsOrdered q _ (added e h) = reached-IsOrdered q _ h
  reached-IsOrdered q _ (synced h) =
      let (a, b, c, d) = reached-IsOrdered q _ h in (λ e. inl refl, λ e. refl, inr refl, d)
  reached-IsOrdered q _ (stopped h) =
      let (a, b, c, d) = reached-IsOrdered q _ h in (λ e. inr refl, b, c, λ e. refl)
  reached-IsOrdered q _ (in_sync h stage is_synced) =
      (λ e. inl is_synced, λ e. is_synced, inr is_synced, λ e. absurd (ground arith))
  reached-IsOrdered q _ (given_up h stage is_stopped) =
      let (a, b, c, d) = reached-IsOrdered q _ h in
      (λ e. inr is_stopped, λ e. absurd (ground arith), c, λ e. is_stopped)
  reached-IsOrdered q _ (period {t} h pauses) =
      let (a, b, c, d) = reached-IsOrdered q t h in
      elim (Bool-cases t.stopped) [
        | inl closed ↦
            rw closed (λ e. absurd (ground arith), λ e. absurd (ground arith), c, λ e. refl)
        | inr going ↦ rw going (
          λ e. absurd (ground arith),
          λ e. elim (a pauses) [ inl before ↦ before | inr closed ↦ absurd (ground arith) ],
          c,
          λ e. absurd (ground (arith, going, d e)),
        )
      ]
  reached-IsOrdered q _ (round {t} h works) =
      let (a, b, c, d) = reached-IsOrdered q t h in
      elim (Option-cases (process_next_item calls handle t.controller)) [
        | inl shut ↦ rw (shut, work) (λ e. inl (b works), λ e. b works, c, d)
        | inr (x, next) ↦ rw (next, work) (a, b, inr (b works), d)
      ]
  reached-IsOrdered q _ (finished h stage is_stopped) =
      let (a, b, c, d) = reached-IsOrdered q _ h in (a, b, c, λ e. is_stopped)

  -- Whatever the informer, the stop channel and the goroutines do: as long as the informer's cache has not
  -- synced, no event is handled, so the state that the handler works on is the first one, and the
  -- worker's goroutine is not in its loop, even if the wait for the cache was given up.
  pub unsynced_unhandled :
      (q : Q) (r : Running Q S)
      → Reached calls handle shut_down (new_controller q s) r
      → r.synced ≡ false
      → (r.controller.state ≡ s) × (r.loop ≢ working)
  unsynced_unhandled q r h unsynced =
      let (a, b, c, d) = reached-IsOrdered q r h in
      (
        elim c [ inl same ↦ same | inr after ↦ absurd (ground (arith, unsynced, after)) ],
        λ works. ground (arith, unsynced, b works),
      )
