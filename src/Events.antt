-- ===== src/Events.antt =====
-- services/controller/internal/app/swarm/events.go: the events of the swarm and their texts.
--
-- How fmt prints a time.Time and an error is an argument. Each call of `String` takes one frame of the
-- stack: `none` is a stack of that depth that has run out.
use k8s_swarm.Prelude.{ℕ, zero, suc, ◌++◌, Option, none, some, ◌≡◌, ◌↔◌, refl, Bytes, codes, ◌>>=◌}
use k8s_swarm.Text.{format}
use k8s_swarm.Worker.{WorkerState, needs_refresh, waiting_assignation, syncing}

-- The three types that implement `Event`; `E` is the type of errors. A version is not negative.
pub data SwarmEvent (T E : Type 0) : Type 0 where
  state_event : (time : T) (state : WorkerState) → SwarmEvent T E
  version_update_event : (time : T) (version : ℕ) → SwarmEvent T E
  error_event : (time : T) (error : E) → SwarmEvent T E

module _ {T E : Type 0} where
  unfoldable pub new_state_event : T → WorkerState → SwarmEvent T E
  new_state_event now s = state_event now s

  unfoldable pub new_version_update_event : T → ℕ → SwarmEvent T E
  new_version_update_event now v = version_update_event now v

  unfoldable pub new_error_event : T → E → SwarmEvent T E
  new_error_event now e = error_event now e

  unfoldable pub time_of : SwarmEvent T E → T
  time_of (state_event time state) = time
  time_of (version_update_event time version) = time
  time_of (error_event time error) = time

-- The constants of type `State`.
unfoldable pub state_text : WorkerState → Bytes
state_text needs_refresh = codes "needs refresh"
state_text waiting_assignation = codes "waiting config"
state_text syncing = codes "syncing"

-- `String`, in a stack of a given depth.
unfoldable pub event_string : {T E : Type 0} → (T → Bytes) → ℕ → SwarmEvent T E → Option Bytes
event_string show_time zero e = none
event_string show_time (suc depth) (state_event time state) =
    some (show_time time ++ codes " got state " ++ state_text state)
event_string show_time (suc depth) (version_update_event time version) =
    some (show_time time ++ codes " got version " ++ format version)
event_string show_time (suc depth) (error_event time error) =
    event_string show_time depth (error_event time error) >>= λ text.
    some (show_time time ++ codes " got error " ++ text)

abbrev pub IsErrorEvent : {T E : Type 0} → SwarmEvent T E → Type 0
IsErrorEvent (state_event time state) = ⊥
IsErrorEvent (version_update_event time version) = ⊥
IsErrorEvent (error_event time error) = Unit

error_event_overflows :
    {T E : Type 0} (show_time : T → Bytes) (time : T) (error : E) (depth : ℕ)
    → event_string show_time depth (error_event time error) ≡ none
unfolding event_string
error_event_overflows show_time time error zero = refl
error_event_overflows show_time time error (suc depth) =
    rw (error_event_overflows show_time time error depth)

-- `String` overflows the stack, however deep it is, for exactly the error events: it calls itself.
pub event_string_overflows :
    {T E : Type 0} (show_time : T → Bytes) (e : SwarmEvent T E)
    → ((depth : ℕ) → event_string show_time depth e ≡ none) ↔ IsErrorEvent e
unfolding event_string
event_string_overflows show_time (state_event time state) = (λ h. cc (h 1), λ h. elim h [ ])
event_string_overflows show_time (version_update_event time version) =
    (λ h. cc (h 1), λ h. elim h [ ])
event_string_overflows show_time (error_event time error) =
    (λ h. tt, λ h depth. error_event_overflows show_time time error depth)
