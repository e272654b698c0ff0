-- ===== src/Activities/Lifecycle.antt =====
-- What Activities (src/service/Activities.h) promises of each call, in terms of the states and the
-- current activity alone: without the sorted list, the configuration, signals and timers, and without
-- the order of the activities, on which it depends which one a call makes current.
use kactivitymanagerd.Prelude.{
  String, true, false, Option, none, some, ◌≡◌, ◌≢◌, ◌⊎◌, ◌==◌, string_eq, lookup, contains,
  if◌then◌else◌,
}
use kactivitymanagerd.KsmServer
use kactivitymanagerd.Activities.Data.{State, running, starting, stopped, stopping, Activities}
use kactivitymanagerd.Activities.Calls.{
  Call, set_current, start, stop, previous, next, sync, set, add, remove, session_changed,
}

pub record Desk : Type 0 where
  pub state_of : String → Option State
  pub current : String

abbrev pub view : Activities → Desk
view s = record { state_of = λ a. lookup a s.activities; current = s.current_activity }

abbrev pub Runs : Desk → String → Type 0
Runs d a = d.state_of a ≡ some running

abbrev pub IsKnown : Desk → String → Type 0
IsKnown d a = d.state_of a ≢ none

abbrev pub Same : Desk → Desk → Type 0
Same d e = ((b : String) → e.state_of b ≡ d.state_of b) × (e.current ≡ d.current)

-- the states after `a` has got the state `o`, or is no longer known
abbrev pub StatesWith : String → Option State → Desk → Desk → Type 0
StatesWith a o d e = (b : String) → e.state_of b ≡ (if a == b then o else d.state_of b)

-- an activity that is known and not stopped, while two different ones run
abbrev pub IsStoppable : Desk → String → Type 0
IsStoppable d a =
    IsKnown d a
    × (d.state_of a ≢ some stopped)
    × (b : String) × (c : String) × ((b == c) ≡ false)
    × Runs d b
    × Runs d c

-- the switch to `a`, which is started if it is stopped
abbrev pub Switched : String → Desk → Desk → Type 0
Switched a d e =
    (e.current ≡ a)
    × (((d.state_of a ≡ some stopped) × StatesWith a (some starting) d e)
        ⊎ ((d.state_of a ≢ some stopped) × ((b : String) → e.state_of b ≡ d.state_of b)))

-- the current activity after it may have stopped running or gone
abbrev pub Replaced : Desk → Desk → Type 0
Replaced d e = Runs e e.current ⊎ (((b : String) → Runs e b → ⊥) × (e.current ≡ d.current))

-- the switch to the next or the previous running activity
abbrev pub Rotated : Desk → Desk → Type 0
Rotated d e =
    ((Runs d d.current → ⊥) × Same d e)
    ⊎ (Runs d d.current × Runs d e.current × ((b : String) → e.state_of b ≡ d.state_of b))

unfoldable pub Spec : Call → Desk → Desk → Type 0
Spec (set_current a) d e =
    (((d.current ≡ a) ⊎ (a ≡ "") ⊎ (d.state_of a ≡ none)) × Same d e)
    ⊎ ((d.current ≢ a) × (a ≢ "") × IsKnown d a × Switched a d e)
Spec (start a) d e =
    ((d.state_of a ≡ some stopped) × StatesWith a (some starting) d e × (e.current ≡ d.current))
    ⊎ ((d.state_of a ≢ some stopped) × Same d e)
Spec (stop a) d e =
    (IsStoppable d a × StatesWith a (some stopping) d e × (e.current ≡ d.current))
    ⊎ ((IsStoppable d a → ⊥) × Same d e)
Spec previous d e = Rotated d e
Spec next d e = Rotated d e
Spec sync d e = Same d e
Spec (set w a v) d e = Same d e
Spec (add authorized uuids n) d e =
    (((n ≡ "")
        ⊎ ((authorized ≡ false) × (b : String) × IsKnown d b)
        ⊎ ((u : String) → contains uuids u ≡ true → u ≢ "" → IsKnown d u))
      × Same d e)
    ⊎ ((n ≢ "")
        × ((authorized ≡ true) ⊎ ((b : String) → d.state_of b ≡ none))
        × (u : String) × (contains uuids u ≡ true)
        × (u ≢ "")
        × (d.state_of u ≡ none)
        × StatesWith u (some running) d e
        × ((((b : String) → d.state_of b ≡ none) × (e.current ≡ u))
            ⊎ ((b : String) × IsKnown d b × (e.current ≡ d.current))))
Spec (remove authorized a) d e =
    (((authorized ≡ false) ⊎ (d.state_of a ≡ none) ⊎ ((b : String) → IsKnown d b → b ≡ a))
      × Same d e)
    ⊎ ((authorized ≡ true)
        × IsKnown d a
        × (b : String) × IsKnown d b
        × (b ≢ a)
        × StatesWith a none d e
        × (((d.current ≢ a) × (e.current ≡ d.current)) ⊎ ((d.current ≡ a) × Replaced d e)))
Spec (session_changed a KsmServer.Status.stopped) d e =
    ((d.state_of a ≡ none) × Same d e)
    ⊎ (IsKnown d a
        × StatesWith a (some stopped) d e
        × (((d.current ≢ a) × (e.current ≡ d.current)) ⊎ ((d.current ≡ a) × Replaced d e)))
Spec (session_changed a _) d e =
    ((d.state_of a ≡ none) × Same d e)
    ⊎ (IsKnown d a × StatesWith a (some running) d e × (e.current ≡ d.current))
