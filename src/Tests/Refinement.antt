-- ===== src/Tests/Refinement.antt =====
-- Activities and its promises at fixed inputs.
use kactivitymanagerd.Prelude.{
  String, false, some, List, [], ◌∷◌, ◌≡◌, refl, arith, string_eq, nat_eq, lookup, has_key,
  contains,
}
use kactivitymanagerd.Activities.Data.{running, Activities}
use kactivitymanagerd.Activities.Operations.{add_activity}
use kactivitymanagerd.Activities.Calls.{run}
use kactivitymanagerd.Activities.Lifecycle.{view}
use kactivitymanagerd.Activities.Refinement.{Follows, run-Follows}
use kactivitymanagerd.Activities.Supply.{add_activity-returns}
use kactivitymanagerd.Activities.Listing.{list_activities}
use kactivitymanagerd.Plugins.Shortcuts.{object_name, init}
use kactivitymanagerd.Plugins.Following.{receive_all, action_for_each}
use kactivitymanagerd.Tests.Desktop.{by_length, desktop, session, desktop-IsConsistent, unnamed}

run-Follows_example :
    Follows session
      (view (desktop running running))
      (view (run by_length session (desktop running running)))
run-Follows_example =
    run-Follows by_length session (desktop running running) (desktop-IsConsistent running running)
      unnamed

abbrev uuids : List String
uuids = "b" ∷ "a" ∷ "c" ∷ []

no_blank : contains uuids "" ≡ false
unfolding contains
no_blank = refl

add_activity-returns_example :
    (t : Activities) × (id : String) × (add_activity by_length uuids "Play"
        (desktop running running)
      ≡ some (t, id))
    × (has_key (desktop running running).activities id ≡ false)
    × (lookup id t.activities ≡ some running)
unfolding contains
add_activity-returns_example =
    add_activity-returns by_length uuids "Play" (desktop running running) (refl, (refl, (refl, tt)))
      no_blank (omega arith) refl

-- the session adds "c" and removes "b"
action_for_each_example :
    contains
      (receive_all
        (run by_length session (desktop running running)).emitted
        (init (list_activities (desktop running running)))).actions
      (object_name "c")
    ≡ has_key (run by_length session (desktop running running)).activities "c"
action_for_each_example =
    action_for_each by_length session (desktop running running) "c"
      (desktop-IsConsistent running running) unnamed refl refl
