-- ===== src/Tests/Start.antt =====
-- The start of the service and a restart, at fixed inputs.
use Prim.Native.String.{count}
use Prim.Native.Nat.{compare}
use kactivitymanagerd.Prelude.{
  ◌≤◌, String, true, false, none, some, List, [], ◌∷◌, ◌≡◌, refl, arith, string_eq, nat_eq, lookup,
  insert, has_key, ltb, contains, is_empty, if◌then◌else◌,
}
use kactivitymanagerd.Activities.Data.{
  running, stopped, state_eq, Config, Activities, activity_state, read_entry, keys_with,
}
use kactivitymanagerd.Activities.Listing.{Collation, update_sorted_activity_list}
use kactivitymanagerd.Activities.Operations.{
  config_sync, add_activity, authorized_add, fresh_uuid, add_with_id, set_attribute,
  set_activity_state, stop_activity,
}
use kactivitymanagerd.Activities.Calls.{Call, add, stop, run, perform}
use kactivitymanagerd.Activities.Running.{count_in}
use kactivitymanagerd.Activities.Startup
use kactivitymanagerd.Activities.Restart.{start_one_running}
use kactivitymanagerd.Activities.Stored.{IsStored, is_stopped}
use kactivitymanagerd.Activities.Returning.{nobody}
use kactivitymanagerd.Activities.Restoring.{NoReuseAll, restart_states}

abbrev lengths : Collation
lengths = record {
  compare_insensitive = λ a b. compare (count a) (count b);
  less = λ a b. ltb (count a) (count b);
}

-- two named activities, both in the list of the stopped ones
abbrev stopped_config : Config
stopped_config = record {
  names = ("a", "Home") ∷ ("b", "Work") ∷ [];
  descriptions = [];
  icons = [];
  running_activities = some [];
  stopped_activities = some ("a" ∷ "b" ∷ []);
  last_activity = none;
}

start_one_running_example :
    ((a : String)
      → has_key (Startup.start [] stopped_config).activities a ≡ has_key stopped_config.names a)
    × (is_empty stopped_config.names ≡ false
        → 1 ≤ count_in running (Startup.start [] stopped_config).activities)
start_one_running_example = start_one_running [] stopped_config

abbrev plain_config : Config
plain_config = record stopped_config { running_activities = none; stopped_activities = none }

abbrev at_work : Activities
at_work = record {
  activities = ("a", running) ∷ ("b", running) ∷ [];
  sorted_activities = [];
  current_activity = "a";
  config = plain_config;
  saved = plain_config;
  timer_active = false;
  posted = [];
  emitted = [];
  session_calls = [];
}

at_work-agrees :
    (a : String)
    → has_key at_work.activities a ≡ true
    → is_stopped (Startup.start_state plain_config a) ≡ is_stopped (activity_state a at_work)
unfolding contains lookup Startup.start_state activity_state
at_work-agrees a k = ground (arith, k)

at_work-IsStored : IsStored nobody at_work
unfolding contains lookup Startup.start_state activity_state
at_work-IsStored = record {
  distinct = (refl, (refl, tt));
  agrees = λ a k. at_work-agrees a k;
  named = λ a e. ground arith;
}

abbrev calls : List Call
calls = add true ("c" ∷ []) "Play" ∷ stop "a" ∷ []

calls-NoReuseAll : NoReuseAll lengths calls at_work
unfolding contains Startup.start_state
calls-NoReuseAll = (λ u h. refl, (tt, tt))

known_b : has_key (run lengths calls at_work).activities "b" ≡ true
unfolding lookup run add_activity stop_activity activity_state perform authorized_add fresh_uuid
    add_with_id insert update_sorted_activity_list set_attribute read_entry set_activity_state
    keys_with
known_b = refl

awake_b : is_stopped (activity_state "b" (run lengths calls at_work)) ≡ false
unfolding lookup run activity_state add_activity stop_activity perform authorized_add fresh_uuid
    add_with_id insert update_sorted_activity_list set_attribute read_entry set_activity_state
    keys_with
awake_b = refl

restart_states_example :
    lookup "a" (Startup.start [] (config_sync (run lengths calls at_work)).saved).activities ≡ (
      if has_key (run lengths calls at_work).activities "a"
      then some
          (if is_stopped (activity_state "a" (run lengths calls at_work)) then stopped else running)
      else none)
restart_states_example =
    restart_states lengths calls at_work [] "b" at_work-IsStored calls-NoReuseAll known_b awake_b
      "a"
