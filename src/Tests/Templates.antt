-- ===== src/Tests/Templates.antt =====
-- TemplatesPlugin at fixed inputs. The values are texts.
use Prim.Native.String.{count}
use Prim.Native.Nat.{compare}
use kactivitymanagerd.Prelude.{
  String, true, false, none, some, [], ◌∷◌, ◌≡◌, refl, string_eq, ltb, Hash, lookup, insert,
  has_key, contains,
}
use kactivitymanagerd.Activities.Data.{
  Config, Activities, description, icon, read_entry, activity_state,
}
use kactivitymanagerd.Activities.Listing.{Collation, update_sorted_activity_list}
use kactivitymanagerd.Activities.Operations.{
  authorized_add, add_activity, add_with_id, fresh_uuid, set_attribute, set_activity_state,
  set_current_activity, set_current, start_activity,
}
use kactivitymanagerd.Plugins.Templates.{
  string_value, set_up, create_activity, feature_value, text, is_taken, create_activity_lem,
}

abbrev by_count : Collation
by_count = record {
  compare_insensitive = λ a b. compare (count a) (count b);
  less = λ a b. ltb (count a) (count b);
}

abbrev empty_config : Config
empty_config = record {
  names = [];
  descriptions = [];
  icons = [];
  running_activities = none;
  stopped_activities = none;
  last_activity = none;
}

abbrev no_activities : Activities
no_activities = record {
  activities = [];
  sorted_activities = [];
  current_activity = "";
  config = empty_config;
  saved = empty_config;
  timer_active = false;
  posted = [];
  emitted = [];
  session_calls = [];
}

abbrev travel : Hash String String
travel =
    ("activity.name", "Travel")
    ∷ ("activity.icon", "plane")
    ∷ ("activity.wallpaper", "sea.png")
    ∷ []

abbrev with_travel : Activities
with_travel = add_with_id by_count "u" "Travel" no_activities

travel_added :
    authorized_add by_count true
      ("u" ∷ [])
      (string_value (λ v. v) "activity.name" travel)
      no_activities
    ≡ some (with_travel, "u")
unfolding authorized_add add_activity fresh_uuid lookup
travel_added = refl

travel_known : has_key with_travel.activities "u" ≡ true
unfolding lookup add_with_id insert set_current_activity set_current update_sorted_activity_list
    set_attribute read_entry set_activity_state activity_state start_activity
travel_known = refl

create_activity_lem_example :
    let made = set_up (λ v. v) (λ v. v) travel "u" [] with_travel in
    (create_activity by_count (λ v. v) (λ v. v) true ("u" ∷ []) travel [] no_activities ≡ some made)
    × (read_entry description "u" made.1 ≡ string_value (λ v. v) "activity.description" travel)
    × (read_entry icon "u" made.1 ≡ string_value (λ v. v) "activity.icon" travel)
    × (made.1.activities ≡ with_travel.activities)
    × ((key v : String)
        → is_taken key ≡ false
        → lookup key travel ≡ some v
        → feature_value ("u" ∷ key ∷ []) made.0 ≡ text v)
unfolding contains
create_activity_lem_example =
    create_activity_lem by_count (λ v. v) (λ v. v) true ("u" ∷ []) travel [] no_activities
      with_travel "u" (refl, (refl, (refl, tt))) travel_added travel_known
