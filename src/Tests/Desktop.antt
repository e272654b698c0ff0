-- ===== src/Tests/Desktop.antt =====
-- Activities at fixed inputs.
use Prim.Native.Nat.{compare}
use Prim.Native.String.{count}
use kactivitymanagerd.Prelude.{
  String, true, false, none, List, [], ◌∷◌, ◌≡◌, refl, arith, string_eq, nat_eq, lookup, has_key,
  contains, ltb,
}
use kactivitymanagerd.KsmServer
use kactivitymanagerd.Activities.Data.{
  State, running, stopped, code, state_eq, ActivityInfo, Config, Activities,
}
use kactivitymanagerd.Activities.Listing.{
  Collation, list_activities, list_activities_in, ids_with, update_sorted_activity_list,
}
use kactivitymanagerd.Activities.Operations.{next_activity, previous_activity, remove_activity}
use kactivitymanagerd.Activities.Sorting.{
  IsCollation, IsSorted, update_sorted_activity_list-IsSorted,
}
use kactivitymanagerd.Activities.Consistency.{IsConsistent}
use kactivitymanagerd.Activities.Calls.{
  Call, stop, next, add, remove, session_changed, run, is_in, list_activities_exact,
}
use kactivitymanagerd.Activities.Rotation.{next-previous}
use kactivitymanagerd.Activities.Removal.{Removed, remove_activity-Removed}

-- texts ordered by their length alone
abbrev pub by_length : Collation
by_length = record {
  compare_insensitive = λ a b. compare (count a) (count b);
  less = λ a b. ltb (count a) (count b);
}

by_length-IsCollation : IsCollation by_length
by_length-IsCollation = record {
  opposite_lt = λ a b h. ground arith;
  opposite_eq = λ a b h. ground arith;
  opposite_gt = λ a b h. ground arith;
  less_asym = λ a b h. ground arith;
}

abbrev pub no_config : Config
no_config = record {
  names = ("a", "Home") ∷ ("b", "Work") ∷ [];
  descriptions = [];
  icons = [];
  running_activities = none;
  stopped_activities = none;
  last_activity = none;
}

abbrev pub info : String → String → State → ActivityInfo
info a n st = record { id = a; name = n; description = ""; icon = ""; state = st }

-- two activities, the first of which is current, in the given states
abbrev pub desktop : State → State → Activities
desktop st st' = record {
  activities = ("a", st) ∷ ("b", st') ∷ [];
  sorted_activities = info "a" "Home" st ∷ info "b" "Work" st' ∷ [];
  current_activity = "a";
  config = no_config;
  saved = no_config;
  timer_active = false;
  posted = [];
  emitted = [];
  session_calls = [];
}

pub desktop-IsConsistent : (st st' : State) → IsConsistent (desktop st st')
unfolding contains
desktop-IsConsistent st st' = record {
  distinct = (refl, (refl, tt));
  listed_once = (refl, (refl, tt));
  agree = λ a. refl;
}

abbrev pub session : List Call
session =
    next
    ∷ stop "a"
    ∷ session_changed "a" KsmServer.Status.stopped
    ∷ add true ("b" ∷ "c" ∷ []) "Play"
    ∷ remove true "b"
    ∷ []

list_activities_exact_example :
    (contains
        (list_activities_in (code running) (run by_length session (desktop running running)))
        "c"
      ≡ is_in (lookup "c" (run by_length session (desktop running running)).activities) running)
    × (contains (list_activities (run by_length session (desktop running running))) "c"
        ≡ has_key (run by_length session (desktop running running)).activities "c")
list_activities_exact_example =
    list_activities_exact by_length session (desktop running running)
      (desktop-IsConsistent running running) "c" running

known_a : has_key (desktop running running).activities "a" ≡ true
unfolding lookup
known_a = refl

pub unnamed : has_key (desktop running running).activities "" ≡ false
unfolding lookup
unnamed = refl

remove_activity-Removed_example :
    Removed by_length "a"
      (desktop running running)
      known_a
      (remove_activity by_length "a" (desktop running running))
remove_activity-Removed_example =
    remove_activity-Removed by_length "a" (desktop running running) known_a refl
      (desktop-IsConsistent running running) unnamed

next-previous_example :
    ((previous_activity by_length
        (next_activity by_length (desktop running running)).0).0.current_activity
      ≡ "a")
    × ((next_activity by_length
          (previous_activity by_length (desktop running running)).0).0.current_activity
        ≡ "a")
unfolding contains ids_with
next-previous_example =
    next-previous by_length (desktop running running) (desktop-IsConsistent running running) refl
      refl

update_sorted_activity_list-IsSorted_example :
    IsSorted by_length
      (update_sorted_activity_list by_length (desktop running stopped)).sorted_activities
update_sorted_activity_list-IsSorted_example =
    update_sorted_activity_list-IsSorted by_length (desktop running stopped) by_length-IsCollation
