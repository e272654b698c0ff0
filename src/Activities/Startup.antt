-- ===== src/Activities/Startup.antt =====
-- The start of the service: KDE4ConfigurationTransitionChecker and the constructor of
-- Activities::Private (src/service/Activities.cpp).
use kactivitymanagerd.Prelude.{
  String, Bool, true, false, not, ◌||◌, Option, none, some, is_some, List, [], ◌∷◌, ◌==◌, string_eq,
  nat_eq, Hash, insert, keys, or_default, contains, is_empty, if◌then◌else◌,
}
use kactivitymanagerd.Activities.Data.{
  State, running, stopped, state_eq, Config, Activities, add_activity, update_sorted, post,
}
use kactivitymanagerd.Activities.Listing.{Collation}
use kactivitymanagerd.Activities.Operations.{load_last_activity}

-- KDE4ConfigurationTransitionChecker: the file of the service, the test for the old home, and the
-- old file, which is copied
unfoldable pub transition {ℓ} : {A : Type ℓ} → Option A → Bool → Option A → Option A
transition (some new_file) kde_home_found old_file = some new_file
transition none true old_file = old_file
transition none false old_file = none

abbrev pub running_list : Config → List String
running_list c = or_default c.running_activities []

abbrev pub stopped_list : Config → List String
stopped_list c = or_default c.stopped_activities []

-- `defaultState`
abbrev pub default_state : Config → State
default_state c =
    if not (is_some c.running_activities)
    then running
    else if not (is_some c.stopped_activities)
    then stopped
    else running

-- the state that the constructor reads for one activity
unfoldable pub start_state : Config → String → State
start_state c a =
    if contains (running_list c) a
    then running
    else if contains (stopped_list c) a
    then stopped
    else default_state c

-- the loop over the keys of the group `activities`
unfoldable pub load_states : Config → List String → Hash String State → Hash String State
load_states c [] m = m
load_states c (a ∷ rest) m = load_states c rest (insert a (start_state c a) m)

-- `atLeastOneRunning`
unfoldable pub any_running : Config → List String → Bool
any_running c [] = false
any_running c (a ∷ rest) = start_state c a == running || any_running c rest

-- the loop that sets every activity running
unfoldable pub all_running : List String → Hash String State → Hash String State
all_running [] m = m
all_running (a ∷ rest) m = all_running rest (insert a running m)

-- the queued calls of AddActivity, in their order
unfoldable pub post_defaults : List String → Activities → Activities
post_defaults [] s = s
post_defaults (n ∷ rest) s = post_defaults rest (post (add_activity n) s)

-- Activities::Private::Private, with the names of `defaultActivityName`
unfoldable pub start : List String → Config → Activities
start defaults c =
    let named = keys c.names in
    let read = load_states c named [] in
    let s : Activities = record {
      activities = read;
      sorted_activities = [];
      current_activity = "";
      config = c;
      saved = c;
      timer_active = false;
      posted = [];
      emitted = [];
      session_calls = [];
    } in
    post update_sorted (
      if is_empty read
      then post_defaults defaults s
      else if not (any_running c named)
      then record s { activities = all_running (keys read) read }
      else s)

-- Activities::Activities: the constructor of its private part, then the last activity
unfoldable pub construct : Collation → List String → Config → Activities
construct c defaults config = load_last_activity c (start defaults config)
