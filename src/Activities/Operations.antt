-- ===== src/Activities/Operations.antt =====
-- The methods of Activities and Activities::Private that change the state, in the order in which
-- the source needs them. The locks only order the threads; each method is one step here. An
-- assertion of the source is not a branch: what follows it is modelled.
use kactivitymanagerd.Prelude.{
  ℕ, suc, ◌+◌, ◌-◌, ◌%◌, String, Bool, true, false, not, ◌&&◌, ◌||◌, Option, none, some, List, [],
  ◌∷◌, ◌++◌, head?, is_empty, contains, get_elem?, length, ◌==◌, nat_eq, string_eq, leb, Hash,
  insert, remove, or_default, has_key, keys, if◌then◌else◌,
}
use kactivitymanagerd.KsmServer
use kactivitymanagerd.Activities.Data
use kactivitymanagerd.Activities.Data.{
  State, invalid, running, starting, stopped, stopping, code, state_eq, stopped_bit, ActivityInfo,
  Config, What, name, Activities, Signal, Posted, emit, post, keys_with, read_entry, activity_state,
  group, write_entry, delete_entries, current_activity_changed, activity_added, activity_started,
  activity_stopped, activity_removed, activity_changed, attribute_changed, activity_state_changed,
  start_sync_timer, stop_sync_timer, removed_signal,
}
use kactivitymanagerd.Activities.Listing.{
  Collation, update_sorted_activity_list, list_activities_in,
}

-- Activities::Private::scheduleConfigSync
unfoldable pub schedule_config_sync : Activities → Activities
schedule_config_sync s = if s.timer_active then s else post start_sync_timer s

-- Activities::Private::configSync
unfoldable pub config_sync : Activities → Activities
config_sync s = record (post stop_sync_timer s) { saved = s.config }

-- the `switch` of setActivityState
unfoldable pub emit_state : String → State → Activities → Activities
emit_state a running s = emit (activity_started a) s
emit_state a stopped s = emit (activity_stopped a) s
emit_state a _ s = s

-- the two `writeEntry` calls of setActivityState
unfoldable pub write_states : Activities → Activities
write_states s = record s {
  config = record s.config {
    running_activities = some (keys_with running s.activities ++ keys_with starting s.activities);
    stopped_activities = some (keys_with stopped s.activities ++ keys_with stopping s.activities);
  };
}

-- Activities::SetActivityName, SetActivityDescription and SetActivityIcon
unfoldable pub set_attribute : What → String → String → Activities → Activities
unfolding schedule_config_sync
set_attribute what a value s =
    if value == read_entry what a s || not (has_key s.activities a)
    then s
    else emit (activity_changed a) (
        emit (attribute_changed what a value)
          (schedule_config_sync (record s { config = write_entry what a value s.config })))

-- the guard of `while (activity.isEmpty() || activities.contains(activity))`, for each new uuid in
-- turn; none when the supply runs out
unfoldable pub fresh_uuid : List String → Hash String State → Option String
fresh_uuid [] m = none
fresh_uuid (u ∷ us) m = if u == "" || has_key m u then fresh_uuid us m else some u

unfoldable pub find_index : String → List String → Option ℕ
find_index a [] = none
find_index a (x ∷ xs) =
    let later = find_index a xs in
    if x == a then some 0 else elim later [ none ↦ none | some i ↦ some (suc i) ]

-- removes the first entry of the list with the id
unfoldable pub remove_info : String → List ActivityInfo → List ActivityInfo
remove_info a [] = []
remove_info a (info ∷ rest) = if info.id == a then rest else info ∷ remove_info a rest

-- the guards of StopActivity
unfoldable pub stop_refused : String → Activities → Bool
stop_refused a s =
    not (has_key s.activities a)
    || activity_state a s == stopped
    || length s.activities == 1
    || leb (length (keys_with running s.activities)) 1

-- removeActivity, from `activities.remove` to the last `deleteEntry`
unfoldable pub forget : String → Activities → Activities
unfolding remove_info
forget a s = record s {
  activities = remove a s.activities;
  sorted_activities = remove_info a s.sorted_activities;
  config = delete_entries a s.config;
}

module _ (c : Collation) where
  -- Activities::Private::setActivityState
  unfoldable pub set_activity_state : String → State → Activities → Activities
  unfolding schedule_config_sync write_states emit_state
  set_activity_state a st s =
      if activity_state a s == st
      then s
      else (let needs_update = not (stopped_bit (activity_state a s) == stopped_bit st) in
          let s1 = record s { activities = insert a st s.activities } in
          let s2 = emit (activity_state_changed a st) (emit_state a st s1) in
          update_sorted_activity_list c
            (if needs_update then schedule_config_sync (write_states s2) else s2))

  -- Activities::StartActivity
  unfoldable pub start_activity : String → Activities → Activities
  start_activity a s =
      if not (has_key s.activities a) || not (activity_state a s == stopped)
      then s
      else (let s1 = set_activity_state a starting s in
          record s1 { session_calls = (a, true) ∷ s1.session_calls })

  -- Activities::StopActivity
  unfoldable pub stop_activity : String → Activities → Activities
  unfolding stop_refused
  stop_activity a s =
      if stop_refused a s
      then s
      else (let s1 = set_activity_state a stopping s in
          record s1 { session_calls = (a, false) ∷ s1.session_calls })

  -- setCurrentActivity, from the start of the activity on
  unfoldable pub switch_to : String → Activities → Activities
  unfolding schedule_config_sync
  switch_to a s =
      let s1 = start_activity a s in
      let s2 = record s1 {
        current_activity = a;
        config = record s1.config { last_activity = some a };
      } in
      emit (current_activity_changed a) (schedule_config_sync s2)

  -- Activities::Private::setCurrentActivity
  unfoldable pub set_current : String → Activities → Activities × Bool
  unfolding switch_to
  set_current a s =
      if s.current_activity == a
      then (s, true)
      else if a == ""
      then (emit (current_activity_changed "") (record s { current_activity = "" }), true)
      else if not (has_key s.activities a)
      then (s, false)
      else (switch_to a s, true)

  -- Activities::SetCurrentActivity
  unfoldable pub set_current_activity : String → Activities → Activities × Bool
  set_current_activity a s = if a == "" then (s, false) else set_current a s

  -- the body of the loop of previousActivity and nextActivity at the index of the current activity
  unfoldable pub switch_from : Option ℕ → (ℕ → ℕ → ℕ) → List String → Activities → Activities × Bool
  switch_from none target a s = (s, false)
  switch_from (some i) target a s =
      set_current (or_default (get_elem? a (target (length a) i)) "") s

  -- the loop of previousActivity and nextActivity: `target n i` is the index to switch to
  unfoldable pub rotate_activity : (ℕ → ℕ → ℕ) → Activities → Activities × Bool
  unfolding switch_from
  rotate_activity target s =
      let a = list_activities_in (code running) s in
      switch_from (find_index s.current_activity a) target a s

  -- Activities::Private::previousActivity
  unfoldable pub previous_activity : Activities → Activities × Bool
  unfolding rotate_activity
  previous_activity = rotate_activity λ n i. (i + n - 1) % n

  -- Activities::Private::nextActivity
  unfoldable pub next_activity : Activities → Activities × Bool
  unfolding rotate_activity
  next_activity = rotate_activity λ n i. (i + 1) % n

  -- Activities::Private::ensureCurrentActivityIsRunning
  unfoldable pub ensure_current_activity_is_running : Activities → Activities
  ensure_current_activity_is_running s =
      let a = list_activities_in (code running) s in
      if contains a s.current_activity
      then s
      else elim (head? a) [ none ↦ s | some first ↦ (set_current first s).0 ]

  -- addActivity, with the uuid that its loop has found
  unfoldable pub add_with_id : String → String → Activities → Activities
  unfolding schedule_config_sync
  add_with_id a n s =
      let s1 = record s { activities = insert a invalid s.activities } in
      let s2 = set_attribute name a n (set_activity_state a running s1) in
      let s3 = schedule_config_sync (emit (activity_added a) (update_sorted_activity_list c s2)) in
      if length s1.activities == 1 then (set_current_activity a s3).0 else s3

  -- Activities::Private::addActivity
  unfoldable pub add_activity : List String → String → Activities → Option (Activities × String)
  add_activity uuids n s = if n == "" then some (s, "") else elim (fresh_uuid uuids s.activities) [
    | none ↦ none
    | some a ↦ some (add_with_id a n s, a)
  ]

  -- removeActivity, after its sanity checks
  unfoldable pub remove_checked : String → Activities → Activities
  unfolding forget
  remove_checked a s =
      let s1 = forget a (set_activity_state a invalid (stop_activity a s)) in
      let s2 = if s1.current_activity == a then ensure_current_activity_is_running s1 else s1 in
      post Data.config_sync (post (removed_signal a) (emit (activity_removed a) s2))

  -- Activities::Private::removeActivity
  unfoldable pub remove_activity : String → Activities → Activities
  remove_activity a s =
      if not (has_key s.activities a)
      then s
      else if length s.activities == 1
      then s
      else remove_checked a s

  -- Activities::Private::activitySessionStateChanged
  unfoldable pub activity_session_state_changed :
      String → KsmServer.Status → Activities → Activities
  activity_session_state_changed a KsmServer.Status.stopped s =
      if not (has_key s.activities a)
      then s
      else (let s1 = set_activity_state a stopped s in
          post Data.config_sync
            (if s.current_activity == a then ensure_current_activity_is_running s1 else s1))
  activity_session_state_changed a _ s =
      if not (has_key s.activities a)
      then s
      else post Data.config_sync (set_activity_state a running s)

  -- Activities::AddActivity; the first argument is the answer of KAuthorized
  unfoldable pub authorized_add :
      Bool → List String → String → Activities → Option (Activities × String)
  authorized_add authorized uuids n s =
      if not (is_empty s.activities) && not authorized then some (s, "") else add_activity uuids n s

  -- Activities::RemoveActivity
  unfoldable pub authorized_remove : Bool → String → Activities → Activities
  authorized_remove authorized a s = if authorized then remove_activity a s else s

  -- Activities::Private::loadLastActivity
  unfoldable pub load_last_activity : Activities → Activities
  load_last_activity s =
      let last = or_default s.config.last_activity "" in
      (set_current
        (if last == "" && not (is_empty s.activities)
          then or_default (head? (keys s.activities)) ""
          else last)
        s).0
