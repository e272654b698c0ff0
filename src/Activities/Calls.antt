-- ===== src/Activities/Calls.antt =====
-- Everything that changes the state of Activities, as one type of calls: the D-Bus slots, the answer
-- of the session manager, and the timer.
use kactivitymanagerd.Prelude.{
  ℕ, map, String, Bool, true, false, Option, none, some, List, [], ◌∷◌, ◌≡◌, refl, arith, ◌==◌,
  string_eq, nat_eq, Hash, lookup, has_key, is_some, contains, contains-keys, inl, inr, not,
  Bool-cases, Distinct, ◌&&◌, is_empty, ◌||◌, ==_iff, ◌∙◌, ap,
}
use kactivitymanagerd.KsmServer
use kactivitymanagerd.Activities.Data.{State, code, state_eq, ActivityInfo, Activities, What}
use kactivitymanagerd.Activities.Listing.{Collation, list_activities, list_activities_in, ids_with}
use kactivitymanagerd.Activities.Operations.{
  set_attribute, start_activity, stop_activity, set_current_activity, previous_activity,
  next_activity, authorized_add, authorized_remove, add_activity, add_with_id, fresh_uuid,
  activity_session_state_changed, config_sync, rotate_activity,
}
use kactivitymanagerd.Activities.Sorting.{states, ids}
use kactivitymanagerd.Activities.Cases.{rotate_cases}
use kactivitymanagerd.Activities.Consistency.{
  IsConsistent, same-IsConsistent, start_activity-IsConsistent, stop_activity-IsConsistent,
  set_current-IsConsistent, set_current_activity-IsConsistent, add_with_id-IsConsistent,
  remove_activity-IsConsistent, session-IsConsistent, set_attribute-IsConsistent,
}

pub data Call : Type 0 where
  set_current start stop : String → Call
  previous next sync : Call
  set : What → String → String → Call
  add : Bool → List String → String → Call
  remove : Bool → String → Call
  session_changed : String → KsmServer.Status → Call

-- the state that AddActivity leaves; a supply without a new uuid is a loop that has not ended
abbrev pub added : Activities → Option (Activities × String) → Activities
added s none = s
added s (some (t, id)) = t

module _ (c : Collation) where
  unfoldable pub perform : Call → Activities → Activities
  perform (set_current a) s = (set_current_activity c a s).0
  perform (start a) s = start_activity c a s
  perform (stop a) s = stop_activity c a s
  perform previous s = (previous_activity c s).0
  perform next s = (next_activity c s).0
  perform sync s = config_sync s
  perform (set w a v) s = set_attribute w a v s
  perform (add authorized uuids n) s = added s (authorized_add c authorized uuids n s)
  perform (remove authorized a) s = authorized_remove c authorized a s
  perform (session_changed a st) s = activity_session_state_changed c a st s

  unfoldable pub run : List Call → Activities → Activities
  run [] s = s
  run (k ∷ ks) s = run ks (perform k s)

-- The uuid that the loop of addActivity ends with is not empty and not taken.
pub fresh_uuid-new :
    (us : List String) (m : Hash String State) (u : String)
    → fresh_uuid us m ≡ some u
    → ((u == "") ≡ false) × (has_key m u ≡ false)
unfolding fresh_uuid
fresh_uuid-new [] m u h = cc
fresh_uuid-new (v ∷ us) m u h = ground (arith, fresh_uuid-new us m u)

module _ (c : Collation) where
  add-IsConsistent :
      (us : List String) (n : String) (s : Activities)
      → IsConsistent s
      → IsConsistent (added s (add_activity c us n s))
  add-IsConsistent us n s h = elim (Bool-cases (n == "")) [
    | inl e ↦ unfold add_activity in rw e h
    | inr e ↦ unfold add_activity in rw e (go (fresh_uuid us s.activities) refl)
  ]
    where
      go :
          (o : Option String)
          → fresh_uuid us s.activities ≡ o
          → IsConsistent (
              added s (elim (fresh_uuid us s.activities) [
                | none ↦ none
                | some a ↦ some (add_with_id c a n s, a)
              ]))
      go none e = rw e h
      go (some u) e =
          rw e (add_with_id-IsConsistent c u n s (fresh_uuid-new us s.activities u e).1 h)

  pub rotate-IsConsistent :
      (target : ℕ → ℕ → ℕ) (s : Activities)
      → IsConsistent s
      → IsConsistent (rotate_activity c target s).0
  rotate-IsConsistent target s h =
      rotate_cases c (λ r. IsConsistent r.0) target s h (λ a. set_current-IsConsistent c a s h)

  -- Every call leaves a list in which each known activity stands once, with its current state, and
  -- nothing else stands.
  pub perform-IsConsistent :
      (k : Call) (s : Activities) → IsConsistent s → IsConsistent (perform c k s)
  unfolding perform
  perform-IsConsistent (set_current a) s h = set_current_activity-IsConsistent c a s h
  perform-IsConsistent (start a) s h = start_activity-IsConsistent c a s h
  perform-IsConsistent (stop a) s h = stop_activity-IsConsistent c a s h
  perform-IsConsistent previous s h = unfold previous_activity in rotate-IsConsistent _ s h
  perform-IsConsistent next s h = unfold next_activity in rotate-IsConsistent _ s h
  perform-IsConsistent sync s h = unfold config_sync in same-IsConsistent refl refl h
  perform-IsConsistent (set w a v) s h = set_attribute-IsConsistent w a v s h
  perform-IsConsistent (add authorized uuids n) s h =
      elim (Bool-cases (not (is_empty s.activities) && not authorized)) [
        | inl refused ↦ unfold authorized_add in rw refused h
        | inr ok ↦ unfold authorized_add in rw ok (add-IsConsistent uuids n s h)
      ]
  perform-IsConsistent (remove true a) s h =
      unfold authorized_remove in remove_activity-IsConsistent c a s h
  perform-IsConsistent (remove false a) s h = unfold authorized_remove in h
  perform-IsConsistent (session_changed a st) s h = session-IsConsistent c a st s h

  pub run-IsConsistent :
      (ks : List Call) (s : Activities) → IsConsistent s → IsConsistent (run c ks s)
  unfolding run
  run-IsConsistent [] s h = h
  run-IsConsistent (k ∷ ks) s h = run-IsConsistent ks (perform c k s) (perform-IsConsistent k s h)

-- the answer of a lookup, compared with a state
abbrev pub is_in : Option State → State → Bool
is_in none st = false
is_in (some v) st = v == st

pub absent-ids_with :
    (n : ℕ) (a : String) (xs : List ActivityInfo)
    → contains (ids xs) a ≡ false
    → contains (ids_with n xs) a ≡ false
unfolding ids_with contains
absent-ids_with n a [] h = refl
absent-ids_with n a (x ∷ xs) h = ground (arith, absent-ids_with n a xs)

pub contains-ids_with :
    (st : State) (a : String) (xs : List ActivityInfo)
    → Distinct (ids xs)
    → contains (ids_with (code st) xs) a ≡ is_in (lookup a (states xs)) st
unfolding ids_with contains lookup
contains-ids_with st a [] d = refl
contains-ids_with st a (x ∷ xs) d =
    ground
      (arith, contains-ids_with st a xs d.1, absent-ids_with (code st) x.id xs d.0, ==_iff x.id a)

contains-ids :
    (a : String) (xs : List ActivityInfo)
    → contains (map (λ info. info.id) xs) a ≡ contains (ids xs) a
unfolding contains
contains-ids a [] = refl
contains-ids a (x ∷ xs) = ap (λ b. x.id == a || b) (contains-ids a xs)

contains-list_activities :
    (a : String) (s : Activities)
    → contains (list_activities s) a ≡ contains (ids s.sorted_activities) a
unfolding list_activities
contains-list_activities a s = contains-ids a s.sorted_activities

module _ (c : Collation) (ks : List Call) (s : Activities) (h : IsConsistent s) where
  -- After any calls from a consistent state, ListActivities(state) lists exactly the activities that
  -- are in that state, and ListActivities() exactly the known ones.
  pub list_activities_exact :
      (a : String) (st : State)
      → (contains (list_activities_in (code st) (run c ks s)) a
          ≡ is_in (lookup a (run c ks s).activities) st)
        × (contains (list_activities (run c ks s)) a ≡ has_key (run c ks s).activities a)
  list_activities_exact a st =
      let t : Activities = run c ks s in
      let k : IsConsistent t = run-IsConsistent c ks s h in
      (
        contains-ids_with st a t.sorted_activities k.listed_once ∙ ap (λ o. is_in o st) (k.agree a),
        contains-list_activities a t
            ∙ contains-keys a (states t.sorted_activities)
            ∙ ap is_some (k.agree a),
      )
