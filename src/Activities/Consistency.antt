-- ===== src/Activities/Consistency.antt =====
-- The sorted list that clients read agrees with the map of states, after every method.
use kactivitymanagerd.Prelude.{
  String, false, none, List, [], ◌∷◌, ◌≡◌, refl, arith, ◌==◌, nat_eq, string_eq, lookup, insert,
  has_key, keys, if◌then◌else◌, contains, Distinct, ==_iff, contains-keys, inl, inr,
  insert-Distinct, remove-Distinct, lookup-remove, lookup-insert, ==_refl, Bool-cases, length,
}
use kactivitymanagerd.KsmServer
use kactivitymanagerd.Activities.Data.{
  State, invalid, running, starting, stopped, stopping, state_eq, ActivityInfo, Activities, What,
  name, emit, activity_added, activity_state,
}
use kactivitymanagerd.Activities.Listing.{Collation, update_sorted_activity_list}
use kactivitymanagerd.Activities.Operations.{
  set_attribute, schedule_config_sync, set_activity_state, start_activity, stop_activity, switch_to,
  set_current, set_current_activity, ensure_current_activity_is_running, add_with_id, forget,
  remove_info, remove_checked, remove_activity, activity_session_state_changed,
}
use kactivitymanagerd.Activities.Cases.{
  start_activity_cases, stop_activity_cases, remove_activity_cases, set_current_cases, ensure_cases,
}
use kactivitymanagerd.Activities.Sorting.{states, ids, states-update_sorted_activity_list}

pub record IsConsistent (s : Activities) : Type 0 where
  pub distinct : Distinct (keys s.activities)
  pub listed_once : Distinct (ids s.sorted_activities)
  pub agree : (a : String) → lookup a (states s.sorted_activities) ≡ lookup a s.activities

-- A step that leaves the map and the list alone
pub same-IsConsistent :
    {s t : Activities}
    → t.activities ≡ s.activities
    → t.sorted_activities ≡ s.sorted_activities
    → IsConsistent s
    → IsConsistent t
same-IsConsistent e f h = record {
  distinct = rw e h.distinct;
  listed_once = rw f h.listed_once;
  agree = rw (e, f) h.agree;
}

updated-IsConsistent :
    (c : Collation) (s : Activities)
    → Distinct (keys s.activities)
    → IsConsistent (update_sorted_activity_list c s)
unfolding update_sorted_activity_list
updated-IsConsistent c s d =
    let h = states-update_sorted_activity_list s c d in
    record { distinct = d; listed_once = h.0; agree = h.1 }

pub set_attribute-IsConsistent :
    (w : What) (a v : String) (s : Activities)
    → IsConsistent s
    → IsConsistent (set_attribute w a v s)
unfolding set_attribute
set_attribute-IsConsistent w a v s = same-IsConsistent (ground arith) (ground arith)

remove_info-absent :
    (a b : String) (xs : List ActivityInfo)
    → contains (ids xs) a ≡ false
    → lookup b (states (remove_info a xs)) ≡ lookup b (states xs)
unfolding remove_info lookup contains
remove_info-absent a b [] h = refl
remove_info-absent a b (x ∷ xs) h = ground (arith, remove_info-absent a b xs)

lookup-remove_info :
    (a b : String) (xs : List ActivityInfo)
    → Distinct (ids xs)
    → lookup b (states (remove_info a xs)) ≡ (if a == b then none else lookup b (states xs))
unfolding remove_info lookup
lookup-remove_info a b [] d = ground arith
lookup-remove_info a b (x ∷ xs) d = ground (
  arith,
  lookup-remove_info a b xs d.1,
  ==_iff x.id a,
  ==_iff x.id b,
  ==_iff a b,
  contains-keys x.id (states xs),
)

contains-remove_info :
    (a b : String) (xs : List ActivityInfo)
    → contains (ids xs) b ≡ false
    → contains (ids (remove_info a xs)) b ≡ false
unfolding remove_info contains
contains-remove_info a b [] h = refl
contains-remove_info a b (x ∷ xs) h = ground (arith, contains-remove_info a b xs)

remove_info-Distinct :
    (a : String) (xs : List ActivityInfo) → Distinct (ids xs) → Distinct (ids (remove_info a xs))
unfolding remove_info
remove_info-Distinct a [] d = tt
remove_info-Distinct a (x ∷ xs) d =
    ground (arith, contains-remove_info a x.id xs d.0, remove_info-Distinct a xs d.1)

pub forget-IsConsistent : (a : String) (s : Activities) → IsConsistent s → IsConsistent (forget a s)
unfolding forget
forget-IsConsistent a s h = record {
  distinct = remove-Distinct a s.activities h.distinct;
  listed_once = remove_info-Distinct a s.sorted_activities h.listed_once;
  agree = λ b. rw (
    lookup-remove_info a b s.sorted_activities h.listed_once,
    lookup-remove a b s.activities,
    h.agree b,
  );
}

module _ (c : Collation) where
  -- the map may be out of step with the list before the call
  set_state-IsConsistent :
      (a : String) (st : State) (s : Activities)
      → Distinct (keys s.activities)
      → (activity_state a s == st) ≡ false
      → IsConsistent (set_activity_state c a st s)
  set_state-IsConsistent a st s d change =
      unfold set_activity_state in
      rw change (updated-IsConsistent c _ (ground (arith, insert-Distinct a st s.activities d)))

  pub set_activity_state-IsConsistent :
      (a : String) (st : State) (s : Activities)
      → IsConsistent s
      → IsConsistent (set_activity_state c a st s)
  set_activity_state-IsConsistent a st s h = elim (Bool-cases (activity_state a s == st)) [
    | inl same ↦ unfold set_activity_state in rw same h
    | inr change ↦ set_state-IsConsistent a st s h.distinct change
  ]

  pub start_activity-IsConsistent :
      (a : String) (s : Activities) → IsConsistent s → IsConsistent (start_activity c a s)
  start_activity-IsConsistent a s h =
      start_activity_cases c IsConsistent a s h
        (λ _ _. same-IsConsistent refl refl (set_activity_state-IsConsistent a starting s h))

  pub stop_activity-IsConsistent :
      (a : String) (s : Activities) → IsConsistent s → IsConsistent (stop_activity c a s)
  stop_activity-IsConsistent a s h =
      stop_activity_cases c IsConsistent a s h
        (λ _. same-IsConsistent refl refl (set_activity_state-IsConsistent a stopping s h))

  schedule-IsConsistent : (s : Activities) → IsConsistent s → IsConsistent (schedule_config_sync s)
  unfolding schedule_config_sync
  schedule-IsConsistent s = same-IsConsistent (ground arith) (ground arith)

  switch_to-IsConsistent :
      (a : String) (s : Activities) → IsConsistent s → IsConsistent (switch_to c a s)
  switch_to-IsConsistent a s h =
      unfold switch_to in
      same-IsConsistent refl refl
        (schedule-IsConsistent _ (same-IsConsistent refl refl (start_activity-IsConsistent a s h)))

  pub set_current-IsConsistent :
      (a : String) (s : Activities) → IsConsistent s → IsConsistent (set_current c a s).0
  set_current-IsConsistent a s h =
      set_current_cases c (λ r. IsConsistent r.0) a s (λ _. h) (λ _. same-IsConsistent refl refl h)
        (λ _ _ _. h) (λ _ _ _. switch_to-IsConsistent a s h)

  pub set_current_activity-IsConsistent :
      (a : String) (s : Activities) → IsConsistent s → IsConsistent (set_current_activity c a s).0
  set_current_activity-IsConsistent a s h = elim (Bool-cases (a == "")) [
    | inl e ↦ unfold set_current_activity in rw e h
    | inr e ↦ unfold set_current_activity in rw e (set_current-IsConsistent a s h)
  ]

  pub ensure-IsConsistent :
      (s : Activities) → IsConsistent s → IsConsistent (ensure_current_activity_is_running c s)
  ensure-IsConsistent s h =
      ensure_cases c IsConsistent s (λ _. h) (λ _. h)
        (λ first _ _ _. set_current-IsConsistent first s h)

  pub add_with_id-IsConsistent :
      (a n : String) (s : Activities)
      → has_key s.activities a ≡ false
      → IsConsistent s
      → IsConsistent (add_with_id c a n s)
  add_with_id-IsConsistent a n s new h =
      let s1 : Activities = record s { activities = insert a invalid s.activities } in
      let d : Distinct (keys s1.activities) = insert-Distinct a invalid s.activities h.distinct in
      let fresh : (activity_state a s1 == running) ≡ false =
        unfold activity_state in rw (lookup-insert a a invalid s.activities, ==_refl a) in
      let s2 : Activities = set_attribute name a n (set_activity_state c a running s1) in
      let h2 : IsConsistent s2 =
        set_attribute-IsConsistent name a n _ (set_state-IsConsistent a running s1 d fresh) in
      let s3 : Activities = emit (activity_added a) (update_sorted_activity_list c s2) in
      let h3 : IsConsistent (schedule_config_sync s3) =
        schedule-IsConsistent s3
          (same-IsConsistent refl refl (updated-IsConsistent c s2 h2.distinct)) in
      elim (Bool-cases (length s1.activities == 1)) [
        | inl one ↦ unfold add_with_id in rw one (set_current_activity-IsConsistent a _ h3)
        | inr more ↦ unfold add_with_id in rw more h3
      ]

  remove_checked-IsConsistent :
      (a : String) (s : Activities) → IsConsistent s → IsConsistent (remove_checked c a s)
  remove_checked-IsConsistent a s h =
      let h1 =
        forget-IsConsistent a _
          (set_activity_state-IsConsistent a invalid _ (stop_activity-IsConsistent a s h)) in
      let s1 : Activities = forget a (set_activity_state c a invalid (stop_activity c a s)) in
      elim (Bool-cases (s1.current_activity == a)) [
        | inl was ↦
            unfold remove_checked in
            rw was (same-IsConsistent refl refl (ensure-IsConsistent s1 h1))
        | inr not_was ↦ unfold remove_checked in rw not_was (same-IsConsistent refl refl h1)
      ]

  pub remove_activity-IsConsistent :
      (a : String) (s : Activities) → IsConsistent s → IsConsistent (remove_activity c a s)
  remove_activity-IsConsistent a s h =
      remove_activity_cases c IsConsistent a s h (λ _ _. remove_checked-IsConsistent a s h)

  pub session-IsConsistent :
      (a : String) (st : KsmServer.Status) (s : Activities)
      → IsConsistent s
      → IsConsistent (activity_session_state_changed c a st s)
  session-IsConsistent a KsmServer.Status.started s h = elim (Bool-cases (has_key s.activities a)) [
    | inl known ↦
        unfold activity_session_state_changed in
        rw known (same-IsConsistent refl refl (set_activity_state-IsConsistent a running s h))
    | inr unknown ↦ unfold activity_session_state_changed in rw unknown h
  ]
  session-IsConsistent a KsmServer.Status.stopped s h = elim (Bool-cases (has_key s.activities a)) [
    | inr unknown ↦ unfold activity_session_state_changed in rw unknown h
    | inl known ↦ elim (Bool-cases (s.current_activity == a)) [
      | inl current ↦
          unfold activity_session_state_changed in
          rw (known, current)
            (same-IsConsistent refl refl
              (ensure-IsConsistent _ (set_activity_state-IsConsistent a stopped s h)))
      | inr other ↦
          unfold activity_session_state_changed in
          rw (known, other)
            (same-IsConsistent refl refl (set_activity_state-IsConsistent a stopped s h))
    ]
  ]
  session-IsConsistent a KsmServer.Status.failed_to_stop s h =
      elim (Bool-cases (has_key s.activities a)) [
        | inl known ↦
            unfold activity_session_state_changed in
            rw known (same-IsConsistent refl refl (set_activity_state-IsConsistent a running s h))
        | inr unknown ↦ unfold activity_session_state_changed in rw unknown h
      ]
