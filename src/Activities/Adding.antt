-- ===== src/Activities/Adding.antt =====
-- What addActivity (src/service/Activities.cpp) leaves once it has a uuid.
use kactivitymanagerd.Prelude.{
  String, true, false, ◌≡◌, ap, ◌∙◌, arith, some, ◌==◌, string_eq, nat_eq, lookup, insert, has_key,
  length, lookup-insert, ==_refl, Bool-cases, inl, inr, if◌then◌else◌,
}
use kactivitymanagerd.Activities.Data.{invalid, running, Activities, name, activity_added, emit}
use kactivitymanagerd.Activities.Listing.{Collation, update_sorted_activity_list}
use kactivitymanagerd.Activities.Operations.{
  set_activity_state, set_attribute, schedule_config_sync, set_current_activity, add_with_id,
}
use kactivitymanagerd.Activities.Running.{activities-set_activity_state}
use kactivitymanagerd.Activities.Switching.{current-set_activity_state, set_current_running}

-- the methods that touch neither the states nor the current activity
activities-set_attribute :
    (a v : String) (s : Activities)
    → ((set_attribute name a v s).activities ≡ s.activities)
      × ((set_attribute name a v s).current_activity ≡ s.current_activity)
unfolding set_attribute schedule_config_sync
activities-set_attribute a v s = (ground arith, ground arith)

activities-scheduled :
    (c : Collation) (a : String) (s : Activities)
    → ((schedule_config_sync (emit (activity_added a) (update_sorted_activity_list c s))).activities
        ≡ s.activities)
      × ((schedule_config_sync
            (emit (activity_added a) (update_sorted_activity_list c s))).current_activity
          ≡ s.current_activity)
unfolding schedule_config_sync update_sorted_activity_list
activities-scheduled c a s = (ground arith, ground arith)

module _ (c : Collation) (a n : String) (s : Activities) where
  -- the state before the new activity may become the current one
  abbrev pub prepared : Activities
  prepared = schedule_config_sync (
      emit (activity_added a) (
        update_sorted_activity_list c (
          set_attribute name a n (
            set_activity_state c a running
              (record s { activities = insert a invalid s.activities })))))

  lookup-prepared :
      (b : String)
      → lookup b prepared.activities ≡ (if a == b then some running else lookup b s.activities)
  lookup-prepared b =
      let s1 : Activities = record s { activities = insert a invalid s.activities } in
      let s2 = set_activity_state c a running s1 in
      let known : has_key s1.activities a ≡ true =
        ground (arith, lookup-insert a a invalid s.activities, ==_refl a) in
      ap (lookup b) (
        (activities-scheduled c a (set_attribute name a n s2)).0
        ∙ (activities-set_attribute a n s2).0)
      ∙ activities-set_activity_state c a b running s1 known
      ∙ ground (arith, lookup-insert a b invalid s.activities)

  current-prepared : prepared.current_activity ≡ s.current_activity
  current-prepared =
      let s1 : Activities = record s { activities = insert a invalid s.activities } in
      let s2 = set_activity_state c a running s1 in
      (activities-scheduled c a (set_attribute name a n s2)).1
      ∙ (activities-set_attribute a n s2).1
      ∙ current-set_activity_state c a running s1

  set_current-prepared :
      (a == "") ≡ false
      → ((set_current_activity c a prepared).0.activities ≡ prepared.activities)
        × ((set_current_activity c a prepared).0.current_activity ≡ a)
  set_current-prepared named =
      let r =
        set_current_running c a prepared (lookup-prepared a ∙ ground (arith, ==_refl a)) named in
      unfold set_current_activity in rw named (r.2, r.0)

  -- The new activity runs, the others keep their states, and the new one is the current activity if
  -- it is the only one.
  pub add_with_id_lem :
      (a == "") ≡ false
      → (b : String)
      → (lookup b (add_with_id c a n s).activities
          ≡ (if a == b then some running else lookup b s.activities))
        × ((add_with_id c a n s).current_activity
            ≡ (if length (insert a invalid s.activities) == 1 then a else s.current_activity))
  add_with_id_lem named b = elim (Bool-cases (length (insert a invalid s.activities) == 1)) [
    | inl one ↦
        unfold add_with_id in
        rw one (
          ap (lookup b) (set_current-prepared named).0 ∙ lookup-prepared b,
          (set_current-prepared named).1,
        )
    | inr more ↦ unfold add_with_id in rw more (lookup-prepared b, current-prepared)
  ]
