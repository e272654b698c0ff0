-- ===== src/Activities/Announcing.antt =====
-- The signals ActivityAdded and ActivityRemoved (src/service/Activities.cpp), as one who follows them
-- understands them.
use kactivitymanagerd.Prelude.{
  ℕ, String, Bool, not, ◌&&◌, ◌||◌, List, [], ◌∷◌, ◌≡◌, refl, ap, ◌∙◌, arith, ◌==◌, string_eq,
  nat_eq, insert, has_key, length, Bool-cases, inl, inr,
}
use kactivitymanagerd.KsmServer
use kactivitymanagerd.Activities.Data
use kactivitymanagerd.Activities.Data.{
  State, state_eq, invalid, running, starting, stopped, stopping, Signal, activity_state_changed,
  activity_added, activity_removed, Activities, What, emit, activity_state, stopped_bit,
}
use kactivitymanagerd.Activities.Listing.{Collation, update_sorted_activity_list}
use kactivitymanagerd.Activities.Operations.{
  schedule_config_sync, set_activity_state, write_states, emit_state, set_attribute, start_activity,
  stop_activity, switch_to, set_current, set_current_activity, rotate_activity,
  ensure_current_activity_is_running, add_with_id, forget, remove_checked,
  activity_session_state_changed,
}
use kactivitymanagerd.Activities.Cases.{
  start_activity_cases, stop_activity_cases, set_current_cases, ensure_cases, rotate_cases,
}

-- the activities that one knows after the signals, the newest first, who knew `known` before
unfoldable pub tracked : List Signal → (String → Bool) → String → Bool
tracked [] known b = known b
tracked (activity_added a ∷ es) known b = a == b || tracked es known b
tracked (activity_removed a ∷ es) known b = not (a == b) && tracked es known b
tracked (_ ∷ es) known b = tracked es known b

module _ (c : Collation) (known : String → Bool) (b : String) where
  -- the step announces no activity
  abbrev pub IsQuiet : Activities → Activities → Type 0
  IsQuiet s t = tracked t.emitted known b ≡ tracked s.emitted known b

  emit_state-IsQuiet : (a : String) (st : State) (s : Activities) → IsQuiet s (emit_state a st s)
  unfolding emit_state tracked
  emit_state-IsQuiet a invalid s = refl
  emit_state-IsQuiet a running s = refl
  emit_state-IsQuiet a starting s = refl
  emit_state-IsQuiet a stopped s = refl
  emit_state-IsQuiet a stopping s = refl

  scheduled-IsQuiet : (s : Activities) → IsQuiet s (schedule_config_sync (write_states s))
  unfolding schedule_config_sync write_states
  scheduled-IsQuiet s = ground arith

  set_activity_state-IsQuiet :
      (a : String) (st : State) (s : Activities) → IsQuiet s (set_activity_state c a st s)
  unfolding set_activity_state update_sorted_activity_list
  set_activity_state-IsQuiet a st s =
      let s1 : Activities = record s { activities = insert a st s.activities } in
      let s2 = emit (activity_state_changed a st) (emit_state a st s1) in
      let quiet : IsQuiet s s2 = unfold tracked in emit_state-IsQuiet a st s1 in
      elim (Bool-cases (activity_state a s == st)) [
        | inl same ↦ rw same refl
        | inr new ↦ elim (Bool-cases (not (stopped_bit (activity_state a s) == stopped_bit st))) [
          | inl saves ↦ rw (new, saves) (scheduled-IsQuiet s2 ∙ quiet)
          | inr kept ↦ rw (new, kept) quiet
        ]
      ]

  announced_once :
      (a : String) (s : Activities)
      → tracked
          (schedule_config_sync (emit (activity_added a) (update_sorted_activity_list c s))).emitted
          known
          b
        ≡ (a == b || tracked s.emitted known b)
  unfolding schedule_config_sync update_sorted_activity_list tracked
  announced_once a s = ground arith

  pub set_attribute-IsQuiet :
      (w : What) (a v : String) (s : Activities) → IsQuiet s (set_attribute w a v s)
  unfolding set_attribute schedule_config_sync tracked
  set_attribute-IsQuiet w a v s = ground arith

  pub start_activity-IsQuiet : (a : String) (s : Activities) → IsQuiet s (start_activity c a s)
  start_activity-IsQuiet a s =
      start_activity_cases c (IsQuiet s) a s refl (λ _ _. set_activity_state-IsQuiet a starting s)

  pub stop_activity-IsQuiet : (a : String) (s : Activities) → IsQuiet s (stop_activity c a s)
  stop_activity-IsQuiet a s =
      stop_activity_cases c (IsQuiet s) a s refl (λ _. set_activity_state-IsQuiet a stopping s)

  switch_to-IsQuiet : (a : String) (s : Activities) → IsQuiet s (switch_to c a s)
  unfolding switch_to schedule_config_sync tracked
  switch_to-IsQuiet a s = ground (arith, start_activity-IsQuiet a s)

  set_current-IsQuiet : (a : String) (s : Activities) → IsQuiet s (set_current c a s).0
  set_current-IsQuiet a s =
      set_current_cases c (λ r. IsQuiet s (r.0)) a s (λ _. refl) (λ _. unfold tracked in refl)
        (λ _ _ _. refl) (λ _ _ _. switch_to-IsQuiet a s)

  pub set_current_activity-IsQuiet :
      (a : String) (s : Activities) → IsQuiet s (set_current_activity c a s).0
  unfolding set_current_activity
  set_current_activity-IsQuiet a s = ground (arith, set_current-IsQuiet a s)

  pub rotate_activity-IsQuiet :
      (target : ℕ → ℕ → ℕ) (s : Activities) → IsQuiet s (rotate_activity c target s).0
  rotate_activity-IsQuiet target s =
      rotate_cases c (λ r. IsQuiet s (r.0)) target s refl (λ a. set_current-IsQuiet a s)

  ensure-IsQuiet : (s : Activities) → IsQuiet s (ensure_current_activity_is_running c s)
  ensure-IsQuiet s =
      ensure_cases c (IsQuiet s) s (λ _. refl) (λ _. refl)
        (λ first _ _ _. set_current-IsQuiet first s)

  pub session-IsQuiet :
      (a : String) (st : KsmServer.Status) (s : Activities)
      → IsQuiet s (activity_session_state_changed c a st s)
  unfolding activity_session_state_changed
  session-IsQuiet a KsmServer.Status.stopped s = elim (Bool-cases (has_key s.activities a)) [
    | inr k ↦ rw k refl
    | inl k ↦
        let set = set_activity_state-IsQuiet a stopped s in
        elim (Bool-cases (s.current_activity == a)) [
          | inl e ↦ rw (k, e) (ensure-IsQuiet (set_activity_state c a stopped s) ∙ set)
          | inr e ↦ rw (k, e) set
        ]
  ]
  session-IsQuiet a KsmServer.Status.started s = elim (Bool-cases (has_key s.activities a)) [
    | inr k ↦ rw k refl
    | inl k ↦ rw k (set_activity_state-IsQuiet a running s)
  ]
  session-IsQuiet a KsmServer.Status.failed_to_stop s = elim (Bool-cases (has_key s.activities a)) [
    | inr k ↦ rw k refl
    | inl k ↦ rw k (set_activity_state-IsQuiet a running s)
  ]

  -- AddActivity announces the new activity, and nothing else
  pub tracked-add_with_id :
      (a n : String) (s : Activities)
      → tracked (add_with_id c a n s).emitted known b ≡ (a == b || tracked s.emitted known b)
  tracked-add_with_id a n s =
      let s1 : Activities = record s { activities = insert a invalid s.activities } in
      let s2 = set_attribute Data.name a n (set_activity_state c a running s1) in
      let s3 = schedule_config_sync (emit (activity_added a) (update_sorted_activity_list c s2)) in
      let before =
        set_attribute-IsQuiet Data.name a n (set_activity_state c a running s1)
        ∙ set_activity_state-IsQuiet a running s1 in
      let announced : tracked s3.emitted known b ≡ (a == b || tracked s.emitted known b) =
        announced_once a s2 ∙ ap (λ x. a == b || x) before in
      elim (Bool-cases (length s1.activities == 1)) [
        | inl one ↦ unfold add_with_id in rw one (set_current_activity-IsQuiet a s3 ∙ announced)
        | inr more ↦ unfold add_with_id in rw more announced
      ]

  -- RemoveActivity announces the removed activity, and nothing else
  pub tracked-remove_checked :
      (a : String) (s : Activities)
      → tracked (remove_checked c a s).emitted known b ≡ (not (a == b) && tracked s.emitted known b)
  unfolding forget tracked
  tracked-remove_checked a s =
      let s1 = forget a (set_activity_state c a invalid (stop_activity c a s)) in
      let quiet : IsQuiet s s1 =
        set_activity_state-IsQuiet a invalid (stop_activity c a s) ∙ stop_activity-IsQuiet a s in
      elim (Bool-cases (s1.current_activity == a)) [
        | inl e ↦
            unfold remove_checked in rw e (ap (λ x. not (a == b) && x) (ensure-IsQuiet s1 ∙ quiet))
        | inr e ↦ unfold remove_checked in rw e (ap (λ x. not (a == b) && x) quiet)
      ]
