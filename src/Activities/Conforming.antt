-- ===== src/Activities/Conforming.antt =====
-- StartActivity, StopActivity, SetCurrentActivity, NextActivity and PreviousActivity
-- (src/service/Activities.cpp) keep what is promised of them.
use kactivitymanagerd.Prelude.{
  ℕ, ◌<◌, String, true, false, not, ◌||◌, some, none, List, [], ◌∷◌, ◌≡◌, ◌≢◌, refl, ap, ◌∙◌, arith,
  ◌==◌, string_eq, nat_eq, lookup, has_key, or_default, contains, length, ==_iff, ne_of_beq,
  Bool-cases, inl, inr, ◌⊎◌,
}
use kactivitymanagerd.Activities.Data.{
  invalid, running, starting, stopped, stopping, state_eq, Activities, activity_state,
}
use kactivitymanagerd.Activities.Listing.{Collation}
use kactivitymanagerd.Activities.Operations.{
  start_activity, stop_activity, stop_refused, switch_to, set_current_activity, rotate_activity,
  switch_from, find_index,
}
use kactivitymanagerd.Activities.Cases.{set_current_cases}
use kactivitymanagerd.Activities.Consistency.{IsConsistent}
use kactivitymanagerd.Activities.Calls.{set_current as choose, start, stop, contains-ids_with}
use kactivitymanagerd.Activities.Running.{activities-set_activity_state}
use kactivitymanagerd.Activities.Switching.{
  current-set_activity_state, current-switch_to, find_index-get, contains-find_index, get_in_range,
  get-contains,
}
use kactivitymanagerd.Activities.Rotation.{running_list, listed_running, rotate_activity-to}
use kactivitymanagerd.Activities.Counting.{stoppable, refused-not_stoppable}
use kactivitymanagerd.Activities.Lifecycle.{
  view, Runs, IsKnown, Same, Rotated, Switched, StatesWith, Spec,
}

not_found : (a : String) (l : List String) → contains l a ≡ false → find_index a l ≡ none
unfolding find_index contains
not_found a [] h = refl
not_found a (x ∷ l) h = ground (arith, not_found a l, h)

pub Same-view :
    (s t : Activities)
    → t.activities ≡ s.activities
    → t.current_activity ≡ s.current_activity
    → Same (view s) (view t)
Same-view s t e f = (λ b. ap (lookup b) e, f)

pub has_key-IsKnown :
    (a : String) (s : Activities) → has_key s.activities a ≡ true → IsKnown (view s) a
has_key-IsKnown a s h e = ground (arith, h, e)

pub no_state :
    (a : String) (s : Activities) → has_key s.activities a ≡ false → lookup a s.activities ≡ none
no_state a s h = ground (arith, h)

-- a running activity is in the list of the running ones
pub listed :
    (s : Activities)
    → IsConsistent s
    → (a : String) → Runs (view s) a
    → contains (running_list s) a ≡ true
listed s h a e =
    ground (arith, contains-ids_with running a s.sorted_activities h.listed_once, h.agree a, e)

module _ (c : Collation) (s : Activities) where
  pub start-Spec : (a : String) → Spec (start a) (view s) (view (start_activity c a s))
  unfolding Spec activity_state
  start-Spec a =
      elim (Bool-cases (not (has_key s.activities a) || not (activity_state a s == stopped))) [
        | inl r ↦
            unfold start_activity in rw r (inr (λ e. ground (arith, r, e), Same-view s s refl refl))
        | inr r ↦
            unfold start_activity in
            rw r (
              inl (
                ground (
                  arith,
                  r,
                  state_eq.beq_iff (or_default (lookup a s.activities) invalid) stopped,
                ),
                λ b. activities-set_activity_state c a b starting s (ground (arith, r)),
                current-set_activity_state c a starting s,
              ))
      ]

  pub stop-Spec :
      (a : String) → IsConsistent s → Spec (stop a) (view s) (view (stop_activity c a s))
  unfolding Spec
  stop-Spec a h = elim (Bool-cases (stop_refused a s)) [
    | inl r ↦
        unfold stop_activity in rw r (inr (refused-not_stoppable a s r, Same-view s s refl refl))
    | inr r ↦
        unfold stop_activity in
        rw r (
          inl (
            stoppable a s h.distinct r,
            λ b.
                activities-set_activity_state c a b stopping s
                  (unfold stop_refused in ground (arith, r)),
            current-set_activity_state c a stopping s,
          ))
  ]

  activities-switch_to :
      (a : String) → (switch_to c a s).activities ≡ (start_activity c a s).activities
  unfolding switch_to
  activities-switch_to a = ground arith

  switched : (a : String) → Switched a (view s) (view (switch_to c a s))
  unfolding Spec
  switched a = (current-switch_to c a s, from (start-Spec a))
    where
      from :
          Spec (start a) (view s) (view (start_activity c a s))
          → ((lookup a s.activities ≡ some stopped)
              × StatesWith a (some starting) (view s) (view (switch_to c a s)))
            ⊎ ((lookup a s.activities ≢ some stopped)
                × ((b : String) → lookup b (switch_to c a s).activities ≡ lookup b s.activities))
      from (inl (is, states, current)) =
          inl (is, λ b. ap (lookup b) (activities-switch_to a) ∙ states b)
      from (inr (not_so, same)) =
          inr (not_so, λ b. ap (lookup b) (activities-switch_to a) ∙ same.0 b)

  pub set_current-Spec :
      (a : String) → Spec (choose a) (view s) (view (set_current_activity c a s).0)
  unfolding Spec set_current_activity
  set_current-Spec a = elim (Bool-cases (a == "")) [
    | inl e ↦ rw e (inl (inr (inl ((==_iff a "").0 e)), Same-view s s refl refl))
    | inr e ↦ rw e (
        set_current_cases c (λ r. Spec (choose a) (view s) (view (r.0))) a s
          (λ same. inl (inl same, Same-view s s refl refl))
          (λ blank. absurd (ne_of_beq a "" e blank))
          (λ h k unknown. inl (inr (inr (no_state a s unknown)), Same-view s s refl refl))
          (λ h k known. inr (
            ne_of_beq s.current_activity a h,
            ne_of_beq a "" e,
            has_key-IsKnown a s known,
            switched a,
          )))
  ]

  module _ (h : IsConsistent s) (unnamed : has_key s.activities "" ≡ false) where
    pub rotate-Rotated :
        (target : ℕ → ℕ → ℕ)
        → ((n i : ℕ) → i < n → target n i < n)
        → Rotated (view s) (view (rotate_activity c target s).0)
    rotate-Rotated target inside =
        elim (Bool-cases (contains (running_list s) s.current_activity)) [
          | inl e ↦
              let l = running_list s in
              let at = contains-find_index s.current_activity l e in
              let x =
                get_in_range l (target (length l) at.0)
                  (inside (length l) at.0 (find_index-get s.current_activity l at.0 at.1).1) in
              let moved =
                rotate_activity-to c s h target
                  (ground (
                    arith,
                    contains-ids_with running "" s.sorted_activities h.listed_once,
                    h.agree "",
                    unnamed,
                  ))
                  at.0 x.0 at.1 x.1 in
              inr (
                listed_running c s h s.current_activity e,
                ap (λ a. lookup a s.activities) moved.0
                    ∙ listed_running c s h x.0 (get-contains x.0 l (target (length l) at.0) x.1),
                λ b. ap (lookup b) moved.2,
              )
          | inr e ↦
              unfold rotate_activity in
              rw (not_found s.current_activity (running_list s) e) (
                unfold switch_from in
                inl (
                  λ r. ground (arith, e, listed s h s.current_activity r),
                  Same-view s s refl refl,
                ))
        ]
