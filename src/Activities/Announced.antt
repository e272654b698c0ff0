-- ===== src/Activities/Announced.antt =====
-- Who follows the signals of Activities (src/service/Activities.cpp) knows its activities.
use kactivitymanagerd.Prelude.{
  String, Bool, true, false, not, ◌&&◌, ◌||◌, Option, none, some, List, [], ◌∷◌, ◌≡◌, ◌≢◌, refl,
  sym, ap, ◌∙◌, arith, ◌==◌, string_eq, nat_eq, has_key, is_some, is_empty, length, ==_iff,
  Bool-cases, inl, inr,
}
use kactivitymanagerd.KsmServer
use kactivitymanagerd.Activities.Data.{State, Activities}
use kactivitymanagerd.Activities.Listing.{Collation}
use kactivitymanagerd.Activities.Operations.{
  add_activity, authorized_add, authorized_remove, fresh_uuid, remove_activity, remove_checked,
  next_activity, previous_activity, config_sync, add_with_id,
}
use kactivitymanagerd.Activities.Consistency.{IsConsistent}
use kactivitymanagerd.Activities.Calls.{
  Call, set_current, start, stop, previous, next, sync, set, add, remove, session_changed, added,
  perform, run, fresh_uuid-new, perform-IsConsistent,
}
use kactivitymanagerd.Activities.Removal.{remove_activity-Removed}
use kactivitymanagerd.Activities.Adding.{add_with_id_lem}
use kactivitymanagerd.Activities.Lifecycle.{Desk, view, IsKnown, StatesWith, Rotated, Spec}
use kactivitymanagerd.Activities.Conforming.{no_state}
use kactivitymanagerd.Activities.Refinement.{perform-Spec, unnamed-Spec}
use kactivitymanagerd.Activities.Announcing.{
  tracked, IsQuiet, start_activity-IsQuiet, stop_activity-IsQuiet, set_current_activity-IsQuiet,
  rotate_activity-IsQuiet, session-IsQuiet, set_attribute-IsQuiet, tracked-add_with_id,
  tracked-remove_checked,
}

abbrev knows : Desk → String → Bool
knows d b = is_some (d.state_of b)

-- a new state for a known activity makes none known or unknown
knows_same :
    (a b : String) (st : State) (d e : Desk)
    → IsKnown d a
    → StatesWith a (some st) d e
    → knows e b ≡ knows d b
knows_same a b st d e k w = elim (Bool-cases (a == b)) [
  | inr other ↦ ap is_some (w b) ∙ rw other refl
  | inl is ↦
      let same = (==_iff a b).0 is in
      ap is_some (w b) ∙ rw is (sym (some_state (d.state_of b) (λ x. k (ap d.state_of same ∙ x))))
]
  where
    some_state : (o : Option State) → o ≢ none → is_some o ≡ true
    some_state none n = absurd (n refl)
    some_state (some x) n = refl

knows-Rotated : (b : String) (d e : Desk) → Rotated d e → knows e b ≡ knows d b
knows-Rotated b d e (inl (r, same)) = ap is_some (same.0 b)
knows-Rotated b d e (inr (r, q, states)) = ap is_some (states b)

-- the calls that add and remove nothing
unfoldable pub IsSteady : Call → Type 0
IsSteady (add _ _ _) = ⊥
IsSteady (remove _ _) = ⊥
IsSteady _ = Unit

knows-Spec : (k : Call) (b : String) (d e : Desk) → IsSteady k → Spec k d e → knows e b ≡ knows d b
unfolding Spec IsSteady
knows-Spec (set_current a) b d e st (inl (r, same)) = ap is_some (same.0 b)
knows-Spec (set_current a) b d e st (inr (r, named, known, (cur, inl (is, w)))) =
    knows_same a b _ d e known w
knows-Spec (set_current a) b d e st (inr (r, named, known, (cur, inr (is, w)))) = ap is_some (w b)
knows-Spec (start a) b d e st (inl (is, w, cur)) = knows_same a b _ d e (λ x. cc (sym is ∙ x)) w
knows-Spec (start a) b d e st (inr (r, same)) = ap is_some (same.0 b)
knows-Spec (stop a) b d e st (inl (can, w, cur)) = knows_same a b _ d e can.0 w
knows-Spec (stop a) b d e st (inr (r, same)) = ap is_some (same.0 b)
knows-Spec previous b d e st r = knows-Rotated b d e r
knows-Spec next b d e st r = knows-Rotated b d e r
knows-Spec sync b d e st same = ap is_some (same.0 b)
knows-Spec (set w a v) b d e st same = ap is_some (same.0 b)
knows-Spec (add authorized us name) b d e st r = absurd st
knows-Spec (remove authorized a) b d e st r = absurd st
knows-Spec (session_changed a KsmServer.Status.stopped) b d e st (inl (r, same)) =
    ap is_some (same.0 b)
knows-Spec (session_changed a KsmServer.Status.stopped) b d e st (inr (known, w, cur)) =
    knows_same a b _ d e known w
knows-Spec (session_changed a KsmServer.Status.started) b d e st (inl (r, same)) =
    ap is_some (same.0 b)
knows-Spec (session_changed a KsmServer.Status.started) b d e st (inr (known, w, cur)) =
    knows_same a b _ d e known w
knows-Spec (session_changed a KsmServer.Status.failed_to_stop) b d e st (inl (r, same)) =
    ap is_some (same.0 b)
knows-Spec (session_changed a KsmServer.Status.failed_to_stop) b d e st (inr (known, w, cur)) =
    knows_same a b _ d e known w

module _ (c : Collation) (known : String → Bool) where
  -- one who knew `known` and has seen the signals knows exactly the activities there are
  abbrev pub IsAnnounced : Activities → Type 0
  IsAnnounced s = (b : String) → tracked s.emitted known b ≡ has_key s.activities b

  module _ (s : Activities) (h : IsConsistent s) (unnamed : has_key s.activities "" ≡ false)
      (told : IsAnnounced s) where
    steady-IsAnnounced :
        (k : Call)
        → IsSteady k
        → ((b : String) → IsQuiet c known b s (perform c k s))
        → IsAnnounced (perform c k s)
    steady-IsAnnounced k st quiet b =
        quiet b ∙ told b ∙ sym (knows-Spec k b (view s) _ st (perform-Spec c s h unnamed k))

    found-IsAnnounced :
        (us : List String) (n u : String)
        → fresh_uuid us s.activities ≡ some u
        → IsAnnounced (add_with_id c u n s)
    found-IsAnnounced us n u e b =
        let new = fresh_uuid-new us s.activities u e in
        let made : has_key (add_with_id c u n s).activities b ≡ (u == b || has_key s.activities b) =
          ap is_some (add_with_id_lem c u n s new.0 b).0 ∙ ground (arith) in
        tracked-add_with_id c known b u n s ∙ ap (λ x. u == b || x) (told b) ∙ sym made

    add-IsAnnounced :
        (us : List String) (n : String)
        → (o : Option String) → fresh_uuid us s.activities ≡ o
        → IsAnnounced (added s (add_activity c us n s))
    unfolding add_activity
    add-IsAnnounced us n none e = elim (Bool-cases (n == "")) [
      | inl blank ↦ rw blank told
      | inr named ↦ rw (named, e) told
    ]
    add-IsAnnounced us n (some u) e = elim (Bool-cases (n == "")) [
      | inl blank ↦ rw blank told
      | inr named ↦ rw (named, e) (found-IsAnnounced us n u e)
    ]

    remove-IsAnnounced : (a : String) → IsAnnounced (remove_activity c a s)
    remove-IsAnnounced a = elim (Bool-cases (has_key s.activities a)) [
      | inr k ↦ unfold remove_activity in rw k told
      | inl k ↦ elim (Bool-cases (length s.activities == 1)) [
        | inl one ↦ unfold remove_activity in rw (k, one) told
        | inr more ↦ λ b.
            let r = remove_activity-Removed c a s k more h unnamed in
            let is : remove_activity c a s ≡ remove_checked c a s =
              unfold remove_activity in rw (k, more) refl in
            ap (λ (t : Activities). tracked t.emitted known b) is
            ∙ tracked-remove_checked c known b a s
            ∙ ap (λ x. not (a == b) && x) (told b)
            ∙ sym (ap is_some (r.states_kept b) ∙ ground (arith))
      ]
    ]

    perform-IsAnnounced : (k : Call) → IsAnnounced (perform c k s)
    unfolding perform IsSteady
    perform-IsAnnounced (set_current a) =
        steady-IsAnnounced (set_current a) tt (λ b. set_current_activity-IsQuiet c known b a s)
    perform-IsAnnounced (start a) =
        steady-IsAnnounced (start a) tt (λ b. start_activity-IsQuiet c known b a s)
    perform-IsAnnounced (stop a) =
        steady-IsAnnounced (stop a) tt (λ b. stop_activity-IsQuiet c known b a s)
    perform-IsAnnounced previous =
        steady-IsAnnounced previous tt
          (λ b. unfold previous_activity in rotate_activity-IsQuiet c known b _ s)
    perform-IsAnnounced next =
        steady-IsAnnounced next tt
          (λ b. unfold next_activity in rotate_activity-IsQuiet c known b _ s)
    perform-IsAnnounced sync = steady-IsAnnounced sync tt (λ b. unfold config_sync in refl)
    perform-IsAnnounced (set w a v) =
        steady-IsAnnounced (set w a v) tt (λ b. set_attribute-IsQuiet c known b w a v s)
    perform-IsAnnounced (add authorized us n) =
        elim (Bool-cases (not (is_empty s.activities) && not authorized)) [
          | inl r ↦ unfold authorized_add in rw r told
          | inr ok ↦
              unfold authorized_add in
              rw ok (add-IsAnnounced us n (fresh_uuid us s.activities) refl)
        ]
    perform-IsAnnounced (remove false a) = unfold authorized_remove in told
    perform-IsAnnounced (remove true a) = unfold authorized_remove in remove-IsAnnounced a
    perform-IsAnnounced (session_changed a st) =
        steady-IsAnnounced (session_changed a st) tt (λ b. session-IsQuiet c known b a st s)

  -- Through every sequence of calls, the additions and removals that are announced are those that
  -- happen.
  pub run-IsAnnounced :
      (ks : List Call) (s : Activities)
      → IsConsistent s
      → has_key s.activities "" ≡ false
      → IsAnnounced s
      → IsAnnounced (run c ks s)
  unfolding run
  run-IsAnnounced [] s h n told = told
  run-IsAnnounced (k ∷ ks) s h n told =
      let t = perform c k s in
      let still = unnamed-Spec k (view s) (view t) (perform-Spec c s h n k) (no_state "" s n) in
      run-IsAnnounced ks t (perform-IsConsistent c k s h) (ground (arith, still))
        (perform-IsAnnounced s h n told k)
