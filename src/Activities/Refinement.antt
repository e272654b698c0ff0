-- ===== src/Activities/Refinement.antt =====
-- Every sequence of calls of Activities (src/service/Activities.cpp) is one that is promised.
use kactivitymanagerd.Prelude.{
  String, false, Option, none, List, [], ◌∷◌, ◌≡◌, ◌≢◌, ◌⊎◌, refl, sym, ap, ◌∙◌, arith, ◌==◌,
  string_eq, has_key, ==_iff, Bool-cases, inl, inr,
}
use kactivitymanagerd.KsmServer
use kactivitymanagerd.Activities.Data.{State, Activities}
use kactivitymanagerd.Activities.Listing.{Collation}
use kactivitymanagerd.Activities.Operations.{
  set_attribute, schedule_config_sync, config_sync, next_activity, previous_activity,
}
use kactivitymanagerd.Activities.Consistency.{IsConsistent}
use kactivitymanagerd.Activities.Calls.{
  Call, set_current, start, stop, previous, next, sync, set, add, remove, session_changed, perform,
  run, perform-IsConsistent,
}
use kactivitymanagerd.Activities.Rotation.{mod_step, mod_back}
use kactivitymanagerd.Activities.Lifecycle.{Desk, view, StatesWith, Rotated, Spec}
use kactivitymanagerd.Activities.Conforming.{
  Same-view, no_state, start-Spec, stop-Spec, set_current-Spec, rotate-Rotated,
}
use kactivitymanagerd.Activities.Changing.{add-Spec, remove-Spec, session-Spec}

-- a sequence of calls as it is promised, with the desk between any two of them
unfoldable pub Follows : List Call → Desk → Desk → Type 0
Follows [] d e = ((b : String) → e.state_of b ≡ d.state_of b) × (e.current ≡ d.current)
Follows (k ∷ ks) d e = (m : Desk) × Spec k d m × Follows ks m e

module _ (c : Collation) (s : Activities) (h : IsConsistent s)
    (unnamed : has_key s.activities "" ≡ false) where
  pub perform-Spec : (k : Call) → Spec k (view s) (view (perform c k s))
  unfolding perform
  perform-Spec (set_current a) = set_current-Spec c s a
  perform-Spec (start a) = start-Spec c s a
  perform-Spec (stop a) = stop-Spec c s a h
  perform-Spec previous =
      unfold previous_activity Spec in rotate-Rotated c s h unnamed _ (λ n i l. (mod_back n i l).0)
  perform-Spec next =
      unfold next_activity Spec in rotate-Rotated c s h unnamed _ (λ n i l. (mod_step n i l).0)
  perform-Spec sync = unfold config_sync Spec in Same-view s (config_sync s) refl refl
  perform-Spec (set w a v) =
      unfold set_attribute schedule_config_sync Spec in
      Same-view s (set_attribute w a v s) (ground arith) (ground arith)
  perform-Spec (add authorized us n) = add-Spec c s h unnamed authorized us n
  perform-Spec (remove authorized a) = remove-Spec c s h unnamed authorized a
  perform-Spec (session_changed a st) = session-Spec c s h unnamed a st

-- a call does not bring up the empty id
blank_other :
    (a : String) (o : Option State) (d e : Desk)
    → StatesWith a o d e
    → (d.state_of a ≢ none) ⊎ (a ≢ "")
    → d.state_of "" ≡ none
    → e.state_of "" ≡ none
blank_other a o d e w h n = elim (Bool-cases (a == "")) [
  | inl is ↦ absurd (blank h ((==_iff a "").0 is))
  | inr is_not ↦ w "" ∙ rw is_not n
]
  where
    blank : (d.state_of a ≢ none) ⊎ (a ≢ "") → a ≡ "" → ⊥
    blank (inl known) x = known (ap d.state_of x ∙ n)
    blank (inr named) x = named x

unnamed-Rotated : (d e : Desk) → Rotated d e → d.state_of "" ≡ none → e.state_of "" ≡ none
unnamed-Rotated d e (inl (r, same)) n = same.0 "" ∙ n
unnamed-Rotated d e (inr (r, q, states)) n = states "" ∙ n

pub unnamed-Spec :
    (k : Call) (d e : Desk) → Spec k d e → d.state_of "" ≡ none → e.state_of "" ≡ none
unfolding Spec
unnamed-Spec (set_current a) d e (inl (r, same)) n = same.0 "" ∙ n
unnamed-Spec (set_current a) d e (inr (r, named, known, (cur, inl (is, w)))) n =
    blank_other a _ d e w (inr named) n
unnamed-Spec (set_current a) d e (inr (r, named, known, (cur, inr (is, w)))) n = w "" ∙ n
unnamed-Spec (start a) d e (inl (is, w, cur)) n =
    blank_other a _ d e w (inl (λ x. cc (sym is ∙ x))) n
unnamed-Spec (start a) d e (inr (r, same)) n = same.0 "" ∙ n
unnamed-Spec (stop a) d e (inl (can, w, cur)) n = blank_other a _ d e w (inl can.0) n
unnamed-Spec (stop a) d e (inr (r, same)) n = same.0 "" ∙ n
unnamed-Spec previous d e r n = unnamed-Rotated d e r n
unnamed-Spec next d e r n = unnamed-Rotated d e r n
unnamed-Spec sync d e same n = same.0 "" ∙ n
unnamed-Spec (set w a v) d e same n = same.0 "" ∙ n
unnamed-Spec (add authorized us name) d e (inl (r, same)) n = same.0 "" ∙ n
unnamed-Spec (add authorized us name) d e (inr (called, may, u, k, named, new, w, cur)) n =
    blank_other u _ d e w (inr named) n
unnamed-Spec (remove authorized a) d e (inl (r, same)) n = same.0 "" ∙ n
unnamed-Spec (remove authorized a) d e (inr (may, known, b, other, apart, w, cur)) n =
    blank_other a _ d e w (inl known) n
unnamed-Spec (session_changed a KsmServer.Status.stopped) d e (inl (r, same)) n = same.0 "" ∙ n
unnamed-Spec (session_changed a KsmServer.Status.stopped) d e (inr (known, w, cur)) n =
    blank_other a _ d e w (inl known) n
unnamed-Spec (session_changed a KsmServer.Status.started) d e (inl (r, same)) n = same.0 "" ∙ n
unnamed-Spec (session_changed a KsmServer.Status.started) d e (inr (known, w, cur)) n =
    blank_other a _ d e w (inl known) n
unnamed-Spec (session_changed a KsmServer.Status.failed_to_stop) d e (inl (r, same)) n =
    same.0 "" ∙ n
unnamed-Spec (session_changed a KsmServer.Status.failed_to_stop) d e (inr (known, w, cur)) n =
    blank_other a _ d e w (inl known) n

-- From a consistent state without an activity of the empty id, every sequence of calls does to the
-- states of the activities and to the current one what `Spec` promises of each call: which activity
-- may be started and stopped, and when one is added and removed, authorization included; that the
-- call changes nothing in the other cases; that a rotation goes from a running activity
-- to a running one; that a new activity has a new id; and that a current activity that was removed or
-- has stopped gives way to a running one if there is any.
pub run-Follows :
    (c : Collation) (ks : List Call) (s : Activities)
    → IsConsistent s
    → has_key s.activities "" ≡ false
    → Follows ks (view s) (view (run c ks s))
unfolding Follows run
run-Follows c [] s h n = (λ b. refl, refl)
run-Follows c (k ∷ ks) s h n =
    let t = perform c k s in
    let step = perform-Spec c s h n k in
    let still = unnamed-Spec k (view s) (view t) step (no_state "" s n) in
    (view t, step, run-Follows c ks t (perform-IsConsistent c k s h) (ground (arith, still)))
