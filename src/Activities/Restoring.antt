-- ===== src/Activities/Restoring.antt =====
-- A restart brings back the activities that the calls before it left.
use kactivitymanagerd.Prelude.{
  ℕ, String, Bool, true, false, not, ◌&&◌, Option, none, some, List, [], ◌∷◌, ◌≡◌, refl, sym, ap,
  ◌∙◌, arith, ◌==◌, string_eq, nat_eq, lookup, keys, has_key, contains, is_empty, Hash,
  if◌then◌else◌, ==_iff, Bool-cases, inl, inr, contains-keys,
}
use kactivitymanagerd.Activities.Data.{
  State, running, stopped, state_eq, Config, Activities, activity_state,
}
use kactivitymanagerd.Activities.Listing.{Collation}
use kactivitymanagerd.Activities.Operations.{
  fresh_uuid, add_activity, add_with_id, authorized_add, authorized_remove, config_sync,
  previous_activity, next_activity, rotate_activity,
}
use kactivitymanagerd.Activities.Cases.{rotate_cases}
use kactivitymanagerd.Activities.Calls.{
  Call, set_current, start, stop, previous, next, sync, set, add, remove, session_changed, perform,
  run, added,
}
use kactivitymanagerd.Activities.Startup
use kactivitymanagerd.Activities.Startup.{start_state, any_running}
use kactivitymanagerd.Activities.Restart.{lookup-start}
use kactivitymanagerd.Activities.Stored.{
  IsStored, is_stopped, same-IsStored, start_activity-IsStored, stop_activity-IsStored,
  set_current-IsStored, set_current_activity-IsStored,
}
use kactivitymanagerd.Activities.Returning.{
  nobody, reads_stopped, set_attribute-IsStored, add_with_id-IsStored, remove_activity-IsStored,
  session-IsStored,
}

-- The uuids that AddActivity may take do not stand in the list of stopped activities, where the
-- removed ones stay until the list is written again.
abbrev pub NoReuse : Call → Activities → Type 0
NoReuse (add authorized uuids n) s =
    (u : String) → contains uuids u ≡ true → reads_stopped s.config u ≡ false
NoReuse (set_current a) s = Unit {0}
NoReuse (start a) s = Unit {0}
NoReuse (stop a) s = Unit {0}
NoReuse previous s = Unit {0}
NoReuse next s = Unit {0}
NoReuse sync s = Unit {0}
NoReuse (set w a v) s = Unit {0}
NoReuse (remove authorized a) s = Unit {0}
NoReuse (session_changed a st) s = Unit {0}

pub contains-fresh_uuid :
    (us : List String) (m : Hash String State) (u : String)
    → fresh_uuid us m ≡ some u
    → contains us u ≡ true
unfolding fresh_uuid contains
contains-fresh_uuid [] m u h = cc
contains-fresh_uuid (v ∷ us) m u h = ground (arith, contains-fresh_uuid us m u, ==_iff v u)

module _ (c : Collation) where
  abbrev pub NoReuseAll : List Call → Activities → Type 0
  NoReuseAll [] s = Unit {0}
  NoReuseAll (k ∷ ks) s = NoReuse k s × NoReuseAll ks (perform c k s)

  add-IsStored :
      (us : List String) (n : String) (s : Activities)
      → ((u : String) → contains us u ≡ true → reads_stopped s.config u ≡ false)
      → IsStored nobody s
      → IsStored nobody (added s (add_activity c us n s))
  add-IsStored us n s f h = elim (Bool-cases (n == "")) [
    | inl e ↦ unfold add_activity in rw e h
    | inr e ↦ unfold add_activity in rw e (go e (fresh_uuid us s.activities) refl)
  ]
    where
      go :
          (n == "") ≡ false
          → (o : Option String) → fresh_uuid us s.activities ≡ o
          → IsStored nobody (
              added s (elim (fresh_uuid us s.activities) [
                | none ↦ none
                | some a ↦ some (add_with_id c a n s, a)
              ]))
      go e none k = rw k h
      go e (some u) k =
          rw k (add_with_id-IsStored c u n s e (f u (contains-fresh_uuid us s.activities u k)) h)

  rotate-IsStored :
      (target : ℕ → ℕ → ℕ) (s : Activities)
      → IsStored nobody s
      → IsStored nobody (rotate_activity c target s).0
  rotate-IsStored target s h =
      rotate_cases c (λ r. IsStored nobody r.0) target s h
        (λ a. set_current-IsStored c nobody a s h)

  perform-IsStored :
      (k : Call) (s : Activities)
      → NoReuse k s
      → IsStored nobody s
      → IsStored nobody (perform c k s)
  unfolding perform
  perform-IsStored (set_current a) s f h = set_current_activity-IsStored c nobody a s h
  perform-IsStored (start a) s f h = start_activity-IsStored c nobody a s h
  perform-IsStored (stop a) s f h = stop_activity-IsStored c nobody a s h
  perform-IsStored previous s f h = unfold previous_activity in rotate-IsStored _ s h
  perform-IsStored next s f h = unfold next_activity in rotate-IsStored _ s h
  perform-IsStored sync s f h = unfold config_sync in same-IsStored nobody refl refl refl refl h
  perform-IsStored (set w a v) s f h = set_attribute-IsStored w a v s h
  perform-IsStored (add authorized uuids n) s f h =
      elim (Bool-cases (not (is_empty s.activities) && not authorized)) [
        | inl refused ↦ unfold authorized_add in rw refused h
        | inr ok ↦ unfold authorized_add in rw ok (add-IsStored uuids n s f h)
      ]
  perform-IsStored (remove true a) s f h =
      unfold authorized_remove in remove_activity-IsStored c a s h
  perform-IsStored (remove false a) s f h = unfold authorized_remove in h
  perform-IsStored (session_changed a st) s f h = session-IsStored c a st s h

  run-IsStored :
      (ks : List Call) (s : Activities)
      → NoReuseAll ks s
      → IsStored nobody s
      → IsStored nobody (run c ks s)
  unfolding run
  run-IsStored [] s f h = h
  run-IsStored (k ∷ ks) s f h = run-IsStored ks (perform c k s) f.1 (perform-IsStored k s f.0 h)

start_state-values :
    (c : Config) (a : String)
    → start_state c a ≡ (if is_stopped (start_state c a) then stopped else running)
unfolding start_state
start_state-values c a = ground arith

any_running-contains :
    (c : Config) (a : String) (xs : List String)
    → is_stopped (start_state c a) ≡ false
    → contains xs a ≡ true
    → any_running c xs ≡ true
unfolding any_running contains
any_running-contains c a [] h k = cc
any_running-contains c a (x ∷ xs) h k = ground (
  arith,
  any_running-contains c a xs,
  start_state-values c a,
  ==_iff x a,
  state_eq.beq_iff (start_state c x) running,
)

start-IsStored :
    (defaults : List String) (s : Activities) (b : String)
    → IsStored nobody s
    → has_key s.activities b ≡ true
    → is_stopped (activity_state b s) ≡ false
    → (a : String)
    → lookup a (Startup.start defaults s.config).activities ≡ (
        if has_key s.activities a
        then some (if is_stopped (activity_state a s) then stopped else running)
        else none)
start-IsStored defaults s b h k awake a =
    let one : any_running s.config (keys s.config.names) ≡ true =
      any_running-contains s.config b (keys s.config.names) (h.agrees b k ∙ awake)
        (contains-keys b s.config.names ∙ sym (h.named b refl) ∙ k) in
    elim (Bool-cases (has_key s.activities a)) [
      | inl known ↦
          rw (lookup-start defaults s.config a, ← h.named a refl, known, one)
            (ap some (
              start_state-values s.config a
              ∙ ap (λ (v : Bool). if v then stopped else running) (h.agrees a known)))
      | inr unknown ↦ rw (lookup-start defaults s.config a, ← h.named a refl, unknown) refl
    ]

module _ (c : Collation) (ks : List Call) (s : Activities) (defaults : List String) where
  -- After any calls from a state that its configuration describes (the names of exactly the known
  -- activities, and in its lists which of them are stopped), with new uuids that the list of stopped
  -- activities does not hold, the configuration that configSync saves starts a service with exactly
  -- the activities of the old one: stopped those that were stopped or stopping, and running the
  -- others, provided that there was one of the others.
  pub restart_states :
      (b : String)
      → IsStored nobody s
      → NoReuseAll c ks s
      → has_key (run c ks s).activities b ≡ true
      → is_stopped (activity_state b (run c ks s)) ≡ false
      → (a : String)
      → lookup a (Startup.start defaults (config_sync (run c ks s)).saved).activities ≡ (
          if has_key (run c ks s).activities a
          then some (if is_stopped (activity_state a (run c ks s)) then stopped else running)
          else none)
  unfolding config_sync
  restart_states b h f k awake a =
      start-IsStored defaults (run c ks s) b (run-IsStored c ks s f h) k awake a
