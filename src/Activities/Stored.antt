-- ===== src/Activities/Stored.antt =====
-- The configuration tells which activities are stopped, whatever is called.
use kactivitymanagerd.Prelude.{
  nat_beq, String, Bool, true, false, [], ◌∷◌, ◌≡◌, refl, ap, arith, ◌==◌, string_eq, nat_eq, Hash,
  lookup, insert, keys, has_key, contains, contains-append, lookup-insert, insert-Distinct,
  Distinct, ==_iff, Bool-cases, inl, inr, contains-keys,
}
use kactivitymanagerd.Activities.Data.{
  State, invalid, running, starting, stopped, stopping, state_eq, stopped_bit, Activities,
  keys_with, activity_state, emit, activity_state_changed,
}
use kactivitymanagerd.Activities.Listing.{Collation, update_sorted_activity_list}
use kactivitymanagerd.Activities.Operations.{
  schedule_config_sync, write_states, emit_state, set_activity_state, start_activity, stop_activity,
  switch_to, set_current, set_current_activity, ensure_current_activity_is_running, stop_refused,
}
use kactivitymanagerd.Activities.Cases.{
  start_activity_cases, stop_activity_cases, set_current_cases, ensure_cases,
}
use kactivitymanagerd.Activities.Calls.{is_in}
use kactivitymanagerd.Activities.Startup.{start_state}

-- Stopped and Stopping
abbrev pub is_stopped : State → Bool
is_stopped st = nat_beq (stopped_bit st) 4

pub contains-keys_with :
    (st : State) (a : String) (m : Hash String State)
    → Distinct (keys m)
    → contains (keys_with st m) a ≡ is_in (lookup a m) st
unfolding keys_with contains lookup
contains-keys_with st a [] d = refl
contains-keys_with st a ((b, v) ∷ m) d = ground (
  arith,
  contains-keys_with st a m d.1,
  contains-keys_with st b m d.1,
  contains-keys b m,
  ==_iff b a,
  state_eq.beq_iff v st,
)

-- The lists of the configuration agree with the states of the known activities, and the group
-- `activities` has the names of exactly these; a new activity may be `exempt` from the latter.
pub record IsStored (exempt : String → Bool) (s : Activities) : Type 0 where
  pub distinct : Distinct (keys s.activities)
  pub agrees :
      (a : String)
      → has_key s.activities a ≡ true
      → is_stopped (start_state s.config a) ≡ is_stopped (activity_state a s)
  pub named : (a : String) → exempt a ≡ false → has_key s.activities a ≡ has_key s.config.names a

start_state-write_states :
    (s : Activities) (a : String)
    → Distinct (keys s.activities)
    → is_stopped (start_state (write_states s).config a) ≡ is_stopped (activity_state a s)
unfolding start_state write_states activity_state
start_state-write_states s a d =
    let m = s.activities in
    ground (
      arith,
      contains-append (keys_with running m) (keys_with starting m) a,
      contains-append (keys_with stopped m) (keys_with stopping m) a,
      contains-keys_with running a m d,
      contains-keys_with starting a m d,
      contains-keys_with stopped a m d,
      contains-keys_with stopping a m d,
    )

emit_state-same :
    (a : String) (st : State) (s : Activities)
    → ((emit_state a st s).activities ≡ s.activities) × ((emit_state a st s).config ≡ s.config)
unfolding emit_state
emit_state-same a invalid s = (refl, refl)
emit_state-same a running s = (refl, refl)
emit_state-same a starting s = (refl, refl)
emit_state-same a stopped s = (refl, refl)
emit_state-same a stopping s = (refl, refl)

module _ (x : String → Bool) where
  -- a step that leaves the states, the names and the two lists alone
  pub same-IsStored :
      {s t : Activities}
      → t.activities ≡ s.activities
      → t.config.names ≡ s.config.names
      → t.config.running_activities ≡ s.config.running_activities
      → t.config.stopped_activities ≡ s.config.stopped_activities
      → IsStored x s
      → IsStored x t
  unfolding start_state activity_state
  same-IsStored {s} {t} e n f g h = record {
    distinct = rw e h.distinct;
    agrees = λ a k. rw (e, f, g) (h.agrees a (rw e at k));
    named = λ a k. rw (e, n) (h.named a k);
  }

  write_states-IsStored :
      (s : Activities)
      → Distinct (keys s.activities)
      → ((a : String) → x a ≡ false → has_key s.activities a ≡ has_key s.config.names a)
      → IsStored x (write_states s)
  unfolding write_states activity_state
  write_states-IsStored s d n = record {
    distinct = d;
    agrees = λ a k. start_state-write_states s a d;
    named = n;
  }

  pub schedule-IsStored : (s : Activities) → IsStored x s → IsStored x (schedule_config_sync s)
  unfolding schedule_config_sync
  schedule-IsStored s = same-IsStored (ground arith) (ground arith) (ground arith) (ground arith)

  inserted-named :
      (a : String) (st : State) (s : Activities)
      → has_key s.activities a ≡ true
      → IsStored x s
      → (b : String) → x b ≡ false
      → has_key (insert a st s.activities) b ≡ has_key s.config.names b
  inserted-named a st s k h b e =
      ground (arith, lookup-insert a b st s.activities, ==_iff a b, h.named b e)

  inserted-IsStored :
      (a : String) (st : State) (s : Activities)
      → is_stopped (activity_state a s) ≡ is_stopped st
      → has_key s.activities a ≡ true
      → IsStored x s
      → IsStored x (record s { activities = insert a st s.activities })
  unfolding activity_state
  inserted-IsStored a st s e k h = record {
    distinct = insert-Distinct a st s.activities h.distinct;
    agrees = λ b kb.
        ground (arith, lookup-insert a b st s.activities, ==_iff a b, h.agrees b, h.agrees a k);
    named = inserted-named a st s k h;
  }

stop_allowed-known :
    (a : String) (s : Activities) → stop_refused a s ≡ false → has_key s.activities a ≡ true
unfolding stop_refused
stop_allowed-known a s e = ground arith

module _ (c : Collation) (x : String → Bool) where
  pub sorted-IsStored :
      (s : Activities) → IsStored x s → IsStored x (update_sorted_activity_list c s)
  unfolding update_sorted_activity_list
  sorted-IsStored s = same-IsStored x refl refl refl refl

  pub set_activity_state-IsStored :
      (a : String) (st : State) (s : Activities)
      → has_key s.activities a ≡ true
      → IsStored x s
      → IsStored x (set_activity_state c a st s)
  unfolding set_activity_state
  set_activity_state-IsStored a st s k h =
      let s1 : Activities = record s { activities = insert a st s.activities } in
      let s2 : Activities = emit (activity_state_changed a st) (emit_state a st s1) in
      let same = emit_state-same a st s1 in
      elim (Bool-cases (activity_state a s == st)) [
        | inl e ↦ rw e h
        | inr e ↦ elim (Bool-cases (stopped_bit (activity_state a s) == stopped_bit st)) [
          | inl kept ↦
              rw (e, kept)
                (sorted-IsStored s2 (
                  same-IsStored x same.0 (ap (λ k. k.names) same.1)
                    (ap (λ k. k.running_activities) same.1) (ap (λ k. k.stopped_activities) same.1)
                    (inserted-IsStored x a st s (ap (λ n. nat_beq n 4) ((==_iff _ _).0 kept)) k h)))
          | inr changed ↦
              rw (e, changed)
                (sorted-IsStored _ (
                  schedule-IsStored x _ (
                    write_states-IsStored x s2
                      (rw same.0 (insert-Distinct a st s.activities h.distinct))
                      (rw (same.0, same.1) (inserted-named x a st s k h)))))
        ]
      ]

  pub start_activity-IsStored :
      (a : String) (s : Activities) → IsStored x s → IsStored x (start_activity c a s)
  start_activity-IsStored a s h =
      start_activity_cases c (IsStored x) a s h
        (λ _ k. same-IsStored x refl refl refl refl (set_activity_state-IsStored a starting s k h))

  pub stop_activity-IsStored :
      (a : String) (s : Activities) → IsStored x s → IsStored x (stop_activity c a s)
  stop_activity-IsStored a s h = stop_activity_cases c (IsStored x) a s h (λ allowed.
      same-IsStored x refl refl refl refl
        (set_activity_state-IsStored a stopping s (stop_allowed-known a s allowed) h))

  switch_to-IsStored : (a : String) (s : Activities) → IsStored x s → IsStored x (switch_to c a s)
  switch_to-IsStored a s h =
      unfold switch_to in
      same-IsStored x refl refl refl refl (
        schedule-IsStored x _ (same-IsStored x refl refl refl refl (start_activity-IsStored a s h)))

  pub set_current-IsStored :
      (a : String) (s : Activities) → IsStored x s → IsStored x (set_current c a s).0
  set_current-IsStored a s h =
      set_current_cases c (λ r. IsStored x r.0) a s (λ _. h)
        (λ _. same-IsStored x refl refl refl refl h) (λ _ _ _. h)
        (λ _ _ _. switch_to-IsStored a s h)

  pub set_current_activity-IsStored :
      (a : String) (s : Activities) → IsStored x s → IsStored x (set_current_activity c a s).0
  set_current_activity-IsStored a s h = elim (Bool-cases (a == "")) [
    | inl e ↦ unfold set_current_activity in rw e h
    | inr e ↦ unfold set_current_activity in rw e (set_current-IsStored a s h)
  ]

  pub ensure-IsStored :
      (s : Activities) → IsStored x s → IsStored x (ensure_current_activity_is_running c s)
  ensure-IsStored s h =
      ensure_cases c (IsStored x) s (λ _. h) (λ _. h)
        (λ first _ _ _. set_current-IsStored first s h)
