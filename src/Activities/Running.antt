-- ===== src/Activities/Running.antt =====
-- The number of running activities: what keeps one of them running, and what does not.
use kactivitymanagerd.Prelude.{
  ℕ, ◌+◌, ◌≤◌, String, Bool, true, false, some, [], ◌∷◌, ◌≡◌, arith, ◌==◌, string_eq, nat_eq, Hash,
  lookup, insert, has_key, if◌then◌else◌, length, or_default, ==_iff, lookup-insert,
}
use kactivitymanagerd.Activities.Data.{
  State, invalid, running, stopping, state_eq, Activities, activity_state, keys_with,
}
use kactivitymanagerd.Activities.Listing.{Collation, update_sorted_activity_list}
use kactivitymanagerd.Activities.Operations.{set_activity_state, stop_activity, stop_refused}
use kactivitymanagerd.Activities.Cases.{stop_activity_cases}
use kactivitymanagerd.Activities.Calls.{is_in}

abbrev pub count_in : State → Hash String State → ℕ
count_in st m = length (keys_with st m)

abbrev pub one_if : Bool → ℕ
one_if true = 1
one_if false = 0

pub count_in-insert :
    (st v : State) (a : String) (m : Hash String State)
    → count_in st (insert a v m) + one_if (is_in (lookup a m) st) ≡ count_in st m + one_if (v == st)
unfolding keys_with insert lookup
count_in-insert st v a [] = ground arith
count_in-insert st v a ((b, w) ∷ m) = ground (arith, count_in-insert st v a m)

module _ (c : Collation) where
  -- setActivityState writes the one state and no other; the rest of the state machine sees only this.
  pub activities-set_activity_state :
      (a b : String) (st : State) (s : Activities)
      → has_key s.activities a ≡ true
      → lookup b (set_activity_state c a st s).activities
        ≡ (if a == b then some st else lookup b s.activities)
  unfolding set_activity_state activity_state update_sorted_activity_list
  activities-set_activity_state a b st s h = ground (
    arith,
    lookup-insert a b st s.activities,
    ==_iff a b,
    state_eq.beq_iff (or_default (lookup a s.activities) invalid) st,
  )

  running-set_activity_state :
      (a : String) (st : State) (s : Activities)
      → count_in running s.activities
        ≤ count_in running (set_activity_state c a st s).activities + 1
  unfolding set_activity_state update_sorted_activity_list
  running-set_activity_state a st s = ground (arith, count_in-insert running st a s.activities)

  -- StopActivity never stops the last running activity.
  pub stop_activity_keeps_one :
      (a : String) (s : Activities)
      → 1 ≤ count_in running s.activities
      → 1 ≤ count_in running (stop_activity c a s).activities
  unfolding stop_refused
  stop_activity_keeps_one a s h =
      stop_activity_cases c (λ t. 1 ≤ count_in running t.activities) a s h
        (λ allowed. ground (arith, running-set_activity_state a stopping s))
