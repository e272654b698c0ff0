-- ===== src/Activities/Counting.antt =====
-- The number of running activities and the two that a stop needs.
use kactivitymanagerd.Prelude.{
  ◌≤◌, String, true, false, Option, some, none, or_default, ap, ◌∙◌, List, [], ◌∷◌, ◌≡◌, sym, arith,
  ◌==◌, string_eq, nat_eq, Hash, lookup, keys, length, contains, Distinct, ==_iff, contains-keys,
}
use kactivitymanagerd.Activities.Data.{
  State, invalid, running, stopped, state_eq, Activities, activity_state, keys_with,
}
use kactivitymanagerd.Activities.Operations.{stop_refused}
use kactivitymanagerd.Activities.Running.{count_in}
use kactivitymanagerd.Activities.Restart.{count_in-lookup}
use kactivitymanagerd.Activities.Stored.{contains-keys_with}
use kactivitymanagerd.Activities.Calls.{is_in}
use kactivitymanagerd.Activities.Lifecycle.{view, IsStoppable}

count_in-two :
    (st : State) (a b : String) (m : Hash String State)
    → (a == b) ≡ false
    → lookup a m ≡ some st
    → lookup b m ≡ some st
    → 2 ≤ count_in st m
unfolding lookup keys_with
count_in-two st a b [] d p q = cc
count_in-two st a b ((j, v) ∷ m) d p q = ground (
  arith,
  count_in-two st a b m d,
  count_in-lookup st a m,
  count_in-lookup st b m,
  state_eq.beq_iff v st,
  ==_iff j a,
  ==_iff j b,
  ==_iff a b,
)

count_in-le-length : (st : State) (m : Hash String State) → count_in st m ≤ length m
unfolding keys_with
count_in-le-length st [] = ground arith
count_in-le-length st ((j, v) ∷ m) = ground (arith, count_in-le-length st m)

Distinct-keys_with :
    (st : State) (m : Hash String State) → Distinct (keys m) → Distinct (keys_with st m)
unfolding keys_with contains
Distinct-keys_with st [] d = tt
Distinct-keys_with st ((j, v) ∷ m) d =
    ground (arith, Distinct-keys_with st m d.1, contains-keys_with st j m d.1, contains-keys j m)

-- two entries of a list without repetitions
two_first :
    (l : List String)
    → Distinct l
    → 2 ≤ length l
    → (a : String) × (b : String) × ((a == b) ≡ false)
      × (contains l a ≡ true)
      × (contains l b ≡ true)
unfolding contains
two_first [] d h = absurd (ground arith)
two_first (x ∷ []) d h = absurd (ground arith)
two_first (x ∷ y ∷ l) d h = (
  x,
  y,
  ground (arith, d.0, ==_iff x y, ==_iff y x),
  ground (arith, ==_iff x x),
  ground (arith, ==_iff y y),
)

is_in-some : (o : Option State) (st : State) → is_in o st ≡ true → o ≡ some st
is_in-some none st h = cc
is_in-some (some v) st h = ap some ((state_eq.beq_iff v st).0 h)

in_state :
    (st : State) (a : String) (m : Hash String State)
    → Distinct (keys m)
    → contains (keys_with st m) a ≡ true
    → lookup a m ≡ some st
in_state st a m d h = is_in-some (lookup a m) st (sym (contains-keys_with st a m d) ∙ h)

pub stoppable :
    (a : String) (s : Activities)
    → Distinct (keys s.activities)
    → stop_refused a s ≡ false
    → IsStoppable (view s) a
unfolding stop_refused activity_state
stoppable a s d h =
    let two =
      two_first (keys_with running s.activities) (Distinct-keys_with running s.activities d)
        (ground (arith, h)) in
    (
      λ e. ground (arith, e, h),
      λ e. ground (arith, e, h),
      two.0,
      two.1,
      two.2,
      in_state running two.0 s.activities d two.3,
      in_state running two.1 s.activities d two.4,
    )

pub refused-not_stoppable :
    (a : String) (s : Activities) → stop_refused a s ≡ true → IsStoppable (view s) a → ⊥
unfolding stop_refused activity_state
refused-not_stoppable a s h p = ground (
  arith,
  h,
  p.0,
  p.1,
  state_eq.beq_iff (or_default (lookup a s.activities) invalid) stopped,
  count_in-two running p.2 p.3 s.activities p.4 p.5 p.6,
  count_in-le-length running s.activities,
)
