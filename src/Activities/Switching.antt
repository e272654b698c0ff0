-- ===== src/Activities/Switching.antt =====
-- Changing the current activity: setCurrentActivity, nextActivity and previousActivity.
use kactivitymanagerd.Prelude.{
  ℕ, zero, suc, ◌<◌, String, true, false, some, List, [], ◌∷◌, ◌≡◌, refl, sym, arith, ◌==◌,
  string_eq, nat_eq, lookup, has_key, if◌then◌else◌, length, ==_iff, Distinct, ◌||◌, Bool-cases,
  inl, inr, contains, get_elem?,
}
use kactivitymanagerd.Activities.Data.{
  running, starting, state_eq, Activities, activity_state, ActivityInfo, State,
}
use kactivitymanagerd.Activities.Listing.{Collation, update_sorted_activity_list, ids_with}
use kactivitymanagerd.Activities.Operations.{
  set_activity_state, start_activity, set_current, switch_to, find_index,
}
use kactivitymanagerd.Activities.Cases.{start_activity_cases, set_current_cases}
use kactivitymanagerd.Activities.Sorting.{ids}
use kactivitymanagerd.Activities.Calls.{absent-ids_with}

module _ (c : Collation) where
  pub current-set_activity_state :
      (a : String) (st : State) (s : Activities)
      → (set_activity_state c a st s).current_activity ≡ s.current_activity
  unfolding set_activity_state update_sorted_activity_list
  current-set_activity_state a st s = ground arith

  pub current-start_activity :
      (a : String) (s : Activities) → (start_activity c a s).current_activity ≡ s.current_activity
  current-start_activity a s =
      start_activity_cases c (λ t. t.current_activity ≡ s.current_activity) a s refl
        (λ _ _. current-set_activity_state a starting s)

  pub current-switch_to : (a : String) (s : Activities) → (switch_to c a s).current_activity ≡ a
  unfolding switch_to
  current-switch_to a s = ground arith

  -- setCurrentActivity succeeds exactly for the current activity, for the empty id and for a known
  -- activity; then the given activity is the current one, and otherwise nothing changes.
  pub set_current-result :
      (a : String) (s : Activities)
      → ((set_current c a s).1 ≡ (s.current_activity == a || a == "" || has_key s.activities a))
        × ((set_current c a s).0.current_activity
            ≡ (if (set_current c a s).1 then a else s.current_activity))
        × ((set_current c a s).1 ≡ false → (set_current c a s).0 ≡ s)
  set_current-result a s =
      set_current_cases c
        (λ r.
          (r.1 ≡ (s.current_activity == a || a == "" || has_key s.activities a))
          × (r.0.current_activity ≡ (if r.1 then a else s.current_activity))
          × (r.1 ≡ false → r.0 ≡ s))
        a s (λ e. (ground (arith, ==_iff s.current_activity a), e, λ x. cc))
        (λ e. (ground (arith, ==_iff a ""), sym e, λ x. cc))
        (λ h e k. (ground arith, refl, λ _. refl))
        (λ h e k. (ground arith, current-switch_to a s, λ x. cc))

  -- An activity that is not stopped is not started.
  pub start_activity_running :
      (a : String) (s : Activities)
      → lookup a s.activities ≡ some running
      → start_activity c a s ≡ s
  unfolding start_activity activity_state
  start_activity_running a s h = ground arith

  -- Making a running activity current leaves the list and the states as they are.
  pub set_current_running :
      (a : String) (s : Activities)
      → lookup a s.activities ≡ some running
      → (a == "") ≡ false
      → ((set_current c a s).0.current_activity ≡ a)
        × ((set_current c a s).0.sorted_activities ≡ s.sorted_activities)
        × ((set_current c a s).0.activities ≡ s.activities)
  set_current_running a s e named =
      set_current_cases c
        (λ r.
          (r.0.current_activity ≡ a)
          × (r.0.sorted_activities ≡ s.sorted_activities)
          × (r.0.activities ≡ s.activities))
        a s (λ same. (same, refl, refl)) (λ h. ground (arith, ==_iff a "")) (λ _ _ k. ground arith)
        (λ _ _ _. (
          current-switch_to a s,
          unfold switch_to in ground (arith, start_activity_running a s e),
          unfold switch_to in ground (arith, start_activity_running a s e),
        ))

-- positions in a list without repetitions
pub find_index-get :
    (x : String) (l : List String) (i : ℕ)
    → find_index x l ≡ some i
    → (get_elem? l i ≡ some x) × (i < length l)
unfolding find_index
find_index-get x [] i h = cc
find_index-get x (y ∷ l) zero h = ground (arith, ==_iff y x)
find_index-get x (y ∷ l) (suc i) h = ground (arith, find_index-get x l i, ==_iff y x)

pub get-contains :
    (x : String) (l : List String) (i : ℕ) → get_elem? l i ≡ some x → contains l x ≡ true
unfolding contains
get-contains x [] i h = cc
get-contains x (y ∷ l) zero h = ground (arith, ==_iff y x)
get-contains x (y ∷ l) (suc i) h = ground (arith, get-contains x l i)

pub get-find_index :
    (x : String) (l : List String) (i : ℕ)
    → Distinct l
    → get_elem? l i ≡ some x
    → find_index x l ≡ some i
unfolding find_index
get-find_index x [] i d h = cc
get-find_index x (y ∷ l) zero d h = ground (arith, ==_iff y x)
get-find_index x (y ∷ l) (suc i) d h =
    ground (arith, get-find_index x l i d.1, ==_iff y x, get-contains x l i)

pub contains-find_index :
    (x : String) (l : List String) → contains l x ≡ true → (i : ℕ) × (find_index x l ≡ some i)
unfolding find_index contains
contains-find_index x [] h = cc
contains-find_index x (y ∷ l) h = elim (Bool-cases (y == x)) [
  | inl e ↦ (0, rw e)
  | inr e ↦ let r = contains-find_index x l (ground arith) in (suc r.0, rw (e, r.1))
]

pub get_in_range :
    (l : List String) (i : ℕ) → i < length l → (x : String) × (get_elem? l i ≡ some x)
get_in_range [] i h = absurd (omega arith)
get_in_range (x ∷ l) zero h = (x, refl)
get_in_range (x ∷ l) (suc i) h = get_in_range l i (omega arith)

pub Distinct-ids_with :
    (n : ℕ) (xs : List ActivityInfo) → Distinct (ids xs) → Distinct (ids_with n xs)
unfolding ids_with
Distinct-ids_with n [] d = tt
Distinct-ids_with n (x ∷ xs) d =
    ground (arith, absent-ids_with n x.id xs d.0, Distinct-ids_with n xs d.1)
