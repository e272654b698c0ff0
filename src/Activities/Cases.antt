-- ===== src/Activities/Cases.antt =====
-- The branches of the methods, as rules for proofs about what they return.
use kactivitymanagerd.Prelude.{
  ℕ, String, Bool, true, false, not, ◌||◌, Option, none, some, List, [], ◌∷◌, ◌≡◌, refl, arith,
  ◌==◌, string_eq, nat_eq, has_key, contains, inl, inr, Bool-cases, head?, length,
}
use kactivitymanagerd.Activities.Data.{
  running, starting, stopped, stopping, code, state_eq, Activities, activity_state, emit,
  current_activity_changed,
}
use kactivitymanagerd.Activities.Listing.{Collation, list_activities_in}
use kactivitymanagerd.Activities.Operations.{
  set_activity_state, start_activity, stop_activity, stop_refused, switch_to, set_current,
  rotate_activity, switch_from, ensure_current_activity_is_running, remove_checked, remove_activity,
  find_index,
}

module _ {ℓ} (c : Collation) (P : Activities → Type ℓ) (a : String) (s : Activities) where
  pub start_activity_cases :
      P s
      → (activity_state a s ≡ stopped
          → has_key s.activities a ≡ true
          → P (record (set_activity_state c a starting s) {
            session_calls = (a, true) ∷ (set_activity_state c a starting s).session_calls;
          }))
      → P (start_activity c a s)
  start_activity_cases refused ready =
      elim (Bool-cases (not (has_key s.activities a) || not (activity_state a s == stopped))) [
        | inl h ↦ unfold start_activity in rw h refused
        | inr h ↦ unfold start_activity in rw h (ready (ground arith) (ground arith))
      ]

  pub stop_activity_cases :
      P s
      → (stop_refused a s ≡ false
          → P (record (set_activity_state c a stopping s) {
            session_calls = (a, false) ∷ (set_activity_state c a stopping s).session_calls;
          }))
      → P (stop_activity c a s)
  stop_activity_cases refused ready = elim (Bool-cases (stop_refused a s)) [
    | inl h ↦ unfold stop_activity in rw h refused
    | inr h ↦ unfold stop_activity in rw h (ready h)
  ]

  pub remove_activity_cases :
      P s
      → (has_key s.activities a ≡ true
          → (length s.activities == 1) ≡ false
          → P (remove_checked c a s))
      → P (remove_activity c a s)
  remove_activity_cases refused ready = elim (Bool-cases (has_key s.activities a)) [
    | inr h ↦ unfold remove_activity in rw h refused
    | inl h ↦ elim (Bool-cases (length s.activities == 1)) [
      | inl one ↦ unfold remove_activity in rw (h, one) refused
      | inr more ↦ unfold remove_activity in rw (h, more) (ready h more)
    ]
  ]

module _ {ℓ} (c : Collation) (P : Activities × Bool → Type ℓ) (a : String) (s : Activities) where
  pub set_current_cases :
      (s.current_activity ≡ a → P (s, true))
      → (a ≡ "" → P (emit (current_activity_changed "") (record s { current_activity = "" }), true))
      → ((s.current_activity == a) ≡ false
          → (a == "") ≡ false
          → has_key s.activities a ≡ false
          → P (s, false))
      → ((s.current_activity == a) ≡ false
          → (a == "") ≡ false
          → has_key s.activities a ≡ true
          → P (switch_to c a s, true))
      → P (set_current c a s)
  set_current_cases same limbo unknown switch = elim (Bool-cases (s.current_activity == a)) [
    | inl h ↦ unfold set_current in rw h (same ((string_eq.beq_iff s.current_activity a).0 h))
    | inr h ↦ elim (Bool-cases (a == "")) [
      | inl e ↦ unfold set_current in rw (h, e) (limbo ((string_eq.beq_iff a "").0 e))
      | inr e ↦ elim (Bool-cases (has_key s.activities a)) [
        | inl k ↦ unfold set_current in rw (h, e, k) (switch h e k)
        | inr k ↦ unfold set_current in rw (h, e, k) (unknown h e k)
      ]
    ]
  ]

module _ {ℓ} (c : Collation) (P : Activities → Type ℓ) (s : Activities) where
  pub ensure_cases :
      (contains (list_activities_in (code running) s) s.current_activity ≡ true → P s)
      → (list_activities_in (code running) s ≡ [] → P s)
      → ((first : String) (rest : List String)
          → contains (list_activities_in (code running) s) s.current_activity ≡ false
          → list_activities_in (code running) s ≡ first ∷ rest
          → P (set_current c first s).0)
      → P (ensure_current_activity_is_running c s)
  ensure_cases found empty_list other =
      elim (Bool-cases (contains (list_activities_in (code running) s) s.current_activity)) [
        | inl h ↦ unfold ensure_current_activity_is_running in rw h (found h)
        | inr h ↦ unfold ensure_current_activity_is_running in rw h (go _ refl h)
      ]
    where
      go :
          (l : List String)
          → list_activities_in (code running) s ≡ l
          → contains (list_activities_in (code running) s) s.current_activity ≡ false
          → P (elim (head? (list_activities_in (code running) s)) [
            | none ↦ s
            | some first ↦ (set_current c first s).0
          ])
      go [] e h = rw e (empty_list e)
      go (x ∷ xs) e h = rw e (other x xs h e)

module _ {ℓ} (c : Collation) (P : Activities × Bool → Type ℓ) (target : ℕ → ℕ → ℕ)
    (s : Activities) where
  pub rotate_cases :
      P (s, false) → ((a : String) → P (set_current c a s)) → P (rotate_activity c target s)
  rotate_cases missing found =
      unfold rotate_activity in
      from (find_index s.current_activity (list_activities_in (code running) s))
    where
      from : (o : Option ℕ) → P (switch_from c o target (list_activities_in (code running) s) s)
      from none = unfold switch_from in missing
      from (some i) = unfold switch_from in found _
