-- ===== src/Activities/Rotation.antt =====
-- nextActivity and previousActivity undo one another.
use native.Mathlib.Nat.{mod-eq_of_lt, mod_self, add-mod_right}
use native.Mathlib.Decide.{dec_lt}
use kactivitymanagerd.Prelude.{
  ℕ, Distinct, zero, suc, ◌+◌, ◌-◌, ◌%◌, ◌<◌, String, true, false, some, List, ◌≡◌, ap, arith,
  string_eq, nat_eq, lookup, length, ==_iff, contains, get_elem?,
}
use kactivitymanagerd.Activities.Data.{running, code, state_eq, Activities}
use kactivitymanagerd.Activities.Listing.{Collation, list_activities_in, ids_with}
use kactivitymanagerd.Activities.Operations.{
  rotate_activity, find_index, next_activity, previous_activity,
}
use kactivitymanagerd.Activities.Consistency.{IsConsistent}
use kactivitymanagerd.Activities.Calls.{contains-ids_with, rotate-IsConsistent}
use kactivitymanagerd.Activities.Switching.{
  set_current_running, find_index-get, get-contains, get-find_index, contains-find_index,
  get_in_range, Distinct-ids_with,
}

abbrev pub running_list : Activities → List String
running_list s = list_activities_in (code running) s

module _ (c : Collation) (s : Activities) (h : IsConsistent s) where
  pub listed_running :
      (a : String) → contains (running_list s) a ≡ true → lookup a s.activities ≡ some running
  listed_running a e =
      ground (arith, contains-ids_with running a s.sorted_activities h.listed_once, h.agree a)

  module _ (target : ℕ → ℕ → ℕ) (named : contains (running_list s) "" ≡ false) where
    pub rotate_activity-to :
        (i : ℕ) (a : String)
        → find_index s.current_activity (running_list s) ≡ some i
        → get_elem? (running_list s) (target (length (running_list s)) i) ≡ some a
        → let t = (rotate_activity c target s).0 in
          (t.current_activity ≡ a)
          × (t.sorted_activities ≡ s.sorted_activities)
          × (t.activities ≡ s.activities)
    rotate_activity-to i a e f =
        unfold rotate_activity in
        rw e (
          rw f (
            set_current_running c a s (listed_running a (get-contains a _ _ f)) (
              ground (
                arith,
                ==_iff a "",
                get-contains a (running_list s) (target (length (running_list s)) i) f,
              ))))

-- `back` undoes `there` on the positions of a list with `n` entries.
abbrev pub Undoes : (ℕ → ℕ → ℕ) → (ℕ → ℕ → ℕ) → Type 0
Undoes back there = (n i : ℕ) → i < n → (there n i < n) × (back n (there n i) ≡ i)

rotate_back :
    (c : Collation) (there back : ℕ → ℕ → ℕ)
    → Undoes back there
    → (s : Activities) → IsConsistent s
    → contains (running_list s) "" ≡ false
    → contains (running_list s) s.current_activity ≡ true
    → (rotate_activity c back (rotate_activity c there s).0).0.current_activity ≡ s.current_activity
rotate_back c there back inverse s h named current =
    let t : Activities = (rotate_activity c there s).0 in
    let l : List String = running_list s in
    let at = contains-find_index s.current_activity l current in
    let in_l = find_index-get s.current_activity l at.0 at.1 in
    let step = inverse (length l) at.0 in_l.1 in
    let target = get_in_range l (there (length l) at.0) step.0 in
    let moved = rotate_activity-to c s h there named at.0 target.0 at.1 target.1 in
    let same : running_list t ≡ l = ap (ids_with (code running)) moved.1 in
    let d : Distinct l = Distinct-ids_with (code running) s.sorted_activities h.listed_once in
    (rotate_activity-to c t (rotate-IsConsistent c there s h) back (rw same named)
      (there (length l) at.0) s.current_activity
      (rw (same, moved.0) (get-find_index target.0 l _ d target.1)) (rw (same, step.1) in_l.0)).0

pub mod_step : Undoes (λ n i. (i + n - 1) % n) (λ n i. (i + 1) % n)
mod_step n i h = elim (dec_lt (i + 1) n) [
  | yes inside ↦ ground (arith, mod-eq_of_lt inside, add-mod_right i n, mod-eq_of_lt h)
  | no last ↦ let e : i + 1 ≡ n = omega arith in ground (arith, mod_self n, mod-eq_of_lt h)
]

pub mod_back : Undoes (λ n i. (i + 1) % n) (λ n i. (i + n - 1) % n)
mod_back n zero h =
    let e : 0 + n - 1 ≡ n - 1 = omega arith in
    let f : n - 1 + 1 ≡ n = omega arith in
    rw (e, mod-eq_of_lt {n = n - 1} {m = n} (omega arith), f) (omega arith, mod_self n)
mod_back n (suc i) h =
    let e : suc i + n - 1 ≡ i + n = omega arith in
    let f : i + 1 ≡ suc i = omega arith in
    rw (e, add-mod_right i n, mod-eq_of_lt {n = i} {m = n} (omega arith), f)
      (omega arith, mod-eq_of_lt h)

-- From a consistent state whose current activity is running and in which no running activity has
-- the empty id, nextActivity and then previousActivity, or the other way round, makes the same
-- activity current again.
pub next-previous :
    (c : Collation) (s : Activities)
    → IsConsistent s
    → contains (running_list s) "" ≡ false
    → contains (running_list s) s.current_activity ≡ true
    → ((previous_activity c (next_activity c s).0).0.current_activity ≡ s.current_activity)
      × ((next_activity c (previous_activity c s).0).0.current_activity ≡ s.current_activity)
unfolding next_activity previous_activity
next-previous c s h named current =
    (rotate_back c _ _ mod_step s h named current, rotate_back c _ _ mod_back s h named current)
