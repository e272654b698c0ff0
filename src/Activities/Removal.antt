-- ===== src/Activities/Removal.antt =====
-- removeActivity: what is left of the removed activity, and which activity is current afterwards.
use kactivitymanagerd.Prelude.{
  String, true, false, none, some, List, [], ◌∷◌, ◌≡◌, ◌≢◌, refl, ap, ◌∙◌, arith, ◌==◌, string_eq,
  nat_eq, lookup, has_key, if◌then◌else◌, length, ==_iff, ==_refl, contains, lookup-remove, ◌⊎◌,
  inl, inr, Bool-cases,
}
use kactivitymanagerd.Activities.Data.{invalid, running, stopping, code, state_eq, Activities}
use kactivitymanagerd.Activities.Listing.{Collation, ids_with}
use kactivitymanagerd.Activities.Operations.{
  set_current, set_activity_state, stop_activity, forget, remove_checked, remove_activity,
  ensure_current_activity_is_running,
}
use kactivitymanagerd.Activities.Cases.{ensure_cases, stop_activity_cases}
use kactivitymanagerd.Activities.Consistency.{
  IsConsistent, forget-IsConsistent, set_activity_state-IsConsistent, stop_activity-IsConsistent,
  remove_activity-IsConsistent,
}
use kactivitymanagerd.Activities.Running.{activities-set_activity_state}
use kactivitymanagerd.Activities.Switching.{set_current_running, current-set_activity_state}
use kactivitymanagerd.Activities.Rotation.{running_list, listed_running}

-- What ensureCurrentActivityIsRunning promises: the states and the list stay; and the current
-- activity is running unless none is, in which case it stays as well.
pub record Ensured (s t : Activities) : Type 0 where
  pub states_kept : t.activities ≡ s.activities
  pub list_kept : running_list t ≡ running_list s
  pub result :
      (contains (running_list t) t.current_activity ≡ true)
      ⊎ ((running_list t ≡ []) × (t.current_activity ≡ s.current_activity))

first_listed :
    (l : List String) (a : String) (rest : List String) → l ≡ a ∷ rest → contains l a ≡ true
unfolding contains
first_listed l a rest e = rw (e, contains, ==_refl a)

known-running :
    (a : String) (s : Activities)
    → lookup a s.activities ≡ some running
    → has_key s.activities a ≡ true
known-running a s e = rw e

pub ensure-Ensured :
    (c : Collation) (s : Activities)
    → IsConsistent s
    → has_key s.activities "" ≡ false
    → Ensured s (ensure_current_activity_is_running c s)
ensure-Ensured c s h unnamed =
    ensure_cases c (Ensured s) s
      (λ e. record { states_kept = refl; list_kept = refl; result = inl e })
      (λ e. record { states_kept = refl; list_kept = refl; result = inr (e, refl) })
      λ a rest _ e.
        let listed : contains (running_list s) a ≡ true = first_listed (running_list s) a rest e in
        let is_running : lookup a s.activities ≡ some running = listed_running c s h a listed in
        let named : (a == "") ≡ false = ground (arith, ==_iff a "", known-running a s is_running) in
        let r = set_current_running c a s is_running named in
        let kept : running_list (set_current c a s).0 ≡ running_list s =
          ap (ids_with (code running)) r.1 in
        record { states_kept = r.2; list_kept = kept; result = inl (rw (kept, r.0) listed) }

module _ (c : Collation) (a : String) (s : Activities) (known : has_key s.activities a ≡ true) where
  stop_activity-others :
      (b : String)
      → (has_key (stop_activity c a s).activities a ≡ true)
        × ((a == b) ≡ false → lookup b (stop_activity c a s).activities ≡ lookup b s.activities)
        × ((stop_activity c a s).current_activity ≡ s.current_activity)
  stop_activity-others b =
      stop_activity_cases c
        (λ t.
          (has_key t.activities a ≡ true)
          × ((a == b) ≡ false → lookup b t.activities ≡ lookup b s.activities)
          × (t.current_activity ≡ s.current_activity))
        a s (known, λ _. refl, refl)
        (λ _. (
          rw (activities-set_activity_state c a a stopping s known, ==_refl a),
          λ e. rw (activities-set_activity_state c a b stopping s known, e),
          current-set_activity_state c a stopping s,
        ))

  -- the state in which removeActivity looks for another current activity
  abbrev forgotten : Activities
  forgotten = forget a (set_activity_state c a invalid (stop_activity c a s))

  lookup-forgotten :
      (b : String)
      → lookup b forgotten.activities ≡ (if a == b then none else lookup b s.activities)
  unfolding forget
  lookup-forgotten b =
      let st = stop_activity-others b in
      ground (
        arith,
        lookup-remove a b (set_activity_state c a invalid (stop_activity c a s)).activities,
        activities-set_activity_state c a b invalid (stop_activity c a s) st.0,
      )

  current-forgotten : forgotten.current_activity ≡ s.current_activity
  unfolding forget
  current-forgotten =
      current-set_activity_state c a invalid (stop_activity c a s) ∙ (stop_activity-others a).2

  forgotten-IsConsistent : IsConsistent s → IsConsistent forgotten
  forgotten-IsConsistent h =
      forget-IsConsistent a _
        (set_activity_state-IsConsistent c a invalid _ (stop_activity-IsConsistent c a s h))

  -- What removeActivity promises once its checks have passed.
  pub record Removed (t : Activities) : Type 0 where
    pub states_kept :
        (b : String) → lookup b t.activities ≡ (if a == b then none else lookup b s.activities)
    pub current :
        ((s.current_activity == a) ≡ false → t.current_activity ≡ s.current_activity)
        × (s.current_activity ≡ a
            → (contains (running_list t) t.current_activity ≡ true)
              ⊎ ((running_list t ≡ []) × (t.current_activity ≡ a)))

  and_then :
      (t : Activities)
      → (contains (running_list t) t.current_activity ≡ true)
        ⊎ ((running_list t ≡ []) × (t.current_activity ≡ forgotten.current_activity))
      → forgotten.current_activity ≡ a
      → (contains (running_list t) t.current_activity ≡ true)
        ⊎ ((running_list t ≡ []) × (t.current_activity ≡ a))
  and_then t (inl e) f = inl e
  and_then t (inr (e, g)) f = inr (e, g ∙ f)

  remove_checked-Removed :
      IsConsistent s → has_key s.activities "" ≡ false → Removed (remove_checked c a s)
  remove_checked-Removed h unnamed =
      let h' : IsConsistent forgotten = forgotten-IsConsistent h in
      let no_name : has_key forgotten.activities "" ≡ false = ground (arith, lookup-forgotten "") in
      let e : Ensured forgotten (ensure_current_activity_is_running c forgotten) =
        ensure-Ensured c forgotten h' no_name in
      elim (Bool-cases (forgotten.current_activity == a)) [
        | inl was ↦
            unfold remove_checked in
            rw was (record {
              states_kept = λ b. ap (lookup b) e.states_kept ∙ lookup-forgotten b;
              current = (
                λ other. ground (arith, current-forgotten),
                λ _.
                    and_then (ensure_current_activity_is_running c forgotten) e.result
                      ((string_eq.beq_iff forgotten.current_activity a).0 was),
              );
            })
        | inr was_not ↦
            unfold remove_checked in
            rw was_not (record {
              states_kept = lookup-forgotten;
              current = (
                λ other. current-forgotten,
                λ same. ground (arith, current-forgotten, ==_iff forgotten.current_activity a),
              );
            })
      ]

-- removeActivity of a known activity that is not the only one: the activity is forgotten and every
-- other keeps its state; another current activity stays current; if the removed activity was the
-- current one, a running activity becomes current, unless none runs, and then the current activity
-- is still the removed one.
pub remove_activity-Removed :
    (c : Collation) (a : String) (s : Activities) (known : has_key s.activities a ≡ true)
    → (length s.activities == 1) ≡ false
    → IsConsistent s
    → has_key s.activities "" ≡ false
    → Removed c a s known (remove_activity c a s)
remove_activity-Removed c a s known several h unnamed =
    unfold remove_activity in rw (known, several) (remove_checked-Removed c a s known h unnamed)

-- So with no other activity running, removing the current activity leaves a current activity that
-- does not exist.
pub remove_activity_dangling :
    (c : Collation) (a : String) (s : Activities)
    → has_key s.activities a ≡ true
    → (length s.activities == 1) ≡ false
    → IsConsistent s
    → has_key s.activities "" ≡ false
    → s.current_activity ≡ a
    → ((b : String) → (a == b) ≡ false → lookup b s.activities ≢ some running)
    → ((remove_activity c a s).current_activity ≡ a)
      × (has_key (remove_activity c a s).activities a ≡ false)
remove_activity_dangling c a s known several h unnamed current alone =
    let t : Activities = remove_activity c a s in
    let r : Removed c a s known t = remove_activity-Removed c a s known several h unnamed in
    let gone : has_key t.activities a ≡ false = ground (arith, r.states_kept a, ==_refl a) in
    let t_ok : IsConsistent t = remove_activity-IsConsistent c a s h in
    elim (r.current.1 current) [
      | inr (_, same) ↦ (same, gone)
      | inl listed ↦
          let runs = listed_running c t t_ok t.current_activity listed in
          absurd (ground (arith, r.states_kept t.current_activity, alone t.current_activity))
    ]
