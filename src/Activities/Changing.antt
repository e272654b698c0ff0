-- ===== src/Activities/Changing.antt =====
-- AddActivity, RemoveActivity and the answers of the session manager (src/service/Activities.cpp) keep
-- what is promised of them.
use kactivitymanagerd.Prelude.{
  String, Bool, true, false, not, ◌&&◌, Option, some, none, List, [], ◌∷◌, ◌≡◌, ◌≤◌, ◌≢◌, ◌⊎◌, refl,
  sym, ap, ◌∙◌, arith, ◌==◌, string_eq, nat_eq, Hash, lookup, insert, has_key, is_empty, contains,
  length, keys, Distinct, ==_iff, ne_of_beq, Bool-cases, inl, inr,
}
use kactivitymanagerd.KsmServer
use kactivitymanagerd.Activities.Data.{State, invalid, running, stopped, Activities}
use kactivitymanagerd.Activities.Listing.{Collation}
use kactivitymanagerd.Activities.Operations.{
  set_activity_state, add_activity, authorized_add, authorized_remove, fresh_uuid, remove_activity,
  activity_session_state_changed, ensure_current_activity_is_running,
}
use kactivitymanagerd.Activities.Consistency.{
  IsConsistent, ensure-IsConsistent, set_activity_state-IsConsistent, remove_activity-IsConsistent,
}
use kactivitymanagerd.Activities.Calls.{add, remove, session_changed, added, fresh_uuid-new}
use kactivitymanagerd.Activities.Running.{activities-set_activity_state}
use kactivitymanagerd.Activities.Switching.{current-set_activity_state}
use kactivitymanagerd.Activities.Rotation.{running_list, listed_running}
use kactivitymanagerd.Activities.Removal.{ensure-Ensured, remove_activity-Removed}
use kactivitymanagerd.Activities.Restoring.{contains-fresh_uuid}
use kactivitymanagerd.Activities.Adding.{add_with_id_lem}
use kactivitymanagerd.Activities.Lifecycle.{view, IsKnown, StatesWith, Replaced, Spec}
use kactivitymanagerd.Activities.Conforming.{Same-view, has_key-IsKnown, no_state, listed}

-- the loop of addActivity finds nothing only if all its uuids are empty or taken
all_taken :
    (us : List String) (m : Hash String State) (u : String)
    → fresh_uuid us m ≡ none
    → contains us u ≡ true
    → (u == "") ≡ false
    → has_key m u ≡ true
unfolding fresh_uuid contains
all_taken [] m u h k n = cc
all_taken (v ∷ us) m u h k n = ground (arith, all_taken us m u, h, k, n, ==_iff v u)

length-insert-pos : (m : Hash String State) (u : String) (v : State) → 1 ≤ length (insert u v m)
unfolding insert
length-insert-pos [] u v = ground arith
length-insert-pos ((j, w) ∷ m) u v = ground arith

-- an entry that is inserted is the only one exactly if there was none
alone :
    (m : Hash String State) (u : String) (v : State)
    → has_key m u ≡ false
    → (length (insert u v m) == 1) ≡ true
    → (b : String) → lookup b m ≡ none
unfolding insert lookup
alone [] u v h one b = refl
alone ((j, w) ∷ m) u v h one b = ground (arith, one, h, length-insert-pos m u v)

not_alone :
    (m : Hash String State) (u : String) (v : State)
    → (length (insert u v m) == 1) ≡ false
    → (b : String) × (lookup b m ≢ none)
unfolding insert lookup
not_alone [] u v h = cc
not_alone ((j, w) ∷ m) u v h = (j, λ e. ground (arith, e, ==_iff j j))

only_known :
    (m : Hash String State) (a b : String)
    → (length m == 1) ≡ true
    → has_key m a ≡ true
    → has_key m b ≡ true
    → b ≡ a
unfolding lookup
only_known [] a b one p q = cc
only_known ((j, w) ∷ []) a b one p q = ground (arith, p, q, ==_iff j a, ==_iff j b)
only_known ((j, w) ∷ x ∷ m) a b one p q = ground (arith, one)

-- beside a known activity that is not the only one there is another
another :
    (m : Hash String State) (a : String)
    → Distinct (keys m)
    → has_key m a ≡ true
    → (length m == 1) ≡ false
    → (b : String) × ((b == a) ≡ false) × (has_key m b ≡ true)
unfolding lookup contains
another [] a d k more = cc
another ((j, w) ∷ []) a d k more = cc
another ((j, w) ∷ (i, v) ∷ m) a d k more = elim (Bool-cases (j == a)) [
  | inr apart ↦ (j, apart, ground (arith, ==_iff j j))
  | inl same ↦
      (i, ground (arith, d.0, same, ==_iff j a, ==_iff i j, ==_iff i a), ground (arith, ==_iff i i))
]

first : (j : String) (w : State) (m : Hash String State) → has_key ((j, w) ∷ m) j ≡ true
unfolding lookup
first j w m = ground (arith, ==_iff j j)

empty_none : (m : Hash String State) → is_empty m ≡ true → (b : String) → lookup b m ≡ none
unfolding lookup
empty_none [] h b = refl
empty_none (x ∷ m) h b = cc

some-IsKnown : (s : Activities) → is_empty s.activities ≡ false → (b : String) × IsKnown (view s) b
some-IsKnown s h = known (s.activities) refl h
  where
    known :
        (m : Hash String State)
        → s.activities ≡ m
        → is_empty m ≡ false
        → (b : String) × IsKnown (view s) b
    known [] e n = cc
    known ((j, w) ∷ m) e n = (j, has_key-IsKnown j s (rw e (first j w m)))

permitted :
    (s : Activities) (authorized : Bool)
    → (not (is_empty s.activities) && not authorized) ≡ false
    → (authorized ≡ true) ⊎ ((b : String) → lookup b s.activities ≡ none)
permitted s true h = inl refl
permitted s false h = inr (empty_none s.activities (ground (arith, h)))

pub known_key : (a : String) (s : Activities) → IsKnown (view s) a → has_key s.activities a ≡ true
known_key a s k = elim (Bool-cases (has_key s.activities a)) [
  | inl e ↦ e
  | inr e ↦ absurd (k (no_state a s e))
]

nothing_listed : (l : List String) (b : String) → l ≡ [] → contains l b ≡ true → ⊥
unfolding contains
nothing_listed [] b e h = cc
nothing_listed (x ∷ l) b e h = cc

-- what is in the list of running activities, and nothing else, runs
replaced :
    (c : Collation) (s t : Activities) (a : String)
    → IsConsistent t
    → s.current_activity ≡ a
    → (contains (running_list t) t.current_activity ≡ true)
      ⊎ ((running_list t ≡ []) × (t.current_activity ≡ a))
    → Replaced (view s) (view t)
replaced c s t a h k (inl e) = inl (listed_running c t h t.current_activity e)
replaced c s t a h k (inr (e, f)) =
    inr (λ b r. nothing_listed (running_list t) b e (listed t h b r), f ∙ sym k)

module _ (c : Collation) (s : Activities) (h : IsConsistent s)
    (unnamed : has_key s.activities "" ≡ false) where
  added-Spec :
      (authorized : Bool) (us : List String) (n : String)
      → (authorized ≡ true) ⊎ ((b : String) → lookup b s.activities ≡ none)
      → (o : Option String) → fresh_uuid us s.activities ≡ o
      → (n == "") ≡ false
      → Spec (add authorized us n) (view s) (view (added s (add_activity c us n s)))
  unfolding Spec add_activity
  added-Spec authorized us n may none e named =
      rw (named, e)
        (inl (
          inr (
              inr (λ u k blank.
                has_key-IsKnown u s
                  (all_taken us s.activities u e k (ground (arith, blank, ==_iff u ""))))),
          Same-view s s refl refl,
        ))
  added-Spec authorized us n may (some u) e named =
      let new = fresh_uuid-new us s.activities u e in
      let made = add_with_id_lem c u n s new.0 in
      rw (named, e)
        (inr (
          ne_of_beq n "" named,
          may,
          u,
          contains-fresh_uuid us s.activities u e,
          ne_of_beq u "" new.0,
          no_state u s new.1,
          λ b. (made b).0,
          elim (Bool-cases (length (insert u invalid s.activities) == 1)) [
            | inl one ↦ inl (alone s.activities u invalid new.1 one, (made u).1 ∙ rw one refl)
            | inr more ↦
                let k = not_alone s.activities u invalid more in
                inr (k.0, k.1, (made u).1 ∙ rw more refl)
          ],
        ))

  pub add-Spec :
      (authorized : Bool) (us : List String) (n : String)
      → Spec (add authorized us n) (view s) (view (added s (authorized_add c authorized us n s)))
  unfolding Spec
  add-Spec authorized us n = elim (Bool-cases (not (is_empty s.activities) && not authorized)) [
    | inl r ↦
        let k = some-IsKnown s (ground (arith, r)) in
        let barred : authorized ≡ false = ground (arith, r) in
        unfold authorized_add in rw r (inl (inr (inl (barred, k.0, k.1)), Same-view s s refl refl))
    | inr ok ↦ elim (Bool-cases (n == "")) [
      | inl e ↦
          unfold authorized_add add_activity in
          rw (ok, e) (inl (inl ((==_iff n "").0 e), Same-view s s refl refl))
      | inr e ↦
          unfold authorized_add in
          rw ok (
            added-Spec authorized us n (permitted s authorized ok) (fresh_uuid us s.activities) refl
              e)
    ]
  ]

  pub remove-Spec :
      (authorized : Bool) (a : String)
      → Spec (remove authorized a) (view s) (view (authorized_remove c authorized a s))
  unfolding Spec authorized_remove
  remove-Spec false a = inl (inl refl, Same-view s s refl refl)
  remove-Spec true a = elim (Bool-cases (has_key s.activities a)) [
    | inr k ↦
        unfold remove_activity in rw k (inl (inr (inl (no_state a s k)), Same-view s s refl refl))
    | inl k ↦ elim (Bool-cases (length s.activities == 1)) [
      | inl one ↦
          unfold remove_activity in
          rw (k, one)
            (inl (
              inr (inr (λ b known. only_known s.activities a b one k (known_key b s known))),
              Same-view s s refl refl,
            ))
      | inr more ↦
          let r = remove_activity-Removed c a s k more h unnamed in
          let t = remove_activity c a s in
          let o = another s.activities a h.distinct k more in
          inr (
            refl,
            has_key-IsKnown a s k,
            o.0,
            has_key-IsKnown o.0 s o.2,
            ne_of_beq o.0 a o.1,
            r.states_kept,
            elim (Bool-cases (s.current_activity == a)) [
              | inl e ↦
                  let same = (==_iff s.current_activity a).0 e in
                  inr (
                    same,
                    replaced c s t a (remove_activity-IsConsistent c a s h) same (r.current.1 same),
                  )
              | inr e ↦ inl (ne_of_beq s.current_activity a e, r.current.0 e)
            ],
          )
    ]
  ]

  -- the new state of a known activity, when nothing else changes
  set-Spec :
      (a : String) (st : State)
      → has_key s.activities a ≡ true
      → IsKnown (view s) a
        × StatesWith a (some st) (view s) (view (set_activity_state c a st s))
        × ((set_activity_state c a st s).current_activity ≡ s.current_activity)
  set-Spec a st k = (
    has_key-IsKnown a s k,
    λ b. activities-set_activity_state c a b st s k,
    current-set_activity_state c a st s,
  )

  ensured :
      (a : String)
      → has_key s.activities a ≡ true
      → s.current_activity ≡ a
      → let t = ensure_current_activity_is_running c (set_activity_state c a stopped s) in
        StatesWith a (some stopped) (view s) (view t) × Replaced (view s) (view t)
  ensured a k same =
      let s1 = set_activity_state c a stopped s in
      let h1 = set_activity_state-IsConsistent c a stopped s h in
      let put = set-Spec a stopped k in
      let e = ensure-Ensured c s1 h1 (ground (arith, put.1 "", unnamed, k, ==_iff a "")) in
      (
        λ b. ap (lookup b) e.states_kept ∙ put.1 b,
        replaced c s (ensure_current_activity_is_running c s1) s1.current_activity
            (ensure-IsConsistent c s1 h1) (sym put.2) e.result,
      )

  pub session-Spec :
      (a : String) (st : KsmServer.Status)
      → Spec (session_changed a st) (view s) (view (activity_session_state_changed c a st s))
  unfolding Spec
  session-Spec a KsmServer.Status.stopped = elim (Bool-cases (has_key s.activities a)) [
    | inr k ↦
        unfold activity_session_state_changed in
        rw k (inl (no_state a s k, Same-view s s refl refl))
    | inl k ↦ elim (Bool-cases (s.current_activity == a)) [
      | inl e ↦
          let same = (==_iff s.current_activity a).0 e in
          let t = ensured a k same in
          unfold activity_session_state_changed in
          rw (k, e) (inr (has_key-IsKnown a s k, t.0, inr (same, t.1)))
      | inr e ↦
          let t = set-Spec a stopped k in
          unfold activity_session_state_changed in
          rw (k, e) (inr (t.0, t.1, inl (ne_of_beq s.current_activity a e, t.2)))
    ]
  ]
  session-Spec a KsmServer.Status.started = elim (Bool-cases (has_key s.activities a)) [
    | inr k ↦
        unfold activity_session_state_changed in
        rw k (inl (no_state a s k, Same-view s s refl refl))
    | inl k ↦ unfold activity_session_state_changed in rw k (inr (set-Spec a running k))
  ]
  session-Spec a KsmServer.Status.failed_to_stop = elim (Bool-cases (has_key s.activities a)) [
    | inr k ↦
        unfold activity_session_state_changed in
        rw k (inl (no_state a s k, Same-view s s refl refl))
    | inl k ↦ unfold activity_session_state_changed in rw k (inr (set-Spec a running k))
  ]
