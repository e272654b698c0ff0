-- ===== src/Activities/Returning.antt =====
-- A restart brings the activities back that the calls before it left.
use kactivitymanagerd.Prelude.{
  subst, String, Bool, true, false, is_some, ◌≡◌, refl, sym, ap, ◌∙◌, arith, ◌==◌, string_eq,
  nat_eq, lookup, insert, has_key, or_default, length, lookup-insert, lookup-remove,
  insert-Distinct, remove-Distinct, ==_iff, ==_refl, Bool-cases, inl, inr,
}
use kactivitymanagerd.KsmServer
use kactivitymanagerd.Activities.Data
use kactivitymanagerd.Activities.Data.{
  State, invalid, running, starting, stopped, stopping, state_eq, stopped_bit, Config, Activities,
  activity_state, What, name, description, icon, write_entry, read_entry, emit, post,
  activity_added,
}
use kactivitymanagerd.Activities.Listing.{Collation, update_sorted_activity_list}
use kactivitymanagerd.Activities.Operations.{
  set_attribute, schedule_config_sync, set_activity_state, stop_activity, forget, remove_checked,
  remove_activity, add_with_id, activity_session_state_changed,
}
use kactivitymanagerd.Activities.Cases.{remove_activity_cases, stop_activity_cases}
use kactivitymanagerd.Activities.Running.{activities-set_activity_state}
use kactivitymanagerd.Activities.Startup.{start_state}
use kactivitymanagerd.Activities.Stored.{
  IsStored, is_stopped, same-IsStored, schedule-IsStored, sorted-IsStored,
  set_activity_state-IsStored, stop_activity-IsStored, set_current_activity-IsStored,
  ensure-IsStored,
}

abbrev pub nobody : String → Bool
nobody a = false

lists-set_attribute :
    (w : What) (a v : String) (s : Activities)
    → ((set_attribute w a v s).activities ≡ s.activities)
      × ((set_attribute w a v s).config.running_activities ≡ s.config.running_activities)
      × ((set_attribute w a v s).config.stopped_activities ≡ s.config.stopped_activities)
unfolding set_attribute schedule_config_sync
lists-set_attribute name a v s = (ground arith, ground arith, ground arith)
lists-set_attribute description a v s = (ground arith, ground arith, ground arith)
lists-set_attribute icon a v s = (ground arith, ground arith, ground arith)

has_name-set_attribute :
    (w : What) (a v b : String) (s : Activities)
    → has_key s.activities b ≡ has_key s.config.names b
    → has_key s.activities b ≡ has_key (set_attribute w a v s).config.names b
unfolding set_attribute schedule_config_sync
has_name-set_attribute name a v b s h =
    ground (arith, lookup-insert a b v s.config.names, ==_iff a b, h)
has_name-set_attribute description a v b s h = ground (arith, h)
has_name-set_attribute icon a v b s h = ground (arith, h)

-- the names of the known activities may have been out of step before
renamed-IsStored :
    (x : String → Bool) (w : What) (a v : String) (s : Activities)
    → IsStored x s
    → ((b : String) → has_key s.activities b ≡ has_key (set_attribute w a v s).config.names b)
    → IsStored nobody (set_attribute w a v s)
unfolding start_state activity_state
renamed-IsStored x w a v s h n =
    let same = lists-set_attribute w a v s in
    record {
      distinct = rw same.0 h.distinct;
      agrees = λ b k. rw (same.0, same.1, same.2) (h.agrees b (rw same.0 at k));
      named = λ b _. rw same.0 (n b);
    }

pub set_attribute-IsStored :
    (w : What) (a v : String) (s : Activities)
    → IsStored nobody s
    → IsStored nobody (set_attribute w a v s)
set_attribute-IsStored w a v s h =
    renamed-IsStored nobody w a v s h (λ b. has_name-set_attribute w a v b s (h.named b refl))

has_name-new :
    (a n : String) (s : Activities)
    → (n == "") ≡ false
    → has_key s.activities a ≡ true
    → has_key (set_attribute name a n s).config.names a ≡ true
unfolding set_attribute schedule_config_sync read_entry
has_name-new a n s e k = ground (
  arith,
  lookup-insert a a n s.config.names,
  ==_iff n (or_default (lookup a s.config.names) ""),
  ==_iff n "",
  ==_refl a,
)

-- the name of a new activity, which is not empty
new_name-IsStored :
    (a n : String) (s : Activities)
    → (n == "") ≡ false
    → has_key s.activities a ≡ true
    → IsStored (λ b. a == b) s
    → IsStored nobody (set_attribute name a n s)
new_name-IsStored a n s e k h = renamed-IsStored (λ b. a == b) name a n s h named
  where
    named :
        (b : String) → has_key s.activities b ≡ has_key (set_attribute name a n s).config.names b
    named b = elim (Bool-cases (a == b)) [
      | inl f ↦
          subst (λ b. has_key s.activities b ≡ has_key (set_attribute name a n s).config.names b)
            ((==_iff a b).0 f) (k ∙ sym (has_name-new a n s e k))
      | inr f ↦ has_name-set_attribute name a n b s (h.named b f)
    ]

has_key-set_activity_state :
    (c : Collation) (a : String) (st : State) (s : Activities)
    → has_key s.activities a ≡ true
    → has_key (set_activity_state c a st s).activities a ≡ true
has_key-set_activity_state c a st s k =
    ap is_some (activities-set_activity_state c a a st s k) ∙ ground (arith, ==_refl a)

-- whether the configuration takes a new activity for a stopped one
abbrev pub reads_stopped : Config → String → Bool
reads_stopped c a = is_stopped (start_state c a)

module _ (c : Collation) where
  inserted_new-IsStored :
      (a : String) (s : Activities)
      → reads_stopped s.config a ≡ false
      → IsStored nobody s
      → IsStored (λ b. a == b) (record s { activities = insert a invalid s.activities })
  unfolding activity_state
  inserted_new-IsStored a s e h = record {
    distinct = insert-Distinct a invalid s.activities h.distinct;
    agrees = λ b kb. elim (Bool-cases (a == b)) [
      | inl f ↦
          rw (lookup-insert a b invalid s.activities, f)
            (subst (λ b. reads_stopped s.config b ≡ false) ((==_iff a b).0 f) e)
      | inr f ↦
          rw (lookup-insert a b invalid s.activities, f)
            (h.agrees b (rw (lookup-insert a b invalid s.activities, f) at kb))
    ];
    named = λ b f. rw (lookup-insert a b invalid s.activities, f) (h.named b refl);
  }

  pub add_with_id-IsStored :
      (a n : String) (s : Activities)
      → (n == "") ≡ false
      → reads_stopped s.config a ≡ false
      → IsStored nobody s
      → IsStored nobody (add_with_id c a n s)
  add_with_id-IsStored a n s e r h =
      let s1 : Activities = record s { activities = insert a invalid s.activities } in
      let k1 : has_key s1.activities a ≡ true =
        rw (lookup-insert a a invalid s.activities, ==_refl a) in
      let s2 : Activities = set_activity_state c a running s1 in
      let h2 =
        set_activity_state-IsStored c (λ b. a == b) a running s1 k1
          (inserted_new-IsStored a s r h) in
      let h3 : IsStored nobody (set_attribute name a n s2) =
        new_name-IsStored a n s2 e (has_key-set_activity_state c a running s1 k1) h2 in
      let s3 : Activities =
        emit (activity_added a) (update_sorted_activity_list c (set_attribute name a n s2)) in
      let h4 : IsStored nobody (schedule_config_sync s3) =
        schedule-IsStored nobody s3
          (same-IsStored nobody refl refl refl refl (sorted-IsStored c nobody _ h3)) in
      elim (Bool-cases (length s1.activities == 1)) [
        | inl one ↦ unfold add_with_id in rw one (set_current_activity-IsStored c nobody a _ h4)
        | inr more ↦ unfold add_with_id in rw more h4
      ]

  forget-IsStored : (a : String) (s : Activities) → IsStored nobody s → IsStored nobody (forget a s)
  unfolding forget activity_state start_state
  forget-IsStored a s h = record {
    distinct = remove-Distinct a s.activities h.distinct;
    agrees = λ b k. ground (arith, lookup-remove a b s.activities, h.agrees b);
    named = λ b _.
        rw (lookup-remove a b s.activities, lookup-remove a b s.config.names)
          (ground (arith, h.named b));
  }

  known_after_stop :
      (a : String) (s : Activities)
      → has_key s.activities a ≡ true
      → has_key (stop_activity c a s).activities a ≡ true
  known_after_stop a s k =
      stop_activity_cases c (λ t. has_key t.activities a ≡ true) a s k
        (λ _. has_key-set_activity_state c a stopping s k)

  remove_checked-IsStored :
      (a : String) (s : Activities)
      → has_key s.activities a ≡ true
      → IsStored nobody s
      → IsStored nobody (remove_checked c a s)
  remove_checked-IsStored a s k h =
      let s1 : Activities = forget a (set_activity_state c a invalid (stop_activity c a s)) in
      let h1 : IsStored nobody s1 = forget-IsStored a _ (
        set_activity_state-IsStored c nobody a invalid _ (known_after_stop a s k)
          (stop_activity-IsStored c nobody a s h)) in
      elim (Bool-cases (s1.current_activity == a)) [
        | inl was ↦
            unfold remove_checked in
            rw was (same-IsStored nobody refl refl refl refl (ensure-IsStored c nobody s1 h1))
        | inr not_was ↦
            unfold remove_checked in rw not_was (same-IsStored nobody refl refl refl refl h1)
      ]

  pub remove_activity-IsStored :
      (a : String) (s : Activities) → IsStored nobody s → IsStored nobody (remove_activity c a s)
  remove_activity-IsStored a s h =
      remove_activity_cases c (IsStored nobody) a s h (λ k _. remove_checked-IsStored a s k h)

  -- the session manager's answer, for an activity that is known
  answered-IsStored :
      (a : String) (st : State) (s : Activities)
      → has_key s.activities a ≡ true
      → IsStored nobody s
      → IsStored nobody (post Data.config_sync (set_activity_state c a st s))
  answered-IsStored a st s k h =
      same-IsStored nobody refl refl refl refl (set_activity_state-IsStored c nobody a st s k h)

  pub session-IsStored :
      (a : String) (st : KsmServer.Status) (s : Activities)
      → IsStored nobody s
      → IsStored nobody (activity_session_state_changed c a st s)
  unfolding activity_session_state_changed
  session-IsStored a st s h = elim (Bool-cases (has_key s.activities a)) [
    | inr unknown ↦ kept st unknown
    | inl known ↦ changed st known
  ]
    where
      kept :
          (st : KsmServer.Status)
          → has_key s.activities a ≡ false
          → IsStored nobody (activity_session_state_changed c a st s)
      kept KsmServer.Status.started e = rw e h
      kept KsmServer.Status.stopped e = rw e h
      kept KsmServer.Status.failed_to_stop e = rw e h

      changed :
          (st : KsmServer.Status)
          → has_key s.activities a ≡ true
          → IsStored nobody (activity_session_state_changed c a st s)
      changed KsmServer.Status.started e = rw e (answered-IsStored a running s e h)
      changed KsmServer.Status.failed_to_stop e = rw e (answered-IsStored a running s e h)
      changed KsmServer.Status.stopped e = elim (Bool-cases (s.current_activity == a)) [
        | inl current ↦
            rw (e, current)
              (same-IsStored nobody refl refl refl refl
                (ensure-IsStored c nobody _ (set_activity_state-IsStored c nobody a stopped s e h)))
        | inr other ↦ rw (e, other) (answered-IsStored a stopped s e h)
      ]
