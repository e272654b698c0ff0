-- ===== src/Plugins/Shortcuts.antt =====
-- GlobalShortcutsPlugin (src/service/plugins/globalshortcuts).
use Prim.Native.String.{String}
use kactivitymanagerd.Prelude.{
  ℕ, zero, suc, Bool, false, not, ◌&&◌, ◌||◌, List, [], ◌∷◌, ◌++◌, ◌≡◌, refl, sym, ap, ◌∙◌, arith,
  ◌==◌, ==_iff, string_eq, select, contains, contains-append, if◌then◌else◌, Bool-cases, inl, inr,
}

-- m_activitiesList, and the object names of the actions in m_actionCollection
pub record Shortcuts : Type 0 where
  pub activities_list : List String
  pub actions : List String

-- objectNamePattern.arg(activity)
unfoldable pub concat : String → String → String
concat String.[] t = t
concat (String.◌∷◌ c s) t = String.◌∷◌ c (concat s t)

abbrev pub object_name : String → String
object_name activity = concat "switch-to-activity-" activity

-- QString::mid
unfoldable pub mid : ℕ → String → String
mid zero s = s
mid (suc n) String.[] = ""
mid (suc n) (String.◌∷◌ c s) = mid n s

-- GlobalShortcutsPlugin::activityForAction; objectNamePatternLength is 19
unfoldable pub activity_for_action : String → String
activity_for_action name = mid 19 name

abbrev pub zero_uuid : String
zero_uuid = "00000000-0000-0000-0000-000000000000"

abbrev pub add_if_absent : String → List String → List String
add_if_absent a xs = if not (contains xs a) then xs ++ a ∷ [] else xs

-- GlobalShortcutsPlugin::activityAdded; KActionCollection has one action for each name
unfoldable pub activity_added : String → Shortcuts → Shortcuts
activity_added activity s = if activity == zero_uuid then s else record {
  activities_list = add_if_absent activity s.activities_list;
  actions = add_if_absent (object_name activity) s.actions;
}

-- the test of the loop in activityRemoved
abbrev pub is_obsolete : String → List String → String → Bool
is_obsolete deleted activities name =
    (deleted == "" && not (contains activities (activity_for_action name)))
    || deleted == activity_for_action name

-- GlobalShortcutsPlugin::activityRemoved
unfoldable pub activity_removed : String → Shortcuts → Shortcuts
activity_removed deleted s =
    let activities = select (λ a. not (a == deleted)) s.activities_list in
    record {
      activities_list = activities;
      actions = select (λ name. not (is_obsolete deleted activities name)) s.actions;
    }

-- the loop of GlobalShortcutsPlugin::init
unfoldable pub add_all : List String → Shortcuts → Shortcuts
add_all [] s = s
add_all (a ∷ rest) s = add_all rest (activity_added a s)

-- GlobalShortcutsPlugin::init, with the answer of ListActivities
unfoldable pub init : List String → Shortcuts
init activities = add_all activities (record { activities_list = activities; actions = [] })

-- the signals of Activities that the plugin is connected to
pub data Change : Type 0 where
  added removed : String → Change

unfoldable pub follow : List Change → Shortcuts → Shortcuts
follow [] s = s
follow (added a ∷ rest) s = follow rest (activity_added a s)
follow (removed a ∷ rest) s = follow rest (activity_removed a s)

activity_for_action-object_name : (a : String) → activity_for_action (object_name a) ≡ a
unfolding activity_for_action concat mid
activity_for_action-object_name a = refl

-- two activities have the same action only if they are the same
object_name-eq : (a b : String) → (object_name a == object_name b) ≡ (a == b)
object_name-eq a b = ground (
  arith,
  ==_iff a b,
  ==_iff (object_name a) (object_name b),
  λ (e : object_name a ≡ object_name b).
      sym (activity_for_action-object_name a)
      ∙ ap activity_for_action e
      ∙ activity_for_action-object_name b,
  λ (e : a ≡ b). ap (λ (x : String). object_name x) e,
)

contains-select :
    (p : String → Bool) (b : String) (xs : List String)
    → contains (select p xs) b ≡ (contains xs b && p b)
unfolding contains select
contains-select p b [] = refl
contains-select p b (x ∷ xs) = ground (arith, ==_iff x b, contains-select p b xs)

contains-add_if_absent :
    (a b : String) (xs : List String) → contains (add_if_absent a xs) b ≡ (contains xs b || a == b)
unfolding contains
contains-add_if_absent a b xs = ground (arith, contains-append xs (a ∷ []) b, ==_iff a b)

-- Exactly the listed activities have an action, except that the zero uuid has none.
unfoldable pub IsMatched : Shortcuts → Type 0
IsMatched s =
    (b : String)
    → (b == zero_uuid) ≡ false
    → contains s.actions (object_name b) ≡ contains s.activities_list b

pub added-IsMatched : (a : String) (s : Shortcuts) → IsMatched s → IsMatched (activity_added a s)
unfolding IsMatched activity_added
added-IsMatched a s h b n = elim (Bool-cases (a == zero_uuid)) [
  | inl e ↦ rw e (h b n)
  | inr e ↦
      rw
        (
          e,
          contains-add_if_absent (object_name a) (object_name b) s.actions,
          contains-add_if_absent a b s.activities_list,
          object_name-eq a b,
          h b n,
        )
        refl
]

-- whether the action of `b` goes when `a` is removed, in terms of `b`
is_obsolete-object_name :
    (a b : String) (activities : List String)
    → is_obsolete a activities (object_name b)
      ≡ ((a == "" && not (contains activities b)) || a == b)
is_obsolete-object_name a b activities = rw (activity_for_action-object_name b) refl

kept_lem :
    (a b : String) (xs : List String)
    → (contains xs b && not (is_obsolete a (select (λ x. not (x == a)) xs) (object_name b)))
      ≡ contains (select (λ x. not (x == a)) xs) b
kept_lem a b xs =
    let found = contains-select (λ x. not (x == a)) b xs in
    let gone = is_obsolete-object_name a b (select (λ x. not (x == a)) xs) in
    rw (gone, found) ground (arith, ==_iff a b, ==_iff b a)

pub removed-IsMatched :
    (a : String) (s : Shortcuts) → IsMatched s → IsMatched (activity_removed a s)
unfolding IsMatched activity_removed
removed-IsMatched a s h b n =
    let activities = select (λ x. not (x == a)) s.activities_list in
    rw
      (
        contains-select (λ name. not (is_obsolete a activities name)) (object_name b) s.actions,
        h b n,
      )
      (kept_lem a b s.activities_list)

follow-IsMatched :
    (changes : List Change) (s : Shortcuts) → IsMatched s → IsMatched (follow changes s)
unfolding follow
follow-IsMatched [] s h = h
follow-IsMatched (added a ∷ rest) s h =
    follow-IsMatched rest (activity_added a s) (added-IsMatched a s h)
follow-IsMatched (removed a ∷ rest) s h =
    follow-IsMatched rest (activity_removed a s) (removed-IsMatched a s h)

pub contains-activity_added :
    (a b : String) (s : Shortcuts)
    → (b == zero_uuid) ≡ false
    → contains (activity_added a s).activities_list b ≡ (contains s.activities_list b || a == b)
unfolding activity_added
contains-activity_added a b s n = elim (Bool-cases (a == zero_uuid)) [
  | inl e ↦ rw e ground (arith, ==_iff a zero_uuid, ==_iff b zero_uuid, ==_iff a b)
  | inr e ↦ rw e (contains-add_if_absent a b s.activities_list)
]

pub contains-activity_removed :
    (a b : String) (s : Shortcuts)
    → contains (activity_removed a s).activities_list b
      ≡ (not (a == b) && contains s.activities_list b)
unfolding activity_removed
contains-activity_removed a b s =
    ground (arith, contains-select (λ x. not (x == a)) b s.activities_list, ==_iff a b, ==_iff b a)

action-activity_added :
    (a b : String) (s : Shortcuts)
    → (b == zero_uuid) ≡ false
    → contains (activity_added a s).actions (object_name b)
      ≡ (contains s.actions (object_name b) || a == b)
unfolding activity_added
action-activity_added a b s n = elim (Bool-cases (a == zero_uuid)) [
  | inl e ↦ rw e ground (arith, ==_iff a zero_uuid, ==_iff b zero_uuid, ==_iff a b)
  | inr e ↦
      rw (e, contains-add_if_absent (object_name a) (object_name b) s.actions, object_name-eq a b)
        refl
]

contains-add_all :
    (xs : List String) (b : String) (s : Shortcuts)
    → (b == zero_uuid) ≡ false
    → contains (add_all xs s).activities_list b ≡ (contains s.activities_list b || contains xs b)
unfolding add_all contains
contains-add_all [] b s n = ground (arith)
contains-add_all (x ∷ xs) b s n =
    ground (arith, contains-add_all xs b (activity_added x s) n, contains-activity_added x b s n)

action-add_all :
    (xs : List String) (b : String) (s : Shortcuts)
    → (b == zero_uuid) ≡ false
    → contains (add_all xs s).actions (object_name b)
      ≡ (contains s.actions (object_name b) || contains xs b)
unfolding add_all contains
action-add_all [] b s n = ground (arith)
action-add_all (x ∷ xs) b s n =
    ground (arith, action-add_all xs b (activity_added x s) n, action-activity_added x b s n)

pub contains-init :
    (xs : List String) (b : String)
    → (b == zero_uuid) ≡ false
    → contains (init xs).activities_list b ≡ contains xs b
unfolding init
contains-init xs b n =
    ground (arith, contains-add_all xs b (record { activities_list = xs; actions = [] }) n)

pub init-IsMatched : (activities : List String) → IsMatched (init activities)
unfolding init IsMatched contains
init-IsMatched activities b n =
    let s : Shortcuts = record { activities_list = activities; actions = [] } in
    ground (arith, contains-add_all activities b s n, action-add_all activities b s n)

-- After the plugin has been set up with any list of activities and has followed any additions and
-- removals, with the empty id among them, an activity whose id is not the zero uuid has its action
-- exactly if it is in the plugin's list.
pub follow-init-IsMatched :
    (activities : List String) (changes : List Change)
    → IsMatched (follow changes (init activities))
follow-init-IsMatched activities changes =
    follow-IsMatched changes (init activities) (init-IsMatched activities)
