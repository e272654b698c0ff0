-- ===== src/Plugins/Scripts.antt =====
-- RunApplicationPlugin (src/service/plugins/runapplication).
use mathlib.Core.List.{append-nil}
use kactivitymanagerd.Prelude.{
  ℕ, String, Bool, not, ◌&&◌, Option, none, some, List, [], ◌∷◌, ◌++◌, ◌≡◌, refl, sym, ap, ◌∙◌,
  arith, ◌==◌, string_eq, nat_eq, contains, Distinct, Distinct-snoc, if◌then◌else◌, Bool-cases, inl,
  inr,
}

-- the directories below the one of an activity
pub data Directory : Type 0 where
  activated deactivated started stopped : Directory

-- m_currentActivity, m_previousActivities, and the directories that executeIn was called for,
-- oldest first
pub record Runner : Type 0 where
  pub current_activity : String
  pub previous_activities : List String
  pub executed : List (Directory × String)

-- what executeIn does with a file: run it as a script, start the application of a service, or open it
pub data Start : Type 0 where
  shell_script open_url : String → Start
  application : String → Start

-- the branches of executeIn for one file, with the answers of QFileInfo and KService
unfoldable pub start_file : String → Bool → Bool → Option String → Start
start_file path is_sh is_executable (some exec) =
    if is_sh && is_executable then shell_script path else application exec
start_file path is_sh is_executable none =
    if is_sh && is_executable then shell_script path else open_url path

abbrev pub execute_in : Directory → String → Runner → Runner
execute_in d activity s = record s { executed = s.executed ++ (d, activity) ∷ [] }

-- RunApplicationPlugin::activityStateChanged, with the values 2 and 4 of Running and Stopped
unfoldable pub activity_state_changed : String → ℕ → Runner → Runner
activity_state_changed activity state s =
    if state == 2
    then execute_in started activity s
    else if state == 4
    then execute_in stopped activity s
    else s

-- the scripts of the activity that is left
unfoldable pub leave : Runner → Runner
leave s = if not (s.current_activity == "") then execute_in deactivated s.current_activity s else s

-- RunApplicationPlugin::currentActivityChanged
unfoldable pub current_activity_changed : String → Runner → Runner
current_activity_changed activity s =
    let entered =
      execute_in activated activity (record (leave s) { current_activity = activity }) in
    let pretended = activity_state_changed activity 2 entered in
    if s.current_activity == activity
    then s
    else if not (contains s.previous_activities activity)
    then record pretended { previous_activities = pretended.previous_activities ++ activity ∷ [] }
    else entered

-- the changes of the current activity, in their order
unfoldable pub change_all : List String → Runner → Runner
change_all [] s = s
change_all (a ∷ rest) s = change_all rest (current_activity_changed a s)

abbrev pub at_start : Runner
at_start = record { current_activity = ""; previous_activities = []; executed = [] }

-- the activities that the scripts in `started` were run for
unfoldable pub started_in : List (Directory × String) → List String
started_in [] = []
started_in ((started, a) ∷ log) = a ∷ started_in log
started_in ((activated, a) ∷ log) = started_in log
started_in ((deactivated, a) ∷ log) = started_in log
started_in ((stopped, a) ∷ log) = started_in log

started_in-append :
    (xs ys : List (Directory × String)) → started_in (xs ++ ys) ≡ started_in xs ++ started_in ys
unfolding started_in
started_in-append [] ys = refl
started_in-append ((started, a) ∷ xs) ys = ap (λ l. a ∷ l) (started_in-append xs ys)
started_in-append ((activated, a) ∷ xs) ys = started_in-append xs ys
started_in-append ((deactivated, a) ∷ xs) ys = started_in-append xs ys
started_in-append ((stopped, a) ∷ xs) ys = started_in-append xs ys

-- The scripts in `started` were run for exactly the activities that are remembered, once for each.
pub record IsOnce (s : Runner) : Type 0 where
  pub remembered : started_in s.executed ≡ s.previous_activities
  pub distinct : Distinct s.previous_activities

leave-started :
    (s : Runner)
    → (started_in (leave s).executed ≡ started_in s.executed)
      × ((leave s).previous_activities ≡ s.previous_activities)
unfolding started_in leave
leave-started s = (
  ground (
    arith,
    started_in-append s.executed ((deactivated, s.current_activity) ∷ []),
    append-nil (started_in s.executed),
  ),
  ground arith,
)

-- one more directory in the log
started_in-snoc :
    (d : Directory) (a : String) (log : List (Directory × String)) (xs : List String)
    → started_in log ≡ xs
    → started_in (log ++ (d, a) ∷ []) ≡ xs ++ started_in ((d, a) ∷ [])
started_in-snoc d a log xs h =
    started_in-append log ((d, a) ∷ []) ∙ ap (λ l. l ++ started_in ((d, a) ∷ [])) h

change-IsOnce : (a : String) (s : Runner) → IsOnce s → IsOnce (current_activity_changed a s)
unfolding current_activity_changed activity_state_changed started_in
change-IsOnce a s h =
    let left = leave-started s in
    let log = (leave s).executed in
    let in_log : started_in (log ++ (activated, a) ∷ []) ≡ s.previous_activities =
      started_in-snoc activated a log s.previous_activities (left.0 ∙ h.remembered)
      ∙ append-nil s.previous_activities in
    elim (Bool-cases (s.current_activity == a)) [
      | inl same ↦ rw same h
      | inr other ↦ elim (Bool-cases (contains s.previous_activities a)) [
        | inl seen ↦
            rw (other, seen)
              (record { remembered = in_log ∙ sym left.1; distinct = rw left.1 h.distinct })
        | inr new ↦
            rw (other, new)
              (record {
                remembered =
                    started_in-snoc started a (log ++ (activated, a) ∷ []) s.previous_activities
                      in_log
                    ∙ ap (λ l. l ++ a ∷ []) (sym left.1);
                distinct = rw left.1 (Distinct-snoc s.previous_activities a new h.distinct);
              })
      ]
    ]

change_all-IsOnce : (changes : List String) (s : Runner) → IsOnce s → IsOnce (change_all changes s)
unfolding change_all
change_all-IsOnce [] s h = h
change_all-IsOnce (a ∷ rest) s h =
    change_all-IsOnce rest (current_activity_changed a s) (change-IsOnce a s h)

-- Whatever the changes of the current activity since the start, the scripts in "started" of each
-- activity are run by them at most once: for the activities that the plugin remembers, in their order.
pub started_once :
    (changes : List String)
    → (started_in (change_all changes at_start).executed
        ≡ (change_all changes at_start).previous_activities)
      × Distinct (change_all changes at_start).previous_activities
unfolding started_in
started_once changes =
    let h : IsOnce (change_all changes at_start) =
      change_all-IsOnce changes at_start (record { remembered = refl; distinct = tt }) in
    (h.remembered, h.distinct)
