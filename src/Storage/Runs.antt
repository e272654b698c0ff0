-- ===== src/Storage/Runs.antt =====
-- A start of the program after one whose initSchema reported an error
-- (src/service/plugins/sqlite/Database.cpp).
use mathlib.Core.Path.{fun_ext}
use kactivitymanagerd.Prelude.{Bool, true, false, none, ◌≡◌, refl, ap, ◌∙◌, Bool-cases, inl, inr}
use kactivitymanagerd.Storage.Backups.{
  current, test_backup, working_backup, DatabaseFile, database, place_eq, database_files, Disk,
  System, copy_database_files, files_exist_in, clear, promote, back_up, fall_back, after_instance,
  init_with, init_once, init_database, Outcome, ready, no_database,
}
use kactivitymanagerd.Storage.Copies.{clear-done, copy-other, remove_files-other}
use kactivitymanagerd.Storage.Recovery.{CanRemove}
use kactivitymanagerd.Storage.Connections.{
  Answer, found, null, fatal, first_instance, first_instance_lem,
}
use kactivitymanagerd.Storage.Fallback.{promote-current, back_up-other}

module _ {C : Type 0} (m : System C) where
  -- there is no test backup
  abbrev pub IsUntested : Disk C → Type 0
  IsUntested d = (x : DatabaseFile) → d test_backup x ≡ none

  -- the working backup is as it was
  abbrev pub IsKept : Disk C → Disk C → Type 0
  IsKept d e = (x : DatabaseFile) → e working_backup x ≡ d working_backup x

  clear-IsKept : (d : Disk C) → IsKept d (clear m test_backup d)
  clear-IsKept d x = remove_files-other m test_backup working_backup x database_files d refl

  promote_nothing : (d : Disk C) → IsUntested d → promote m d ≡ d
  promote_nothing d h =
      let missing : files_exist_in test_backup d ≡ false = rw (h database) refl in
      unfold promote in rw missing refl

  back_up-IsKept : (d : Disk C) → IsKept d (back_up m d)
  back_up-IsKept d x =
      let copied = copy_database_files m current test_backup d in
      let kept = copy-other m current test_backup working_backup x d refl in
      elim (Bool-cases (files_exist_in current d)) [
        | inr missing ↦ unfold back_up in rw missing refl
        | inl there ↦ elim (Bool-cases copied.0) [
          | inl done ↦ unfold back_up in rw (there, done) kept
          | inr failed ↦ unfold back_up in rw (there, failed) (clear-IsKept copied.1 x ∙ kept)
        ]
      ]

  module _ (removes : CanRemove m) where
    clear-IsUntested : (d : Disk C) → IsUntested (clear m test_backup d)
    clear-IsUntested d x = clear-done m test_backup x d (removes test_backup)

    -- what a recursive call is to keep
    abbrev Keeps : (Disk C → Outcome × Disk C) → Type 0
    Keeps retry = (d : Disk C) → IsUntested d → IsKept d (retry d).1

    fall_back-IsKept :
        (retry : Disk C → Outcome × Disk C)
        → Keeps retry
        → (d : Disk C) → IsKept d (fall_back m retry d).1
    fall_back-IsKept retry keeps d x =
        let d' : Disk C = clear m test_backup d in
        let copied = copy_database_files m working_backup current d' in
        let kept =
          copy-other m working_backup current working_backup x d' refl ∙ clear-IsKept d x in
        let untested : IsUntested copied.1 =
          λ z. copy-other m working_backup current test_backup z d' refl ∙ clear-IsUntested d z in
        elim (Bool-cases (files_exist_in working_backup d')) [
          | inr missing ↦ unfold fall_back in rw missing (clear-IsKept d x)
          | inl there ↦ elim (Bool-cases copied.0) [
            | inl done ↦ unfold fall_back in rw (there, done) (keeps copied.1 untested x ∙ kept)
            | inr failed ↦ unfold fall_back in rw (there, failed) kept
          ]
        ]

    after_instance-IsKept :
        (retry : Disk C → Outcome × Disk C)
        → Keeps retry
        → (o : Answer) (d : Disk C) → IsKept d (after_instance m retry o d).1
    unfolding after_instance
    after_instance-IsKept retry keeps (found n) d x =
        elim (Bool-cases (m.reports_error (d current))) [
          | inl error ↦ rw error (clear-IsKept d x)
          | inr fine ↦ rw fine refl
        ]
    after_instance-IsKept retry keeps null d x = fall_back-IsKept retry keeps d x
    after_instance-IsKept retry keeps fatal d x = refl

    init_with-IsKept :
        (made : Bool) (retry : Disk C → Outcome × Disk C)
        → Keeps retry
        → Keeps (init_with m made retry)
    unfolding init_with
    init_with-IsKept false retry keeps d h x = refl
    init_with-IsKept true retry keeps d h x =
        let d' : Disk C = back_up m (promote m d) in
        after_instance-IsKept retry keeps (first_instance (m.opens (d' current))) d' x
        ∙ back_up-IsKept (promote m d) x
        ∙ ap (λ (e : Disk C). e working_backup x) (promote_nothing d h)

    once-IsKept : (made : Bool) → Keeps (init_once m made)
    unfolding init_once
    once-IsKept made = init_with-IsKept made (λ e. (no_database, e)) (λ e u z. refl)

    pub init_database-IsKept : (made retry : Bool) → Keeps (init_database m made retry)
    init_database-IsKept made false d h x = unfold init_database in once-IsKept made d h x
    init_database-IsKept made true d h x =
        unfold init_database in init_with-IsKept made (init_once m made) (once-IsKept made) d h x

module _ {C : Type 0} (m : System C) where
  backed_up : (d : Disk C) → (back_up m (promote m d)) current ≡ d current
  backed_up d = fun_ext (λ x. back_up-other m current (promote m d) x refl ∙ promote-current m d x)

  after_opened :
      (retry : Disk C → Outcome × Disk C) (d : Disk C)
      → m.opens (d current) ≡ true
      → m.reports_error (d current) ≡ true
      → after_instance m retry (first_instance (m.opens (d current))) d
        ≡ (ready, clear m test_backup d)
  after_opened retry d opens error =
      rw (first_instance_lem (m.opens (d current)), opens) (unfold after_instance in rw error refl)

  -- a start whose database opens, with an error of initSchema
  opened_start :
      (retry : Bool) (d : Disk C)
      → m.opens (d current) ≡ true
      → m.reports_error (d current) ≡ true
      → init_database m true retry d ≡ (ready, clear m test_backup (back_up m (promote m d)))
  unfolding init_database init_once init_with
  opened_start false d opens error =
      after_opened _ (back_up m (promote m d)) (rw (backed_up d) opens) (rw (backed_up d) error)
  opened_start true d opens error =
      after_opened _ (back_up m (promote m d)) (rw (backed_up d) opens) (rw (backed_up d) error)

module _ {C : Type 0} (m n : System C) (removes : CanRemove m) (removes' : CanRemove n) where
  -- When the database opens and initSchema reports an error, there is a database but no test backup,
  -- and the next start, whatever fails in it, leaves the working backup as this start has left it.
  -- Files can be removed, while copies may fail.
  pub schema_error_spares_backup :
      (retry made retry' : Bool) (d : Disk C)
      → m.opens (d current) ≡ true
      → m.reports_error (d current) ≡ true
      → let first = init_database m true retry d in
        (first.0 ≡ ready)
        × IsUntested m first.1
        × IsKept m first.1 (init_database n made retry' first.1).1
  schema_error_spares_backup retry made retry' d opens error =
      let e : Disk C = clear m test_backup (back_up m (promote m d)) in
      let bare = clear-IsUntested m removes (back_up m (promote m d)) in
      rw (opened_start m retry d opens error)
        (refl, bare, init_database-IsKept n removes' made retry' e bare)
