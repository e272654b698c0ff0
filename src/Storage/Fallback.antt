-- ===== src/Storage/Fallback.antt =====
-- What becomes of the backups of a database that does not open. It is complete when the files of a
-- write-ahead log are there, as an earlier version of the program leaves them.
use mathlib.Core.Path.{fun_ext}
use kactivitymanagerd.Prelude.{
  true, false, ◌≡◌, refl, ◌∙◌, arith, ◌==◌, if◌then◌else◌, Bool-cases, inl, inr,
}
use kactivitymanagerd.Storage.Backups.{
  Place, DatabaseFile, current, test_backup, working_backup, place_eq, file_eq, database_files,
  Disk, System, copy_database_files, files_exist_in, promote, back_up, init_with, after_instance,
  init_database, ended,
}
use kactivitymanagerd.Storage.Connections.{first_instance_lem}
use kactivitymanagerd.Storage.Copies.{copy-other, copy-done, copy-total, remove_files-other}
use kactivitymanagerd.Storage.Recovery.{CanRemove, same-files}

-- No operation on the files fails.
pub record IsFaultless {C : Type 0} (y : System C) : Type 0 where
  pub removes : CanRemove y
  pub copies : (p q : Place) (x : DatabaseFile) → y.can_copy p q x ≡ true

-- the place with the last database that ran without errors
abbrev pub good_place : {C : Type 0} → Disk C → Place
good_place d = if files_exist_in test_backup d then test_backup else working_backup

module _ {C : Type 0} (y : System C) where
  pub promote-current : (d : Disk C) (x : DatabaseFile) → promote y d current x ≡ d current x
  unfolding promote
  promote-current d x =
      let copied = copy_database_files y test_backup working_backup d in
      ground (
        arith,
        copy-other y test_backup working_backup current x d refl,
        remove_files-other y test_backup current x database_files copied.1 refl,
        remove_files-other y working_backup current x database_files copied.1 refl,
      )

  pub back_up-other :
      (q : Place) (d : Disk C) (x : DatabaseFile)
      → (q == test_backup) ≡ false
      → back_up y d q x ≡ d q x
  unfolding back_up
  back_up-other q d x e =
      let copied = copy_database_files y current test_backup d in
      ground (
        arith,
        copy-other y current test_backup q x d e,
        remove_files-other y test_backup q x database_files copied.1 e,
      )

module _ {C : Type 0} (y : System C) (sound : IsFaultless y) where
  promote-working :
      (d : Disk C) (x : DatabaseFile) → promote y d working_backup x ≡ d (good_place d) x
  unfolding promote
  promote-working d x =
      let copied = copy_database_files y test_backup working_backup d in
      elim (Bool-cases (files_exist_in test_backup d)) [
        | inr missing ↦ rw missing refl
        | inl there ↦
            let done =
              copy-total y test_backup working_backup d refl (sound.removes working_backup)
                (sound.copies test_backup working_backup) there in
            rw (there, done)
              (remove_files-other y test_backup working_backup x database_files copied.1 refl
                ∙ copy-done y test_backup working_backup x d refl done)
      ]

  back_up-test :
      (d : Disk C) (x : DatabaseFile)
      → files_exist_in current d ≡ true
      → back_up y d test_backup x ≡ d current x
  unfolding back_up
  back_up-test d x there =
      let done =
        copy-total y current test_backup d refl (sound.removes test_backup)
          (sound.copies current test_backup) there in
      rw (there, done) (copy-done y current test_backup x d refl done)

  -- what a start leaves whose database does not open
  closed_start :
      (d : Disk C)
      → y.opens (d current) ≡ false
      → init_database y true true d ≡ (ended, back_up y (promote y d))
  unfolding init_database init_with after_instance
  closed_start d closed =
      let d' : Disk C = back_up y (promote y d) in
      let same = λ (x : DatabaseFile).
        back_up-other y current (promote y d) x refl ∙ promote-current y d x in
      let still : y.opens (d' current) ≡ false = rw (fun_ext same) closed in
      rw (first_instance_lem (y.opens (d' current)), still) refl

  -- When no operation on the files fails, and the database in `resources` is complete but does not
  -- open, then each of the next two starts ends the program. Neither changes the database, and after
  -- the second one the working backup is a copy of it: the last database that ran without errors is
  -- lost.
  pub closed_replaces_backup :
      (d : Disk C)
      → files_exist_in current d ≡ true
      → y.opens (d current) ≡ false
      → let first = init_database y true true d in
        let second = init_database y true true first.1 in
        (first.0 ≡ ended)
        × (second.0 ≡ ended)
        × ((x : DatabaseFile) → second.1 current x ≡ d current x)
        × ((x : DatabaseFile) → second.1 working_backup x ≡ d current x)
  closed_replaces_backup d complete closed =
      let e : Disk C = back_up y (promote y d) in
      let now = λ (x : DatabaseFile).
        back_up-other y current (promote y d) x refl ∙ promote-current y d x in
      let there : files_exist_in current (promote y d) ≡ true =
        same-files current current d (promote y d) (promote-current y d) ∙ complete in
      let tested =
        λ (x : DatabaseFile). back_up-test (promote y d) x there ∙ promote-current y d x in
      let whole : files_exist_in test_backup e ≡ true =
        same-files current test_backup d e tested ∙ complete in
      let one = closed_start d closed in
      let two = closed_start e (rw (fun_ext now) closed) in
      rw (one, two)
        (
          refl,
          refl,
          λ x. back_up-other y current (promote y e) x refl ∙ promote-current y e x ∙ now x,
          λ x.
              back_up-other y working_backup (promote y e) x refl
              ∙ promote-working e x
              ∙ rw whole (tested x),
        )
