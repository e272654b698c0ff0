-- ===== src/Storage/Recovery.antt =====
-- What the start of the service makes of the backups.
use kactivitymanagerd.Prelude.{Bool, true, false, none, ◌≡◌, refl, ◌∙◌, Bool-cases, ◌⊎◌, inl, inr}
use kactivitymanagerd.Storage.Backups.{
  Place, DatabaseFile, current, test_backup, working_backup, database, database_wal, database_shm,
  place_eq, file_eq, database_files, Disk, System, copy_database_files, files_exist_in, clear,
  promote, back_up, fall_back, after_instance, init_with, init_once, init_database, Outcome,
  no_database,
}
use kactivitymanagerd.Storage.Connections.{Answer, found, null, fatal, first_instance}
use kactivitymanagerd.Storage.Copies.{clear-done, copy-other, copy-done, remove_files-other}

-- The place has all the files of a database, or none of them.
abbrev pub IsWhole : {C : Type 0} → Place → Disk C → Type 0
IsWhole p d = (files_exist_in p d ≡ true) ⊎ ((x : DatabaseFile) → d p x ≡ none)

abbrev pub CanRemove : {C : Type 0} → System C → Type 0
CanRemove y = (p : Place) (x : DatabaseFile) → y.can_remove p x ≡ true

module _ {C : Type 0} where
  -- two places with the same files
  pub same-files :
      (p q : Place) (d e : Disk C)
      → ((x : DatabaseFile) → e q x ≡ d p x)
      → files_exist_in q e ≡ files_exist_in p d
  same-files p q d e s = rw (s database, s database_wal, s database_shm) refl

  same-IsWhole :
      (p : Place) (d e : Disk C) → ((x : DatabaseFile) → e p x ≡ d p x) → IsWhole p d → IsWhole p e
  same-IsWhole p d e s (inl all) = inl (same-files p p d e s ∙ all)
  same-IsWhole p d e s (inr nothing) = inr (λ x. s x ∙ nothing x)

-- both backups are whole
abbrev pub AreWhole : {C : Type 0} → Disk C → Type 0
AreWhole d = IsWhole test_backup d × IsWhole working_backup d

module _ {C : Type 0} (y : System C) (removes : CanRemove y) where
  cleared-AreWhole : (d : Disk C) → AreWhole d → AreWhole (clear y test_backup d)
  cleared-AreWhole d h = (
    inr (λ x. clear-done y test_backup x d (removes test_backup)),
    same-IsWhole working_backup d (clear y test_backup d)
        (λ x. remove_files-other y test_backup working_backup x database_files d refl) h.1,
  )

  promote-AreWhole : (d : Disk C) → AreWhole d → AreWhole (promote y d)
  unfolding promote
  promote-AreWhole d h =
      let copied = copy_database_files y test_backup working_backup d in
      let kept =
        λ (x : DatabaseFile). copy-other y test_backup working_backup test_backup x d refl in
      elim (Bool-cases (files_exist_in test_backup d)) [
        | inr missing ↦ rw missing h
        | inl there ↦ elim (Bool-cases copied.0) [
          | inl done ↦
              rw (there, done)
                (cleared-AreWhole copied.1 (
                  same-IsWhole test_backup d copied.1 kept h.0,
                  inl (
                      same-files test_backup working_backup d copied.1
                        (λ x. copy-done y test_backup working_backup x d refl done)
                      ∙ there),
                ))
          | inr failed ↦
              rw (there, failed)
                (
                  same-IsWhole test_backup d (clear y working_backup copied.1)
                      (λ x.
                        remove_files-other y working_backup test_backup x database_files copied.1
                          refl
                        ∙ kept x)
                      h.0,
                  inr (λ x. clear-done y working_backup x copied.1 (removes working_backup)),
                )
        ]
      ]

  back_up-AreWhole : (d : Disk C) → AreWhole d → AreWhole (back_up y d)
  unfolding back_up
  back_up-AreWhole d h =
      let copied = copy_database_files y current test_backup d in
      let working =
        same-IsWhole working_backup d copied.1
          (λ x. copy-other y current test_backup working_backup x d refl) h.1 in
      elim (Bool-cases (files_exist_in current d)) [
        | inr missing ↦ rw missing h
        | inl there ↦ elim (Bool-cases copied.0) [
          | inl done ↦
              rw (there, done)
                (
                  inl (
                      same-files current test_backup d copied.1
                        (λ x. copy-done y current test_backup x d refl done)
                      ∙ there),
                  working,
                )
          | inr failed ↦
              rw (there, failed)
                (
                  inr (λ x. clear-done y test_backup x copied.1 (removes test_backup)),
                  same-IsWhole working_backup copied.1 (clear y test_backup copied.1)
                      (λ x.
                        remove_files-other y test_backup working_backup x database_files copied.1
                          refl)
                      working,
                )
        ]
      ]

  fall_back-AreWhole :
      (retry : Disk C → Outcome × Disk C)
      → ((e : Disk C) → AreWhole e → AreWhole (retry e).1)
      → (d : Disk C) → AreWhole d
      → AreWhole (fall_back y retry d).1
  unfolding fall_back
  fall_back-AreWhole retry keeps d h =
      let d' : Disk C = clear y test_backup d in
      let h' : AreWhole d' = cleared-AreWhole d h in
      let copied = copy_database_files y working_backup current d' in
      let h'' : AreWhole copied.1 = (
        same-IsWhole test_backup d' copied.1
            (λ x. copy-other y working_backup current test_backup x d' refl) h'.0,
        same-IsWhole working_backup d' copied.1
            (λ x. copy-other y working_backup current working_backup x d' refl) h'.1,
      ) in
      elim (Bool-cases (files_exist_in working_backup d')) [
        | inr missing ↦ rw missing h'
        | inl there ↦ elim (Bool-cases copied.0) [
          | inl done ↦ rw (there, done) (keeps copied.1 h'')
          | inr failed ↦ rw (there, failed) h''
        ]
      ]

  after_instance-AreWhole :
      (retry : Disk C → Outcome × Disk C)
      → ((e : Disk C) → AreWhole e → AreWhole (retry e).1)
      → (o : Answer) (d : Disk C) → AreWhole d
      → AreWhole (after_instance y retry o d).1
  unfolding after_instance
  after_instance-AreWhole retry keeps (found n) d h =
      elim (Bool-cases (y.reports_error (d current))) [
        | inl bad ↦ rw bad (cleared-AreWhole d h)
        | inr good ↦ rw good h
      ]
  after_instance-AreWhole retry keeps null d h = fall_back-AreWhole retry keeps d h
  after_instance-AreWhole retry keeps fatal d h = h

  init_with-AreWhole :
      (made : Bool) (retry : Disk C → Outcome × Disk C)
      → ((e : Disk C) → AreWhole e → AreWhole (retry e).1)
      → (d : Disk C) → AreWhole d
      → AreWhole (init_with y made retry d).1
  unfolding init_with
  init_with-AreWhole false retry keeps d h = h
  init_with-AreWhole true retry keeps d h =
      let d' : Disk C = back_up y (promote y d) in
      after_instance-AreWhole retry keeps (first_instance (y.opens (d' current))) d'
        (back_up-AreWhole (promote y d) (promote-AreWhole d h))

  -- If files can always be removed, initDatabase leaves each of the two backups with all the files of
  -- a database or with none, when it found them so, whichever copies fail and whether or not the
  -- database opens.
  pub init_database-AreWhole :
      (made retry : Bool) (d : Disk C) → AreWhole d → AreWhole (init_database y made retry d).1
  unfolding init_database init_once
  init_database-AreWhole made false d h =
      init_with-AreWhole made (λ e. (no_database, e)) (λ e k. k) d h
  init_database-AreWhole made true d h =
      init_with-AreWhole made (λ e. init_with y made (λ e. (no_database, e)) e)
        (λ e k. init_with-AreWhole made (λ e. (no_database, e)) (λ e k. k) e k) d h
