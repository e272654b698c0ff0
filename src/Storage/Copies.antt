-- ===== src/Storage/Copies.antt =====
-- What the removal and the copying of the database files do to the files.
use kactivitymanagerd.Prelude.{
  true, false, none, List, [], ◌∷◌, ◌≡◌, refl, ◌∙◌, arith, ◌==◌, ==_iff, contains, if◌then◌else◌,
}
use kactivitymanagerd.Storage.Backups.{
  Place, DatabaseFile, database, database_wal, database_shm, place_eq, file_eq, database_files,
  Disk, System, put, remove_files, copy_files, copy_database_files, files_exist_in, clear,
}

module _ {C : Type 0} (y : System C) where
  -- places other than the one that is cleared
  pub remove_files-other :
      (p q : Place) (x : DatabaseFile) (xs : List DatabaseFile) (d : Disk C)
      → (q == p) ≡ false
      → (remove_files y p xs d).1 q x ≡ d q x
  unfolding remove_files
  remove_files-other p q x [] d e = refl
  remove_files-other p q x (f ∷ xs) d e =
      ground
        (arith, remove_files-other p q x xs d e, remove_files-other p q x xs (put p f none d) e)

  pub remove_files-done :
      (p : Place) (x : DatabaseFile) (xs : List DatabaseFile) (d : Disk C)
      → (remove_files y p xs d).0 ≡ true
      → (remove_files y p xs d).1 p x ≡ (if contains xs x then none else d p x)
  unfolding remove_files contains
  remove_files-done p x [] d e = refl
  remove_files-done p x (f ∷ xs) d e = ground (
    arith,
    remove_files-done p x xs d,
    remove_files-done p x xs (put p f none d),
    ==_iff p p,
    ==_iff f x,
    ==_iff x f,
  )

  pub remove_files-total :
      (p : Place) (xs : List DatabaseFile) (d : Disk C)
      → ((x : DatabaseFile) → y.can_remove p x ≡ true)
      → (remove_files y p xs d).0 ≡ true
  unfolding remove_files
  remove_files-total p [] d h = refl
  remove_files-total p (f ∷ xs) d h =
      ground (arith, h f, remove_files-total p xs d h, remove_files-total p xs (put p f none d) h)

  pub copy_files-other :
      (p to q : Place) (x : DatabaseFile) (xs : List DatabaseFile) (d : Disk C)
      → (q == to) ≡ false
      → (copy_files y p to xs d).1 q x ≡ d q x
  unfolding copy_files
  copy_files-other p to q x [] d e = refl
  copy_files-other p to q x (f ∷ xs) d e =
      ground (arith, copy_files-other p to q x xs (put to f (d p f) d) e)

  pub copy_files-done :
      (p to : Place) (x : DatabaseFile) (xs : List DatabaseFile) (d : Disk C)
      → (p == to) ≡ false
      → (copy_files y p to xs d).0 ≡ true
      → (copy_files y p to xs d).1 to x ≡ (if contains xs x then d p x else d to x)
  unfolding copy_files contains
  copy_files-done p to x [] d n e = refl
  copy_files-done p to x (f ∷ xs) d n e = ground (
    arith,
    copy_files-done p to x xs (put to f (d p f) d) n,
    ==_iff to to,
    ==_iff f x,
    ==_iff x f,
  )

  pub every_file : (x : DatabaseFile) → contains database_files x ≡ true
  unfolding contains
  every_file database = refl
  every_file database_wal = refl
  every_file database_shm = refl

  pub clear-done :
      (p : Place) (x : DatabaseFile) (d : Disk C)
      → ((x : DatabaseFile) → y.can_remove p x ≡ true)
      → clear y p d p x ≡ none
  clear-done p x d h =
      remove_files-done p x database_files d (remove_files-total p database_files d h)
      ∙ rw (every_file x) refl

  pub copy-other :
      (p to q : Place) (x : DatabaseFile) (d : Disk C)
      → (q == to) ≡ false
      → (copy_database_files y p to d).1 q x ≡ d q x
  unfolding copy_database_files
  copy-other p to q x d e = ground (
    arith,
    remove_files-other to q x database_files d e,
    copy_files-other p to q x database_files (remove_files y to database_files d).1 e,
  )

  -- a copy that succeeds is complete
  pub copy-done :
      (p to : Place) (x : DatabaseFile) (d : Disk C)
      → (p == to) ≡ false
      → (copy_database_files y p to d).0 ≡ true
      → (copy_database_files y p to d).1 to x ≡ d p x
  unfolding copy_database_files
  copy-done p to x d n e = ground (
    arith,
    every_file x,
    remove_files-other to p x database_files d n,
    copy_files-done p to x database_files (remove_files y to database_files d).1 n,
  )

  copy_files-total :
      (p to : Place) (d : Disk C)
      → (p == to) ≡ false
      → ((x : DatabaseFile) → y.can_copy p to x ≡ true)
      → ((x : DatabaseFile) → d to x ≡ none)
      → files_exist_in p d ≡ true
      → (copy_files y p to database_files d).0 ≡ true
  unfolding copy_files
  copy_files-total p to d n can free e = ground (
    arith,
    can database,
    can database_wal,
    can database_shm,
    free database,
    free database_wal,
    free database_shm,
  )

  -- without faults, a complete set of files can be copied
  pub copy-total :
      (p to : Place) (d : Disk C)
      → (p == to) ≡ false
      → ((x : DatabaseFile) → y.can_remove to x ≡ true)
      → ((x : DatabaseFile) → y.can_copy p to x ≡ true)
      → files_exist_in p d ≡ true
      → (copy_database_files y p to d).0 ≡ true
  unfolding copy_database_files
  copy-total p to d n removes copies e =
      let d' : Disk C = clear y to d in
      let same = λ (x : DatabaseFile). remove_files-other to p x database_files d n in
      rw (remove_files-total to database_files d removes) (
        copy_files-total p to d' n copies (λ x. clear-done to x d removes)
          (rw (same database, same database_wal, same database_shm) e))
