-- ===== src/Storage/Backups.antt =====
-- ResourcesDatabaseInitializer::initDatabase (src/service/plugins/sqlite/Database.cpp): the three
-- places for the files of the database. What SQLite itself writes to the files is not modelled.
use kactivitymanagerd.Storage.Connections.{Answer, found, null, fatal, first_instance}
use kactivitymanagerd.Prelude.{
  ℕ, Bool, true, false, not, ◌&&◌, Option, none, is_some, List, [], ◌∷◌, ◌≡◌, ◌↔◌, arith, Eq, ◌==◌,
  nat_beq, if◌then◌else◌,
}

-- the directories `resources`, `resources/test-backup` and `resources/working-backup`
pub data Place : Type 0 where
  current test_backup working_backup : Place

-- databaseFiles
pub data DatabaseFile : Type 0 where
  database database_wal database_shm : DatabaseFile

abbrev pub place_code : Place → ℕ
place_code current = 0
place_code test_backup = 1
place_code working_backup = 2

abbrev pub file_code : DatabaseFile → ℕ
file_code database = 0
file_code database_wal = 1
file_code database_shm = 2

pub place_code-injective : (p q : Place) → (nat_beq (place_code p) (place_code q) ≡ true) ↔ (p ≡ q)
place_code-injective p q = (λ h. ground arith, λ h. ground arith)

pub file_code-injective :
    (p q : DatabaseFile) → (nat_beq (file_code p) (file_code q) ≡ true) ↔ (p ≡ q)
file_code-injective p q = (λ h. ground arith, λ h. ground arith)

instance abbrev pub place_eq : Eq Place
place_eq = record {
  beq = λ p q. nat_beq (place_code p) (place_code q);
  beq_iff = place_code-injective;
}

instance abbrev pub file_eq : Eq DatabaseFile
file_eq = record { beq = λ p q. nat_beq (file_code p) (file_code q); beq_iff = file_code-injective }

abbrev pub database_files : List DatabaseFile
database_files = database ∷ database_wal ∷ database_shm ∷ []

-- the content of each file, of type `C`
abbrev pub Disk : Type 0 → Type 0
Disk C = Place → DatabaseFile → Option C

-- What the file system and SQLite answer: whether a file can be removed and copied, whether
-- QSqlDatabase::open succeeds for the files in `resources`, and whether initSchema then reports an
-- error.
pub record System (C : Type 0) : Type 0 where
  pub can_remove : Place → DatabaseFile → Bool
  pub can_copy : Place → Place → DatabaseFile → Bool
  pub opens : (DatabaseFile → Option C) → Bool
  pub reports_error : (DatabaseFile → Option C) → Bool

-- what initDatabase comes to: there is a database or there is none, or the program has ended
pub data Outcome : Type 0 where
  ready no_database ended : Outcome

module _ {C : Type 0} where
  abbrev pub put : Place → DatabaseFile → Option C → Disk C → Disk C
  put p x c d q y = if q == p && y == x then c else d q y

  -- removeDatabaseFiles: std::all_of stops at the first file that stays
  unfoldable pub remove_files : System C → Place → List DatabaseFile → Disk C → Bool × Disk C
  remove_files y p [] d = (true, d)
  remove_files y p (x ∷ xs) d =
      let kept = remove_files y p xs d in
      let gone = remove_files y p xs (put p x none d) in
      if not (is_some (d p x)) then kept else if y.can_remove p x then gone else (false, d)

  -- the std::all_of of copyDatabaseFiles; QFile::copy refuses a missing file and an existing target
  unfoldable pub copy_files : System C → Place → Place → List DatabaseFile → Disk C → Bool × Disk C
  copy_files y from to [] d = (true, d)
  copy_files y from to (x ∷ xs) d =
      let copied = copy_files y from to xs (put to x (d from x) d) in
      if is_some (d from x) && not (is_some (d to x)) && y.can_copy from to x
      then copied
      else (false, d)

  -- copyDatabaseFiles
  unfoldable pub copy_database_files : System C → Place → Place → Disk C → Bool × Disk C
  copy_database_files y from to d =
      let removed = remove_files y to database_files d in
      if removed.0 then copy_files y from to database_files removed.1 else removed

  -- databaseFilesExistIn
  abbrev pub files_exist_in : Place → Disk C → Bool
  files_exist_in p d =
      is_some (d p database) && is_some (d p database_wal) && is_some (d p database_shm)

  abbrev pub clear : System C → Place → Disk C → Disk C
  clear y p d = (remove_files y p database_files d).1

  -- `resources/test-backup` becomes `resources/working-backup`
  unfoldable pub promote : System C → Disk C → Disk C
  promote y d =
      let copied = copy_database_files y test_backup working_backup d in
      if files_exist_in test_backup d
      then (if copied.0 then clear y test_backup copied.1 else clear y working_backup copied.1)
      else d

  -- `resources` is copied to `resources/test-backup`
  unfoldable pub back_up : System C → Disk C → Disk C
  back_up y d =
      let copied = copy_database_files y current test_backup d in
      if files_exist_in current d
      then (if copied.0 then copied.1 else clear y test_backup copied.1)
      else d

  -- the handler of Database::error, while initDatabase runs; its databaseFiles is gone afterwards
  abbrev pub on_error : System C → Disk C → Disk C
  on_error y d = clear y test_backup d

  -- the part of initDatabase for a null pointer; `retry` is the recursive call
  unfoldable pub fall_back : System C → (Disk C → Outcome × Disk C) → Disk C → Outcome × Disk C
  fall_back y retry d =
      let d' = clear y test_backup d in
      let copied = copy_database_files y working_backup current d' in
      let again = retry copied.1 in
      if files_exist_in working_backup d'
      then (if copied.0 then again else (no_database, copied.1))
      else (no_database, d')

  -- the part of initDatabase after the answer of Database::instance
  unfoldable pub after_instance :
      System C → (Disk C → Outcome × Disk C) → Answer → Disk C → Outcome × Disk C
  after_instance y retry (found n) d =
      (ready, if y.reports_error (d current) then on_error y d else d)
  after_instance y retry null d = fall_back y retry d
  after_instance y retry fatal d = (ended, d)

  -- the body of initDatabase, and the files; `made` tells whether the directories are there after
  -- mkpath
  unfoldable pub init_with :
      System C → Bool → (Disk C → Outcome × Disk C) → Disk C → Outcome × Disk C
  init_with y made retry d =
      let d' = back_up y (promote y d) in
      let rest = after_instance y retry (first_instance (y.opens (d' current))) d' in
      if not made then (no_database, d) else rest

  -- initDatabase(false)
  unfoldable pub init_once : System C → Bool → Disk C → Outcome × Disk C
  init_once y made d = init_with y made (λ e. (no_database, e)) d

  -- ResourcesDatabaseInitializer::initDatabase, with retryOnFail
  unfoldable pub init_database : System C → Bool → Bool → Disk C → Outcome × Disk C
  init_database y made false d = init_once y made d
  init_database y made true d = init_with y made (init_once y made) d
