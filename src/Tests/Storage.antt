-- ===== src/Tests/Storage.antt =====
-- The database's files, tables and connections, at fixed inputs.
use kactivitymanagerd.Prelude.{
  ℕ, ◌+◌, string_eq, Bool, true, false, none, some, Option, [], ◌∷◌, ◌≡◌, refl, inl, inr, nat_eq,
  nat_beq, any,
}
use kactivitymanagerd.Storage.Backups.{
  current, test_backup, working_backup, DatabaseFile, database, Disk, System, init_database, ready,
  ended,
}
use kactivitymanagerd.Storage.Recovery.{AreWhole, CanRemove, init_database-AreWhole}
use kactivitymanagerd.Storage.Runs.{IsUntested, IsKept, schema_error_spares_backup}
use kactivitymanagerd.Storage.Fallback.{IsFaultless, closed_replaces_backup}
use kactivitymanagerd.Storage.Migration.{
  Row, Tables, version, init_schema, migrate, fill_tables, run_schema, fill_blanks, update_rows,
  conflicts,
}
use kactivitymanagerd.Storage.Upgrades.{blank_in, init_schema-named}

-- a file opens if it has the content 1
abbrev is_good : Option ℕ → Bool
is_good none = false
is_good (some n) = nat_beq n 1

abbrev machine : System ℕ
machine = record {
  can_remove = λ p x. true;
  can_copy = λ p q x. true;
  opens = λ files. is_good (files database);
  reports_error = λ files. false;
}

machine-IsFaultless : IsFaultless machine
machine-IsFaultless = record { removes = λ p x. refl; copies = λ p q x. refl }

-- the current database does not open, the working backup does, and there is no test backup
abbrev broken : Disk ℕ
broken current x = some 0
broken test_backup x = none
broken working_backup x = some 1

closed_replaces_backup_example :
    let first = init_database machine true true broken in
    let second = init_database machine true true first.1 in
    (first.0 ≡ ended)
    × (second.0 ≡ ended)
    × ((x : DatabaseFile) → second.1 current x ≡ broken current x)
    × ((x : DatabaseFile) → second.1 working_backup x ≡ broken current x)
closed_replaces_backup_example = closed_replaces_backup machine machine-IsFaultless broken refl refl

-- initSchema reports an error
abbrev complaining : System ℕ
complaining = record machine { opens = λ files. true; reports_error = λ files. true }

all_removed : CanRemove complaining
all_removed p x = refl

schema_error_spares_backup_example :
    let first = init_database complaining true true broken in
    (first.0 ≡ ready)
    × IsUntested complaining first.1
    × IsKept complaining first.1 (init_database complaining true true first.1).1
schema_error_spares_backup_example =
    schema_error_spares_backup complaining complaining all_removed all_removed true true true broken
      refl refl

broken-AreWhole : AreWhole broken
broken-AreWhole = (inr (λ x. refl), inl refl)

init_database-AreWhole_example : AreWhole (init_database machine true true broken).1
init_database-AreWhole_example =
    init_database-AreWhole machine (λ p x. refl) true true broken broken-AreWhole

abbrev blank_row : Row ℕ
blank_row = record {
  used_activity = none;
  initiating_agent = some "";
  targetted_resource = some "r";
  other = 7;
}

-- the tables of the version 2014.05.05, each with one row
abbrev old_tables : Tables ℕ
old_tables = record {
  schema_version = some "2014.05.05";
  nuao_desktop_event = none;
  kext_resource_score_cache = none;
  resource_event = some (blank_row ∷ []);
  resource_score_cache = some (blank_row ∷ []);
  resource_link = some (blank_row ∷ []);
  resource_info = true;
  errors = 0;
}

one_error : (init_schema old_tables).errors ≡ old_tables.errors + 1
unfolding init_schema migrate fill_tables run_schema fill_blanks update_rows conflicts any
one_error = refl

init_schema-named_example :
    (blank_in (init_schema old_tables).resource_event ≡ false)
    × (blank_in (init_schema old_tables).resource_link ≡ false)
    × (blank_in (init_schema old_tables).resource_score_cache ≡ false)
    × ((init_schema old_tables).schema_version ≡ some version)
    × (init_schema (init_schema old_tables) ≡ init_schema old_tables)
init_schema-named_example = init_schema-named old_tables refl one_error
