-- ===== src/Storage/Migration.antt =====
-- Common::ResourcesDatabaseSchema::initSchema (src/common/database/schema). The versions are ASCII
-- texts, for which QString's `<` is the order of the code units.
use Prim.Native.String.{compare}
use text.Mathlib.Text.{is_lt}
use kactivitymanagerd.Prelude.{
  ℕ, ◌+◌, String, Bool, true, false, ◌&&◌, ◌||◌, Option, none, some, List, [], ◌∷◌, ◌==◌, string_eq,
  or_default, map, any, if◌then◌else◌,
}

-- A row: the three columns that the tables share, and the other columns, of type `P`. A column is
-- NULL, or a text.
pub record Row (P : Type 0) : Type 0 where
  pub used_activity : Option String
  pub initiating_agent : Option String
  pub targetted_resource : Option String
  pub other : P

-- The tables that are there, the two old ones among them, the value of the key `version` in
-- SchemaInfo, and the number of the reported errors.
pub record Tables (P : Type 0) : Type 0 where
  pub schema_version : Option String
  pub nuao_desktop_event : Option (List (Row P))
  pub kext_resource_score_cache : Option (List (Row P))
  pub resource_event : Option (List (Row P))
  pub resource_score_cache : Option (List (Row P))
  pub resource_link : Option (List (Row P))
  pub resource_info : Bool
  pub errors : ℕ

-- ResourcesDatabaseSchema::version
abbrev pub version : String
version = "2015.02.09"

abbrev pub before : String → String → Bool
before a b = is_lt (compare a b)

-- a column that the conditions `IS NULL OR = ''` hold of
abbrev pub is_blank : Option String → Bool
is_blank none = true
is_blank (some s) = s == ""

-- equality of columns; NULL is equal to nothing
abbrev pub same_column : Option String → Option String → Bool
same_column none y = false
same_column (some a) none = false
same_column (some a) (some b) = a == b

-- the old and the new table, as `ALTER TABLE … RENAME TO` leaves them
unfoldable pub rename_table {ℓ} : {A : Type ℓ} → Option A → Option A → Option A × Option A
rename_table none new_table = (none, new_table)
rename_table (some t) none = (none, some t)
rename_table (some t) (some u) = (some t, some u)

-- `CREATE TABLE IF NOT EXISTS`
abbrev pub create_table {ℓ} : {A : Type ℓ} → Option (List A) → Option (List A)
create_table none = some []
create_table (some t) = some t

module _ {P : Type 0} where
  abbrev pub same_key : Row P → Row P → Bool
  same_key r q =
      same_column r.used_activity q.used_activity
      && same_column r.initiating_agent q.initiating_agent
      && same_column r.targetted_resource q.targetted_resource

  -- whether two rows violate the primary key
  unfoldable pub conflicts : List (Row P) → Bool
  conflicts [] = false
  conflicts (r ∷ rs) = any (same_key r) rs || conflicts rs

  abbrev pub set_activity : Row P → Row P
  set_activity r = record r {
    used_activity = if is_blank r.used_activity then some ":global" else r.used_activity;
  }

  abbrev pub set_agent : Row P → Row P
  set_agent r = record r {
    initiating_agent = if is_blank r.initiating_agent then some ":global" else r.initiating_agent;
  }

  -- `UPDATE`: SQLite refuses the whole statement when it violates the primary key; the number of
  -- reported errors
  unfoldable pub update_rows : Bool → (Row P → Row P) → List (Row P) → List (Row P) × ℕ
  update_rows keyed f rows = if keyed && conflicts (map f rows) then (rows, 1) else (map f rows, 0)

  -- updateActivity and updateAgent on one table
  unfoldable pub fill_blanks : Bool → List (Row P) → List (Row P) × ℕ
  fill_blanks keyed rows =
      let a = update_rows keyed set_activity rows in
      let b = update_rows keyed set_agent a.0 in (b.0, a.1 + b.1)

  -- the two `ALTER TABLE` queries, whose errors are ignored
  unfoldable pub rename_old : Tables P → Tables P
  rename_old s =
      let e = rename_table s.nuao_desktop_event s.resource_event in
      let c = rename_table s.kext_resource_score_cache s.resource_score_cache in
      record s {
        nuao_desktop_event = e.0;
        resource_event = e.1;
        kext_resource_score_cache = c.0;
        resource_score_cache = c.1;
      }

  -- the queries of schema(), and the list that begins with ".tables", which is not SQL
  unfoldable pub run_schema : Tables P → Tables P
  run_schema s = record s {
    schema_version = some version;
    resource_event = create_table s.resource_event;
    resource_score_cache = create_table s.resource_score_cache;
    resource_link = create_table s.resource_link;
    resource_info = true;
    errors = s.errors + 1;
  }

  -- the six `UPDATE` queries
  unfoldable pub fill_tables : Tables P → Tables P
  fill_tables s =
      let l = fill_blanks true (or_default s.resource_link []) in
      let e = fill_blanks false (or_default s.resource_event []) in
      let c = fill_blanks true (or_default s.resource_score_cache []) in
      record s {
        resource_link = some l.0;
        resource_event = some e.0;
        resource_score_cache = some c.0;
        errors = s.errors + l.1 + e.1 + c.1;
      }

  -- initSchema, for a database whose version is not the current one
  unfoldable pub migrate : String → Tables P → Tables P
  migrate found s =
      let renamed = if before found "2014.04.14" then rename_old s else s in
      let made = run_schema renamed in if before found "2015.02.09" then fill_tables made else made

  -- ResourcesDatabaseSchema::initSchema
  unfoldable pub init_schema : Tables P → Tables P
  init_schema s =
      let found = or_default s.schema_version "" in if found == version then s else migrate found s

  -- Some row has an empty activity or agent.
  unfoldable pub has_blank : List (Row P) → Bool
  has_blank rows = any (λ r. is_blank r.used_activity || is_blank r.initiating_agent) rows
