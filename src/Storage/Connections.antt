-- ===== src/Storage/Connections.antt =====
-- Common::Database (src/common/database/Database.cpp): one open database for each thread and mode.
-- A database is known by a number; the mutex makes each call one step.
use kactivitymanagerd.Prelude.{
  ℕ, ◌+◌, String, Bool, true, false, not, ◌&&◌, Option, none, some, List, [], ◌∷◌, ◌++◌, ◌≡◌, ◌≢◌,
  ◌↔◌, refl, arith, Eq, ◌==◌, nat_eq, ==_refl, Hash, lookup, insert, lookup-insert, if◌then◌else◌,
}

-- Database::OpenMode
pub data OpenMode : Type 0 where
  read_write read_only : OpenMode

abbrev pub mode_code : OpenMode → ℕ
mode_code read_write = 0
mode_code read_only = 1

-- DatabaseInfo
pub record DatabaseInfo : Type 0 where
  pub thread : ℕ
  pub open_mode : OpenMode

abbrev pub info_beq : DatabaseInfo → DatabaseInfo → Bool
info_beq i j = i.thread == j.thread && mode_code i.open_mode == mode_code j.open_mode

pub mode_code-injective : (m n : OpenMode) → mode_code m ≡ mode_code n → m ≡ n
mode_code-injective m n h = ground arith

pub info_beq_iff : (i j : DatabaseInfo) → (info_beq i j ≡ true) ↔ (i ≡ j)
info_beq_iff i j =
    (λ h. ground (arith, mode_code-injective i.open_mode j.open_mode), λ h. ground arith)

instance abbrev pub info_eq : Eq DatabaseInfo
info_eq = record { beq = info_beq; beq_iff = info_beq_iff }

-- `databases` maps to databases that may be gone (std::weak_ptr); `pragmas` are the queries that
-- setPragma and pragma have sent, with the database, oldest first.
pub record Databases : Type 0 where
  pub databases : Hash DatabaseInfo ℕ
  pub created : ℕ
  pub pragmas : List (ℕ × String)

-- what Database::instance comes to: a database, a null pointer, or the end of the program by qFatal
pub data Answer : Type 0 where
  found : ℕ → Answer
  null fatal : Answer

-- QSqlDatabaseWrapper, with the answer of QSqlDatabase::open; true for a database
unfoldable pub open_failed : OpenMode → Answer
open_failed read_write = fatal
open_failed read_only = null

abbrev pub send : ℕ → String → List (ℕ × String) → List (ℕ × String)
send d query sent = sent ++ (d, query) ∷ []

-- the pragmas of a new database
unfoldable pub set_up : OpenMode → ℕ → List (ℕ × String) → List (ℕ × String)
set_up read_only d sent =
    send d "journal_mode = TRUNCATE" (send d "synchronous = 0" (send d "query_only = 1" sent))
set_up read_write d sent = send d "journal_mode = TRUNCATE" (send d "synchronous = 2" sent)

-- Database::instance, from `Creating a new database instance` on
unfoldable pub create : Bool → DatabaseInfo → Databases → Answer × Databases
create opens info s = if not opens then (open_failed info.open_mode, s) else (
  found s.created,
  record {
    databases = insert info s.created s.databases;
    created = s.created + 1;
    pragmas = set_up info.open_mode s.created s.pragmas;
  },
)

-- the search in `databases`; `alive` tells whether the pointer can be locked
unfoldable pub reuse : (ℕ → Bool) → Bool → DatabaseInfo → Option ℕ → Databases → Answer × Databases
reuse alive opens info none s = create opens info s
reuse alive opens info (some d) s =
    let new = create opens info s in if alive d then (found d, s) else new

-- Database::instance
unfoldable pub instance_of : (ℕ → Bool) → Bool → DatabaseInfo → Databases → Answer × Databases
instance_of alive opens info s = reuse alive opens info (lookup info s.databases) s

-- its answer to the first call of a thread in the mode ReadWrite
abbrev pub first_instance : Bool → Answer
first_instance opens =
    (instance_of (λ d. false) opens (record { thread = 0; open_mode = read_write })
      (record { databases = []; created = 0; pragmas = [] })).0

-- such a call finds a database, or ends the program
pub first_instance_lem : (opens : Bool) → first_instance opens ≡ (if opens then found 0 else fatal)
unfolding instance_of reuse create open_failed lookup
first_instance_lem true = refl
first_instance_lem false = refl

reuse-read_write :
    (alive : ℕ → Bool) (opens : Bool) (thread : ℕ) (o : Option ℕ) (s : Databases)
    → (reuse alive opens (record { thread = thread; open_mode = read_write }) o s).0 ≢ null
unfolding reuse create open_failed
reuse-read_write alive opens thread none s h = ground arith
reuse-read_write alive opens thread (some d) s h = ground arith

-- Database::instance never returns a null pointer for the mode ReadWrite, whether or not the database
-- can be opened: it returns a database, or the program ends.
pub read_write_never_null :
    (alive : ℕ → Bool) (opens : Bool) (thread : ℕ) (s : Databases)
    → (instance_of alive opens (record { thread = thread; open_mode = read_write }) s).0 ≢ null
unfolding instance_of
read_write_never_null alive opens thread s =
    reuse-read_write alive opens thread
      (lookup (record { thread = thread; open_mode = read_write }) s.databases) s

open_failed-ne : (m : OpenMode) (d : ℕ) → open_failed m ≢ found d
unfolding open_failed
open_failed-ne read_write d h = ground arith
open_failed-ne read_only d h = ground arith

reuse-found :
    (alive : ℕ → Bool) (opens : Bool) (info : DatabaseInfo) (o : Option ℕ) (s : Databases) (d : ℕ)
    → lookup info s.databases ≡ o
    → (reuse alive opens info o s).0 ≡ found d
    → lookup info (reuse alive opens info o s).1.databases ≡ some d
unfolding reuse create open_failed
reuse-found alive opens info none s d e h = ground (
  arith,
  lookup-insert info info s.created s.databases,
  ==_refl info,
  open_failed-ne info.open_mode d,
)
reuse-found alive opens info (some c) s d e h = ground (
  arith,
  lookup-insert info info s.created s.databases,
  ==_refl info,
  open_failed-ne info.open_mode d,
)

-- Once Database::instance has returned a database for a thread and a mode, it returns the same one
-- again as long as it is alive, and opens nothing.
pub instance_again :
    (alive alive' : ℕ → Bool) (opens opens' : Bool) (info : DatabaseInfo) (s : Databases) (d : ℕ)
    → (instance_of alive opens info s).0 ≡ found d
    → alive' d ≡ true
    → instance_of alive' opens' info (instance_of alive opens info s).1
      ≡ (found d, (instance_of alive opens info s).1)
unfolding instance_of reuse
instance_again alive alive' opens opens' info s d h live =
    let again = reuse-found alive opens info (lookup info s.databases) s d refl h in
    rw (again, live) refl
