-- ===== src/Storage/Queries.antt =====
-- The queries of Common::Database (src/common/database/Database.cpp), and Utils::prepare
-- (src/service/plugins/sqlite/Utils.h). QSqlDatabase and QSqlQuery are an interface.
use kactivitymanagerd.Prelude.{
  String, Bool, true, false, not, ◌&&◌, Option, none, some, List, [], ◌∷◌, ◌++◌, if◌then◌else◌,
}

-- A database `D`, its queries `Q` with values `V` and errors `E`. `query` makes a query and executes
-- it; `first` is the first value of the next row, if any.
pub record Sql (D Q V E : Type 0) : Type 0 where
  pub create : D → Q
  pub query : String → D → Q × D
  pub prepare : String → Q → Bool × Q
  pub last_error : Q → E
  pub is_valid : E → Bool
  pub first : Q → Option V

-- A database object: the errors it has sent by the signal `error`, lastExecutedQuery. The
-- oldest errors are the first.
pub record Base (D E : Type 0) : Type 0 where
  pub rows : D
  pub errors : List E
  pub last_executed_query : String

module _ {D Q V E : Type 0} (y : Sql D Q V E) where
  -- Database::reportError
  unfoldable pub report_error : E → Base D E → Base D E
  report_error e s = record s { errors = s.errors ++ e ∷ [] }

  -- Database::execQuery; `debug` is true unless QT_NO_DEBUG is defined
  unfoldable pub exec_query : Bool → String → Bool → Base D E → Q × Base D E
  exec_query debug text ignore_errors s =
      let r = y.query text s.rows in
      let e = y.last_error r.0 in
      let done : Base D E = record s { rows = r.1 } in
      let noted : Base D E = record s { rows = r.1; last_executed_query = text } in
      let is_error = not ignore_errors && y.is_valid e in
      (r.0, if debug then noted else if is_error then report_error e done else done)

  -- Database::execQueries; the result is the last query, or `empty`
  unfoldable pub exec_queries : Bool → Q → List String → Base D E → Q × Base D E
  exec_queries debug empty [] s = (empty, s)
  exec_queries debug empty (text ∷ rest) s =
      let r = exec_query debug text false s in exec_queries debug r.0 rest r.1

  -- Database::value
  unfoldable pub value : Bool → String → Base D E → Option V × Base D E
  value debug text s = let r = exec_query debug text false s in (y.first r.0, r.1)

  -- Utils::prepare, with a query that may not be there yet
  unfoldable pub prepare : D → Option Q → String → Bool × Option Q
  prepare d (some q) text = (true, some q)
  prepare d none text = let r = y.prepare text (y.create d) in (r.0, some r.1)
