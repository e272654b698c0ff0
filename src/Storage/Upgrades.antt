-- ===== src/Storage/Upgrades.antt =====
-- What a start with an old database makes of its rows.
use kactivitymanagerd.Prelude.{
  ◌+◌, String, Bool, true, false, Option, some, List, [], ◌∷◌, ◌≡◌, ◌≢◌, ◌∙◌, refl, ap, subst, sym,
  arith, ◌==◌, string_eq, or_default, map, any, if◌then◌else◌, Bool-cases, inl, inr, ==_iff,
}
use kactivitymanagerd.Storage.Migration.{
  Row, Tables, version, before, is_blank, set_activity, set_agent, update_rows, fill_blanks,
  rename_old, run_schema, fill_tables, migrate, init_schema, has_blank,
}

not_before : before version "2015.02.09" ≢ true
not_before h = cc

module _ {P : Type 0} where
  blank_activity-set :
      (rows : List (Row P)) → any (λ r. is_blank r.used_activity) (map set_activity rows) ≡ false
  unfolding any
  blank_activity-set [] = refl
  blank_activity-set (r ∷ rows) = ground (arith, blank_activity-set rows)

  has_blank-set_agent :
      (rows : List (Row P))
      → any (λ r. is_blank r.used_activity) rows ≡ false
      → has_blank (map set_agent rows) ≡ false
  unfolding any has_blank
  has_blank-set_agent [] h = refl
  has_blank-set_agent (r ∷ rows) h = ground (arith, has_blank-set_agent rows)

  fill_blanks-done :
      (keyed : Bool) (rows : List (Row P))
      → (fill_blanks keyed rows).1 ≡ 0
      → has_blank (fill_blanks keyed rows).0 ≡ false
  unfolding fill_blanks update_rows
  fill_blanks-done keyed rows h =
      ground (arith, has_blank-set_agent (map set_activity rows), blank_activity-set rows)

  fill_blanks-free : (rows : List (Row P)) → (fill_blanks false rows).1 ≡ 0
  unfolding fill_blanks update_rows
  fill_blanks-free rows = refl

  abbrev pub blank_in : Option (List (Row P)) → Bool
  blank_in t = has_blank (or_default t [])

  fill_tables-named :
      (s : Tables P)
      → (fill_tables s).errors ≡ s.errors
      → (blank_in (fill_tables s).resource_event ≡ false)
        × (blank_in (fill_tables s).resource_link ≡ false)
        × (blank_in (fill_tables s).resource_score_cache ≡ false)
  unfolding fill_tables
  fill_tables-named s h =
      let l = or_default s.resource_link [] in
      let e = or_default s.resource_event [] in
      let c = or_default s.resource_score_cache [] in
      (
        fill_blanks-done false e (fill_blanks-free e),
        fill_blanks-done true l (omega arith),
        fill_blanks-done true c (omega arith),
      )

  errors-rename_old : (s : Tables P) → (rename_old s).errors ≡ s.errors
  unfolding rename_old
  errors-rename_old s = refl

  schema_version-migrate :
      (found : String) (s : Tables P) → (migrate found s).schema_version ≡ some version
  unfolding migrate fill_tables run_schema
  schema_version-migrate found s = ground arith

  errors-made :
      (found : String) (s : Tables P)
      → (run_schema (if before found "2014.04.14" then rename_old s else s)).errors ≡ s.errors + 1
  unfolding run_schema
  errors-made found s = ground (arith, errors-rename_old s)

  migrate-named :
      (found : String) (s : Tables P)
      → before found "2015.02.09" ≡ true
      → (migrate found s).errors ≡ s.errors + 1
      → (blank_in (migrate found s).resource_event ≡ false)
        × (blank_in (migrate found s).resource_link ≡ false)
        × (blank_in (migrate found s).resource_score_cache ≡ false)
  unfolding migrate
  migrate-named found s old e =
      let made : Tables P = run_schema (if before found "2014.04.14" then rename_old s else s) in
      rw old (fill_tables-named made (rw old at e ∙ sym (errors-made found s)))

  init_schema-current : (s : Tables P) → s.schema_version ≡ some version → init_schema s ≡ s
  unfolding init_schema
  init_schema-current s e =
      let same : (or_default s.schema_version "" == version) ≡ true =
        ap (λ (o : Option String). or_default o "" == version) e in
      rw same refl

  init_schema-old :
      (s : Tables P)
      → before (or_default s.schema_version "") "2015.02.09" ≡ true
      → init_schema s ≡ migrate (or_default s.schema_version "") s
  unfolding init_schema
  init_schema-old s old = elim (Bool-cases (or_default s.schema_version "" == version)) [
    | inr other ↦ rw other refl
    | inl same ↦ absurd (
        not_before (
          subst (λ (f : String). before f "2015.02.09" ≡ true)
            ((==_iff (or_default s.schema_version "") version).0 same) old))
  ]

  -- A database whose schema is older than 2015.02.09, and of which initSchema reports no error but the
  -- one for ".tables", has afterwards no row with a missing or empty activity or agent in
  -- ResourceEvent, ResourceLink and ResourceScoreCache; its version is the current one, and the next
  -- initSchema changes nothing.
  pub init_schema-named :
      (s : Tables P)
      → before (or_default s.schema_version "") "2015.02.09" ≡ true
      → (init_schema s).errors ≡ s.errors + 1
      → (blank_in (init_schema s).resource_event ≡ false)
        × (blank_in (init_schema s).resource_link ≡ false)
        × (blank_in (init_schema s).resource_score_cache ≡ false)
        × ((init_schema s).schema_version ≡ some version)
        × (init_schema (init_schema s) ≡ init_schema s)
  init_schema-named s old e =
      let found = or_default s.schema_version "" in
      let named = migrate-named found s old (rw (init_schema-old s old) at e) in
      let done = schema_version-migrate found s in
      rw (init_schema-old s old)
        (named.0, named.1, named.2, done, init_schema-current (migrate found s) done)
