-- ===== src/Migrations/Complete.antt =====
-- A migration that returns leaves no expected column out, and one that raises was refused by the
-- database.
use ollama_proxy_server.Prelude.{
  ◌≡◌, true, false, List, In, String, Error, Result, ok, err, Exec, ends_with_newline, Dict,
}
use ollama_proxy_server.Migrations.{Engine, alter_table, has}
use ollama_proxy_server.Migrations.Identifiers.{sanitize_identifier, validate_column_definition}

-- The name does not end with a line feed, which the checks let pass.
abbrev pub IsPlain : String → Type 0
IsPlain name = ends_with_newline name ≡ false

-- An expected column whose name and definition pass their checks
abbrev pub IsExpected : Dict String → String → Type 0
IsExpected expected name =
    (definition safe : String) × (In (name, definition) expected
      × ((sanitize_identifier name ≡ ok name) × (validate_column_definition definition ≡ ok safe)))

module _ {W : Type 0} (engine : Engine W) where
  -- A column that is added to a table is there afterwards, where the three texts have passed the checks
  -- and neither name ends with a line feed, which the statement would take for white space.
  abbrev pub Adds : Type 0
  Adds =
      (table column definition : String) (w w' : W)
      → sanitize_identifier table ≡ ok table
      → sanitize_identifier column ≡ ok column
      → validate_column_definition definition ≡ ok definition
      → ends_with_newline table ≡ false
      → ends_with_newline column ≡ false
      → engine.execute (alter_table table column definition) w ≡ (ok tt, w')
      → has column (engine.columns table w') ≡ true

  -- To add a column takes no column away, from no table.
  abbrev pub Extends : Type 0
  Extends =
      (table column definition other name : String) (w w' : W)
      → engine.execute (alter_table table column definition) w ≡ (ok tt, w')
      → has name (engine.columns other w) ≡ true
      → has name (engine.columns other w') ≡ true

  abbrev pub Refused : Error → Type 0
  Refused e =
      (table column definition : String) × (w : W) × ((engine.execute
          (alter_table table column definition) w).0
        ≡ err e)

  -- Python goes through a set with all its members and no others.
  abbrev pub IsOrder : Type 0
  IsOrder =
      (names : List String) (name : String)
      → (In name names → In name (engine.set_order names))
        × (In name (engine.set_order names) → In name names)

  -- What is known behind code that is to add the columns for which `New` holds
  abbrev pub After : {A : Type 0} → (String → Type 0) → String → W → Result A × W → Type 0
  After New table w (ok a, w') =
      (column : String)
      → (New column → has column (engine.columns table w') ≡ true)
        × (has column (engine.columns table w) ≡ true → has column (engine.columns table w') ≡ true)
  After New table w (err e, w') = Refused e

  -- The column is there when the code returns; an error is the database's.
  abbrev pub Holds : String → String → Result (Unit {0}) × W → Type 0
  Holds table name (ok a, w') = has name (engine.columns table w') ≡ true
  Holds table name (err e, w') = Refused e
