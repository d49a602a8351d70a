-- ===== src/Migrations.antt =====
-- app/database/migrations.py: the columns that are added to the tables of an older database. The
-- database is an Engine over a state of the world; a query of the schema does not fail.
pub mod Identifiers
pub mod Definitions
pub mod Expected
pub mod Complete
use ollama_proxy_server.Prelude.{
  Bool, true, false, not, Option, none, some, List, [], ◌∷◌, map, filter, any, append, String,
  str_eq, Error, key_error, Result, ok, err, Exec, pure, lift, is_empty, Dict, lookup, insert,
  if◌then◌else◌,
}
use ollama_proxy_server.Exec.{◌>>=◌, ◌>>◌}
use ollama_proxy_server.Migrations.Identifiers.{sanitize_identifier, validate_column_definition}

-- `sqlite_master`, `PRAGMA table_info`, the execution of a statement in SQL, and the order in which
-- Python goes through a set
pub record Engine (W : Type 0) : Type 0 where
  pub table_exists : String → W → Bool
  pub columns : String → W → List String
  pub execute : String → Exec W (Unit {0})
  pub set_order : List String → List String

-- The statement that adds a column: a `quoted_name` in a text is the name as it is, without quotes.
unfoldable pub alter_table : String → String → String → String
alter_table table_name column_name definition =
    append "ALTER TABLE "
      (append table_name (append " ADD COLUMN " (append column_name (append " " definition))))

abbrev pub has : String → List String → Bool
has name names = any (str_eq name) names

-- One round of the loop over the expected columns: a ValueError goes on with the next one.
unfoldable pub keep_checked : Result String → Result String → Dict String → Dict String
keep_checked (ok safe_col_name) (ok safe_col_def) checked =
    insert safe_col_name safe_col_def checked
keep_checked (ok safe_col_name) (err e) checked = checked
keep_checked (err e) definition checked = checked

unfoldable pub sanitize_expected : Dict String → Dict String → Dict String
unfolding keep_checked
sanitize_expected [] checked = checked
sanitize_expected ((col_name, col_def) ∷ rest) checked =
    sanitize_expected rest
      (keep_checked (sanitize_identifier col_name) (validate_column_definition col_def) checked)

-- `sanitized_expected[col_name]`
item : String → Option String → Result String
item name none = err (key_error name)
item name (some definition) = ok definition

-- `set(sanitized_expected.keys()) - existing_columns`
unfoldable pub missing_columns : Dict String → List String → List String
missing_columns expected existing =
    filter (λ name. not (has name existing)) (map (λ column. column.0) expected)

-- The columns that each table should have
abbrev table_schemas : List (String × Dict String)
table_schemas =
    (
      "ollama_servers",
      ("available_models", "JSON")
          ∷ ("models_last_updated", "DATETIME")
          ∷ ("last_error", "VARCHAR")
          ∷ ("server_type", "VARCHAR DEFAULT 'ollama' NOT NULL")
          ∷ ("encrypted_api_key", "VARCHAR")
          ∷ [],
    )
    ∷ (
      "api_keys",
      ("is_active", "BOOLEAN DEFAULT 1 NOT NULL")
          ∷ ("is_revoked", "BOOLEAN DEFAULT 0 NOT NULL")
          ∷ ("rate_limit_requests", "INTEGER")
          ∷ ("rate_limit_window_minutes", "INTEGER")
          ∷ [],
    )
    ∷ (
      "usage_logs",
      ("model", "VARCHAR")
          ∷ ("prompt_tokens", "INTEGER")
          ∷ ("completion_tokens", "INTEGER")
          ∷ ("total_tokens", "INTEGER")
          ∷ ("server_id", "INTEGER")
          ∷ [],
    )
    ∷ (
      "model_metadata",
      ("id", "INTEGER NOT NULL PRIMARY KEY")
          ∷ ("model_name", "VARCHAR NOT NULL")
          ∷ ("description", "VARCHAR")
          ∷ ("supports_images", "BOOLEAN NOT NULL DEFAULT 0")
          ∷ ("is_code_model", "BOOLEAN NOT NULL DEFAULT 0")
          ∷ ("is_chat_model", "BOOLEAN NOT NULL DEFAULT 1")
          ∷ ("is_fast_model", "BOOLEAN NOT NULL DEFAULT 0")
          ∷ ("priority", "INTEGER NOT NULL DEFAULT 10")
          ∷ [],
    )
    ∷ []

module _ {W : Type 0} (engine : Engine W) where
  query : {A : Type 0} → (W → A) → Exec W A
  query read w = (ok (read w), w)

  unfoldable pub check_column_exists : String → String → Exec W Bool
  unfolding query
  check_column_exists table_name column_name = do
    safe_table_name ← lift (sanitize_identifier table_name)
    safe_column_name ← lift (sanitize_identifier column_name)
    column_names ← query (engine.columns safe_table_name)
    pure (has safe_column_name column_names)

  unfoldable pub add_unless : Bool → String → String → String → Exec W Bool
  add_unless true table_name column_name definition = pure false
  add_unless false table_name column_name definition =
      engine.execute (alter_table table_name column_name definition) >> pure true

  unfoldable pub add_column_if_missing : String → String → String → Exec W Bool
  unfolding check_column_exists add_unless
  add_column_if_missing table_name column_name column_definition = do
    safe_table_name ← lift (sanitize_identifier table_name)
    safe_column_name ← lift (sanitize_identifier column_name)
    safe_definition ← lift (validate_column_definition column_definition)
    exists ← check_column_exists table_name column_name
    add_unless exists safe_table_name safe_column_name safe_definition

  unfoldable pub get_table_columns : String → Exec W (List String)
  unfolding query
  get_table_columns table_name = do
    safe_table_name ← lift (sanitize_identifier table_name)
    query (engine.columns safe_table_name)

  unfoldable pub add_missing : String → Dict String → List String → Exec W (Unit {0})
  unfolding item
  add_missing table_name expected [] = pure tt
  add_missing table_name expected (col_name ∷ missing) = do
    col_definition ← lift (item col_name (lookup col_name expected))
    added ← add_column_if_missing table_name col_name col_definition
    add_missing table_name expected missing

  unfoldable pub migrate_existing : Bool → String → Dict String → Exec W (Unit {0})
  unfolding get_table_columns sanitize_expected missing_columns add_missing
  migrate_existing false safe_table_name expected_columns = pure tt
  migrate_existing true safe_table_name expected_columns = do
    existing_columns ← get_table_columns safe_table_name
    let expected = sanitize_expected expected_columns []
    let missing = missing_columns expected existing_columns
    (if is_empty missing
        then pure tt
        else add_missing safe_table_name expected (engine.set_order missing))

  unfoldable pub auto_migrate_table : String → Dict String → Exec W (Unit {0})
  unfolding query migrate_existing
  auto_migrate_table table_name expected_columns = do
    safe_table_name ← lift (sanitize_identifier table_name)
    exists ← query (engine.table_exists safe_table_name)
    migrate_existing exists safe_table_name expected_columns

  -- `for table_name, expected_columns in table_schemas.items()`
  unfoldable pub migrate_tables : List (String × Dict String) → Exec W (Unit {0})
  unfolding auto_migrate_table
  migrate_tables [] = pure tt
  migrate_tables ((table_name, expected_columns) ∷ schemas) =
      auto_migrate_table table_name expected_columns >> migrate_tables schemas

  -- The part of `run_all_migrations` that adds columns
  unfoldable pub migrate_schemas : Exec W (Unit {0})
  unfolding migrate_tables
  migrate_schemas = migrate_tables table_schemas
