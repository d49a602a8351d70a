-- ===== src/Tests/Schemas.antt =====
-- The checks of identifiers and column definitions at concrete inputs, and a migration.
use Prim.Native.Char.{Char}
use ollama_proxy_server.Prelude.{
  ◌≡◌, refl, map, ◌++◌, true, false, List, [], ◌∷◌, String, str_eq, ok, Dict, any, size, strip,
  lower, ends_with_newline,
}
use ollama_proxy_server.Migrations.{Engine}
use ollama_proxy_server.Migrations.Identifiers.{
  is_valid_sqlite_identifier, re_match, accepts, may_end, behind, drop_last,
  valid_identifier_pattern, validate_column_definition, word, in_turn, allowed_patterns,
  safe_default_pattern,
}

-- A line feed at the end of an identifier passes the check.
newline_passes : is_valid_sqlite_identifier "users\n" ≡ true
unfolding is_valid_sqlite_identifier re_match accepts may_end behind drop_last
    valid_identifier_pattern size ends_with_newline
newline_passes = refl

quote_fails : is_valid_sqlite_identifier "users;" ≡ false
unfolding is_valid_sqlite_identifier re_match accepts may_end behind drop_last
    valid_identifier_pattern size ends_with_newline
quote_fails = refl

server_type_definition :
    validate_column_definition "VARCHAR DEFAULT 'ollama' NOT NULL"
    ≡ ok "VARCHAR DEFAULT 'ollama' NOT NULL"
unfolding validate_column_definition re_match accepts may_end behind drop_last word in_turn
    allowed_patterns safe_default_pattern size any strip lower ends_with_newline
server_type_definition = refl

abbrev prefixes : String → List String
prefixes String.[] = "" ∷ []
prefixes (String.◌∷◌ c s) = "" ∷ map (String.◌∷◌ c) (prefixes s)

abbrev substrings : String → List String
substrings String.[] = "" ∷ []
substrings (String.◌∷◌ c s) = prefixes (String.◌∷◌ c s) ++ substrings s

-- A database with one table, whose columns are the world. A statement adds each text that stands in it,
-- the name of the column among them.
abbrev sqlite : Engine (List String)
sqlite = record {
  table_exists = λ table w. str_eq table "api_keys";
  columns = λ table w. w;
  execute = λ statement w. (ok tt, substrings statement ++ w);
  set_order = λ names. names;
}

abbrev expected_columns : Dict String
expected_columns =
    ("is_active", "BOOLEAN DEFAULT 1 NOT NULL") ∷ ("rate_limit_requests", "INTEGER") ∷ []
