-- ===== src/Migrations/Identifiers.antt =====
-- app/database/migrations.py: the checks of identifiers and of column definitions, with the regular
-- expressions that they use. `\d` is taken for the ASCII digits, `\s` for the white space of `strip`.
use Prim.Native.Char.{Char, code}
use ollama_proxy_server.Prelude.{
  ℕ, Bool, true, false, not, ◌&&◌, ◌||◌, List, [], ◌∷◌, String, Result, ok, err, value_error,
  str_eq, leb, ltb, ◌==◌, size, join, lower, strip, is_space, any, ends_with_newline, if◌then◌else◌,
}

pub data Regex : Type 0 where
  never : Regex
  done : Regex
  one : (Char → Bool) → Regex
  both : Regex → Regex → Regex
  either : Regex → Regex → Regex
  star : Regex → Regex

unfoldable pub may_end : Regex → Bool
may_end never = false
may_end done = true
may_end (one p) = false
may_end (both r s) = may_end r && may_end s
may_end (either r s) = may_end r || may_end s
may_end (star r) = true

-- The two constructors where one side never matches
abbrev both_of : Regex → Regex → Regex
both_of never s = never
both_of r s = both r s

abbrev either_of : Regex → Regex → Regex
either_of never s = s
either_of r s = either r s

-- What is left to match behind a character
unfoldable pub behind : Char → Regex → Regex
behind c never = never
behind c done = never
behind c (one p) = if p c then done else never
behind c (both r s) =
    let first = both_of (behind c r) s in
    let second = behind c s in if may_end r then either_of first second else first
behind c (either r s) = either_of (behind c r) (behind c s)
behind c (star r) = both_of (behind c r) (star r)

unfoldable pub accepts : Regex → String → Bool
accepts r String.[] = may_end r
accepts r (String.◌∷◌ c s) = accepts (behind c r) s

unfoldable pub drop_last : String → String
drop_last String.[] = ""
drop_last (String.◌∷◌ c String.[]) = ""
drop_last (String.◌∷◌ c (String.◌∷◌ d s)) = String.◌∷◌ c (drop_last (String.◌∷◌ d s))

-- `re.match("^…$", s)`: `$` also stands in front of a last line feed.
unfoldable pub re_match : Regex → String → Bool
re_match r s = accepts r s || ends_with_newline s && accepts r (drop_last s)

abbrev between : ℕ → ℕ → Char → Bool
between low high c = leb low (code c) && leb (code c) high

abbrev starts_name : Char → Bool
starts_name c = between 97 122 c || between 65 90 c || code c == 95

abbrev goes_on : Char → Bool
goes_on c = starts_name c || between 48 57 c

unfoldable pub valid_identifier_pattern : Regex
valid_identifier_pattern = both (one starts_name) (star (one goes_on))

unfoldable pub is_valid_sqlite_identifier : String → Bool
is_valid_sqlite_identifier identifier =
    if ltb 128 (size identifier) then false else re_match valid_identifier_pattern identifier

unfoldable pub sanitize_identifier : String → Result String
sanitize_identifier identifier =
    if not (is_valid_sqlite_identifier identifier)
    then err (
        value_error (
          join "" (
            "Invalid SQLite identifier: '" ∷ identifier
            ∷ "'. Identifiers must match pattern ^[a-zA-Z_][a-zA-Z0-9_]*$ and be at most 128 characters."
            ∷ [])))
    else ok identifier

-- The expressions of `validate_column_definition`, which ignore case
unfoldable pub word : String → Regex
word String.[] = done
word (String.◌∷◌ c s) =
    both (one (λ d. str_eq (lower (String.◌∷◌ c String.[])) (lower (String.◌∷◌ d String.[]))))
      (word s)

unfoldable pub in_turn : List Regex → Regex
in_turn [] = done
in_turn (r ∷ []) = r
in_turn (r ∷ s ∷ rest) = both r (in_turn (s ∷ rest))

abbrev spaces : Regex
spaces = star (one is_space)

abbrev spaces1 : Regex
spaces1 = both (one is_space) spaces

abbrev digits : Regex
digits = both (one (between 48 57)) (star (one (between 48 57)))

abbrev not_null : Regex
not_null = in_turn (word "NOT" ∷ spaces1 ∷ word "NULL" ∷ [])

unfoldable pub allowed_patterns : List Regex
allowed_patterns =
    word "JSON"
    ∷ word "DATETIME"
    ∷ both (word "VARCHAR")
        (either (in_turn (spaces ∷ word "(" ∷ spaces ∷ digits ∷ spaces ∷ word ")" ∷ [])) done)
    ∷ in_turn (word "VARCHAR" ∷ spaces1 ∷ not_null ∷ [])
    ∷ word "INTEGER"
    ∷ in_turn (word "INTEGER" ∷ spaces1 ∷ not_null ∷ [])
    ∷ in_turn
        (word "INTEGER" ∷ spaces1 ∷ not_null ∷ spaces1 ∷ word "PRIMARY" ∷ spaces1 ∷ word "KEY" ∷ [])
    ∷ in_turn
        (word "INTEGER" ∷ spaces1 ∷ not_null ∷ spaces1 ∷ word "DEFAULT" ∷ spaces1 ∷ digits ∷ [])
    ∷ word "BOOLEAN"
    ∷ in_turn (word "BOOLEAN" ∷ spaces1 ∷ not_null ∷ [])
    ∷ in_turn (
        word "BOOLEAN"
        ∷ spaces1
        ∷ not_null
        ∷ spaces1
        ∷ word "DEFAULT"
        ∷ spaces1
        ∷ either (word "0") (word "1")
        ∷ [])
    ∷ in_turn (
        word "BOOLEAN"
        ∷ spaces1
        ∷ word "DEFAULT"
        ∷ spaces1
        ∷ either (word "0") (either (word "1") (either (word "TRUE") (word "FALSE")))
        ∷ spaces1
        ∷ not_null
        ∷ [])
    ∷ in_turn
        (word "BOOLEAN" ∷ spaces1 ∷ word "DEFAULT" ∷ spaces1 ∷ digits ∷ spaces1 ∷ not_null ∷ [])
    ∷ []

unfoldable pub safe_default_pattern : Regex
safe_default_pattern = in_turn (
    either (word "INTEGER") (either (word "VARCHAR") (either (word "TEXT") (word "BOOLEAN")))
    ∷ spaces1
    ∷ word "DEFAULT"
    ∷ spaces1
    ∷ either digits (
        either (in_turn (word "'" ∷ star (one (λ c. not (code c == 39))) ∷ word "'" ∷ []))
          (word "NULL"))
    ∷ spaces
    ∷ either not_null done
    ∷ [])

-- The change to upper case is left out, since the expressions ignore case.
unfoldable pub validate_column_definition : String → Result String
validate_column_definition definition =
    if ltb 256 (size definition)
    then err (value_error "Column definition too long")
    else if any (λ pattern. re_match pattern (strip definition)) allowed_patterns
    then ok (strip definition)
    else if re_match safe_default_pattern (strip definition)
    then ok (strip definition)
    else err (
        value_error (
          join "" (
            "Unsafe column definition rejected: '" ∷ definition
            ∷ "'. Only standard SQLite types with safe constraints are allowed." ∷ [])))
