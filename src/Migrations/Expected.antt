-- ===== src/Migrations/Expected.antt =====
-- The columns that a migration expects, once their names and definitions are checked, and those of them
-- that a table lacks.
use ollama_proxy_server.Prelude.{
  ◌≡◌, refl, ◌∙◌, ap, sym, subst, inl, inr, Bool, true, false, not, Option, some, some-injective,
  List, [], ◌∷◌, map, filter, In, String, str_eq, eq_iff, Result, ok, err, Dict, lookup, insert,
  lookup-insert, Bool-cases, if◌then◌else◌,
}
use ollama_proxy_server.Migrations.{has, keep_checked, sanitize_expected, missing_columns}
use ollama_proxy_server.Migrations.Identifiers.{sanitize_identifier, validate_column_definition}
use ollama_proxy_server.Migrations.Definitions.{validate_idem, sanitize-same}
use ollama_proxy_server.Proxy.Routing.Candidates.{In-filter}

-- What the loop may read for a name: a definition that has passed its check
abbrev pub IsChecked : String → Option String → Type 0
IsChecked name found =
    (definition : String) × ((found ≡ some definition)
      × ((sanitize_identifier name ≡ ok name)
          × (validate_column_definition definition ≡ ok definition)))

abbrev AllChecked : Dict String → Type 0
AllChecked columns =
    (name definition : String)
    → lookup name columns ≡ some definition
    → IsChecked name (some definition)

pub nothing-IsChecked : AllChecked []
unfolding lookup
nothing-IsChecked name definition h = absurd cc

insert-AllChecked :
    (key value : String) (columns : Dict String)
    → sanitize_identifier key ≡ ok key
    → validate_column_definition value ≡ ok value
    → AllChecked columns
    → AllChecked (insert key value columns)
insert-AllChecked key value columns k v checked name definition h =
    elim (Bool-cases (str_eq key name)) [
      | inl same ↦
          subst (λ n. IsChecked n (some definition)) ((eq_iff key name).0 same)
            (subst (λ d. IsChecked key (some d)) (found same) (value, (refl, (k, v))))
      | inr other ↦ checked name definition (
          ap (λ b. if b then some value else lookup name columns) (sym other)
          ∙ sym (lookup-insert key name value columns)
          ∙ h)
    ]
  where
    found : str_eq key name ≡ true → value ≡ definition
    found same = some-injective (
        ap (λ b. if b then some value else lookup name columns) (sym same)
        ∙ sym (lookup-insert key name value columns)
        ∙ h)

keep_checked-AllChecked :
    (name definition : String) (found defined : Result String) (columns : Dict String)
    → sanitize_identifier name ≡ found
    → validate_column_definition definition ≡ defined
    → AllChecked columns
    → AllChecked (keep_checked found defined columns)
unfolding keep_checked
keep_checked-AllChecked name definition (ok safe) (ok safe_def) columns f d checked =
    insert-AllChecked safe safe_def columns
      (subst (λ n. sanitize_identifier n ≡ ok safe) (sanitize-same name safe f) f)
      (validate_idem definition safe_def d) checked
keep_checked-AllChecked name definition (ok safe) (err e) columns f d checked = checked
keep_checked-AllChecked name definition (err e) defined columns f d checked = checked

pub sanitize_expected-IsChecked :
    (expected columns : Dict String)
    → AllChecked columns
    → AllChecked (sanitize_expected expected columns)
unfolding sanitize_expected
sanitize_expected-IsChecked [] columns checked = checked
sanitize_expected-IsChecked ((name, definition) ∷ rest) columns checked =
    sanitize_expected-IsChecked rest _
      (keep_checked-AllChecked name definition _ _ columns refl refl checked)

abbrev pub IsThere : String → Dict String → Type 0
IsThere name columns = (definition : String) × (lookup name columns ≡ some definition)

insert-IsThere :
    (key value name : String) (columns : Dict String)
    → IsThere name columns
    → IsThere name (insert key value columns)
insert-IsThere key value name columns (definition, h) = elim (Bool-cases (str_eq key name)) [
  | inl same ↦ (value, rw (lookup-insert key name value columns, same) refl)
  | inr other ↦ (definition, rw (lookup-insert key name value columns, other) h)
]

keep_checked-IsThere :
    (name : String) (found defined : Result String) (columns : Dict String)
    → IsThere name columns
    → IsThere name (keep_checked found defined columns)
unfolding keep_checked
keep_checked-IsThere name (ok key) (ok value) columns h = insert-IsThere key value name columns h
keep_checked-IsThere name (ok key) (err e) columns h = h
keep_checked-IsThere name (err e) defined columns h = h

stays :
    (name : String) (expected columns : Dict String)
    → IsThere name columns
    → IsThere name (sanitize_expected expected columns)
unfolding sanitize_expected
stays name [] columns h = h
stays name ((key, value) ∷ rest) columns h =
    stays name rest _ (keep_checked-IsThere name _ _ columns h)

pub sanitize_expected-lookup :
    (name definition safe : String) (expected columns : Dict String)
    → In (name, definition) expected
    → sanitize_identifier name ≡ ok name
    → validate_column_definition definition ≡ ok safe
    → IsThere name (sanitize_expected expected columns)
unfolding sanitize_expected keep_checked
sanitize_expected-lookup name definition safe [] columns h n d = absurd h
sanitize_expected-lookup name definition safe ((key, value) ∷ rest) columns (inl same) n d =
    stays name rest _ (
      rw (sym (ap (λ c. c.0) same), sym (ap (λ c. c.1) same), n, d)
        (safe, lookup-insert name name safe columns ∙ rw ((eq_iff name name).1 refl) refl))
sanitize_expected-lookup name definition safe ((key, value) ∷ rest) columns (inr there) n d =
    sanitize_expected-lookup name definition safe rest _ there n d

pub In-keys :
    (name : String) (columns : Dict String)
    → In name (map (λ column. column.0) columns)
    → IsThere name columns
unfolding lookup
In-keys name [] h = absurd h
In-keys name ((key, value) ∷ rest) (inl same) = (value, rw ((eq_iff key name).1 (sym same)) refl)
In-keys name ((key, value) ∷ rest) (inr there) = elim (Bool-cases (str_eq key name)) [
  | inl same ↦ (value, rw same refl)
  | inr other ↦ let (definition, h) = In-keys name rest there in (definition, rw other h)
]

keys-In :
    (name : String) (columns : Dict String)
    → IsThere name columns
    → In name (map (λ column. column.0) columns)
unfolding lookup
keys-In name [] (definition, h) = absurd cc
keys-In name ((key, value) ∷ rest) (definition, h) = elim (Bool-cases (str_eq key name)) [
  | inl same ↦ inl (sym ((eq_iff key name).0 same))
  | inr other ↦ inr (
      keys-In name rest
        (definition, ap (λ b. if b then some value else lookup name rest) (sym other) ∙ h))
]

filter-In :
    {A : Type 0} (p : A → Bool) (a : A) (xs : List A) → In a xs → p a ≡ true → In a (filter p xs)
unfolding filter
filter-In p a [] h keep = h
filter-In p a (x ∷ xs) (inl same) keep = rw (sym same, keep) (inl refl)
filter-In p a (x ∷ xs) (inr there) keep = elim (Bool-cases (p x)) [
  | inl e ↦ rw e (inr (filter-In p a xs there keep))
  | inr e ↦ rw e (filter-In p a xs there keep)
]

pub In-missing :
    (name : String) (columns : Dict String) (existing : List String)
    → IsThere name columns
    → has name existing ≡ false
    → In name (missing_columns columns existing)
unfolding missing_columns
In-missing name columns existing h absent =
    filter-In (λ n. not (has n existing)) name (map (λ column. column.0) columns)
      (keys-In name columns h) (rw absent refl)

pub missing-In :
    (name : String) (columns : Dict String) (existing : List String)
    → In name (missing_columns columns existing)
    → IsThere name columns
unfolding missing_columns
missing-In name columns existing h =
    In-keys name columns (In-filter _ name (map (λ column. column.0) columns) h)
