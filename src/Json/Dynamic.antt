-- ===== src/Json/Dynamic.antt =====
-- The dynamic operations on JSON values that read past a first level: a default for a missing key,
-- the first item, what a `for` loop runs over, and `str.join`.
use ollama_proxy_server.Prelude.{
  Bool, true, false, Option, none, some, List, [], ◌∷◌, String, type_error, attribute_error,
  key_error, index_error, Result, ok, err, append, join, if◌then◌else◌, Dict,
}
use ollama_proxy_server.Raises.{◌>>=◌}
use ollama_proxy_server.Json.{
  Json, str, arr, obj, nil, cons, Fields, end, field, find, put, contains_key, index, to_list,
  from_list,
}

abbrev pub or_else : Json → Option Json → Json
or_else default none = default
or_else default (some v) = v

-- `v.get(key, default)`
unfoldable pub get_or : String → Json → Json → Result Json
get_or key default (obj fs) = ok (or_else default (find key fs))
get_or key default _ = err (attribute_error "no attribute 'get'")

-- `v[0]`
unfoldable pub first_of : Json → Result Json
first_of (arr nil) = err (index_error "list index out of range")
first_of (arr (cons x xs)) = ok x
first_of (str String.[]) = err (index_error "string index out of range")
first_of (str (String.◌∷◌ c s)) = ok (str (String.◌∷◌ c String.[]))
first_of (obj fs) = err (key_error "0")
first_of _ = err (type_error "object is not subscriptable")

characters : String → List Json
characters String.[] = []
characters (String.◌∷◌ c s) = str (String.◌∷◌ c String.[]) ∷ characters s

abbrev pub keys : Fields → List Json
keys end = []
keys (field k v fs) = str k ∷ keys fs

-- `for x in v`
unfoldable pub iterate : Json → Result (List Json)
unfolding characters
iterate (arr xs) = ok (to_list xs)
iterate (str s) = ok (characters s)
iterate (obj fs) = ok (keys fs)
iterate _ = err (type_error "object is not iterable")

abbrev pub is_array : Json → Bool
is_array (arr xs) = true
is_array _ = false

abbrev pub is_str : Json → Bool
is_str (str s) = true
is_str _ = false

texts_of : List Json → Result (List String)
texts_of [] = ok []
texts_of (str s ∷ xs) = do rest ← texts_of xs; ok (s ∷ rest)
texts_of (x ∷ xs) = err (type_error "sequence item: expected str instance")

-- `sep.join(v)`
unfoldable pub join_value : String → Json → Result String
unfolding iterate texts_of
join_value sep v = do items ← iterate v; texts ← texts_of items; ok (join sep texts)

-- `s + v` for a text `s`
unfoldable pub add_text : String → Json → Result String
add_text s (str t) = ok (append s t)
add_text s _ = err (type_error "can only concatenate str to str")

-- `v[key] = w`
unfoldable pub assign_key : String → Json → Json → Result Json
assign_key key w (obj fs) = ok (obj (put key w fs))
assign_key key w _ = err (type_error "object does not support item assignment")

-- `key in v`, and then `v[key]`
unfoldable pub get_if_in : String → Json → Result (Option Json)
get_if_in key v = do
  here ← contains_key key v
  if here then (do w ← index key v; ok (some w)) else ok none

-- `[f(x) for x in xs]`, where `f` may raise
module _ {ℓ κ} {A : Type ℓ} {B : Type κ} where
  unfoldable pub each : (A → Result B) → List A → Result (List B)
  each f [] = ok []
  each f (x ∷ xs) = do y ← f x; ys ← each f xs; ok (y ∷ ys)

-- An object of a literal
abbrev pub object : Dict Json → Json
object entries = obj (go entries)
  where
    go : Dict Json → Fields
    go [] = end
    go ((k, v) ∷ rest) = field k v (go rest)

abbrev pub array : List Json → Json
array xs = arr (from_list xs)
