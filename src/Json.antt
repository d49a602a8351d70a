-- ===== src/Json.antt =====
-- JSON values as Python holds them, and the dynamic operations that the program applies to a value
-- whose type it has not checked. Numbers are the integers: a number with a fraction is left out.
-- `json.loads` and `json.dumps` are parameters of the modules that call them.
pub mod Dynamic
pub mod Updates
use ollama_proxy_server.Prelude.{
  ◌≡◌, refl, Bool, true, false, not, ◌||◌, Option, none, some, is_some, List, [], ◌∷◌, String,
  type_error, attribute_error, key_error, Result, ok, err, ℤ, pos, negsuc, ◌+ℤ◌, str_eq, contains,
  append, is_nil, if◌then◌else◌, ◌==◌,
}

mutual
  pub data Json : Type 0 where
    null : Json
    bool : Bool → Json
    int : ℤ → Json
    str : String → Json
    arr : Items → Json
    obj : Fields → Json

  pub data Items : Type 0 where
    nil : Items
    cons : Json → Items → Items

  pub data Fields : Type 0 where
    end : Fields
    field : String → Json → Fields → Fields

-- `d.get(key)`, without the default
unfoldable pub find : String → Fields → Option Json
find key end = none
find key (field k v fs) = if str_eq k key then some v else find key fs

-- `d[key] = v`: an old key keeps its place
unfoldable pub put : String → Json → Fields → Fields
put key v end = field key v end
put key v (field k w fs) = if str_eq k key then field k v fs else field k w (put key v fs)

-- `del d[key]`
unfoldable pub del_key : String → Fields → Fields
del_key key end = end
del_key key (field k w fs) =
    let rest = del_key key fs in if str_eq k key then rest else field k w rest

abbrev pub to_list : Items → List Json
to_list nil = []
to_list (cons x xs) = x ∷ to_list xs

abbrev pub from_list : List Json → Items
from_list [] = nil
from_list (x ∷ xs) = cons x (from_list xs)

abbrev pub append_items : Items → Items → Items
append_items nil ys = ys
append_items (cons x xs) ys = cons x (append_items xs ys)

abbrev pub has_key : String → Fields → Bool
has_key key fs = is_some (find key fs)

abbrev pub is_null : Json → Bool
is_null null = true
is_null _ = false

abbrev pub is_object : Json → Bool
is_object (obj fs) = true
is_object _ = false

abbrev pub or_null : Option Json → Json
or_null none = null
or_null (some v) = v

-- `bool(v)`
unfoldable pub truthy : Json → Bool
truthy null = false
truthy (bool b) = b
truthy (int (pos n)) = not (n == 0)
truthy (int (negsuc n)) = true
truthy (str s) = not (is_nil s)
truthy (arr nil) = false
truthy (arr (cons x xs)) = true
truthy (obj end) = false
truthy (obj (field k v fs)) = true

-- `v is True`
abbrev pub is_true : Json → Bool
is_true (bool b) = b
is_true _ = false

abbrev is_text : String → Json → Bool
is_text key (str s) = str_eq s key
is_text key _ = false

item_in : String → Items → Bool
item_in key nil = false
item_in key (cons x xs) = is_text key x || item_in key xs

-- `key in v`
unfoldable pub contains_key : String → Json → Result Bool
unfolding item_in
contains_key key (obj fs) = ok (has_key key fs)
contains_key key (str s) = ok (contains key s)
contains_key key (arr xs) = ok (item_in key xs)
contains_key key _ = err (type_error "argument is not iterable")

-- `v.get(key)`
unfoldable pub get : String → Json → Result Json
get key (obj fs) = ok (or_null (find key fs))
get key _ = err (attribute_error "no attribute 'get'")

or_key_error : String → Option Json → Result Json
or_key_error key none = err (key_error key)
or_key_error key (some v) = ok v

-- `v[key]`
unfoldable pub index : String → Json → Result Json
unfolding or_key_error
index key (obj fs) = or_key_error key (find key fs)
index key _ = err (type_error "not indexed by a text")

abbrev bit : Bool → ℤ
bit true = pos 1
bit false = pos 0

-- `a + b`
unfoldable pub add : Json → Json → Result Json
add (int a) (int b) = ok (int (a +ℤ b))
add (int a) (bool b) = ok (int (a +ℤ bit b))
add (bool a) (int b) = ok (int (bit a +ℤ b))
add (bool a) (bool b) = ok (int (bit a +ℤ bit b))
add (str s) (str t) = ok (str (append s t))
add (arr xs) (arr ys) = ok (arr (append_items xs ys))
add _ _ = err (type_error "unsupported operand type(s) for +")

pub get_raises :
    (key : String) (v : Json)
    → is_object v ≡ false
    → get key v ≡ err (attribute_error "no attribute 'get'")
unfolding get
get_raises key (obj fs) h = cc
get_raises key _ h = refl
