-- ===== src/Json/Updates.antt =====
-- What an object holds behind an assignment.
use ollama_proxy_server.Prelude.{◌≡◌, ap, none, some, String, arith, str_eq, eq_iff, if◌then◌else◌}
use ollama_proxy_server.Json.{Json, str, Fields, end, field, find, put, del_key}

pub find-put :
    (key other : String) (value : Json) (fields : Fields)
    → find other (put key value fields)
      ≡ (if str_eq key other then some value else find other fields)
unfolding find put
find-put key other value end = ground arith
find-put key other value (field k v fields) =
    ground (arith, find-put key other value fields, eq_iff k key, eq_iff k other, eq_iff key other)

text_or : String → Json → String
text_or default (str s) = s
text_or default v = default

pub str-injective : {s t : String} → str s ≡ str t → s ≡ t
unfolding text_or
str-injective {s} e = ap (text_or s) e

pub find-del_key :
    (key other : String) (fields : Fields)
    → find other (del_key key fields) ≡ (if str_eq key other then none else find other fields)
unfolding find del_key
find-del_key key other end = ground arith
find-del_key key other (field k v fields) =
    ground (arith, find-del_key key other fields, eq_iff k key, eq_iff k other, eq_iff key other)
