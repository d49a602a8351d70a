-- ===== src/Prelude/Texts.antt =====
-- Python's `str` methods that the program calls, over the characters of a text. `lower` changes
-- the ASCII letters only: a text is taken to have no other upper-case letter.
use Prim.Native.Nat.{ℕ, zero, suc, ◌-◌}
use Prim.Native.Char.{Char, code}
use Prim.Native.String
use Prim.Native.String.{String, [], ◌∷◌}
use mathlib.Core.Bool.{Bool, true, false, ◌&&◌, ◌||◌}
use mathlib.Core.List.{List}
use ollama_proxy_server.Prelude.Tests.{leb, ◌==◌, if◌then◌else◌}

abbrev pub append : String → String → String
append s t = String.◌++◌ s t

abbrev pub char_eq : Char → Char → Bool
char_eq c d = code c == code d

abbrev pub is_nil : String → Bool
is_nil [] = true
is_nil (c ∷ s) = false

lower_in : String → String → Char → Char
lower_in [] ls c = c
lower_in (u ∷ us) [] c = c
lower_in (u ∷ us) (l ∷ ls) c = if char_eq u c then l else lower_in us ls c

-- `s.lower()`
unfoldable pub lower : String → String
unfolding lower_in
lower [] = []
lower (c ∷ s) = lower_in "ABCDEFGHIJKLMNOPQRSTUVWXYZ" "abcdefghijklmnopqrstuvwxyz" c ∷ lower s

-- `s.startswith(p)`
unfoldable pub starts_with : String → String → Bool
starts_with s [] = true
starts_with [] (d ∷ p) = false
starts_with (c ∷ s) (d ∷ p) = char_eq c d && starts_with s p

-- `p in s`
unfoldable pub contains : String → String → Bool
unfolding starts_with
contains p [] = starts_with [] p
contains p (c ∷ s) = starts_with (c ∷ s) p || contains p s

-- `s[:n]` and `s[n:]`
unfoldable pub take_chars : ℕ → String → String
take_chars zero s = []
take_chars (suc n) [] = []
take_chars (suc n) (c ∷ s) = c ∷ take_chars n s

unfoldable pub drop_chars : ℕ → String → String
drop_chars zero s = s
drop_chars (suc n) [] = []
drop_chars (suc n) (c ∷ s) = drop_chars n s

-- `len(s)`
unfoldable pub size : String → ℕ
size [] = 0
size (c ∷ s) = suc (size s)

-- Python's white space, as `str.strip` takes it.
unfoldable pub is_space : Char → Bool
is_space c =
    let n = code c in
    (leb 9 n && leb n 13)
    || (leb 28 n && leb n 32)
    || n == 0x85
    || n == 0xa0
    || n == 0x1680
    || (leb 0x2000 n && leb n 0x200a)
    || n == 0x2028
    || n == 0x2029
    || n == 0x202f
    || n == 0x205f
    || n == 0x3000

-- `s.lstrip()` for a class of characters
unfoldable pub drop_while : (Char → Bool) → String → String
drop_while p [] = []
drop_while p (c ∷ s) = if p c then drop_while p s else c ∷ s

-- `s.rstrip()` for a class of characters: a character goes if nothing is left behind it.
unfoldable pub drop_end : (Char → Bool) → String → String
drop_end p [] = []
drop_end p (c ∷ s) = let rest = drop_end p s in if p c && is_nil rest then [] else c ∷ rest

-- `s.strip()`
unfoldable pub strip : String → String
unfolding drop_while drop_end is_space
strip s = drop_end is_space (drop_while is_space s)

pub is_slash : Char → Bool
is_slash c = code c == b'/'

-- `s.rstrip("/")` and `s.lstrip("/")`
unfoldable pub rstrip_slash : String → String
unfolding drop_end is_slash
rstrip_slash s = drop_end is_slash s

unfoldable pub lstrip_slash : String → String
unfolding drop_while is_slash
lstrip_slash s = drop_while is_slash s

-- `s.split(sep)` for a separator of one character, with the part that is read so far
unfoldable pub split_from : ℕ → String → String → List String
split_from sep part [] = List.◌∷◌ part List.[]
split_from sep part (c ∷ s) =
    let closed = split_from sep "" s in
    let longer = split_from sep (append part (c ∷ [])) s in
    if code c == sep then List.◌∷◌ part closed else longer

unfoldable pub split : ℕ → String → List String
unfolding split_from
split sep s = split_from sep "" s

-- `sep.join(parts)`
unfoldable pub join : String → List String → String
join sep List.[] = ""
join sep (List.◌∷◌ x List.[]) = x
join sep (List.◌∷◌ x (List.◌∷◌ y ys)) = append x (append sep (join sep (List.◌∷◌ y ys)))

-- `s.replace(old, new)` for a text `old` of one character
unfoldable pub replace_char : ℕ → String → String → String
replace_char old new [] = []
replace_char old new (c ∷ s) =
    let rest = replace_char old new s in if code c == old then append new rest else c ∷ rest

-- `s.endswith("\n")`
unfoldable pub ends_with_newline : String → Bool
ends_with_newline [] = false
ends_with_newline (c ∷ []) = code c == 10
ends_with_newline (c ∷ d ∷ s) = ends_with_newline (d ∷ s)

-- `s.replace(old, new)` for a text `old` that is not empty; the first argument counts the characters
-- of an occurrence that are still to be passed over
unfoldable pub replace_from : ℕ → String → String → String → String
replace_from skip old new [] = []
replace_from (suc skip) old new (c ∷ s) = replace_from skip old new s
replace_from zero old new (c ∷ s) = elim (starts_with (c ∷ s) old) [
  | true ↦ append new (replace_from (size old - 1) old new s)
  | false ↦ c ∷ replace_from zero old new s
]

unfoldable pub replace : String → String → String → String
unfolding replace_from
replace old new s = replace_from 0 old new s
