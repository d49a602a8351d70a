-- ===== src/Migrations/Definitions.antt =====
-- A definition or a name that has passed its check passes it again, and a name is passed on unchanged.
use Prim.Native.Char.{Char}
use ollama_proxy_server.Prelude.{
  ◌≤◌, ◌≡◌, refl, subst, inl, inr, Bool, true, false, not, ◌&&◌, ◌||◌, String, Error, ok, err, ltb,
  size, strip, drop_while, drop_end, is_nil, is_space, arith, Bool-cases, if◌then◌else◌,
}
use ollama_proxy_server.Migrations.Identifiers.{
  is_valid_sqlite_identifier, sanitize_identifier, validate_column_definition,
}

module _ (p : Char → Bool) where
  drop_end_idem : (s : String) → drop_end p (drop_end p s) ≡ drop_end p s
  unfolding drop_end
  drop_end_idem String.[] = refl
  drop_end_idem (String.◌∷◌ c s) = elim (Bool-cases (p c && is_nil (drop_end p s))) [
    | inl dropped ↦ rw dropped refl
    | inr kept ↦ rw (kept, drop_end_idem s, kept) refl
  ]

  keeps_head :
      (c : Char) (s : String) → p c ≡ false → drop_while p (String.◌∷◌ c s) ≡ String.◌∷◌ c s
  unfolding drop_while
  keeps_head c s other = rw other refl

  strips_again :
      (s : String) → drop_while p (drop_end p (drop_while p s)) ≡ drop_end p (drop_while p s)
  unfolding drop_while drop_end
  strips_again String.[] = refl
  strips_again (String.◌∷◌ c s) = elim (Bool-cases (p c)) [
    | inl space ↦ rw space (strips_again s)
    | inr other ↦ rw (other, other) (keeps_head c (drop_end p s) other)
  ]

  size-drop_end : (s : String) → size (drop_end p s) ≤ size s
  unfolding drop_end size
  size-drop_end String.[] = omega arith
  size-drop_end (String.◌∷◌ c s) = elim (Bool-cases (p c && is_nil (drop_end p s))) [
    | inl dropped ↦ rw dropped (omega arith)
    | inr kept ↦ rw kept (omega (arith, size-drop_end s))
  ]

  size-drop_while : (s : String) → size (drop_while p s) ≤ size s
  unfolding drop_while size
  size-drop_while String.[] = omega arith
  size-drop_while (String.◌∷◌ c s) = elim (Bool-cases (p c)) [
    | inl space ↦ rw space (omega (arith, size-drop_while s))
    | inr other ↦ rw other (omega arith)
  ]

strip_idem : (s : String) → strip (strip s) ≡ strip s
unfolding strip
strip_idem s = rw (strips_again is_space s) (drop_end_idem is_space (drop_while is_space s))

size-strip : (s : String) → size (strip s) ≤ size s
unfolding strip
size-strip s =
    omega (arith, size-drop_end is_space (drop_while is_space s), size-drop_while is_space s)

accepted :
    (long allowed default : Bool) (stripped safe : String) (e e' : Error)
    → (if long
        then err e
        else if allowed
        then ok stripped
        else if default
        then ok stripped
        else err e')
      ≡ ok safe
    → (long ≡ false) × (stripped ≡ safe) × ((allowed || default) ≡ true)
accepted true allowed default stripped safe e e' h = absurd cc
accepted false true default stripped safe e e' h = (refl, cc, refl)
accepted false false true stripped safe e e' h = (refl, cc, refl)
accepted false false false stripped safe e e' h = absurd cc

accepts_again :
    (long allowed default : Bool) (stripped : String) (e e' : Error)
    → long ≡ false
    → (allowed || default) ≡ true
    → (if long
        then err e
        else if allowed
        then ok stripped
        else if default
        then ok stripped
        else err e')
      ≡ ok stripped
accepts_again true allowed default stripped e e' short h = absurd cc
accepts_again false true default stripped e e' short h = refl
accepts_again false false true stripped e e' short h = refl
accepts_again false false false stripped e e' short h = absurd cc

pub validate_idem :
    (definition safe : String)
    → validate_column_definition definition ≡ ok safe
    → validate_column_definition safe ≡ ok safe
unfolding validate_column_definition
validate_idem definition safe h =
    let (short, same, either) =
      accepted (ltb 256 (size definition)) _ _ (strip definition) safe _ _ h in
    subst (λ s. validate_column_definition s ≡ ok s) same
      (rw (strip_idem definition)
        (accepts_again _ _ _ _ _ _ (ground (arith, short, size-strip definition)) either))

checked_name :
    (valid : Bool) (name safe : String) (e : Error)
    → (if not valid then err e else ok name) ≡ ok safe
    → name ≡ safe
checked_name true name safe e h = cc
checked_name false name safe e h = absurd cc

pub sanitize-same : (name safe : String) → sanitize_identifier name ≡ ok safe → name ≡ safe
unfolding sanitize_identifier
sanitize-same name safe h = checked_name (is_valid_sqlite_identifier name) name safe _ h
