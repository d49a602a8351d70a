-- ===== src/Services/Contexts.antt =====
-- app/services/context_diff.py: `ContextDiffer`. The hashes are an association list by conversation and
-- segment; `digest` is the first sixteen digits of the hash of a text.
use ollama_proxy_server.Prelude.{
  ◌≡◌, refl, inl, inr, Bool, false, not, ◌&&◌, Option, none, some, List, [], ◌∷◌, String, str_eq,
  if◌then◌else◌, Bool-cases,
}

pub record ContextSegment : Type 0 where
  pub id : String
  pub content : String

pub record StoredHash : Type 0 where
  pub conversation_id : String
  pub segment_id : String
  pub segment_hash : String

-- `self.hashes.get(conversation_id, {}).get(segment_id)`
unfoldable pub stored_hash : String → String → List StoredHash → Option String
stored_hash conversation_id segment_id [] = none
stored_hash conversation_id segment_id (h ∷ hashes) =
    if str_eq h.conversation_id conversation_id && str_eq h.segment_id segment_id
    then some h.segment_hash
    else stored_hash conversation_id segment_id hashes

is_hash : String → Option String → Bool
is_hash segment_hash none = false
is_hash segment_hash (some old) = str_eq old segment_hash

-- `_has_changed`
unfoldable pub has_changed : String → String → String → List StoredHash → Bool
unfolding is_hash
has_changed conversation_id segment_id segment_hash hashes =
    not (is_hash segment_hash (stored_hash conversation_id segment_id hashes))

-- `_update_hash`; a new entry hides the old one
unfoldable pub update_hash : String → String → String → List StoredHash → List StoredHash
update_hash conversation_id segment_id segment_hash hashes =
    record {
      conversation_id = conversation_id;
      segment_id = segment_id;
      segment_hash = segment_hash;
    }
    ∷ hashes

module _ (digest : String → String) (conversation_id : String) where
  -- the changed segments, and the hashes behind the loop
  unfoldable pub compute_delta :
      List ContextSegment → List StoredHash → List ContextSegment × List StoredHash
  compute_delta [] hashes = ([], hashes)
  compute_delta (segment ∷ segments) hashes =
      let segment_hash = digest segment.content in
      let same = compute_delta segments hashes in
      let (delta, hashes') =
        compute_delta segments (update_hash conversation_id segment.id segment_hash hashes) in
      if has_changed conversation_id segment.id segment_hash hashes
      then (segment ∷ delta, hashes')
      else same

  -- Each segment's stored hash is that of its content.
  abbrev pub UpToDate : List ContextSegment → List StoredHash → Type 0
  UpToDate [] hashes = Unit
  UpToDate (segment ∷ segments) hashes =
      (has_changed conversation_id segment.id (digest segment.content) hashes ≡ false)
      × UpToDate segments hashes

  -- The delta of a context is empty, and the hashes stay as they are, exactly if each of its segments
  -- has the stored hash.
  pub compute_delta_iff :
      (segments : List ContextSegment) (hashes : List StoredHash)
      → (UpToDate segments hashes → compute_delta segments hashes ≡ ([], hashes))
        × ((compute_delta segments hashes).0 ≡ [] → UpToDate segments hashes)
  unfolding compute_delta
  compute_delta_iff [] hashes = (λ h. refl, λ h. tt)
  compute_delta_iff (segment ∷ segments) hashes =
      let (up, down) = compute_delta_iff segments hashes in
      elim (Bool-cases (has_changed conversation_id segment.id (digest segment.content) hashes)) [
        | inl new ↦ rw new (λ h. absurd cc, λ h. absurd cc)
        | inr old ↦ rw old (λ h. up h.1, λ h. (refl, down h))
      ]
