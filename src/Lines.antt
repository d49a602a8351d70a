-- ===== src/Lines.antt =====
-- The line buffering of the program's stream readers: a chunk's text joins the buffer, the complete
-- lines are processed, and the rest is kept for the next chunk. `process` handles a line and may
-- raise, which ends the reading. The module below shows that the division into chunks is invisible.
pub mod Split
pub mod Chunks
pub mod Guarded
pub mod Keeps
use ollama_proxy_server.Prelude.{
  ℕ, Bool, true, false, not, ◌&&◌, List, [], ◌∷◌, String, Result, Exec, pure, split, append, is_nil,
  ends_with_newline, if◌then◌else◌,
}
use ollama_proxy_server.Exec.{◌>>=◌, ◌>>◌}

-- `lines[-1]` and `lines[:-1]`
unfoldable pub last_line : List String → String
last_line [] = ""
last_line (x ∷ []) = x
last_line (x ∷ y ∷ ys) = last_line (y ∷ ys)

unfoldable pub init_lines : List String → List String
init_lines [] = []
init_lines (x ∷ []) = []
init_lines (x ∷ y ∷ ys) = x ∷ init_lines (y ∷ ys)

module _ {T : Type 0} (process : String → Exec T (Unit {0})) where
  -- `for line in lines: …`
  pub each_line : List String → Exec T (Unit {0})
  each_line [] = pure tt
  each_line (line ∷ lines) = do process line; each_line lines

  -- `lines = buffer.split("\n")` and `buffer = lines.pop()`
  pub read_chunk : String → String → Exec T String
  read_chunk buffer text =
      let lines = split 10 (append buffer text) in
      do each_line (init_lines lines); pure (last_line lines)

  -- The same with `buffer = lines.pop() if buffer and not text.endswith("\n") else ""`
  pub read_chunk_guarded : String → String → Exec T String
  read_chunk_guarded buffer text =
      let lines = split 10 (append buffer text) in
      if not (is_nil (append buffer text)) && not (ends_with_newline text)
      then (do each_line (init_lines lines); pure (last_line lines))
      else do each_line lines; pure ""
