-- ===== src/Usage.antt =====
-- app/crud/log_crud.py: `create_usage_log` and `update_usage_log_with_tokens`. The table of the log is
-- a list of entries in the order in which they were made; the id of a new entry is the database's. The
-- time of an entry is left out.
pub mod Entries
use ollama_proxy_server.Prelude.{
  ℕ, ◌+◌, ◌≡◌, refl, Bool, true, false, not, ◌||◌, Option, none, some, List, [], ◌∷◌, ◌++◌, String,
  Error, value_error, Result, ok, err, ℤ, pos, negsuc, pos_part, ltb, leb, ◌==◌, size, take_chars,
  is_nil, if◌then◌else◌,
}

pub record UsageLog : Type 0 where
  pub id : ℕ
  pub api_key_id : ℕ
  pub endpoint : String
  pub status_code : ℕ
  pub server_id : Option ℕ
  pub model : Option String
  pub prompt_tokens : Option ℕ
  pub completion_tokens : Option ℕ
  pub total_tokens : Option ℕ

-- `max(0, int(tokens))` where there are tokens
unfoldable pub non_negative : Option ℤ → Option ℕ
non_negative none = none
non_negative (some tokens) = some (pos_part tokens)

-- the total: the one that is given, or else the sum of the two counts if both are given
unfoldable pub total_of : Option ℤ → Option ℤ → Option ℤ → Option ℕ
total_of prompt completion (some total) = some (pos_part total)
total_of (some prompt) (some completion) none = some (pos_part prompt + pos_part completion)
total_of _ _ none = none

cut_model : Option String → Option String
cut_model none = none
cut_model (some model) = if is_nil model then none else some (take_chars 256 model)

too_long : Option String → Bool
too_long none = false
too_long (some model) = ltb 256 (size model)

unfoldable pub create_usage_log :
    ℕ
    → ℤ
    → String
    → ℤ
    → Option ℕ
    → Option String
    → Option ℤ
    → Option ℤ
    → Option ℤ
    → List UsageLog
    → Result UsageLog × List UsageLog
unfolding cut_model too_long
create_usage_log new_id api_key_id endpoint status_code server_id model prompt completion total
      logs =
    let db_log : UsageLog = record {
      id = new_id;
      api_key_id = pos_part api_key_id;
      endpoint = take_chars 512 endpoint;
      status_code = pos_part status_code;
      server_id = server_id;
      model = cut_model model;
      prompt_tokens = non_negative prompt;
      completion_tokens = non_negative completion;
      total_tokens = total_of prompt completion total;
    } in
    if pos_part api_key_id == 0
    then (err (value_error "Invalid api_key_id"), logs)
    else if ltb 2048 (size endpoint)
    then (err (value_error "Invalid endpoint"), logs)
    else if ltb (pos_part status_code) 100 || ltb 599 (pos_part status_code)
    then (err (value_error "Invalid status_code"), logs)
    else if too_long model
    then (err (value_error "Invalid model name"), logs)
    else (ok db_log, logs ++ db_log ∷ [])

-- `select(UsageLog).filter(UsageLog.id == log_id)` and `.first()`
unfoldable pub find_log : ℕ → List UsageLog → Option UsageLog
find_log log_id [] = none
find_log log_id (entry ∷ logs) = if entry.id == log_id then some entry else find_log log_id logs

or_kept : Option ℕ → Option ℕ → Option ℕ
or_kept none old = old
or_kept (some tokens) old = some tokens

-- the assignments to an entry
unfoldable pub with_tokens : Option ℤ → Option ℤ → Option ℤ → UsageLog → UsageLog
unfolding or_kept
with_tokens prompt completion total entry = record entry {
  prompt_tokens = or_kept (non_negative prompt) entry.prompt_tokens;
  completion_tokens = or_kept (non_negative completion) entry.completion_tokens;
  total_tokens = or_kept (total_of prompt completion total) entry.total_tokens;
}

change_log : ℕ → (UsageLog → UsageLog) → List UsageLog → List UsageLog
change_log log_id change [] = []
change_log log_id change (entry ∷ logs) =
    if entry.id == log_id then change entry ∷ logs else entry ∷ change_log log_id change logs

-- None for an entry that is not there
unfoldable pub update_usage_log_with_tokens :
    ℕ → Option ℤ → Option ℤ → Option ℤ → List UsageLog → Option UsageLog × List UsageLog
unfolding change_log
update_usage_log_with_tokens log_id prompt completion total logs =
    let logs' = change_log log_id (with_tokens prompt completion total) logs in
    (find_log log_id logs', logs')
