-- ===== src/Usage/Entries.antt =====
-- What the usage log holds after entries are made and updated.
use ollama_proxy_server.Prelude.{
  ℕ, ◌+◌, ◌≤◌, ◌≡◌, ◌≢◌, refl, ◌∙◌, ap, inl, inr, true, false, ◌||◌, Option, none, some, List, [],
  ◌∷◌, ◌++◌, String, Result, ok, err, ℤ, pos, negsuc, pos_part, ltb, ◌==◌, size, Bool-cases, arith,
}
use ollama_proxy_server.Usage.{
  UsageLog, too_long, create_usage_log, find_log, or_kept, non_negative, total_of, with_tokens,
  change_log, update_usage_log_with_tokens,
}

-- The entry with the change, if there is one
abbrev pub changed : (UsageLog → UsageLog) → Option UsageLog → Option UsageLog
changed change none = none
changed change (some entry) = some (change entry)

-- A new count, at least 0, in place of the old one, where there is a new one
abbrev pub recount : Option ℤ → Option ℕ → Option ℕ
recount (some (pos n)) old = some n
recount (some (negsuc n)) old = some 0
recount none old = old

-- The new total: the one that is given, or the sum of the two counts, or the old one
abbrev pub recount_total : Option ℤ → Option ℤ → Option ℤ → Option ℕ → Option ℕ
recount_total prompt completion (some total) old = recount (some total) old
recount_total (some prompt) (some completion) none old =
    some (pos_part prompt + pos_part completion)
recount_total _ _ none old = old

-- The entry with new counts and all else as it was
abbrev pub recounted : Option ℤ → Option ℤ → Option ℤ → UsageLog → UsageLog
recounted prompt completion total entry = record entry {
  prompt_tokens = recount prompt entry.prompt_tokens;
  completion_tokens = recount completion entry.completion_tokens;
  total_tokens = recount_total prompt completion total entry.total_tokens;
}

or_kept-non_negative :
    (tokens : Option ℤ) (old : Option ℕ) → or_kept (non_negative tokens) old ≡ recount tokens old
unfolding or_kept non_negative
or_kept-non_negative none old = refl
or_kept-non_negative (some (pos n)) old = refl
or_kept-non_negative (some (negsuc n)) old = refl

or_kept-total_of :
    (prompt completion total : Option ℤ) (old : Option ℕ)
    → or_kept (total_of prompt completion total) old ≡ recount_total prompt completion total old
unfolding or_kept total_of
or_kept-total_of prompt completion (some (pos n)) old = refl
or_kept-total_of prompt completion (some (negsuc n)) old = refl
or_kept-total_of (some p) (some c) none old = refl
or_kept-total_of (some p) none none old = refl
or_kept-total_of none completion none old = refl

with_tokens_lem :
    (prompt completion total : Option ℤ) (entry : UsageLog)
    → with_tokens prompt completion total entry ≡ recounted prompt completion total entry
unfolding with_tokens
with_tokens_lem prompt completion total entry =
    rw
      (
        or_kept-non_negative prompt entry.prompt_tokens,
        or_kept-non_negative completion entry.completion_tokens,
        or_kept-total_of prompt completion total entry.total_tokens,
      )
      refl

changed_lem :
    (prompt completion total : Option ℤ) (found : Option UsageLog)
    → changed (with_tokens prompt completion total) found
      ≡ changed (recounted prompt completion total) found
changed_lem prompt completion total none = refl
changed_lem prompt completion total (some entry) =
    ap some (with_tokens_lem prompt completion total entry)

with_tokens-id :
    (prompt completion total : Option ℤ) (entry : UsageLog)
    → (with_tokens prompt completion total entry).id ≡ entry.id
unfolding with_tokens
with_tokens-id prompt completion total entry = refl

find_log-change_log :
    (log_id : ℕ) (change : UsageLog → UsageLog) (logs : List UsageLog)
    → ((entry : UsageLog) → (change entry).id ≡ entry.id)
    → find_log log_id (change_log log_id change logs) ≡ changed change (find_log log_id logs)
unfolding find_log change_log
find_log-change_log log_id change [] same = refl
find_log-change_log log_id change (entry ∷ logs) same = elim (Bool-cases (entry.id == log_id)) [
  | inl e ↦ rw e (rw (same entry, e) refl)
  | inr e ↦ rw e (rw e (find_log-change_log log_id change logs same))
]

differ : (m n other : ℕ) → (m == n) ≡ true → n ≢ other → (m == other) ≡ false
differ m n other e h = ground (arith, h)

find_log_other :
    (log_id other : ℕ) (change : UsageLog → UsageLog) (logs : List UsageLog)
    → ((entry : UsageLog) → (change entry).id ≡ entry.id)
    → log_id ≢ other
    → find_log other (change_log log_id change logs) ≡ find_log other logs
unfolding find_log change_log
find_log_other log_id other change [] same h = refl
find_log_other log_id other change (entry ∷ logs) same h = elim (Bool-cases (entry.id == log_id)) [
  | inl e ↦ rw e (rw (same entry, differ entry.id log_id other e h) refl)
  | inr e ↦ rw e (elim (Bool-cases (entry.id == other)) [
    | inl o ↦ rw o refl
    | inr o ↦ rw o (find_log_other log_id other change logs same h)
  ])
]

-- The update returns the entry, none where there is no such entry, and leaves every other entry as it
-- was. Each count of the entry is the given one, 0 for a negative one, or else the old one; without a
-- given total, the total is the sum of the two counts if both are given. All else in it is kept.
pub update_usage_log_with_tokens-find_log :
    (log_id : ℕ) (prompt completion total : Option ℤ) (logs : List UsageLog)
    → (let (updated, logs') = update_usage_log_with_tokens log_id prompt completion total logs in
        (updated ≡ changed (recounted prompt completion total) (find_log log_id logs))
        × (find_log log_id logs' ≡ updated)
        × ((other : ℕ) → log_id ≢ other → find_log other logs' ≡ find_log other logs))
unfolding update_usage_log_with_tokens
update_usage_log_with_tokens-find_log log_id prompt completion total logs = (
  find_log-change_log log_id _ logs (with_tokens-id prompt completion total)
      ∙ changed_lem prompt completion total (find_log log_id logs),
  refl,
  λ other. find_log_other log_id other _ logs (with_tokens-id prompt completion total),
)

find_log-append :
    (log_id : ℕ) (logs : List UsageLog) (entry : UsageLog)
    → find_log log_id logs ≡ none
    → entry.id ≡ log_id
    → find_log log_id (logs ++ entry ∷ []) ≡ some entry
unfolding find_log
find_log-append log_id [] entry h e = ground (arith, e)
find_log-append log_id (x ∷ logs) entry h e = ground (arith, find_log-append log_id logs entry)

-- What may come of `create_usage_log`: the entry is in the table, with a status from 100 to 599, or
-- the table is as it was.
abbrev pub IsLogged : ℕ → List UsageLog → Result UsageLog × List UsageLog → Type 0
IsLogged new_id logs (ok entry, logs') =
    (find_log new_id logs' ≡ some entry) × (100 ≤ entry.status_code) × (entry.status_code ≤ 599)
IsLogged new_id logs (err e, logs') = logs' ≡ logs

-- With an id that is not in use, an entry is either made, and then it is found under its id and has a
-- status from 100 to 599, or refused, and then the table stays as it was.
pub create_usage_log-IsLogged :
    (new_id : ℕ) (api_key_id : ℤ) (endpoint : String) (status_code : ℤ) (server_id : Option ℕ)
    (model : Option String) (prompt completion total : Option ℤ) (logs : List UsageLog)
    → find_log new_id logs ≡ none
    → IsLogged new_id logs (
        create_usage_log new_id api_key_id endpoint status_code server_id model prompt completion
          total logs)
unfolding create_usage_log
create_usage_log-IsLogged new_id api_key_id endpoint status_code server_id model prompt completion
      total logs h =
    elim (Bool-cases (pos_part api_key_id == 0)) [
      | inl a ↦ rw a refl
      | inr a ↦ rw a (elim (Bool-cases (ltb 2048 (size endpoint))) [
        | inl b ↦ rw b refl
        | inr b ↦
            rw b
              (elim (Bool-cases
                (ltb (pos_part status_code) 100 || ltb 599 (pos_part status_code))) [
                  | inl c ↦ rw c refl
                  | inr c ↦ rw c (elim (Bool-cases (too_long model)) [
                    | inl d ↦ rw d refl
                    | inr d ↦
                        rw d (
                          find_log-append new_id logs _ h refl,
                          ground (arith, c),
                          ground (arith, c),
                        )
                  ])
                ])
      ])
    ]
