-- ===== src/Services/Batching.antt =====
-- app/core/adaptive_batch.py: `AdaptiveBatcher`. A round of `run` is a function of the items that wait
-- in the queue and of the time that the processor takes, in microseconds; a queue that stays empty for
-- the whole timeout gives an empty batch. `int(n * 0.9)` and `int(n * 1.1)` are whole divisions.
use ollama_proxy_server.Prelude.{
  ℕ, zero, suc, ◌*◌, ◌/◌, ◌≤◌, ◌≡◌, refl, ap, min, max, List, [], ◌∷◌, ◌++◌, length, is_empty, ltb,
  All, if◌then◌else◌, arith, Bool-cases, inl, inr,
}

-- `queue` holds the items that wait, the first to leave at the head.
pub record AdaptiveBatcher (A : Type 0) : Type 0 where
  pub target_latency : ℕ
  pub current_batch_size : ℕ
  pub queue : List A

unfoldable pub new_batcher : {A : Type 0} → ℕ → AdaptiveBatcher A
new_batcher target_latency = record {
  target_latency = target_latency;
  current_batch_size = 10;
  queue = [];
}

module _ {A : Type 0} where
  -- the loop `while len(batch) < self.current_batch_size`, for the places that are left
  grab : ℕ → List A → List A × List A
  grab zero queue = ([], queue)
  grab (suc places) [] = ([], [])
  grab (suc places) (item ∷ queue) = let (batch, rest) = grab places queue in (item ∷ batch, rest)

  -- the first item is taken without a look at the size
  unfoldable pub collect_batch : ℕ → List A → List A × List A
  unfolding grab
  collect_batch size [] = ([], [])
  collect_batch zero (item ∷ queue) = (item ∷ [], queue)
  collect_batch (suc places) (item ∷ queue) =
      let (batch, rest) = grab places queue in (item ∷ batch, rest)

  unfoldable pub adjusted : AdaptiveBatcher A → ℕ → ℕ
  adjusted batcher elapsed =
      if ltb batcher.target_latency elapsed
      then max 10 (batcher.current_batch_size * 9 / 10)
      else min 1000 (batcher.current_batch_size * 11 / 10)

  -- One round of `run`: the batch that the processor gets, and the batcher behind it
  unfoldable pub run_round : ℕ → AdaptiveBatcher A → List A × AdaptiveBatcher A
  run_round elapsed batcher =
      let (batch, rest) = collect_batch batcher.current_batch_size batcher.queue in
      let size = adjusted batcher elapsed in
      (
        batch,
        record batcher {
          queue = rest;
          current_batch_size = if is_empty batch then batcher.current_batch_size else size;
        },
      )

  -- Rounds, with the items that come in before each one and the time that each takes
  unfoldable pub run_rounds :
      List (List A × ℕ) → AdaptiveBatcher A → List (List A) × AdaptiveBatcher A
  run_rounds [] batcher = ([], batcher)
  run_rounds ((arrived, elapsed) ∷ rounds) batcher =
      let (batch, batcher') =
        run_round elapsed (record batcher { queue = batcher.queue ++ arrived }) in
      let (batches, end) = run_rounds rounds batcher' in (batch ∷ batches, end)

  abbrev pub InBounds : AdaptiveBatcher A → Type 0
  InBounds batcher = (10 ≤ batcher.current_batch_size) × (batcher.current_batch_size ≤ 1000)

  grab-length : (places : ℕ) (queue : List A) → length (grab places queue).0 ≤ places
  unfolding grab
  grab-length zero queue = omega arith
  grab-length (suc places) [] = omega arith
  grab-length (suc places) (item ∷ queue) = omega (arith, grab-length places queue)

  grab-append :
      (places : ℕ) (queue : List A) → (grab places queue).0 ++ (grab places queue).1 ≡ queue
  unfolding grab
  grab-append zero queue = refl
  grab-append (suc places) [] = refl
  grab-append (suc places) (item ∷ queue) = ap (λ rest. item ∷ rest) (grab-append places queue)

  -- A batch is the front of the queue: no item is lost, repeated or overtaken; and with a size of at
  -- least one it holds at most that many items, and some unless the queue is empty.
  collect_batch-front :
      (size : ℕ) (queue : List A)
      → 1 ≤ size
      → ((collect_batch size queue).0 ++ (collect_batch size queue).1 ≡ queue)
        × (length (collect_batch size queue).0 ≤ size)
        × (is_empty (collect_batch size queue).0 ≡ is_empty queue)
  unfolding collect_batch
  collect_batch-front size [] h = (refl, omega arith, refl)
  collect_batch-front zero (item ∷ queue) h = absurd (omega (arith, h))
  collect_batch-front (suc places) (item ∷ queue) h = (
    ap (λ rest. item ∷ rest) (grab-append places queue),
    omega (arith, grab-length places queue),
    refl,
  )

  adjusted-InBounds :
      (batcher : AdaptiveBatcher A) (elapsed : ℕ)
      → InBounds batcher
      → (10 ≤ adjusted batcher elapsed) × (adjusted batcher elapsed ≤ 1000)
  unfolding adjusted
  adjusted-InBounds batcher elapsed h = elim (Bool-cases (ltb batcher.target_latency elapsed)) [
    | inl slow ↦ rw slow (omega (arith, h), omega (arith, h))
    | inr quick ↦ rw quick (omega (arith, h), omega (arith, h))
  ]

  run_round-InBounds :
      (elapsed : ℕ) (batcher : AdaptiveBatcher A)
      → InBounds batcher
      → InBounds (run_round elapsed batcher).1
  unfolding run_round
  run_round-InBounds elapsed batcher h =
      let nothing = is_empty (collect_batch batcher.current_batch_size batcher.queue).0 in
      elim (Bool-cases nothing) [
        | inl e ↦ rw e h
        | inr e ↦ rw e (adjusted-InBounds batcher elapsed h)
      ]

  -- Whatever arrives and however long the processor takes, the batch size stays from 10 to 1000, and
  -- no batch has more than 1000 items.
  pub run_rounds-InBounds :
      (rounds : List (List A × ℕ)) (batcher : AdaptiveBatcher A)
      → InBounds batcher
      → InBounds (run_rounds rounds batcher).1
        × All (λ batch. length batch ≤ 1000) (run_rounds rounds batcher).0
  unfolding run_rounds run_round
  run_rounds-InBounds [] batcher h = (h, tt)
  run_rounds-InBounds ((arrived, elapsed) ∷ rounds) batcher h =
      let filled : AdaptiveBatcher A = record batcher { queue = batcher.queue ++ arrived } in
      let (within, small) =
        run_rounds-InBounds rounds (run_round elapsed filled).1
          (run_round-InBounds elapsed filled h) in
      let (front, fits, some) =
        collect_batch-front batcher.current_batch_size filled.queue (omega (arith, h)) in
      (within, (omega (arith, fits, h), small))
