-- ===== src/Batch.antt =====
-- pkg/batch/processor.go: items are collected into batches, and a batch is processed with retries.
-- The loop of processBatches is a function of the events that its select sees, in their order. The
-- log, the metrics, the pauses and the semaphore, which one caller alone acquires, are left out.
pub mod Collect
pub mod Retries
use cdn.Common.{
  ℕ, zero, suc, Bool, Option, none, some, List, ◌∷◌, ◌++◌, leb, ◌==◌, if◌then◌else◌, length, [],
}
use cdn.Text.{Text}
use cdn.Storage.{Error, M, ◌>>=◌, pure}
use cdn.Worker.{ℤ, rounds}

pub record BatchItem (D : Type 0) : Type 0 where
  pub id : Text
  pub data_of : D
  pub error : Option Error
  pub success : Bool

pub record Config : Type 0 where
  pub batch_size : ℕ
  pub max_retries : ℤ

-- What the select of processBatches receives: an item, the closed channel, the timer or the end of
-- the context.
pub data Event (D : Type 0) : Type 0 where
  item : BatchItem D → Event D
  closed : Event D
  timer : Event D
  done : Event D

module _ {D : Type 0} where
  -- The items of a processed batch that are filtered for a retry.
  unfoldable pub failed_items : List (BatchItem D) → List (BatchItem D)
  failed_items [] = []
  failed_items (i ∷ is) = let rest = failed_items is in if i.success then rest else i ∷ rest

  -- The counter `failed` of a round.
  unfoldable pub failed_count : List (BatchItem D) → ℕ
  failed_count [] = 0
  failed_count (i ∷ is) = let rest = failed_count is in if i.success then rest else suc rest

  module _ {W : Type 0} (processor : List (BatchItem D) → M W (List (BatchItem D))) where
    -- The loop of processBatchWithRetry, which ends with the variable `processed`.
    unfoldable pub retry_rounds :
        ℕ → List (BatchItem D) → List (BatchItem D) → M W (List (BatchItem D))
    retry_rounds zero items processed = pure processed
    retry_rounds (suc n) items processed = do
      result ← processor items
      let again = retry_rounds n (failed_items result) result
      if failed_count result == 0 then pure result else again

    unfoldable pub process_batch_with_retry : Config → List (BatchItem D) → M W (List (BatchItem D))
    process_batch_with_retry config items = retry_rounds (rounds config.max_retries) items []

  module _ {W : Type 0} (flush : List (BatchItem D) → M W Unit) where
    -- A batch that has items is processed.
    abbrev pub flush_some : List (BatchItem D) → M W Unit
    flush_some [] = pure tt
    flush_some (i ∷ is) = flush (i ∷ is)

    -- A further item: the batch goes out once it is full.
    abbrev pub flush_full : ℕ → List (BatchItem D) → M W (List (BatchItem D))
    flush_full size batch =
        if leb size (length batch) then (flush batch >>= λ _. pure []) else pure batch

    -- processBatches: none where it has returned, and otherwise the batch at hand.
    unfoldable pub process_batches :
        ℕ → List (Event D) → List (BatchItem D) → M W (Option (List (BatchItem D)))
    process_batches size [] batch = pure (some batch)
    process_batches size (item i ∷ events) batch =
        flush_full size (batch ++ i ∷ []) >>= process_batches size events
    process_batches size (timer ∷ events) batch = do
      _ ← flush_some batch
      process_batches size events []
    process_batches size (closed ∷ events) batch = do _ ← flush_some batch; pure none
    process_batches size (done ∷ events) batch = do _ ← flush_some batch; pure none
