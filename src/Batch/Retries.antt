-- ===== src/Batch/Retries.antt =====
-- What processBatchWithRetry hands to the processor.
use cdn.Worker.{rounds, pos}
use cdn.Common.{
  ℕ, suc, ◌≤◌, ◌≡◌, ◌⊎◌, inl, inr, true, false, List, ◌∷◌, ◌++◌, ◌==◌, Bool-cases, length, All, [],
  zero, refl, ◌∙◌, append_assoc, arith, ==_iff,
}
use cdn.Storage.{M}
use cdn.Batch.{
  BatchItem, failed_items, failed_count, retry_rounds, process_batch_with_retry, Config,
}

module _ {D : Type 0} where
  -- An item that a round has not processed.
  abbrev pub IsFailed : BatchItem D → Type 0
  IsFailed i = i.success ≡ false

  failed_items-IsFailed : (is : List (BatchItem D)) → All IsFailed (failed_items is)
  unfolding failed_items
  failed_items-IsFailed [] = tt
  failed_items-IsFailed (i ∷ is) = elim (Bool-cases i.success) [
    | inl y ↦ simp y (failed_items-IsFailed is)
    | inr n ↦ simp n (refl, failed_items-IsFailed is)
  ]

  count_none : (is : List (BatchItem D)) → failed_count is ≡ 0 → All (λ i. i.success ≡ true) is
  unfolding failed_count
  count_none [] h = tt
  count_none (i ∷ is) h = elim (Bool-cases i.success) [
    | inl y ↦ (y, count_none is (simp y at h))
    | inr n ↦ absurd (omega (arith, simp n at h))
  ]

  module _ (run : List (BatchItem D) → List (List (BatchItem D)) → List (BatchItem D)) where
    -- A processor whose result may depend on all calls before; each call is noted down.
    abbrev pub noting : List (BatchItem D) → M (List (List (BatchItem D))) (List (BatchItem D))
    noting items calls = (run items calls, calls ++ items ∷ [])

    -- The calls that a batch adds to those before it.
    pub record Retried (n : ℕ) (items : List (BatchItem D)) (calls : List (List (BatchItem D)))
        (end : List (BatchItem D) × List (List (BatchItem D))) : Type 0 where
      pub added : List (List (BatchItem D))
      pub same : end.1 ≡ calls ++ items ∷ added
      pub only_failed : All (All IsFailed) added
      pub few : length added ≤ n
      pub settled : All (λ i. i.success ≡ true) end.0 ⊎ (length added ≡ n)

    once :
        (n : ℕ) (items : List (BatchItem D)) (calls : List (List (BatchItem D)))
        → (failed_count (run items calls) == 0) ≡ true
        → Retried n items calls (run items calls, calls ++ items ∷ [])
    once n items calls y = record {
      added = [];
      same = refl;
      only_failed = tt;
      few = omega arith;
      settled = inl (count_none (run items calls) ((==_iff _ _).0 y));
    }

    again :
        (n : ℕ) (items failed : List (BatchItem D)) (calls : List (List (BatchItem D)))
        {end : List (BatchItem D) × List (List (BatchItem D))}
        → All IsFailed failed
        → Retried n failed (calls ++ items ∷ []) end
        → Retried (suc n) items calls end
    again n items failed calls h r = record {
      added = failed ∷ r.added;
      same = r.same ∙ append_assoc calls (items ∷ []) (failed ∷ r.added);
      only_failed = (h, r.only_failed);
      few = omega (arith, r.few);
      settled = elim r.settled [ inl done ↦ inl done | inr used ↦ inr (omega (arith, used)) ];
    }

    retries :
        (n : ℕ) (items processed : List (BatchItem D)) (calls : List (List (BatchItem D)))
        → Retried n items calls (retry_rounds noting (suc n) items processed calls)
    unfolding retry_rounds
    retries zero items processed calls = elim (Bool-cases (failed_count (run items calls) == 0)) [
      | inl y ↦ rw y (once zero items calls y)
      | inr m ↦ rw m (record {
        added = [];
        same = refl;
        only_failed = tt;
        few = omega arith;
        settled = inr refl;
      })
    ]
    retries (suc n) items processed calls =
        elim (Bool-cases (failed_count (run items calls) == 0)) [
          | inl y ↦ rw y (once (suc n) items calls y)
          | inr m ↦ rw m (
              again n items (failed_items (run items calls)) calls
                (failed_items-IsFailed (run items calls))
                (retries n (failed_items (run items calls)) (run items calls)
                  (calls ++ items ∷ [])))
        ]

    -- A batch is handed to the processor first as it is, and then again at most as often as there
    -- are retries, each time only with items that are not marked as successful. The rounds
    -- end with all items of the last one processed, or with the retries used up.
    pub process_batch_retries :
        (config : Config) (n : ℕ) (items : List (BatchItem D))
        → config.max_retries ≡ pos n
        → Retried n items [] (process_batch_with_retry noting config items [])
    unfolding process_batch_with_retry rounds
    process_batch_retries config n items h = simp h (retries n items [] [])
