-- ===== src/Batch/Collect.antt =====
-- Which batches processList (List (BatchItem D)) makes.
use cdn.Common.{
  ℕ, ◌≤◌, ◌<◌, ◌≡◌, refl, sym, ◌∙◌, inl, inr, Option, none, some, List, ◌∷◌, ◌++◌, append_assoc,
  append-nil, leb, Bool-cases, length, [], arith, All, All-append, length-append,
}
use cdn.Storage.{M}
use cdn.Batch.{BatchItem, Event, item, closed, timer, done, flush_some, flush_full, process_batches}

module _ {D : Type 0} where
  -- A batch is noted down behind those before it.
  abbrev pub note : List (BatchItem D) → M (List (List (BatchItem D))) Unit
  note batch log = (tt, log ++ batch ∷ [])

  abbrev pub concat : List (List (BatchItem D)) → List (BatchItem D)
  concat [] = []
  concat (b ∷ bs) = b ++ concat bs

  -- The items that arrive before the channel is closed or the context is done.
  abbrev pub arrived : List (Event D) → List (BatchItem D)
  arrived [] = []
  arrived (item i ∷ events) = i ∷ arrived events
  arrived (timer ∷ events) = arrived events
  arrived (closed ∷ events) = []
  arrived (done ∷ events) = []

  -- The batch that is still at hand.
  abbrev pub pending : Option (List (BatchItem D)) → List (BatchItem D)
  pending none = []
  pending (some batch) = batch

  -- A batch that goes out has items, and no more than the batch size.
  abbrev pub IsSized : ℕ → List (BatchItem D) → Type 0
  IsSized size batch = (0 < length batch) × (length batch ≤ size)

  concat-append : (xs ys : List (List (BatchItem D))) → concat (xs ++ ys) ≡ concat xs ++ concat ys
  concat-append [] ys = refl
  concat-append (x ∷ xs) ys = cc (concat-append xs ys, append_assoc x (concat xs) (concat ys))

  concat-note :
      (log : List (List (BatchItem D))) (b : List (BatchItem D))
      → concat (log ++ b ∷ []) ≡ concat log ++ b
  concat-note log b = cc (concat-append log (b ∷ []), append-nil b)

  flush_some-concat :
      (b : List (BatchItem D)) (log : List (List (BatchItem D)))
      → concat (flush_some note b log).1 ≡ concat log ++ b
  flush_some-concat [] log = sym (append-nil (concat log))
  flush_some-concat (i ∷ is) log = concat-note log (i ∷ is)

  flush_full-concat :
      (size : ℕ) (b : List (BatchItem D)) (log : List (List (BatchItem D)))
      → let (b', log') = flush_full note size b log in concat log' ++ b' ≡ concat log ++ b
  flush_full-concat size b log = elim (Bool-cases (leb size (length b))) [
    | inl y ↦ rw y (append-nil (concat (log ++ b ∷ [])) ∙ concat-note log b)
    | inr n ↦ rw n
  ]

  ends :
      (batch : List (BatchItem D)) (log : List (List (BatchItem D)))
      → concat (flush_some note batch log).1 ++ [] ≡ concat log ++ (batch ++ [])
  ends batch log = cc (
    flush_some-concat batch log,
    append-nil batch,
    append-nil (concat (flush_some note batch log).1),
  )

  keeps :
      (size : ℕ) (events : List (Event D)) (batch : List (BatchItem D))
      (log : List (List (BatchItem D)))
      → let (end, log') = process_batches note size events batch log in
        concat log' ++ pending end ≡ concat log ++ (batch ++ arrived events)
  unfolding process_batches
  keeps size [] batch log = cc (append-nil batch)
  keeps size (item i ∷ events) batch log =
      let (b', log') = flush_full note size (batch ++ i ∷ []) log in
      cc (
        keeps size events b' log',
        flush_full-concat size (batch ++ i ∷ []) log,
        append_assoc (concat log') b' (arrived events),
        append_assoc (concat log) (batch ++ i ∷ []) (arrived events),
        append_assoc batch (i ∷ []) (arrived events),
      )
  keeps size (timer ∷ events) batch log =
      let log' = (flush_some note batch log).1 in
      cc (
        keeps size events [] log',
        flush_some-concat batch log,
        append_assoc (concat log) batch (arrived events),
      )
  keeps size (closed ∷ events) batch log = ends batch log
  keeps size (done ∷ events) batch log = ends batch log

  note-sized :
      (size : ℕ) (b : List (BatchItem D)) (log : List (List (BatchItem D)))
      → IsSized size b
      → All (IsSized size) log
      → All (IsSized size) (log ++ b ∷ [])
  note-sized size b log h hs = All-append (IsSized size) log (b ∷ []) hs (h, tt)

  flush_some-sized :
      (size : ℕ) (b : List (BatchItem D)) (log : List (List (BatchItem D)))
      → length b < size
      → All (IsSized size) log
      → All (IsSized size) (flush_some note b log).1
  flush_some-sized size [] log l hs = hs
  flush_some-sized size (i ∷ is) log l hs =
      note-sized size (i ∷ is) log (omega arith, omega (arith, l)) hs

  flush_full-sized :
      (size : ℕ) (b : List (BatchItem D)) (log : List (List (BatchItem D)))
      → 0 < length b
      → length b ≤ size
      → All (IsSized size) log
      → let (b', log') = flush_full note size b log in (length b' < size) × All (IsSized size) log'
  flush_full-sized size b log some_left l hs = elim (Bool-cases (leb size (length b))) [
    | inl y ↦ rw y (omega (arith, some_left, l), note-sized size b log (some_left, l) hs)
    | inr n ↦ rw n (ground (arith, n, l), hs)
  ]

  sized :
      (size : ℕ) (events : List (Event D)) (batch : List (BatchItem D))
      (log : List (List (BatchItem D)))
      → length batch < size
      → All (IsSized size) log
      → All (IsSized size) (process_batches note size events batch log).1
  unfolding process_batches
  sized size [] batch log l hs = hs
  sized size (item i ∷ events) batch log l hs =
      let more = length-append batch (i ∷ []) in
      let (l', hs') =
        flush_full-sized size (batch ++ i ∷ []) log (omega (arith, more)) (omega (arith, more, l))
          hs in
      sized size events _ _ l' hs'
  sized size (timer ∷ events) batch log l hs =
      sized size events [] _ (omega (arith, l)) (flush_some-sized size batch log l hs)
  sized size (closed ∷ events) batch log l hs = flush_some-sized size batch log l hs
  sized size (done ∷ events) batch log l hs = flush_some-sized size batch log l hs

  -- With a batch size above 0, whatever its select receives and in whatever order, processBatches puts every item that arrives
  -- before the channel closes or the context ends into a batch, or into the one at hand where it
  -- has not returned, each item once and in the order of arrival; a batch that is processed has at
  -- least one item and at most the batch size.
  pub process_batches_collects :
      (size : ℕ) (events : List (Event D))
      → 0 < size
      → let (end, batches) = process_batches note size events [] [] in
        (concat batches ++ pending end ≡ arrived events) × All (IsSized size) batches
  process_batches_collects size events positive =
      (keeps size events [] [], sized size events [] [] positive tt)
