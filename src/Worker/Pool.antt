-- ===== src/Worker/Pool.antt =====
-- The pool under any number of concurrent submitters and workers: their steps interleave in any
-- order. A job is known by its number; `accepted` and `started` say which jobs were queued and taken
-- so far, in their order.
use cdn.Common.{
  ℕ, suc, ◌+◌, ◌-◌, ◌≤◌, ◌<◌, ◌≡◌, ◌⊎◌, Bool, true, false, List, ◌∷◌, ◌++◌, arith, ◌==◌,
  if◌then◌else◌, length, [], length-append, refl, ap, append_assoc, append-nil,
}

pub record System : Type 0 where
  pub capacity : ℕ
  pub workers : ℕ
  pub stopped : Bool
  pub submitting : List ℕ
  pub queue : List ℕ
  pub running : List ℕ
  pub accepted : List ℕ
  pub started : List ℕ
  pub finished : List ℕ

-- The steps of Submit, of worker and of Stop. Submit asks the context and then the queue; Stop can
-- fall in between. A worker that waits for a job also takes it from a queue without room.
pub data Step (s : System) : System → Type 0 where
  submit : (j : ℕ) → s.stopped ≡ false → Step s (record s { submitting = j ∷ s.submitting })
  refuse : s.stopped ≡ true → Step s s
  send :
      (j : ℕ) (xs ys : List ℕ)
      → s.submitting ≡ xs ++ j ∷ ys
      → length s.queue < s.capacity
      → Step s (record s {
        submitting = xs ++ ys;
        queue = s.queue ++ j ∷ [];
        accepted = s.accepted ++ j ∷ [];
      })
  hand :
      (j : ℕ) (xs ys : List ℕ)
      → s.submitting ≡ xs ++ j ∷ ys
      → s.queue ≡ []
      → length s.running < s.workers
      → Step s (record s {
        submitting = xs ++ ys;
        running = j ∷ s.running;
        accepted = s.accepted ++ j ∷ [];
        started = s.started ++ j ∷ [];
      })
  turn_away :
      (j : ℕ) (xs ys : List ℕ)
      → s.submitting ≡ xs ++ j ∷ ys
      → (s.stopped ≡ true) ⊎ (s.capacity ≤ length s.queue)
      → Step s (record s { submitting = xs ++ ys })
  take :
      (j : ℕ) (q : List ℕ)
      → s.queue ≡ j ∷ q
      → length s.running < s.workers
      → Step s (record s { queue = q; running = j ∷ s.running; started = s.started ++ j ∷ [] })
  finish :
      (j : ℕ) (xs ys : List ℕ)
      → s.running ≡ xs ++ j ∷ ys
      → Step s (record s { running = xs ++ ys; finished = j ∷ s.finished })
  stop : Step s (record s { stopped = true })
  quit :
      s.stopped ≡ true
      → length s.running < s.workers
      → Step s (record s { workers = s.workers - 1 })

pub data Reach (s : System) : System → Type 0 where
  here : Reach s s
  next : {t u : System} → Reach s t → Step t u → Reach s u

abbrev pub start : ℕ → ℕ → System
start capacity workers = record {
  capacity = capacity;
  workers = workers;
  stopped = false;
  submitting = [];
  queue = [];
  running = [];
  accepted = [];
  started = [];
  finished = [];
}

-- How often a job stands in a list.
abbrev pub occurs : ℕ → List ℕ → ℕ
occurs j [] = 0
occurs j (k ∷ ks) = let rest = occurs j ks in if j == k then suc rest else rest

pub record IsValid (s : System) : Type 0 where
  pub room : length s.queue ≤ s.capacity
  pub busy : length s.running ≤ s.workers
  pub ordered : s.accepted ≡ s.started ++ s.queue
  pub accounted : (j : ℕ) → occurs j s.started ≡ occurs j s.running + occurs j s.finished

occurs-append : (j : ℕ) (xs ys : List ℕ) → occurs j (xs ++ ys) ≡ occurs j xs + occurs j ys
occurs-append j [] ys = omega arith
occurs-append j (x ∷ xs) ys = ground (arith, occurs-append j xs ys)

Step-IsValid : {s t : System} → Step s t → IsValid s → IsValid t
Step-IsValid {s} (submit j open_for) h = record {
  room = h.room;
  busy = h.busy;
  ordered = h.ordered;
  accounted = h.accounted;
}
Step-IsValid {s} (refuse e) h = h
Step-IsValid {s} (send j xs ys e r) h = record {
  room = omega (arith, r, length-append s.queue (j ∷ []));
  busy = h.busy;
  ordered = cc (h.ordered, append_assoc s.started s.queue (j ∷ []));
  accounted = h.accounted;
}
Step-IsValid {s} (hand j xs ys e q r) h = record {
  room = h.room;
  busy = omega (arith, r);
  ordered = cc (h.ordered, q, append-nil s.started, append-nil (s.started ++ j ∷ []));
  accounted = λ k. ground (arith, h.accounted k, occurs-append k s.started (j ∷ []));
}
Step-IsValid {s} (turn_away j xs ys e r) h = record {
  room = h.room;
  busy = h.busy;
  ordered = h.ordered;
  accounted = h.accounted;
}
Step-IsValid {s} (take j q e r) h = record {
  room = omega (arith, h.room, ap length e);
  busy = omega (arith, r);
  ordered = cc (h.ordered, e, append_assoc s.started (j ∷ []) q);
  accounted = λ k. ground (arith, h.accounted k, occurs-append k s.started (j ∷ []));
}
Step-IsValid {s} (finish j xs ys e) h = record {
  room = h.room;
  busy = omega (arith, h.busy, ap length e, length-append xs (j ∷ ys), length-append xs ys);
  ordered = h.ordered;
  accounted = λ k.
      ground
        (arith, h.accounted k, ap (occurs k) e, occurs-append k xs (j ∷ ys), occurs-append k xs ys);
}
Step-IsValid {s} stop h = record {
  room = h.room;
  busy = h.busy;
  ordered = h.ordered;
  accounted = h.accounted;
}
Step-IsValid {s} (quit e r) h = record {
  room = h.room;
  busy = omega (arith, r);
  ordered = h.ordered;
  accounted = h.accounted;
}

Reach-IsValid : {s t : System} → IsValid s → Reach s t → IsValid t
Reach-IsValid h here = h
Reach-IsValid h (next r st) = Step-IsValid st (Reach-IsValid h r)

record Idle (s t : System) : Type 0 where
  workers : t.workers ≡ 0
  started : t.started ≡ s.started

Step-Idle : {s t u : System} → Step t u → Idle s t → Idle s u
Step-Idle {s} {t} (submit j e) h = record { workers = h.workers; started = h.started }
Step-Idle {s} {t} (refuse e) h = h
Step-Idle {s} {t} (send j xs ys e r) h = record { workers = h.workers; started = h.started }
Step-Idle {s} {t} (hand j xs ys e q r) h = absurd (omega (arith, r, h.workers))
Step-Idle {s} {t} (turn_away j xs ys e r) h = record { workers = h.workers; started = h.started }
Step-Idle {s} {t} (take j q e r) h = absurd (omega (arith, r, h.workers))
Step-Idle {s} {t} (finish j xs ys e) h = record { workers = h.workers; started = h.started }
Step-Idle {s} {t} stop h = record { workers = h.workers; started = h.started }
Step-Idle {s} {t} (quit e r) h = absurd (omega (arith, r, h.workers))

-- Once the last worker has left, no job is taken any more: what is queued then, or accepted later,
-- is never run.
pub queued_jobs_abandoned :
    (s : System) {t : System} → s.workers ≡ 0 → Reach s t → t.started ≡ s.started
queued_jobs_abandoned s none_left r = (go r).started
  where
    go : {t : System} → Reach s t → Idle s t
    go here = record { workers = none_left; started = refl }
    go (next r st) = Step-Idle st (go r)
