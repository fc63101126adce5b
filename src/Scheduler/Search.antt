-- ===== src/Scheduler/Search.antt =====
-- The search of `consume` in src/discovery_worker.cpp for an eligible job.
use mathlib.Core.Option.{some-injective}
use native.Mathlib.Nat.{mod-lt}
use ovmesh_drpp.Base.{
  ℕ, zero, suc, ◌+◌, ◌-◌, ◌%◌, ◌≤◌, ◌<◌, Bool, true, false, List, [], ◌∷◌, none, some, All, get_or,
  length, ◌≡◌, ◌⊎◌, refl, subst, Bool-cases, Option-cases, ◌==◌, inl, inr, arith,
}
use ovmesh_drpp.Scheduler.{
  Worker, Scheduler, DetectorSelection, no_worker, detector_workers, band_at, scan_queue,
  scan_queues,
}
use ovmesh_drpp.Scheduler.Queue.{IsQueue, entries, entry, pending_slots}

module _ {S : Type 0} where
  -- The band of the job in a slot is marked busy.
  abbrev pub IsBlocked : List Bool → Worker S → ℕ → Type 0
  IsBlocked busy w claimed = get_or busy (band_at w claimed) false ≡ true

  pub record Found (busy : List Bool) (w : Worker S) (left pending p : ℕ) : Type 0 where
    pub after : pending ≤ p
    pub inside : p < pending + left
    pub idle : get_or busy (band_at w (entry w p)) false ≡ false
    pub blocked : All (IsBlocked busy w) (entries w.ready.slots w.ready.head (p - pending) pending)

  pub scan_queue-Found :
      (busy : List Bool) (w : Worker S) (left pending p : ℕ)
      → scan_queue busy w left pending ≡ some p
      → Found busy w left pending p
  unfolding scan_queue
  scan_queue-Found busy w zero pending p e = cc
  scan_queue-Found busy w (suc left) pending p e =
      elim (Bool-cases (get_or busy (band_at w (entry w pending)) false)) [
        | inl t ↦
            let later : scan_queue busy w left (suc pending) ≡ some p = rw t at e in
            let f = scan_queue-Found busy w left (suc pending) p later in
            record {
              after = omega (arith, f.after);
              inside = omega (arith, f.inside);
              idle = f.idle;
              blocked =
                  subst (λ k. All (IsBlocked busy w) (entries w.ready.slots w.ready.head k pending))
                    {x = suc (p - suc pending)} {y = p - pending} (omega (arith, f.after))
                    (t, f.blocked);
            }
        | inr idle ↦
            let here : some pending ≡ some p = rw idle at e in
            let same : pending ≡ p = some-injective _ _ here in
            subst (Found busy w (suc left) pending) same (record {
              after = omega arith;
              inside = omega arith;
              idle = idle;
              blocked =
                  subst (λ k. All (IsBlocked busy w) (entries w.ready.slots w.ready.head k pending))
                    {x = 0} {y = pending - pending} (omega arith) tt;
            })
      ]

  pub scan_queue-none :
      (busy : List Bool) (w : Worker S) (left pending : ℕ)
      → scan_queue busy w left pending ≡ none
      → All (IsBlocked busy w) (entries w.ready.slots w.ready.head left pending)
  unfolding scan_queue
  scan_queue-none busy w zero pending e = tt
  scan_queue-none busy w (suc left) pending e =
      elim (Bool-cases (get_or busy (band_at w (entry w pending)) false)) [
        | inl t ↦
            let later : scan_queue busy w left (suc pending) ≡ none = rw t at e in
            (t, scan_queue-none busy w left (suc pending) later)
        | inr idle ↦ let here : some pending ≡ none = rw idle at e in cc
      ]

  -- The queue that a selection names, and those that the search passes over.
  abbrev pub queue_at : Scheduler S → (offset : ℕ) → ℕ
  queue_at s offset = (s.next_detector_queue + offset) % length s.workers

  abbrev pub worker_at : Scheduler S → (index : ℕ) → Worker S
  worker_at s index = get_or s.workers index no_worker

  pub data IsSelected (s : Scheduler S) : (left offset : ℕ) → DetectorSelection → Type 0 where
    no_queue :
        {offset : ℕ} → IsSelected s 0 offset (record { queue = detector_workers; offset = 0 })
    this_queue :
        {left offset p : ℕ}
        → Found s.detector_busy
            (worker_at s (queue_at s offset))
            (worker_at s (queue_at s offset)).ready.count
            0
            p
        → IsSelected s (suc left) offset (record { queue = queue_at s offset; offset = p })
    later_queue :
        {left offset : ℕ} {d : DetectorSelection}
        → All
            (IsBlocked s.detector_busy (worker_at s (queue_at s offset)))
            (pending_slots (worker_at s (queue_at s offset)))
        → IsSelected s left (offset + 1) d
        → IsSelected s (suc left) offset d

  pub scan_queues-IsSelected :
      (s : Scheduler S) (left offset : ℕ) → IsSelected s left offset (scan_queues s left offset)
  unfolding scan_queues
  scan_queues-IsSelected s zero offset = no_queue
  scan_queues-IsSelected s (suc left) offset =
      let w = worker_at s (queue_at s offset) in
      elim (Option-cases (scan_queue s.detector_busy w w.ready.count 0)) [
        | inl e ↦
            rw (scan_queues, e)
              (later_queue (scan_queue-none s.detector_busy w w.ready.count 0 e)
                (scan_queues-IsSelected s left (offset + 1)))
        | inr (p, e) ↦
            rw (scan_queues, e)
              (this_queue (scan_queue-Found s.detector_busy w w.ready.count 0 p e))
      ]

  -- The workers' queues between two steps.
  pub record IsScheduler (s : Scheduler S) : Type 0 where
    pub size : length s.workers ≡ 3
    pub queues : All IsQueue s.workers

  pub worker_at-IsQueue :
      (ws : List (Worker S)) (i : ℕ)
      → All IsQueue ws
      → i < length ws
      → IsQueue (get_or ws i no_worker)
  worker_at-IsQueue [] i q h = absurd (omega arith)
  worker_at-IsQueue (w ∷ ws) zero (q, qs) h = q
  worker_at-IsQueue (w ∷ ws) (suc i) (q, qs) h = worker_at-IsQueue ws i qs (omega arith)

  abbrev pub FoundAt : Scheduler S → DetectorSelection → Type 0
  FoundAt s d =
      (d.queue < 3)
      × Found s.detector_busy (worker_at s d.queue) (worker_at s d.queue).ready.count 0 d.offset

  pub IsSelected-FoundAt :
      (s : Scheduler S) (left offset : ℕ) (d : DetectorSelection)
      → length s.workers ≡ 3
      → IsSelected s left offset d
      → (d.queue ≡ 3) ⊎ FoundAt s d
  IsSelected-FoundAt s left offset d size no_queue = inl refl
  IsSelected-FoundAt s left offset d size (this_queue found) = inr (
    subst (λ n. queue_at s offset < n) size
        (mod-lt (s.next_detector_queue + offset) (omega (arith, size))),
    found,
  )
  IsSelected-FoundAt s left offset d size (later_queue blocked rest) =
      IsSelected-FoundAt s _ _ d size rest

  pub IsSelected-IsBlocked :
      (s : Scheduler S) (left offset k : ℕ) (d : DetectorSelection)
      → length s.workers ≡ 3
      → IsSelected s left offset d
      → d.queue ≡ 3
      → offset ≤ k
      → k < offset + left
      → All
          (IsBlocked s.detector_busy (worker_at s (queue_at s k)))
          (pending_slots (worker_at s (queue_at s k)))
  IsSelected-IsBlocked s left offset k d size no_queue e low high = absurd (omega arith)
  IsSelected-IsBlocked s left offset k d size (this_queue found) e low high =
      let inside : queue_at s offset < length s.workers =
        mod-lt (s.next_detector_queue + offset) (omega (arith, size)) in
      absurd (omega (arith, inside, e, size))
  IsSelected-IsBlocked s left offset k d size (later_queue {left = left'} blocked rest) e low high =
      elim (Bool-cases (offset == k)) [
        | inl here ↦
            let same : offset ≡ k = ground arith in
            subst
              (λ j.
                All (IsBlocked s.detector_busy (worker_at s (queue_at s j)))
                  (pending_slots (worker_at s (queue_at s j))))
              same blocked
        | inr elsewhere ↦
            IsSelected-IsBlocked s left' (offset + 1) k d size rest e (ground arith) (omega arith)
      ]
