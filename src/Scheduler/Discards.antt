-- ===== src/Scheduler/Discards.antt =====
-- What `discard_detector_jobs` of src/discovery_worker.cpp leaves: the jobs that run keep their
-- slots, and the pending ones are gone.
use ovmesh_drpp.Base.{
  ℕ, zero, suc, ◌+◌, ◌-◌, ◌%◌, ◌<◌, false, List, [], ◌∷◌, ◌++◌, All, get_or, set, length,
  length-set, ◌≡◌, ◌≢◌, refl, sym, ap, ap₂, ◌∙◌, subst, arith,
}
use ovmesh_drpp.Ring.Contents.{slot-bound}
use ovmesh_drpp.Scheduler.{Worker, Scheduler, no_worker, band_at}
use ovmesh_drpp.Scheduler.Consume.{
  discard_one, discard_loop, discard_workers, discard_detector_jobs,
}
use ovmesh_drpp.Scheduler.Queue.{IsQueue, entries, pending_slots}
use ovmesh_drpp.Scheduler.Search.{worker_at}
use ovmesh_drpp.Scheduler.Marks.{AllApart, All-combine, IsTaken, IsTaken-set, count_true-clear}
use ovmesh_drpp.Scheduler.Slots.{IsOwned}
use ovmesh_drpp.Scheduler.Bands.{
  Active, slots_of, band_of, IsRunning, IsSystem, SameBands, map-SameBands, IsRunning-SameBands,
  IsAccounted-SameBands, wiped_band,
}

entries-shift :
    (slots : List ℕ) (head n i : ℕ)
    → entries slots ((head + 1) % 16) n i ≡ entries slots head n (suc i)
entries-shift slots head zero i = refl
entries-shift slots head (suc n) i =
    ap₂ ◌∷◌ (ap (λ k. get_or slots k 0) {y = (head + suc i) % 16} (omega arith))
      (entries-shift slots head n (suc i))

module _ {S : Type 0} where
  -- The oldest entry, and those behind it.
  discarded_slots :
      (w : Worker S)
      → IsQueue w
      → 0 < w.ready.count
      → pending_slots w ≡ get_or w.ready.slots w.ready.head 0 ∷ pending_slots (discard_one w).1
  unfolding discard_one
  discarded_slots w q some_entry =
      let first : (w.ready.head + 0) % 16 ≡ w.ready.head = omega (arith, q.ring.inside) in
      ap (λ n. entries w.ready.slots w.ready.head n 0) {y = suc (w.ready.count - 1)} (omega arith)
      ∙ ap₂ ◌∷◌ (ap (λ k. get_or w.ready.slots k 0) first)
          (sym (entries-shift w.ready.slots w.ready.head (w.ready.count - 1) 0))

  -- Another band is none of the discarded job's.
  discard_one-band : (w : Worker S) (c : ℕ) → band_at (discard_one w).1 c ≡ band_at w c
  unfolding discard_one
  discard_one-band w c = wiped_band w.jobs (get_or w.ready.slots w.ready.head 0) c

  discard_one-IsOwned :
      (w : Worker S) (held : List ℕ)
      → 0 < w.ready.count
      → IsOwned w held
      → IsOwned (discard_one w).1 held
  discard_one-IsOwned w held some_entry h =
      let c = get_or w.ready.slots w.ready.head 0 in
      let parts = discarded_slots w h.queue some_entry in
      let (others, apart) = subst (λ l. AllApart (l ++ held)) parts h.apart in
      let (this, taken) = subst (λ l. All (IsTaken w.occupied) (l ++ held)) parts h.taken in
      unfold discard_one in
      record {
        queue = record {
          ring = record {
            size = h.queue.ring.size;
            inside = slot-bound {A = ℕ} 16 0 w.ready.head 1 h.queue.ring.inside;
            bounded = omega (arith, h.queue.ring.bounded);
          };
          tail = omega (arith, h.queue.tail, h.queue.ring.inside);
        };
        jobs_size = length-set w.jobs c _ ∙ h.jobs_size;
        occupied_size = length-set w.occupied c false ∙ h.occupied_size;
        apart = apart;
        taken =
            All-combine (IsTaken w.occupied) (λ y. y ≢ c) (IsTaken (set w.occupied c false)) _
              (IsTaken-set w.occupied c false) taken others;
        marks = omega (arith, h.marks, count_true-clear w.occupied c this.1);
        counted = omega (arith, h.counted, ap length parts);
      }

  -- What the loop leaves of a worker.
  pub record IsDiscarded (held : List ℕ) (w t : Worker S) : Type 0 where
    pub owned : IsOwned t held
    pub empty : t.ready.count ≡ 0
    pub bands : (c : ℕ) → band_at t c ≡ band_at w c

  discard_one-count : (w : Worker S) → (discard_one w).1.ready.count ≡ w.ready.count - 1
  unfolding discard_one
  discard_one-count w = refl

  discard_loop-IsDiscarded :
      (left : ℕ) (w : Worker S) (held : List ℕ)
      → w.ready.count ≡ left
      → IsOwned w held
      → IsDiscarded held w (discard_loop left w).1
  unfolding discard_loop
  discard_loop-IsDiscarded zero w held e h = record { owned = h; empty = e; bands = λ c. refl }
  discard_loop-IsDiscarded (suc left) w held e h =
      let rest =
        discard_loop-IsDiscarded left (discard_one w).1 held (omega (arith, discard_one-count w))
          (discard_one-IsOwned w held (omega arith) h) in
      record {
        owned = rest.owned;
        empty = rest.empty;
        bands = λ c. rest.bands c ∙ discard_one-band w c;
      }

  length-discard_workers : (ws : List (Worker S)) → length (discard_workers ws).1 ≡ length ws
  unfolding discard_workers
  length-discard_workers [] = refl
  length-discard_workers (w ∷ ws) = ap suc (length-discard_workers ws)

  discarded_at :
      (ws : List (Worker S)) (i : ℕ)
      → i < length ws
      → get_or (discard_workers ws).1 i no_worker
        ≡ (discard_loop (get_or ws i no_worker).ready.count (get_or ws i no_worker)).1
  unfolding discard_workers
  discarded_at [] i small = absurd (omega arith)
  discarded_at (w ∷ ws) zero small = refl
  discarded_at (w ∷ ws) (suc i) small = discarded_at ws i (omega arith)

  module _ (s : Scheduler S) (active : Active) (h : IsSystem s active) where
    discarded :
        (i : ℕ)
        → i < 3
        → IsDiscarded
            (slots_of i active)
            (worker_at s i)
            (get_or (discard_workers s.workers).1 i no_worker)
    discarded i low =
        subst (IsDiscarded (slots_of i active) (worker_at s i))
          (sym (discarded_at s.workers i (omega (arith, h.size))))
          (discard_loop-IsDiscarded (worker_at s i).ready.count (worker_at s i) (slots_of i active)
            refl (h.owned i low))

    -- No slot is pending in a worker whose count is zero.
    nothing_pending : (P : ℕ → Type 0) (w : Worker S) → w.ready.count ≡ 0 → All P (pending_slots w)
    nothing_pending P w e = subst (λ n. All P (entries w.ready.slots w.ready.head n 0)) (sym e) tt

    same_bands : SameBands s (discard_detector_jobs s).1 active
    unfolding discard_detector_jobs
    same_bands =
        All-combine (IsRunning s) (IsRunning s)
          (λ p. band_of (discard_detector_jobs s).1 p ≡ band_of s p) active
          (λ p (low, _) _. (discarded p.0 low).bands p.1) h.running h.running

    -- A call of `discard_detector_jobs` leaves the jobs that run as they are.
    pub discard_detector_jobs-IsSystem : IsSystem (discard_detector_jobs s).1 active
    unfolding discard_detector_jobs
    discard_detector_jobs-IsSystem = record {
      size = length-discard_workers s.workers ∙ h.size;
      owned = λ i low. (discarded i low).owned;
      running = IsRunning-SameBands s (discard_detector_jobs s).1 active refl same_bands h.running;
      apart =
          subst AllApart (sym (map-SameBands s (discard_detector_jobs s).1 active same_bands))
            h.apart;
      accounted = λ b.
          IsAccounted-SameBands s (discard_detector_jobs s).1 active b refl same_bands
            (h.accounted b);
      bands = λ i low.
          nothing_pending _ (get_or (discard_workers s.workers).1 i no_worker)
            (discarded i low).empty;
    }
