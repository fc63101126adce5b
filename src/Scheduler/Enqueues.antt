-- ===== src/Scheduler/Enqueues.antt =====
-- What a call of `enqueue` of src/discovery_worker.cpp leaves of the jobs that run.
use ovmesh_drpp.Base.{
  ℕ, ◌+◌, ◌%◌, ◌<◌, Bool, not, ◌&&◌, [], ◌∷◌, some, All, All-append, get_or, set, length, ltb,
  length-set, get_or-set_self, get_or-set_ne, Bool-cases, Option-cases, ◌==◌, ==_iff, ◌≡◌, ◌≢◌, inl,
  inr, refl, sym, ap, ◌∙◌, subst, arith, max,
}
use ovmesh_drpp.Scheduler.{
  Job, Worker, Scheduler, waiting, stopped, mismatch, queued, no_job, no_worker, no_staging,
  new_job, staged, take_job, find_free, enqueue, band_at,
}
use ovmesh_drpp.Scheduler.Queue.{pending_slots}
use ovmesh_drpp.Scheduler.Search.{worker_at}
use ovmesh_drpp.Scheduler.Marks.{AllApart, All-combine, All-split}
use ovmesh_drpp.Scheduler.Slots.{
  IsOwned, free_unused, taken-pending_slots, take_job-IsOwned, free_inside,
}
use ovmesh_drpp.Scheduler.Bands.{
  Active, slots_of, slots_of-All, band_of, IsSystem, by_index, SameBands, map-SameBands,
  IsRunning-SameBands, IsAccounted-SameBands,
}

module _ {S : Type 0} (band : ℕ) (reset : Bool) (s : Scheduler S) where
  abbrev pub index : ℕ
  index = band % 3

  abbrev pub worker : Worker S
  worker = worker_at s index

  abbrev pub added : Job S
  added = new_job band s.segment reset (get_or s.staging band no_staging)

  abbrev pub enqueued_state : (free : ℕ) → Scheduler S
  enqueued_state free = record s {
    workers = set s.workers index (take_job free added worker);
    staging = set s.staging band (staged reset (get_or s.staging band no_staging));
    pending_detector_jobs = s.pending_detector_jobs + 1;
    detector_queue_high_water =
        set s.detector_queue_high_water index
          (max (get_or s.detector_queue_high_water index 0) (worker.occupied_count + 1));
  }

  -- A job is queued only where a slot is free.
  record IsEnqueued (t : Scheduler S) : Type 0 where
    free : ℕ
    room : worker.occupied_count < 16
    found : find_free 0 worker.occupied ≡ some free
    state : enqueued_state free ≡ t

  enqueue-IsEnqueued : (t : Scheduler S) → enqueue band reset s ≡ queued t → IsEnqueued t
  unfolding enqueue
  enqueue-IsEnqueued t e = elim (Bool-cases (not (ltb worker.occupied_count 16) && not s.failed)) [
    | inl waits ↦ let never : waiting ≡ queued t = rw waits at e in cc
    | inr goes ↦ elim (Bool-cases s.failed) [
      | inl failed ↦ let never : stopped ≡ queued t = rw (goes, failed) at e in cc
      | inr live ↦ elim (Option-cases (find_free 0 worker.occupied)) [
        | inl full ↦ let never : mismatch ≡ queued t = rw (goes, live, full) at e in cc
        | inr (free, found) ↦
            let done : queued (enqueued_state free) ≡ queued t = rw (goes, live, found) at e in
            record { free = free; room = ground arith; found = found; state = cc }
      ]
    ]
  ]

  module _ (active : Active) (h : IsSystem s active) (free : ℕ) (room : worker.occupied_count < 16)
      (found : find_free 0 worker.occupied ≡ some free) where
    inside : index < length s.workers
    inside = omega (arith, h.size)

    owner : IsOwned worker (slots_of index active)
    owner = h.owned index (omega arith)

    -- Another job keeps its band, in its queue and in all others.
    other_job : (c : ℕ) → c ≢ free → band_at (take_job free added worker) c ≡ band_at worker c
    other_job c other =
        ap (λ (j : Job S). j.subband)
          (get_or-set_ne worker.jobs free c added no_job (λ e. other (sym e)))

    same_band :
        (i c : ℕ) → (i ≡ index → c ≢ free) → band_of (enqueued_state free) (i, c) ≡ band_of s (i, c)
    same_band i c other = elim (Bool-cases (i == index)) [
      | inl e ↦
          let same : i ≡ index = (==_iff i index).0 e in
          subst
            (λ j.
              band_at (get_or (set s.workers index (take_job free added worker)) j no_worker) c
              ≡ band_at (worker_at s j) c)
            (sym same)
            (ap (λ w. band_at w c)
                (get_or-set_self s.workers index (take_job free added worker) no_worker inside)
              ∙ other_job c (other same))
      | inr e ↦
          let apart : index ≢ i = λ same. let t = (==_iff i index).1 (sym same) in cc in
          ap (λ w. band_at w c)
            (get_or-set_ne s.workers index i (take_job free added worker) no_worker apart)
    ]

    same_bands : SameBands s (enqueued_state free) active
    same_bands =
        let unused =
          (All-split (λ c. c ≢ free) (pending_slots worker) (slots_of index active)
            (free_unused worker (slots_of index active) owner free found)).1 in
        let jobs = slots_of-All (λ c. c ≢ free) index active unused in
        All-combine (λ (p : ℕ × ℕ). p.0 ≡ index → p.1 ≢ free)
          (λ (p : ℕ × ℕ). p.0 ≡ index → p.1 ≢ free)
          (λ p. band_of (enqueued_state free) p ≡ band_of s p) active
          (λ p other _. same_band p.0 p.1 other) jobs jobs

    -- The bands of the pending jobs, the new one among them.
    new_bands :
        band < length s.detector_busy
        → All
            (λ c. band_at (take_job free added worker) c < length s.detector_busy)
            (pending_slots (take_job free added worker))
    new_bands small =
        let Small = λ (c : ℕ). band_at (take_job free added worker) c < length s.detector_busy in
        let unused =
          (All-split (λ c. c ≢ free) (pending_slots worker) (slots_of index active)
            (free_unused worker (slots_of index active) owner free found)).0 in
        let older =
          All-combine (λ c. band_at worker c < length s.detector_busy) (λ c. c ≢ free) Small
            (pending_slots worker)
            (λ c low other. subst (λ b. b < length s.detector_busy) (sym (other_job c other)) low)
            (h.bands index (omega arith)) unused in
        let newest : Small free =
          subst (λ (j : Job S). j.subband < length s.detector_busy)
            (sym (
              get_or-set_self worker.jobs free added no_job
                (free_inside worker (slots_of index active) free owner found)))
            small in
        subst (All Small)
          (sym (taken-pending_slots worker (slots_of index active) owner free added room))
          (All-append Small (pending_slots worker) (free ∷ []) older (newest, tt))

    enqueued-IsSystem : band < length s.detector_busy → IsSystem (enqueued_state free) active
    enqueued-IsSystem small = record {
      size = length-set s.workers index _ ∙ h.size;
      owned = λ i low.
          by_index (λ j w. IsOwned w (slots_of j active)) s.workers index
            (take_job free added worker) inside
            (take_job-IsOwned worker (slots_of index active) owner free added found room)
            (λ j k _. h.owned j (subst (λ n. j < n) h.size k)) i (omega (arith, h.size));
      running = IsRunning-SameBands s (enqueued_state free) active refl same_bands h.running;
      apart =
          subst AllApart (sym (map-SameBands s (enqueued_state free) active same_bands)) h.apart;
      accounted = λ b.
          IsAccounted-SameBands s (enqueued_state free) active b refl same_bands (h.accounted b);
      bands = λ i low.
          by_index (λ j w. All (λ c. band_at w c < length s.detector_busy) (pending_slots w))
            s.workers index (take_job free added worker) inside (new_bands small)
            (λ j k _. h.bands j (subst (λ n. j < n) h.size k)) i (omega (arith, h.size));
    }

  -- A call of `enqueue` leaves the jobs that run as they are.
  pub enqueue-IsSystem :
      (t : Scheduler S) (active : Active)
      → enqueue band reset s ≡ queued t
      → band < length s.detector_busy
      → IsSystem s active
      → IsSystem t active
  enqueue-IsSystem t active e small h =
      let q = enqueue-IsEnqueued t e in
      subst (λ u. IsSystem u active) q.state
        (enqueued-IsSystem active h q.free q.room q.found small)
