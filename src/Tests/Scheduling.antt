-- ===== src/Tests/Scheduling.antt =====
-- Runs of the modelled detector scheduler, and the instances of its theorems.
use ovmesh_drpp.Base.{ℕ, true, false, [], ◌∷◌, none, some, All, ◌≡◌, refl, arith, replicate}
use ovmesh_drpp.Scheduler.{Job, Worker, Scheduler, no_job, no_staging, scan_queue, scan_queues}
use ovmesh_drpp.Scheduler.Consume.{remove_pending, claim}
use ovmesh_drpp.Scheduler.Queue.{IsQueue, pending_slots}
use ovmesh_drpp.Base.{map, ◌<◌, ◌≢◌}
use ovmesh_drpp.Scheduler.{mismatch, find_free, enqueue}
use ovmesh_drpp.Scheduler.Consume.{shift_loop}
use ovmesh_drpp.Scheduler.Marks.{AllApart}
use ovmesh_drpp.Scheduler.Slots.{IsOwned}
use ovmesh_drpp.Scheduler.Bands.{slots_of, band_of, IsRunning}
use ovmesh_drpp.Scheduler.Enqueues.{enqueued_state}
use ovmesh_drpp.Scheduler.Runs.{
  Reach, here, next, enqueues, claims, new_scheduler, Reach-IsExclusive,
}
use ovmesh_drpp.Scheduler.Claim.{claimed_state}
use ovmesh_drpp.Scheduler.Search.{IsScheduler, worker_at}
use ovmesh_drpp.Scheduler.Claim.{Claimed, claim-Claimed}
use ovmesh_drpp.Scheduler.Waits.{IsWaiting, claim-none}

abbrev band_job : ℕ → Job ℕ
band_job band = record no_job { subband = band; values = 7 ∷ [] }

-- Jobs of the bands 0 and 3 are pending.
abbrev two_pending : Worker ℕ
two_pending = record {
  jobs = band_job 0 ∷ band_job 3 ∷ replicate 14 no_job;
  ready = record { slots = 0 ∷ 1 ∷ replicate 14 0; head = 0; count = 2 };
  occupied = true ∷ true ∷ replicate 14 false;
  tail = 2;
  occupied_count = 2;
}

abbrev idle_worker : Worker ℕ
idle_worker = record {
  jobs = replicate 16 no_job;
  ready = record { slots = replicate 16 0; head = 0; count = 0 };
  occupied = replicate 16 false;
  tail = 0;
  occupied_count = 0;
}

-- The band 0 is marked busy.
abbrev band_0_runs : Scheduler ℕ
band_0_runs = record {
  workers = two_pending ∷ idle_worker ∷ idle_worker ∷ [];
  detector_busy = true ∷ replicate 4 false;
  next_detector_queue = 0;
  pending_detector_jobs = 2;
  staging = replicate 5 no_staging;
  segment = 1;
  failed = false;
  detector_queue_high_water = 2 ∷ 0 ∷ 0 ∷ [];
}

abbrev band_3_claimed : Scheduler ℕ
band_3_claimed = record band_0_runs {
  workers = remove_pending 1 two_pending ∷ idle_worker ∷ idle_worker ∷ [];
  detector_busy = true ∷ false ∷ false ∷ true ∷ false ∷ [];
  next_detector_queue = 1;
  pending_detector_jobs = 1;
}

claim_band_3 : claim band_0_runs ≡ some (0, 1, band_3_claimed)
unfolding claim scan_queues scan_queue
claim_band_3 = refl

two_pending-IsQueue : IsQueue two_pending
two_pending-IsQueue = record {
  ring = record { size = refl; inside = omega arith; bounded = omega arith };
  tail = refl;
}

idle_worker-IsQueue : IsQueue idle_worker
idle_worker-IsQueue = record {
  ring = record { size = refl; inside = omega arith; bounded = omega arith };
  tail = refl;
}

band_0_runs-IsScheduler : IsScheduler band_0_runs
band_0_runs-IsScheduler = record {
  size = refl;
  queues = (two_pending-IsQueue, (idle_worker-IsQueue, (idle_worker-IsQueue, tt)));
}

claim-Claimed_example : Claimed band_0_runs 0 1 band_3_claimed
claim-Claimed_example =
    claim-Claimed band_0_runs 0 1 band_3_claimed band_0_runs-IsScheduler claim_band_3

-- Three jobs are queued, of which the second has to wait for the first, and two threads claim.
abbrev first_queued : Scheduler ℕ
first_queued = enqueued_state 0 false (new_scheduler 5) 0

abbrev second_queued : Scheduler ℕ
second_queued = enqueued_state 0 true first_queued 1

abbrev third_queued : Scheduler ℕ
third_queued = enqueued_state 3 false second_queued 2

abbrev first_claimed : Scheduler ℕ
first_claimed = (claimed_state third_queued (record { queue = 0; offset = 0 })).2

abbrev second_claimed : Scheduler ℕ
second_claimed = (claimed_state first_claimed (record { queue = 0; offset = 1 })).2

three_queued : Reach (new_scheduler 5, []) (third_queued, [])
unfolding enqueue find_free
three_queued =
    next
      (next (next here (enqueues 0 false first_queued (omega arith) refl))
        (enqueues 0 true second_queued (omega arith) refl))
      (enqueues 3 false third_queued (omega arith) refl)

two_running : Reach (new_scheduler 5, []) (second_claimed, (0, 2) ∷ (0, 0) ∷ [])
unfolding claim scan_queues scan_queue remove_pending shift_loop
two_running =
    next (next three_queued (claims 0 0 first_claimed refl)) (claims 0 2 second_claimed refl)

Reach-IsExclusive_example :
    AllApart (map (band_of second_claimed) ((0, 2) ∷ (0, 0) ∷ []))
    × All (IsRunning second_claimed) ((0, 2) ∷ (0, 0) ∷ [])
    × ((i : ℕ) → i < 3 → IsOwned (worker_at second_claimed i) (slots_of i ((0, 2) ∷ (0, 0) ∷ [])))
    × (enqueue 3 true second_claimed ≢ mismatch)
Reach-IsExclusive_example =
    Reach-IsExclusive 5 second_claimed ((0, 2) ∷ (0, 0) ∷ []) 3 true two_running

nothing_to_claim : claim second_claimed ≡ none
unfolding claim scan_queues scan_queue remove_pending shift_loop
nothing_to_claim = refl

claim-none_example :
    All
      (IsWaiting second_claimed ((0, 2) ∷ (0, 0) ∷ []) 0)
      (pending_slots (worker_at second_claimed 0))
claim-none_example =
    claim-none 5 second_claimed ((0, 2) ∷ (0, 0) ∷ []) 0 two_running refl nothing_to_claim
      (omega arith)
