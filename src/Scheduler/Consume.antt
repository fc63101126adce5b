-- ===== src/Scheduler/Consume.antt =====
-- The rounds of `consume` of src/discovery_worker.cpp, and `discard_detector_jobs`.
use ovmesh_drpp.Base.{
  ℕ, zero, suc, ◌+◌, ◌-◌, ◌%◌, true, false, ◌||◌, List, [], ◌∷◌, ◌++◌, Option, none, some, length,
  ◌==◌, if◌then◌else◌, get_or, set,
}
use ovmesh_drpp.Ring.{slot}
use ovmesh_drpp.Scheduler.{
  Job, Worker, Scheduler, no_job, no_worker, band_at, eligible_detector_job,
  detector_queue_capacity,
}

-- The loop by which `consume` closes the place at an offset.
unfoldable pub shift_loop : (head left pending : ℕ) → List ℕ → List ℕ
shift_loop head zero pending slots = slots
shift_loop head (suc left) pending slots = shift_loop head left (suc pending) (
    set slots ((head + pending) % detector_queue_capacity)
      (get_or slots ((head + pending + 1) % detector_queue_capacity) 0))

module _ {S : Type 0} where
  -- The removal of a pending entry from a queue.
  unfoldable pub remove_pending : (offset : ℕ) → Worker S → Worker S
  remove_pending offset w =
      let r = w.ready in
      if offset == 0
      then record w {
        ready = record {
          slots = set r.slots r.head 0;
          head = (r.head + 1) % detector_queue_capacity;
          count = r.count - 1;
        };
      }
      else let last = (w.tail + detector_queue_capacity - 1) % detector_queue_capacity in
        record w {
          ready = record r {
            slots = set (shift_loop r.head (r.count - 1 - offset) offset r.slots) last 0;
            count = r.count - 1;
          };
          tail = last;
        }

  -- The first part of a round of `consume`, behind the wait: the claimed worker and slot, and the
  -- changed state; `none` where the loop ends, on a failure or with nothing to claim.
  unfoldable pub claim : Scheduler S → Option (ℕ × ℕ × Scheduler S)
  claim s =
      let selected = eligible_detector_job s in
      let index = selected.queue in
      let w = get_or s.workers index no_worker in
      let claimed =
        get_or w.ready.slots (slot detector_queue_capacity 0 w.ready selected.offset) 0 in
      if s.failed || index == length s.workers
      then none
      else some (
        index,
        claimed,
        record s {
          detector_busy = set s.detector_busy (band_at w claimed) true;
          workers = set s.workers index (remove_pending selected.offset w);
          pending_detector_jobs = s.pending_detector_jobs - 1;
          next_detector_queue = (index + 1) % length s.workers;
        },
      )

  -- The last part of a round: the job's samples are wiped and its slot is free.
  unfoldable pub release : (index claimed : ℕ) → Scheduler S → Scheduler S
  release index claimed s =
      let w = get_or s.workers index no_worker in
      let job = get_or w.jobs claimed no_job in
      record s {
        detector_busy = set s.detector_busy job.subband false;
        workers = set s.workers index (record w {
          jobs = set w.jobs claimed (record job { values = [] });
          occupied = set w.occupied claimed false;
          occupied_count = w.occupied_count - 1;
        });
      }

  -- One round of the inner loop of `discard_detector_jobs`, with the abandoned job.
  unfoldable pub discard_one : Worker S → Job S × Worker S
  discard_one w =
      let claimed = get_or w.ready.slots w.ready.head 0 in
      let job = get_or w.jobs claimed no_job in
      (
        job,
        record w {
          jobs = set w.jobs claimed (record job { values = [] });
          occupied = set w.occupied claimed false;
          occupied_count = w.occupied_count - 1;
          ready = record w.ready {
            head = (w.ready.head + 1) % detector_queue_capacity;
            count = w.ready.count - 1;
          };
        },
      )

  -- That loop, with `left` pending entries to go.
  unfoldable pub discard_loop : (left : ℕ) → Worker S → List (Job S) × Worker S
  discard_loop zero w = ([], w)
  discard_loop (suc left) w =
      let rest = discard_loop left (discard_one w).1 in ((discard_one w).0 ∷ rest.0, rest.1)

  unfoldable pub discard_workers : List (Worker S) → List (Job S) × List (Worker S)
  discard_workers [] = ([], [])
  discard_workers (w ∷ workers) =
      let first = discard_loop w.ready.count w in
      let rest = discard_workers workers in (first.0 ++ rest.0, first.1 ∷ rest.1)

  -- `discard_detector_jobs`: the jobs that are abandoned, in their order, and the state behind.
  unfoldable pub discard_detector_jobs : Scheduler S → List (Job S) × Scheduler S
  discard_detector_jobs s =
      let discarded = discard_workers s.workers in
      (
        discarded.0,
        record s {
          workers = discarded.1;
          pending_detector_jobs = s.pending_detector_jobs - length discarded.0;
        },
      )
