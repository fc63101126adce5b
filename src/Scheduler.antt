-- ===== src/Scheduler.antt =====
-- The detector queues of `DiscoveryWorker::Impl` in src/discovery_worker.cpp: each function below
-- runs under `detector_mutex`. A `std::complex<float>` is a value of the type `S`; the samples of a
-- job are the list of its `count` values. `ready`, `head` and `count` of a worker are one bounded
-- queue of slots.
pub mod Consume
pub mod Queue
pub mod Search
pub mod Claim
pub mod Marks
pub mod Slots
pub mod Bands
pub mod Enqueues
pub mod Claims
pub mod Releases
pub mod Discards
pub mod Runs
pub mod Waits
use ovmesh_drpp.Base.{
  ℕ, zero, suc, ◌+◌, ◌-◌, ◌*◌, ◌%◌, ◌≤◌, ◌<◌, max, Bool, true, false, not, ◌&&◌, ◌||◌, List, [],
  ◌∷◌, ◌++◌, Option, none, some, length, ltb, ◌==◌, if◌then◌else◌, get_or, set,
}
use ovmesh_drpp.Ring.{Ring, slot, push}

abbrev pub detector_workers : ℕ
detector_workers = 3

abbrev pub detector_queue_capacity : ℕ
detector_queue_capacity = 16

pub record Job (S : Type 0) : Type 0 where
  pub reset : Bool
  pub subband : ℕ
  pub first_local : ℕ
  pub anchor : ℕ
  pub segment : ℕ
  pub stride : ℕ
  pub values : List S

pub record Worker (S : Type 0) : Type 0 where
  pub jobs : List (Job S)
  pub ready : Ring ℕ
  pub occupied : List Bool
  pub tail : ℕ
  pub occupied_count : ℕ

pub record Staging (S : Type 0) : Type 0 where
  pub values : List S
  pub next_local : ℕ
  pub anchor : ℕ
  pub stride : ℕ
  pub anchored : Bool

pub record Scheduler (S : Type 0) : Type 0 where
  pub workers : List (Worker S)
  pub detector_busy : List Bool
  pub next_detector_queue : ℕ
  pub pending_detector_jobs : ℕ
  pub staging : List (Staging S)
  pub segment : ℕ
  pub failed : Bool
  pub detector_queue_high_water : List ℕ

-- `detector_workers` stands for no queue.
pub record DetectorSelection : Type 0 where
  pub queue : ℕ
  pub offset : ℕ

-- How a call of `enqueue` goes on: it waits for room, throws one of two exceptions, or has queued.
pub data Enqueued (S : Type 0) : Type 0 where
  waiting stopped mismatch : Enqueued S
  queued : Scheduler S → Enqueued S

-- `std::find(occupied.begin(), occupied.end(), false)`, from the index `i` on.
unfoldable pub find_free : (i : ℕ) → List Bool → Option ℕ
find_free i [] = none
find_free i (taken ∷ occupied) = if taken then find_free (i + 1) occupied else some i

module _ {S : Type 0} where
  abbrev pub no_job : Job S
  no_job = record {
    reset = false;
    subband = 0;
    first_local = 0;
    anchor = 0;
    segment = 0;
    stride = 0;
    values = [];
  }

  abbrev pub no_worker : Worker S
  no_worker = record {
    jobs = [];
    ready = record { slots = []; head = 0; count = 0 };
    occupied = [];
    tail = 0;
    occupied_count = 0;
  }

  abbrev pub no_staging : Staging S
  no_staging = record { values = []; next_local = 0; anchor = 0; stride = 0; anchored = false }

  -- The job that `enqueue` fills in.
  abbrev pub new_job : (band segment : ℕ) (reset : Bool) → Staging S → Job S
  new_job band segment reset pending = record {
    reset = reset;
    subband = band;
    first_local = pending.next_local;
    anchor = pending.anchor;
    segment = segment;
    stride = pending.stride;
    values = if reset then [] else pending.values;
  }

  -- What `enqueue` leaves of the staged samples.
  abbrev pub staged : (reset : Bool) → Staging S → Staging S
  staged true pending = pending
  staged false pending = record pending {
    values = [];
    next_local = pending.next_local + length pending.values;
  }

  -- The change of a worker that takes a job into the slot `free`.
  abbrev pub take_job : (free : ℕ) → Job S → Worker S → Worker S
  take_job free job w = record {
    jobs = set w.jobs free job;
    ready = record w.ready { slots = set w.ready.slots w.tail free; count = w.ready.count + 1 };
    occupied = set w.occupied free true;
    tail = (w.tail + 1) % detector_queue_capacity;
    occupied_count = w.occupied_count + 1;
  }

  unfoldable pub enqueue : (band : ℕ) (reset : Bool) → Scheduler S → Enqueued S
  enqueue band reset s =
      let index = band % detector_workers in
      let w = get_or s.workers index no_worker in
      let pending = get_or s.staging band no_staging in
      if not (ltb w.occupied_count detector_queue_capacity) && not s.failed
      then waiting
      else if s.failed
      then stopped
      else elim (find_free 0 w.occupied) [
        | none ↦ mismatch
        | some free ↦ queued (record s {
          workers = set s.workers index (take_job free (new_job band s.segment reset pending) w);
          staging = set s.staging band (staged reset pending);
          pending_detector_jobs = s.pending_detector_jobs + 1;
          detector_queue_high_water =
              set s.detector_queue_high_water index
                (max (get_or s.detector_queue_high_water index 0) (w.occupied_count + 1));
        })
      ]

  -- The subband of the job in a slot.
  abbrev pub band_at : Worker S → (slot : ℕ) → ℕ
  band_at w free = (get_or w.jobs free no_job).subband

  -- The inner loop of `eligible_detector_job`, with `left` pending entries to go from `pending` on.
  unfoldable pub scan_queue : List Bool → Worker S → (left pending : ℕ) → Option ℕ
  scan_queue busy w zero pending = none
  scan_queue busy w (suc left) pending =
      let found = get_or w.ready.slots (slot detector_queue_capacity 0 w.ready pending) 0 in
      let later = scan_queue busy w left (suc pending) in
      if not (get_or busy (band_at w found) false) then some pending else later

  -- The outer loop, with `left` queues to go from `offset` on.
  unfoldable pub scan_queues : Scheduler S → (left offset : ℕ) → DetectorSelection
  scan_queues s zero offset = record { queue = detector_workers; offset = 0 }
  scan_queues s (suc left) offset =
      let index = (s.next_detector_queue + offset) % length s.workers in
      let w = get_or s.workers index no_worker in
      let later = scan_queues s left (offset + 1) in
      elim (scan_queue s.detector_busy w w.ready.count 0) [
        | some pending ↦ record { queue = index; offset = pending }
        | none ↦ later
      ]

  abbrev pub eligible_detector_job : Scheduler S → DetectorSelection
  eligible_detector_job s = scan_queues s (length s.workers) 0
