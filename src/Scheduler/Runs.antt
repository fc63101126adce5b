-- ===== src/Scheduler/Runs.antt =====
-- The detector scheduler of src/discovery_worker.cpp over all orders of its threads' steps, each of
-- which runs under `detector_mutex`: `enqueue` by the producer, the first and the last part of a
-- round of `consume` by any thread, and `discard_detector_jobs` after a failure. Between its two parts a thread holds a slot and runs its job.
use ovmesh_drpp.Base.{
  ℕ, zero, suc, ◌%◌, ◌<◌, Bool, true, false, not, ◌&&◌, List, [], ◌∷◌, ◌++◌, map, some, All, get_or,
  length, ltb, replicate, Bool-cases, Option-cases, ◌≡◌, ◌≢◌, inl, inr, refl, subst, arith,
}
use ovmesh_drpp.Scheduler.{
  Worker, Scheduler, Staging, waiting, stopped, mismatch, queued, no_job, no_staging, band_at,
  find_free, enqueue,
}
use ovmesh_drpp.Scheduler.Consume.{claim, release, discard_detector_jobs}
use ovmesh_drpp.Scheduler.Queue.{pending_slots}
use ovmesh_drpp.Scheduler.Search.{worker_at}
use ovmesh_drpp.Scheduler.Marks.{AllApart, count_true, find_free-none}
use ovmesh_drpp.Scheduler.Slots.{IsOwned}
use ovmesh_drpp.Scheduler.Bands.{Active, slots_of, band_of, IsRunning, IsSystem}
use ovmesh_drpp.Scheduler.Enqueues.{enqueued_state, enqueue-IsSystem}
use ovmesh_drpp.Scheduler.Claims.{claim-IsSystem}
use ovmesh_drpp.Scheduler.Releases.{release-IsSystem}
use ovmesh_drpp.Scheduler.Discards.{discard_detector_jobs-IsSystem}

module _ {S : Type 0} where
  -- A step of a thread; `active` are the jobs that run, by queue and slot. The producer stages
  -- samples and counts segments by itself, and any thread may report a failure.
  pub data Step : Scheduler S × Active → Scheduler S × Active → Type 0 where
    enqueues :
        {s : Scheduler S} {active : Active} (band : ℕ) (reset : Bool) (t : Scheduler S)
        → band < length s.detector_busy
        → enqueue band reset s ≡ queued t
        → Step (s, active) (t, active)
    stages :
        {s : Scheduler S} {active : Active} (staging : List (Staging S)) (segment : ℕ)
        (failed : Bool)
        → Step
            (s, active)
            (record s { staging = staging; segment = segment; failed = failed }, active)
    claims :
        {s : Scheduler S} {active : Active} (index claimed : ℕ) (t : Scheduler S)
        → claim s ≡ some (index, claimed, t)
        → Step (s, active) (t, (index, claimed) ∷ active)
    releases :
        {s : Scheduler S} {active : Active} (index claimed : ℕ) (before after : Active)
        → active ≡ before ++ (index, claimed) ∷ after
        → Step (s, active) (release index claimed s, before ++ after)
    discards :
        {s : Scheduler S} {active : Active}
        → s.failed ≡ true
        → Step (s, active) ((discard_detector_jobs s).1, active)

  pub data Reach (start : Scheduler S × Active) : Scheduler S × Active → Type 0 where
    here : Reach start start
    next : {x y : Scheduler S × Active} → Reach start x → Step x y → Reach start y

  abbrev IsSystemAt : Scheduler S × Active → Type 0
  IsSystemAt x = IsSystem x.0 x.1

  Step-IsSystem : {x y : Scheduler S × Active} → Step x y → IsSystemAt x → IsSystemAt y
  Step-IsSystem (enqueues {s} {active} band reset t small e) h =
      enqueue-IsSystem band reset s t active e small h
  Step-IsSystem (stages {s} {active} staging segment failed) h = record {
    size = h.size;
    owned = h.owned;
    running = h.running;
    apart = h.apart;
    accounted = h.accounted;
    bands = h.bands;
  }
  Step-IsSystem (claims {s} {active} index claimed t e) h =
      claim-IsSystem s active index claimed t e h
  Step-IsSystem (releases {s} {active} index claimed before after e) h =
      release-IsSystem s index claimed before after (subst (IsSystem s) e h)
  Step-IsSystem (discards {s} {active} failed) h = discard_detector_jobs-IsSystem s active h

  pub Reach-IsSystem : {x y : Scheduler S × Active} → IsSystemAt x → Reach x y → IsSystemAt y
  Reach-IsSystem h here = h
  Reach-IsSystem h (next r step) = Step-IsSystem step (Reach-IsSystem h r)

  -- The state before the first block of a survey with so many subbands.
  abbrev pub new_worker : Worker S
  new_worker = record {
    jobs = replicate 16 no_job;
    ready = record { slots = replicate 16 0; head = 0; count = 0 };
    occupied = replicate 16 false;
    tail = 0;
    occupied_count = 0;
  }

  abbrev pub new_scheduler : (bands : ℕ) → Scheduler S
  new_scheduler bands = record {
    workers = new_worker ∷ new_worker ∷ new_worker ∷ [];
    detector_busy = replicate bands false;
    next_detector_queue = 0;
    pending_detector_jobs = 0;
    staging = replicate bands no_staging;
    segment = 0;
    failed = false;
    detector_queue_high_water = 0 ∷ 0 ∷ 0 ∷ [];
  }

  new_worker-IsOwned : IsOwned new_worker []
  unfolding count_true
  new_worker-IsOwned = record {
    queue = record {
      ring = record { size = refl; inside = omega arith; bounded = omega arith };
      tail = omega arith;
    };
    jobs_size = refl;
    occupied_size = refl;
    apart = tt;
    taken = tt;
    marks = refl;
    counted = omega arith;
  }

  pub new_scheduler-IsSystem : (bands : ℕ) → IsSystem (new_scheduler bands) []
  new_scheduler-IsSystem bands = record {
    size = refl;
    owned = each;
    running = tt;
    apart = tt;
    accounted = λ band marked. absurd (unmarked bands band marked);
    bands = nothing_pending;
  }
    where
      unmarked : (n band : ℕ) → get_or (replicate n false) band false ≡ true → ⊥
      unmarked zero band e = cc
      unmarked (suc n) zero e = cc
      unmarked (suc n) (suc band) e = unmarked n band e

      each : (i : ℕ) → i < 3 → IsOwned (worker_at (new_scheduler bands) i) []
      each zero low = new_worker-IsOwned
      each (suc zero) low = new_worker-IsOwned
      each (suc (suc zero)) low = new_worker-IsOwned
      each (suc (suc (suc i))) low = absurd (omega arith)

      nothing_pending :
          (i : ℕ)
          → i < 3
          → All
              (λ c.
                band_at (worker_at (new_scheduler bands) i) c
                < length (new_scheduler bands).detector_busy)
              (pending_slots (worker_at (new_scheduler bands) i))
      nothing_pending zero low = tt
      nothing_pending (suc zero) low = tt
      nothing_pending (suc (suc zero)) low = tt
      nothing_pending (suc (suc (suc i))) low = absurd (omega arith)

  -- A call of `enqueue` never finds its accounting wrong.
  never_mismatch :
      (s : Scheduler S) (active : Active) (band : ℕ) (reset : Bool)
      → IsSystem s active
      → enqueue band reset s ≢ mismatch
  unfolding enqueue
  never_mismatch s active band reset h e =
      let w = worker_at s (band % 3) in
      let owner = h.owned (band % 3) (omega arith) in
      elim (Bool-cases (not (ltb w.occupied_count 16) && not s.failed)) [
        | inl waits ↦ let never : waiting ≡ mismatch = rw waits at e in cc
        | inr goes ↦ elim (Bool-cases s.failed) [
          | inl failed ↦ let never : stopped ≡ mismatch = rw (goes, failed) at e in cc
          | inr live ↦ elim (Option-cases (find_free 0 w.occupied)) [
            | inl full ↦
                let room : w.occupied_count < 16 = ground arith in
                absurd (
                  omega (
                    arith,
                    room,
                    owner.marks,
                    find_free-none 0 w.occupied full,
                    owner.occupied_size,
                  ))
            | inr (free, found) ↦
                let wrong : queued (enqueued_state band reset s free) ≡ mismatch =
                  rw (goes, live, found) at e in
                cc
          ]
        ]
      ]

  -- From the start of a survey on, in every order of the threads' steps: no two jobs that run are
  -- of one subband, and the subband of each is marked busy; every slot in use is either pending in
  -- its queue once or held by one job that runs; and a call of `enqueue` never finds its slots
  -- counted wrong, so that its `logic_error` is not thrown.
  pub Reach-IsExclusive :
      (bands : ℕ) (s : Scheduler S) (active : Active) (band : ℕ) (reset : Bool)
      → Reach (new_scheduler bands, []) (s, active)
      → AllApart (map (band_of s) active)
        × All (IsRunning s) active
        × ((i : ℕ) → i < 3 → IsOwned (worker_at s i) (slots_of i active))
        × (enqueue band reset s ≢ mismatch)
  Reach-IsExclusive bands s active band reset r =
      let h = Reach-IsSystem (new_scheduler-IsSystem bands) r in
      (h.apart, h.running, h.owned, never_mismatch s active band reset h)
