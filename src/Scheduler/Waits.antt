-- ===== src/Scheduler/Waits.antt =====
-- When `consume` of src/discovery_worker.cpp finds no job to claim.
use mathlib.Core.List.{Memᴰ}
use ovmesh_drpp.Base.{ℕ, ◌<◌, false, List, [], ◌∷◌, none, map, All, ◌≡◌}
use ovmesh_drpp.Scheduler.{Scheduler, band_at}
use ovmesh_drpp.Scheduler.Consume.{claim}
use ovmesh_drpp.Scheduler.Queue.{pending_slots}
use ovmesh_drpp.Scheduler.Search.{IsBlocked, worker_at}
use ovmesh_drpp.Scheduler.Claim.{claim-IsBlocked}
use ovmesh_drpp.Scheduler.Bands.{Active, band_of, IsSystem, IsSystem-IsScheduler}
use ovmesh_drpp.Scheduler.Runs.{Reach, Reach-IsSystem, new_scheduler, new_scheduler-IsSystem}

module _ {S : Type 0} where
  -- A job that runs has the band of the job in a slot.
  abbrev pub IsWaiting : Scheduler S → Active → (index claimed : ℕ) → Type 0
  IsWaiting s active index claimed =
      Memᴰ (band_at (worker_at s index) claimed) (map (band_of s) active)

  blocked-IsWaiting :
      (s : Scheduler S) (active : Active) (i : ℕ) (slots : List ℕ)
      → IsSystem s active
      → All (IsBlocked s.detector_busy (worker_at s i)) slots
      → All (IsWaiting s active i) slots
  blocked-IsWaiting s active i [] h b = tt
  blocked-IsWaiting s active i (c ∷ slots) h (b, rest) =
      (h.accounted (band_at (worker_at s i) c) b, blocked-IsWaiting s active i slots h rest)

  -- From the start of a survey on, in every order of the threads' steps: where `consume` finds
  -- nothing to claim although nothing has failed, every pending job of every queue is of the
  -- subband of a job that runs.
  pub claim-none :
      (bands : ℕ) (s : Scheduler S) (active : Active) (i : ℕ)
      → Reach (new_scheduler bands, []) (s, active)
      → s.failed ≡ false
      → claim s ≡ none
      → i < 3
      → All (IsWaiting s active i) (pending_slots (worker_at s i))
  claim-none bands s active i r working e inside =
      let h = Reach-IsSystem (new_scheduler-IsSystem bands) r in
      blocked-IsWaiting s active i (pending_slots (worker_at s i)) h
        (claim-IsBlocked s i (IsSystem-IsScheduler s active h) working e inside)
