-- ===== src/Scheduler/Claim.antt =====
-- Which job `consume` of src/discovery_worker.cpp claims.
use mathlib.Core.Option.{some-injective}
use ovmesh_drpp.Base.{
  ℕ, ◌+◌, ◌-◌, ◌%◌, ◌<◌, Bool, true, false, ◌||◌, List, [], ◌∷◌, ◌++◌, none, some, All, get_or, set,
  length, get_or-set_self, ◌≡◌, ◌≢◌, sym, ap, ◌∙◌, subst, Bool-cases, ◌==◌, inl, inr, arith,
}
use ovmesh_drpp.Ring.{slot}
use ovmesh_drpp.Scheduler.{
  Worker, Scheduler, DetectorSelection, no_worker, detector_queue_capacity, band_at,
  eligible_detector_job,
}
use ovmesh_drpp.Scheduler.Consume.{remove_pending, claim}
use ovmesh_drpp.Scheduler.Queue.{entry, front, back, pending_slots, pending_parts, pending_removed}
use ovmesh_drpp.Scheduler.Search.{
  IsBlocked, queue_at, worker_at, scan_queues-IsSelected, IsScheduler, worker_at-IsQueue, FoundAt,
  IsSelected-FoundAt, IsSelected-IsBlocked,
}

module _ {S : Type 0} where
  pub record Claimed (s : Scheduler S) (index claimed : ℕ) (t : Scheduler S) : Type 0 where
    pub before : List ℕ
    pub after : List ℕ
    pub inside : index < 3
    pub pending : pending_slots (worker_at s index) ≡ before ++ claimed ∷ after
    pub left : pending_slots (worker_at t index) ≡ before ++ after
    pub idle : get_or s.detector_busy (band_at (worker_at s index) claimed) false ≡ false
    pub first :
        All
          (λ other. band_at (worker_at s index) other ≢ band_at (worker_at s index) claimed)
          before

  blocked_apart :
      (busy : List Bool) (w : Worker S) (claimed : ℕ) (others : List ℕ)
      → get_or busy (band_at w claimed) false ≡ false
      → All (IsBlocked busy w) others
      → All (λ other. band_at w other ≢ band_at w claimed) others
  blocked_apart busy w claimed [] idle blocked = tt
  blocked_apart busy w claimed (o ∷ others) idle (b, blocked) = (
    λ same. let e : true ≡ false = sym b ∙ ap (λ k. get_or busy k false) same ∙ idle in cc,
    blocked_apart busy w claimed others idle blocked,
  )

  abbrev pub IsClaim : Scheduler S → ℕ × ℕ × Scheduler S → Type 0
  IsClaim s (index, claimed, t) = Claimed s index claimed t

  abbrev pub claimed_state : Scheduler S → DetectorSelection → ℕ × ℕ × Scheduler S
  claimed_state s d =
      let w = worker_at s d.queue in
      let claimed = get_or w.ready.slots (slot detector_queue_capacity 0 w.ready d.offset) 0 in
      (
        d.queue,
        claimed,
        record s {
          detector_busy = set s.detector_busy (band_at w claimed) true;
          workers = set s.workers d.queue (remove_pending d.offset w);
          pending_detector_jobs = s.pending_detector_jobs - 1;
          next_detector_queue = (d.queue + 1) % length s.workers;
        },
      )

  pub FoundAt-Claimed :
      (s : Scheduler S) (d : DetectorSelection)
      → IsScheduler s
      → FoundAt s d
      → IsClaim s (claimed_state s d)
  FoundAt-Claimed s d h (inside, found) =
      let w = worker_at s d.queue in
      let from_start : d.offset - 0 ≡ d.offset = omega arith in
      let q = worker_at-IsQueue s.workers d.queue h.queues (omega (arith, h.size)) in
      record {
        before = front w d.offset;
        after = back w d.offset;
        inside = inside;
        pending = pending_parts w d.offset (omega (arith, found.inside));
        left =
            ap pending_slots (
              get_or-set_self s.workers d.queue (remove_pending d.offset w) no_worker
                (omega (arith, h.size)))
            ∙ pending_removed w d.offset q (omega (arith, found.inside));
        idle = found.idle;
        first =
            blocked_apart s.detector_busy w (entry w d.offset) (front w d.offset) found.idle
              (subst (λ k. All (IsBlocked s.detector_busy w) (front w k)) from_start found.blocked);
      }

  none-some : {c : ℕ × ℕ × Scheduler S} → none ≡ some c → ⊥
  none-some e = cc

  -- What is claimed was found by the search.
  pub claim-FoundAt :
      (s : Scheduler S) (index claimed : ℕ) (t : Scheduler S)
      → length s.workers ≡ 3
      → claim s ≡ some (index, claimed, t)
      → (d : DetectorSelection) × FoundAt s d × (claimed_state s d ≡ (index, claimed, t))
  unfolding claim
  claim-FoundAt s index claimed t size e =
      elim (Bool-cases (s.failed || (eligible_detector_job s).queue == length s.workers)) [
        | inl stop ↦ absurd (none-some (rw stop at e))
        | inr go ↦
            let d = eligible_detector_job s in
            let some_claim : some (claimed_state s d) ≡ some (index, claimed, t) = rw go at e in
            elim (IsSelected-FoundAt s (length s.workers) 0 d size
              (scan_queues-IsSelected s (length s.workers) 0)) [
                | inl nowhere ↦ absurd (ground arith)
                | inr found ↦ (d, found, some-injective _ _ some_claim)
              ]
      ]

  -- With three well-formed queues, the job that `consume` claims is the first pending one of its
  -- band in its queue, its band is not marked busy, and the other pending jobs of the queue
  -- stay, in their order.
  pub claim-Claimed :
      (s : Scheduler S) (index claimed : ℕ) (t : Scheduler S)
      → IsScheduler s
      → claim s ≡ some (index, claimed, t)
      → Claimed s index claimed t
  claim-Claimed s index claimed t h e =
      let (d, found, same) = claim-FoundAt s index claimed t h.size e in
      subst (IsClaim s) same (FoundAt-Claimed s d h found)

  -- Where nothing is claimed although nothing has failed, all pending jobs are blocked.
  pub claim-IsBlocked :
      (s : Scheduler S) (i : ℕ)
      → IsScheduler s
      → s.failed ≡ false
      → claim s ≡ none
      → i < 3
      → All (IsBlocked s.detector_busy (worker_at s i)) (pending_slots (worker_at s i))
  unfolding claim
  claim-IsBlocked s i h working e inside =
      let d = eligible_detector_job s in
      let k = (i + 3 - s.next_detector_queue % 3) % 3 in
      let size = h.size in
      let at : queue_at s k ≡ i = ap (λ n. (s.next_detector_queue + k) % n) size ∙ omega arith in
      let nowhere : d.queue ≡ 3 = elim (Bool-cases (s.failed || d.queue == length s.workers)) [
        | inl stop ↦ ground arith
        | inr go ↦ absurd (none-some (sym (rw go at e)))
      ] in
      subst (λ j. All (IsBlocked s.detector_busy (worker_at s j)) (pending_slots (worker_at s j)))
        at
        (IsSelected-IsBlocked s (length s.workers) 0 k d size
          (scan_queues-IsSelected s (length s.workers) 0) nowhere (omega arith) (omega arith))
