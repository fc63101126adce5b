-- ===== src/Scheduler/Slots.antt =====
-- The slots of one detector queue of src/discovery_worker.cpp: a slot that holds a job is pending
-- or held by a thread that runs the job, and `enqueue` takes none of these.
use ovmesh_drpp.Base.{
  ℕ, ◌+◌, ◌-◌, ◌<◌, true, false, List, [], ◌∷◌, ◌++◌, some, All, get_or, set, length, length-append,
  length-set, get_or-set_self, append_assoc, Bool-cases, ◌==◌, ◌≡◌, ◌≢◌, inl, inr, refl, sym, ap,
  ◌∙◌, subst, arith,
}
use ovmesh_drpp.Ring.Contents.{IsRing, contents, contents-push, push-IsRing, length-contents}
use ovmesh_drpp.Scheduler.{Job, Worker, no_job, find_free, take_job}
use ovmesh_drpp.Scheduler.Consume.{remove_pending}
use ovmesh_drpp.Scheduler.Queue.{IsQueue, pending_slots, removed-IsQueue}
use ovmesh_drpp.Scheduler.Marks.{
  AllApart, All-combine, All-remove, All-insert, AllApart-remove, AllApart-insert, count_true,
  count_true-mark, count_true-clear, IsTaken, IsTaken-set, taken_ne_free, first_free,
}

module _ {S : Type 0} where
  -- A queue whose slots in use are the pending ones and those that threads hold.
  pub record IsOwned (w : Worker S) (held : List ℕ) : Type 0 where
    pub queue : IsQueue w
    pub jobs_size : length w.jobs ≡ 16
    pub occupied_size : length w.occupied ≡ 16
    pub apart : AllApart (pending_slots w ++ held)
    pub taken : All (IsTaken w.occupied) (pending_slots w ++ held)
    pub marks : w.occupied_count ≡ count_true w.occupied
    pub counted : w.occupied_count ≡ length (pending_slots w) + length held

  -- What the removal of a pending entry leaves alone.
  pub remove_pending-kept :
      (w : Worker S) (offset : ℕ)
      → ((remove_pending offset w).jobs ≡ w.jobs)
        × ((remove_pending offset w).occupied ≡ w.occupied)
        × ((remove_pending offset w).occupied_count ≡ w.occupied_count)
  unfolding remove_pending
  remove_pending-kept w offset = elim (Bool-cases (offset == 0)) [
    | inl e ↦ rw e (refl, refl, refl)
    | inr e ↦ rw e (refl, refl, refl)
  ]

  -- The worker that `release` leaves.
  abbrev pub released_worker : (claimed : ℕ) → Worker S → Worker S
  released_worker claimed w = record w {
    jobs = set w.jobs claimed (record (get_or w.jobs claimed no_job) { values = [] });
    occupied = set w.occupied claimed false;
    occupied_count = w.occupied_count - 1;
  }

  module _ (w : Worker S) (held : List ℕ) (h : IsOwned w held) where
    -- The free slot of a worker is none of those in use.
    pub free_unused :
        (free : ℕ)
        → find_free 0 w.occupied ≡ some free
        → All (λ c. c ≢ free) (pending_slots w ++ held)
    free_unused free e =
        let (_, unused) = first_free w.occupied free e in
        All-combine (IsTaken w.occupied) (IsTaken w.occupied) (λ c. c ≢ free)
          (pending_slots w ++ held) (λ c t _. taken_ne_free w.occupied free c unused t) h.taken
          h.taken

    pub taken-pending_slots :
        (free : ℕ) (job : Job S)
        → w.occupied_count < 16
        → pending_slots (take_job free job w) ≡ pending_slots w ++ free ∷ []
    taken-pending_slots free job room =
        let few : w.ready.count < 16 = omega (arith, h.counted, length-contents 16 0 w.ready) in
        ap
          (λ k.
            contents 16 0
              (record w.ready { slots = set w.ready.slots k free; count = w.ready.count + 1 }))
          h.queue.tail
        ∙ contents-push 16 0 free w.ready h.queue.ring few

    -- A job is taken into the free slot.
    pub take_job-IsOwned :
        (free : ℕ) (job : Job S)
        → find_free 0 w.occupied ≡ some free
        → w.occupied_count < 16
        → IsOwned (take_job free job w) held
    take_job-IsOwned free job e room =
        let few : w.ready.count < 16 = omega (arith, h.counted, length-contents 16 0 w.ready) in
        let (inside, unused) = first_free w.occupied free e in
        let queued = taken-pending_slots free job room in
        let same : (pending_slots w ++ free ∷ []) ++ held ≡ pending_slots w ++ free ∷ held =
          append_assoc (pending_slots w) (free ∷ []) held in
        let others = free_unused free e in
        record {
          queue = record {
            ring =
                subst
                  (λ k. IsRing 16 0 (record w.ready {
                    slots = set w.ready.slots k free;
                    count = w.ready.count + 1;
                  }))
                  (sym h.queue.tail) (push-IsRing 16 0 free w.ready h.queue.ring few);
            tail = omega (arith, h.queue.tail);
          };
          jobs_size = length-set w.jobs free job ∙ h.jobs_size;
          occupied_size = length-set w.occupied free true ∙ h.occupied_size;
          apart = rw (queued, same) (AllApart-insert (pending_slots w) free held others h.apart);
          taken =
              rw (queued, same)
                (All-insert (IsTaken (set w.occupied free true)) (pending_slots w) free held
                  (
                    omega (arith, h.occupied_size),
                    get_or-set_self w.occupied free true false inside,
                  )
                  (All-combine (IsTaken w.occupied) (λ c. c ≢ free)
                    (IsTaken (set w.occupied free true)) _ (IsTaken-set w.occupied free true)
                    h.taken others));
          marks = omega (arith, h.marks, count_true-mark w.occupied free inside unused);
          counted =
              rw queued (omega (arith, h.counted, length-append {0} (pending_slots w) (free ∷ [])));
        }

    -- A thread claims the pending slot `c`.
    pub removed-IsOwned :
        (offset c : ℕ) (before after : List ℕ)
        → offset < w.ready.count
        → pending_slots w ≡ before ++ c ∷ after
        → pending_slots (remove_pending offset w) ≡ before ++ after
        → IsOwned (remove_pending offset w) (c ∷ held)
    removed-IsOwned offset c before after inside was now =
        let kept = remove_pending-kept w offset in
        let old : pending_slots w ++ held ≡ before ++ c ∷ (after ++ held) =
          ap (λ l. l ++ held) was ∙ append_assoc before (c ∷ after) held in
        let new : pending_slots (remove_pending offset w) ++ c ∷ held
            ≡ (before ++ after) ++ c ∷ held =
          ap (λ l. l ++ c ∷ held) now in
        let flat : (before ++ after) ++ held ≡ before ++ (after ++ held) =
          append_assoc before after held in
        let (others, apart) =
          AllApart-remove before c (after ++ held) (subst AllApart old h.apart) in
        let (this, taken) =
          All-remove (IsTaken w.occupied) before c (after ++ held)
            (subst (All (IsTaken w.occupied)) old h.taken) in
        record {
          queue = removed-IsQueue w offset h.queue inside;
          jobs_size = ap length kept.0 ∙ h.jobs_size;
          occupied_size = ap length kept.1 ∙ h.occupied_size;
          apart = subst AllApart (sym new) (
              AllApart-insert (before ++ after) c held (subst (All (λ y. y ≢ c)) (sym flat) others)
                (subst AllApart (sym flat) apart));
          taken =
              rw (new, kept.1)
                (All-insert (IsTaken w.occupied) (before ++ after) c held this
                  (subst (All (IsTaken w.occupied)) (sym flat) taken));
          marks = kept.2 ∙ h.marks ∙ ap count_true (sym kept.1);
          counted =
              kept.2
              ∙ h.counted
              ∙ omega (
                arith,
                ap length was,
                ap length now,
                length-append {0} before (c ∷ after),
                length-append {0} before after,
              );
        }

  -- A thread releases the slot `c`.
  pub released-IsOwned :
      (w : Worker S) (c : ℕ) (before after : List ℕ)
      → IsOwned w (before ++ c ∷ after)
      → IsOwned (released_worker c w) (before ++ after)
  released-IsOwned w c before after h =
      let old : pending_slots w ++ (before ++ c ∷ after)
          ≡ (pending_slots w ++ before) ++ c ∷ after =
        sym (append_assoc (pending_slots w) before (c ∷ after)) in
      let flat : pending_slots w ++ (before ++ after) ≡ (pending_slots w ++ before) ++ after =
        sym (append_assoc (pending_slots w) before after) in
      let (others, apart) =
        AllApart-remove (pending_slots w ++ before) c after (subst AllApart old h.apart) in
      let (this, taken) =
        All-remove (IsTaken w.occupied) (pending_slots w ++ before) c after
          (subst (All (IsTaken w.occupied)) old h.taken) in
      record {
        queue = record { ring = h.queue.ring; tail = h.queue.tail };
        jobs_size = length-set w.jobs c _ ∙ h.jobs_size;
        occupied_size = length-set w.occupied c false ∙ h.occupied_size;
        apart = subst AllApart (sym flat) apart;
        taken = subst (All (IsTaken (set w.occupied c false))) (sym flat) (
            All-combine (IsTaken w.occupied) (λ y. y ≢ c) (IsTaken (set w.occupied c false)) _
              (IsTaken-set w.occupied c false) taken others);
        marks = omega (arith, h.marks, count_true-clear w.occupied c this.1);
        counted = omega (
          arith,
          h.counted,
          length-append {0} before (c ∷ after),
          length-append {0} before after,
        );
      }

  pub free_inside :
      (w : Worker S) (held : List ℕ) (free : ℕ)
      → IsOwned w held
      → find_free 0 w.occupied ≡ some free
      → free < length w.jobs
  free_inside w held free h e =
      omega (arith, (first_free w.occupied free e).0, h.occupied_size, h.jobs_size)
