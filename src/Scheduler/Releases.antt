-- ===== src/Scheduler/Releases.antt =====
-- What the end of a round of `consume` of src/discovery_worker.cpp leaves of the jobs that run.
use mathlib.Core.List.{map-append, Memᴰ}
use mathlib.Core.List.Memᴰ.{head, tail}
use ovmesh_drpp.Base.{
  ℕ, ◌<◌, true, false, List, [], ◌∷◌, ◌++◌, map, All, get_or, set, length, length-set,
  get_or-set_self, get_or-set_ne, Bool-cases, ◌==◌, ==_iff, ◌≡◌, ◌≢◌, inl, inr, sym, ap, ◌∙◌, subst,
  arith,
}
use ovmesh_drpp.Scheduler.{Worker, Scheduler, no_worker, band_at}
use ovmesh_drpp.Scheduler.Consume.{release}
use ovmesh_drpp.Scheduler.Queue.{pending_slots}
use ovmesh_drpp.Scheduler.Search.{worker_at}
use ovmesh_drpp.Scheduler.Marks.{AllApart, AllApart-remove, All-remove}
use ovmesh_drpp.Scheduler.Slots.{IsOwned, released_worker, released-IsOwned}
use ovmesh_drpp.Scheduler.Bands.{
  Active, slots_of, slots_of-append, slots_of-cons, slots_of-other, band_of, IsBusy, IsRunning,
  IsAccounted, IsSystem, by_index, SameBands, map-SameBands, every_job, wiped_band,
}

-- What is left of a list without one of its members.
Mem-other :
    {A : Type 0} {b : A} (xs : List A) (x : A) (ys : List A)
    → b ≢ x
    → Memᴰ b (xs ++ x ∷ ys)
    → Memᴰ b (xs ++ ys)
Mem-other [] x ys other (head e) = absurd (other e)
Mem-other [] x ys other (tail m) = m
Mem-other (z ∷ xs) x ys other (head e) = head e
Mem-other (z ∷ xs) x ys other (tail m) = tail (Mem-other xs x ys other m)

module _ {S : Type 0} (s : Scheduler S) (index c : ℕ) (before after : Active)
    (h : IsSystem s (before ++ (index, c) ∷ after)) where
  abbrev worker : Worker S
  worker = worker_at s index

  abbrev band : ℕ
  band = band_at worker c

  abbrev after_release : Scheduler S
  after_release = record s {
    detector_busy = set s.detector_busy band false;
    workers = set s.workers index (released_worker c worker);
  }

  runs : IsRunning s (index, c) × All (IsRunning s) (before ++ after)
  runs = All-remove (IsRunning s) before (index, c) after h.running

  inside : index < length s.workers
  inside = omega (arith, runs.0.0, h.size)

  mine :
      slots_of index (before ++ (index, c) ∷ after)
      ≡ slots_of index before ++ c ∷ slots_of index after
  mine =
      slots_of-append index before ((index, c) ∷ after)
      ∙ ap (◌++◌ (slots_of index before)) (slots_of-cons index c after)

  others :
      (j : ℕ) → j ≢ index → slots_of j (before ++ (index, c) ∷ after) ≡ slots_of j (before ++ after)
  others j other =
      slots_of-append j before ((index, c) ∷ after)
      ∙ ap (◌++◌ (slots_of j before)) (slots_of-other j index c after (λ e. other (sym e)))
      ∙ sym (slots_of-append j before after)

  same_band : (p : ℕ × ℕ) → band_of after_release p ≡ band_of s p
  same_band p = elim (Bool-cases (p.0 == index)) [
    | inl e ↦
        let same : p.0 ≡ index = (==_iff p.0 index).0 e in
        subst
          (λ j.
            band_at (get_or (set s.workers index (released_worker c worker)) j no_worker) p.1
            ≡ band_at (worker_at s j) p.1)
          (sym same)
          (ap (λ w. band_at w p.1)
              (get_or-set_self s.workers index (released_worker c worker) no_worker inside)
            ∙ wiped_band worker.jobs c p.1)
    | inr e ↦
        let apart : index ≢ p.0 = λ same. let t = (==_iff p.0 index).1 (sym same) in cc in
        ap (λ w. band_at w p.1)
          (get_or-set_ne s.workers index p.0 (released_worker c worker) no_worker apart)
  ]

  same_bands : (ps : Active) → SameBands s after_release ps
  same_bands ps = every_job (λ p. band_of after_release p ≡ band_of s p) ps same_band

  -- The jobs that still run are of other bands, and of different ones.
  other_bands :
      All (λ b. b ≢ band) (map (band_of s) (before ++ after))
      × AllApart (map (band_of s) (before ++ after))
  other_bands =
      let flat = map-append (band_of s) before after in
      let (apart, rest) =
        AllApart-remove (map (band_of s) before) band (map (band_of s) after)
          (subst AllApart (map-append (band_of s) before ((index, c) ∷ after)) h.apart) in
      (subst (All (λ b. b ≢ band)) (sym flat) apart, subst AllApart (sym flat) rest)

  IsBusy-release : (b : ℕ) → b ≢ band → IsBusy s b → IsBusy after_release b
  IsBusy-release b other (small, busy) = (
    omega (arith, length-set s.detector_busy band false),
    get_or-set_ne s.detector_busy band b false false (λ e. other (sym e)) ∙ busy,
  )

  IsRunning-release :
      (ps : Active)
      → All (λ b. b ≢ band) (map (band_of s) ps)
      → All (IsRunning s) ps
      → All (IsRunning after_release) ps
  IsRunning-release [] o r = tt
  IsRunning-release (p ∷ ps) (o, os) ((low, busy), rs) = (
    (low, subst (IsBusy after_release) (sym (same_band p)) (IsBusy-release (band_of s p) o busy)),
    IsRunning-release ps os rs,
  )

  -- A band that is still marked is the band of another job.
  accounted : (b : ℕ) → IsAccounted after_release (before ++ after) b
  accounted b busy = elim (Bool-cases (band == b)) [
    | inl e ↦
        let free = get_or-set_self s.detector_busy band false false runs.0.1.0 in
        let never : false ≡ true =
          sym free
          ∙ ap (λ k. get_or (set s.detector_busy band false) k false) ((==_iff band b).0 e)
          ∙ busy in
        cc
    | inr e ↦
        let apart : band ≢ b = λ same. let t = (==_iff band b).1 same in cc in
        let still = sym (get_or-set_ne s.detector_busy band b false false apart) ∙ busy in
        let whole =
          subst (Memᴰ b) (map-append (band_of s) before ((index, c) ∷ after))
            (h.accounted b still) in
        subst (Memᴰ b)
          (sym (map-SameBands s after_release (before ++ after) (same_bands (before ++ after))))
          (subst (Memᴰ b) (sym (map-append (band_of s) before after)) (
            Mem-other (map (band_of s) before) band (map (band_of s) after) (λ k. apart (sym k))
              whole))
  ]

  -- A release takes its job from those that run.
  pub release-IsSystem : IsSystem (release index c s) (before ++ after)
  unfolding release
  release-IsSystem = record {
    size = length-set s.workers index _ ∙ h.size;
    owned = λ i low.
        by_index (λ j w. IsOwned w (slots_of j (before ++ after))) s.workers index
          (released_worker c worker) inside
          (subst (IsOwned (released_worker c worker)) (sym (slots_of-append index before after)) (
            released-IsOwned worker c (slots_of index before) (slots_of index after)
              (subst (IsOwned worker) mine (h.owned index runs.0.0))))
          (λ j k other.
            subst (IsOwned (worker_at s j)) (others j other)
              (h.owned j (subst (λ n. j < n) h.size k)))
          i (omega (arith, h.size));
    running = IsRunning-release (before ++ after) other_bands.0 runs.1;
    apart =
        subst AllApart
          (sym (map-SameBands s after_release (before ++ after) (same_bands (before ++ after))))
          other_bands.1;
    accounted = accounted;
    bands = λ i low.
        subst
          (λ n.
            All (λ b. band_at (worker_at after_release i) b < n)
              (pending_slots (worker_at after_release i)))
          (sym (length-set s.detector_busy band false))
          (by_index (λ j w. All (λ b. band_at w b < length s.detector_busy) (pending_slots w))
            s.workers index (released_worker c worker) inside
            (wiped_bands (pending_slots worker) (h.bands index runs.0.0))
            (λ j k _. h.bands j (subst (λ n. j < n) h.size k)) i (omega (arith, h.size)));
  }
    where
      wiped_bands :
          (cs : List ℕ)
          → All (λ b. band_at worker b < length s.detector_busy) cs
          → All (λ b. band_at (released_worker c worker) b < length s.detector_busy) cs
      wiped_bands [] a = tt
      wiped_bands (b ∷ cs) (a, rest) = (
        subst (λ k. k < length s.detector_busy) (sym (wiped_band worker.jobs c b)) a,
        wiped_bands cs rest,
      )
