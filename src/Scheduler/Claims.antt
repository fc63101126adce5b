-- ===== src/Scheduler/Claims.antt =====
-- What a claim of `consume` of src/discovery_worker.cpp adds to the jobs that run.
use mathlib.Core.List.{Memᴰ}
use mathlib.Core.List.Memᴰ.{head, tail}
use ovmesh_drpp.Base.{
  ℕ, ◌<◌, true, false, List, [], ◌∷◌, ◌++◌, map, some, All, get_or, set, length, length-set,
  get_or-set_self, get_or-set_ne, Bool-cases, ◌==◌, ==_iff, ◌≡◌, ◌≢◌, inl, inr, sym, ap, ◌∙◌, subst,
  arith,
}
use ovmesh_drpp.Scheduler.{Job, Worker, Scheduler, DetectorSelection, no_job, no_worker, band_at}
use ovmesh_drpp.Scheduler.Consume.{remove_pending, claim}
use ovmesh_drpp.Scheduler.Queue.{pending_slots, front, back, entry, pending_parts, pending_removed}
use ovmesh_drpp.Scheduler.Search.{worker_at, FoundAt}
use ovmesh_drpp.Scheduler.Claim.{claimed_state, claim-FoundAt}
use ovmesh_drpp.Scheduler.Marks.{AllApart, All-combine, All-remove}
use ovmesh_drpp.Scheduler.Slots.{IsOwned, remove_pending-kept, removed-IsOwned}
use ovmesh_drpp.Scheduler.Bands.{
  Active, slots_of, slots_of-cons, slots_of-other, band_of, IsBusy, IsRunning, IsAccounted,
  IsSystem, by_index, SameBands, map-SameBands, every_job,
}

module _ {S : Type 0} (s : Scheduler S) (active : Active) (h : IsSystem s active)
    (d : DetectorSelection) (found : FoundAt s d) where
  abbrev worker : Worker S
  worker = worker_at s d.queue

  abbrev slot_claimed : ℕ
  slot_claimed = entry worker d.offset

  abbrev band : ℕ
  band = band_at worker slot_claimed

  abbrev after_claim : Scheduler S
  after_claim = (claimed_state s d).2

  inside : d.queue < length s.workers
  inside = omega (arith, found.0, h.size)

  pending_before : d.offset < worker.ready.count
  pending_before = omega (arith, found.1.inside)

  owner : IsOwned worker (slots_of d.queue active)
  owner = h.owned d.queue found.0

  -- No band changes, as the jobs stay where they are.
  same_band : (p : ℕ × ℕ) → band_of after_claim p ≡ band_of s p
  same_band p = elim (Bool-cases (p.0 == d.queue)) [
    | inl e ↦
        let same : p.0 ≡ d.queue = (==_iff p.0 d.queue).0 e in
        subst
          (λ j.
            band_at (get_or (set s.workers d.queue (remove_pending d.offset worker)) j no_worker)
              p.1
            ≡ band_at (worker_at s j) p.1)
          (sym same)
          (ap (λ w. band_at w p.1)
              (get_or-set_self s.workers d.queue (remove_pending d.offset worker) no_worker inside)
            ∙ kept_band p.1)
    | inr e ↦
        let apart : d.queue ≢ p.0 = λ same. let t = (==_iff p.0 d.queue).1 (sym same) in cc in
        ap (λ w. band_at w p.1)
          (get_or-set_ne s.workers d.queue p.0 (remove_pending d.offset worker) no_worker apart)
  ]
    where
      kept_band : (c : ℕ) → band_at (remove_pending d.offset worker) c ≡ band_at worker c
      kept_band c =
          ap (λ jobs. (get_or jobs c no_job).subband) (remove_pending-kept worker d.offset).0

  same_bands : SameBands s after_claim active
  same_bands = every_job (λ p. band_of after_claim p ≡ band_of s p) active same_band

  -- The claimed job and the others among the pending ones.
  pending_bands :
      (band < length s.detector_busy)
      × All
          (λ c. band_at worker c < length s.detector_busy)
          (front worker d.offset ++ back worker d.offset)
  pending_bands =
      All-remove (λ c. band_at worker c < length s.detector_busy) (front worker d.offset)
        slot_claimed (back worker d.offset)
        (subst (All (λ c. band_at worker c < length s.detector_busy))
          (pending_parts worker d.offset pending_before) (h.bands d.queue found.0))

  -- A band that is marked stays so, and is not the claimed one.
  marked : (b : ℕ) → IsBusy s b → IsBusy after_claim b
  marked b (small, busy) = elim (Bool-cases (band == b)) [
    | inl e ↦
        let same : band ≡ b = (==_iff band b).0 e in
        (
          omega (arith, length-set s.detector_busy band true),
          subst (λ k. get_or (set s.detector_busy band true) k false ≡ true) same
              (get_or-set_self s.detector_busy band true false pending_bands.0),
        )
    | inr e ↦
        let apart : band ≢ b = λ same. let t = (==_iff band b).1 same in cc in
        (
          omega (arith, length-set s.detector_busy band true),
          get_or-set_ne s.detector_busy band b true false apart ∙ busy,
        )
  ]

  not_marked : (p : ℕ × ℕ) → IsRunning s p → band_of s p ≢ band
  not_marked p (_, (_, busy)) same =
      let never : true ≡ false =
        sym busy ∙ ap (λ k. get_or s.detector_busy k false) same ∙ found.1.idle in
      cc

  not_marked_map : (ps : Active) → All (IsRunning s) ps → All (λ b. b ≢ band) (map (band_of s) ps)
  not_marked_map [] r = tt
  not_marked_map (p ∷ ps) (r, rs) = (not_marked p r, not_marked_map ps rs)

  -- The claimed job accounts for its band, and the others do as before.
  accounted : (b : ℕ) → IsAccounted after_claim ((d.queue, slot_claimed) ∷ active) b
  accounted b busy = elim (Bool-cases (band == b)) [
    | inl e ↦ head (sym ((==_iff band b).0 e) ∙ sym (same_band (d.queue, slot_claimed)))
    | inr e ↦
        let apart : band ≢ b = λ same. let t = (==_iff band b).1 same in cc in
        tail (
          subst (Memᴰ b) (sym (map-SameBands s after_claim active same_bands))
            (h.accounted b (sym (get_or-set_ne s.detector_busy band b true false apart) ∙ busy)))
  ]

  claimed-IsSystem : IsSystem after_claim ((d.queue, slot_claimed) ∷ active)
  claimed-IsSystem =
      let left = pending_removed worker d.offset owner.queue pending_before in
      let new_band = same_band (d.queue, slot_claimed) in
      record {
        size = length-set s.workers d.queue _ ∙ h.size;
        owned = λ i low.
            by_index (λ j w. IsOwned w (slots_of j ((d.queue, slot_claimed) ∷ active))) s.workers
              d.queue (remove_pending d.offset worker) inside
              (subst (IsOwned (remove_pending d.offset worker))
                (sym (slots_of-cons d.queue slot_claimed active))
                (removed-IsOwned worker (slots_of d.queue active) owner d.offset slot_claimed
                  (front worker d.offset) (back worker d.offset) pending_before
                  (pending_parts worker d.offset pending_before) left))
              (λ j k other.
                subst (IsOwned (worker_at s j))
                  (sym (slots_of-other j d.queue slot_claimed active (λ e. other (sym e))))
                  (h.owned j (subst (λ n. j < n) h.size k)))
              i (omega (arith, h.size));
        running = (
          (
            found.0,
            subst (IsBusy after_claim) (sym new_band) (
              omega (arith, length-set s.detector_busy band true, pending_bands.0),
              get_or-set_self s.detector_busy band true false pending_bands.0,
            ),
          ),
          All-combine (λ p. band_of after_claim p ≡ band_of s p) (IsRunning s)
              (IsRunning after_claim) active
              (λ p e (low, busy).
                (low, subst (IsBusy after_claim) (sym e) (marked (band_of s p) busy)))
              same_bands h.running,
        );
        apart = (
          subst (λ b. All (λ y. y ≢ b) (map (band_of after_claim) active)) (sym new_band)
              (subst (All (λ y. y ≢ band)) (sym (map-SameBands s after_claim active same_bands))
                (not_marked_map active h.running)),
          subst AllApart (sym (map-SameBands s after_claim active same_bands)) h.apart,
        );
        accounted = accounted;
        bands = λ i low.
            subst
              (λ n.
                All (λ c. band_at (worker_at after_claim i) c < n)
                  (pending_slots (worker_at after_claim i)))
              (sym (length-set s.detector_busy band true))
              (by_index (λ j w. All (λ c. band_at w c < length s.detector_busy) (pending_slots w))
                s.workers d.queue (remove_pending d.offset worker) inside
                (subst
                  (All (λ c. band_at (remove_pending d.offset worker) c < length s.detector_busy))
                  (sym left)
                  (subst
                    (λ (jobs : List (Job S)).
                      All (λ c. (get_or jobs c no_job).subband < length s.detector_busy)
                        (front worker d.offset ++ back worker d.offset))
                    (sym (remove_pending-kept worker d.offset).0) pending_bands.1))
                (λ j k _. h.bands j (subst (λ n. j < n) h.size k)) i (omega (arith, h.size)));
      }

-- A claim adds its job to those that run.
pub claim-IsSystem :
    {S : Type 0} (s : Scheduler S) (active : Active) (index claimed : ℕ) (t : Scheduler S)
    → claim s ≡ some (index, claimed, t)
    → IsSystem s active
    → IsSystem t ((index, claimed) ∷ active)
claim-IsSystem {S} s active index claimed t e h =
    let (d, found, same) = claim-FoundAt s index claimed t h.size e in
    subst (λ (x : ℕ × ℕ × Scheduler S). IsSystem x.2 ((x.0, x.1) ∷ active)) same
      (claimed-IsSystem s active h d found)
