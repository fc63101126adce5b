-- ===== src/Scheduler/Bands.antt =====
-- The detector jobs that threads run, over all queues of src/discovery_worker.cpp: which slots they
-- hold, and the bands of their jobs.
use mathlib.Core.List.{Memᴰ}
use ovmesh_drpp.Base.{
  ℕ, zero, suc, ◌<◌, true, false, List, [], ◌∷◌, ◌++◌, map, All, get_or, set, length,
  get_or-set_self, get_or-set_ne, if◌then◌else◌, Bool-cases, ◌==◌, ==_self, ==-false, ==_iff, ◌≡◌,
  ◌≢◌, inl, inr, refl, sym, ap, ap₂, ◌∙◌, subst, arith,
}
use ovmesh_drpp.Scheduler.{Job, Worker, Scheduler, no_job, no_worker, band_at}
use ovmesh_drpp.Scheduler.Queue.{IsQueue, pending_slots}
use ovmesh_drpp.Scheduler.Search.{worker_at, IsScheduler}
use ovmesh_drpp.Scheduler.Marks.{AllApart, All-combine}
use ovmesh_drpp.Scheduler.Slots.{IsOwned}

-- The jobs that run, by queue and slot.
abbrev pub Active : Type 0
Active = List (ℕ × ℕ)

-- The slots of one queue among them.
abbrev pub slots_of : (index : ℕ) → Active → List ℕ
slots_of index [] = []
slots_of index ((i, c) ∷ active) =
    if i == index then c ∷ slots_of index active else slots_of index active

pub slots_of-append :
    (index : ℕ) (xs ys : Active)
    → slots_of index (xs ++ ys) ≡ slots_of index xs ++ slots_of index ys
slots_of-append index [] ys = refl
slots_of-append index ((i, c) ∷ xs) ys = elim (Bool-cases (i == index)) [
  | inl e ↦ rw e (ap (◌∷◌ c) (slots_of-append index xs ys))
  | inr e ↦ rw e (slots_of-append index xs ys)
]

pub slots_of-cons :
    (index c : ℕ) (ys : Active) → slots_of index ((index, c) ∷ ys) ≡ c ∷ slots_of index ys
slots_of-cons index c ys = rw (==_self index) refl

pub slots_of-other :
    (index i c : ℕ) (ys : Active) → i ≢ index → slots_of index ((i, c) ∷ ys) ≡ slots_of index ys
slots_of-other index i c ys h = rw (==-false i index h) refl

-- What holds of the slots of a queue, holds of its jobs.
pub slots_of-All :
    (P : ℕ → Type 0) (index : ℕ) (active : Active)
    → All P (slots_of index active)
    → All (λ (p : ℕ × ℕ). p.0 ≡ index → P p.1) active
slots_of-All P index [] h = tt
slots_of-All P index ((i, c) ∷ active) h = elim (Bool-cases (i == index)) [
  | inl e ↦
      let both : All P (c ∷ slots_of index active) = rw e at h in
      (λ _. both.0, slots_of-All P index active both.1)
  | inr e ↦
      let rest : All P (slots_of index active) = rw e at h in
      (λ same. let t = (==_iff i index).1 same in cc, slots_of-All P index active rest)
]

module _ {S : Type 0} where
  abbrev pub band_of : Scheduler S → ℕ × ℕ → ℕ
  band_of s p = band_at (worker_at s p.0) p.1

  abbrev pub IsBusy : Scheduler S → (band : ℕ) → Type 0
  IsBusy s band = (band < length s.detector_busy) × (get_or s.detector_busy band false ≡ true)

  abbrev pub IsRunning : Scheduler S → ℕ × ℕ → Type 0
  IsRunning s p = (p.0 < 3) × IsBusy s (band_of s p)

  -- A band that is marked busy is the band of a job that runs.
  abbrev pub IsAccounted : Scheduler S → Active → (band : ℕ) → Type 0
  IsAccounted s active band =
      get_or s.detector_busy band false ≡ true → Memᴰ band (map (band_of s) active)

  -- The queues with the jobs that run: every slot in use has one owner, the marked bands are those
  -- of the jobs that run, and no two of these jobs are of one band.
  pub record IsSystem (s : Scheduler S) (active : Active) : Type 0 where
    pub size : length s.workers ≡ 3
    pub owned : (i : ℕ) → i < 3 → IsOwned (worker_at s i) (slots_of i active)
    pub running : All (IsRunning s) active
    pub apart : AllApart (map (band_of s) active)
    pub accounted : (band : ℕ) → IsAccounted s active band
    pub bands :
        (i : ℕ)
        → i < 3
        → All
            (λ c. band_at (worker_at s i) c < length s.detector_busy)
            (pending_slots (worker_at s i))

  from_indices :
      (P : Worker S → Type 0) (ws : List (Worker S))
      → ((i : ℕ) → i < length ws → P (get_or ws i no_worker))
      → All P ws
  from_indices P [] h = tt
  from_indices P (w ∷ ws) h =
      (h 0 (omega arith), from_indices P ws (λ i small. h (suc i) (omega arith)))

  pub IsSystem-IsScheduler : (s : Scheduler S) (active : Active) → IsSystem s active → IsScheduler s
  IsSystem-IsScheduler s active h = record {
    size = h.size;
    queues = from_indices IsQueue s.workers (λ i small. (h.owned i (omega (arith, h.size))).queue);
  }

  -- A worker that replaces another one, and the others.
  pub by_index :
      (P : ℕ → Worker S → Type 0) (ws : List (Worker S)) (index : ℕ) (w : Worker S)
      → index < length ws
      → P index w
      → ((i : ℕ) → i < length ws → i ≢ index → P i (get_or ws i no_worker))
      → (i : ℕ) → i < length ws
      → P i (get_or (set ws index w) i no_worker)
  by_index P ws index w inside here others i small = elim (Bool-cases (i == index)) [
    | inl e ↦
        let same : i ≡ index = (==_iff i index).0 e in
        subst (λ j. P j (get_or (set ws index w) j no_worker)) (sym same)
          (subst (P index) (sym (get_or-set_self ws index w no_worker inside)) here)
    | inr e ↦
        let other : i ≢ index = λ same. let t = (==_iff i index).1 same in cc in
        subst (P i) (sym (get_or-set_ne ws index i w no_worker (λ k. other (sym k))))
          (others i small other)
  ]

  -- The bands of two states are the same for all jobs that run.
  abbrev pub SameBands : Scheduler S → Scheduler S → Active → Type 0
  SameBands s t active = All (λ p. band_of t p ≡ band_of s p) active

  pub map-SameBands :
      (s t : Scheduler S) (active : Active)
      → SameBands s t active
      → map (band_of t) active ≡ map (band_of s) active
  map-SameBands s t [] h = refl
  map-SameBands s t (p ∷ active) (e, h) = ap₂ ◌∷◌ e (map-SameBands s t active h)

  pub IsAccounted-SameBands :
      (s t : Scheduler S) (active : Active) (band : ℕ)
      → t.detector_busy ≡ s.detector_busy
      → SameBands s t active
      → IsAccounted s active band
      → IsAccounted t active band
  IsAccounted-SameBands s t active band busy same accounted marked =
      subst (Memᴰ band) (sym (map-SameBands s t active same))
        (accounted (ap (λ marks. get_or marks band false) (sym busy) ∙ marked))

  -- A change that leaves the bands of the jobs that run, and the marks.
  pub IsRunning-SameBands :
      (s t : Scheduler S) (active : Active)
      → t.detector_busy ≡ s.detector_busy
      → SameBands s t active
      → All (IsRunning s) active
      → All (IsRunning t) active
  IsRunning-SameBands s t active busy same running =
      All-combine (λ p. band_of t p ≡ band_of s p) (IsRunning s) (IsRunning t) active
        (λ p e (inside, (small, marked)). (inside, (rw (e, busy) small, rw (e, busy) marked))) same
        running

pub every_job : (P : ℕ × ℕ → Type 0) (jobs : Active) → ((p : ℕ × ℕ) → P p) → All P jobs
every_job P [] f = tt
every_job P (p ∷ jobs) f = (f p, every_job P jobs f)

-- The wiped job keeps its band.
pub wiped_band :
    {S : Type 0} (jobs : List (Job S)) (i k : ℕ)
    → (get_or (set jobs i (record (get_or jobs i no_job) { values = [] })) k no_job).subband
      ≡ (get_or jobs k no_job).subband
wiped_band [] i k = refl
wiped_band (j ∷ jobs) zero zero = refl
wiped_band (j ∷ jobs) zero (suc k) = refl
wiped_band (j ∷ jobs) (suc i) zero = refl
wiped_band (j ∷ jobs) (suc i) (suc k) = wiped_band jobs i k
