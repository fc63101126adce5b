-- ===== src/Observations/Kept.antt =====
-- What `DiscoveryObservations` of src/discovery_observations.hpp keeps of its observations.
use ovmesh_drpp.Base.{
  ℕ, zero, suc, ◌+◌, ◌-◌, ◌^◌, ◌<◌, ◌≤◌, Bool, true, false, not, List, [], ◌∷◌, ◌++◌, map, Gives,
  guard-Gives, some-Gives, All, All-append, length, length-append, length-set, drop, get_or, set,
  ltb, ◌==◌, ==_iff, if◌then◌else◌, ◌≡◌, ◌⊎◌, inl, inr, refl, sym, ap, ap₂, ◌∙◌, arith,
}
use mathlib.Core.List.{map-append}
use ovmesh_drpp.Floats.{Doubles}
use ovmesh_drpp.Observations.{
  DiscoveryObservation, DiscoveryObservations, Observed, capacity, has_subband, sort, merge,
  append_observation, merge_observation,
}
use ovmesh_drpp.Observations.Sorted.{
  IsAscending, sort-All, sort-IsAscending, has_subband-sort, has_subband-append,
}

-- The numbers from `start` on, `n` of them.
unfoldable pub numbers : (start n : ℕ) → List ℕ
numbers start zero = []
numbers start (suc n) = start ∷ numbers (suc start) n

numbers-last : (start n : ℕ) → numbers start n ++ (start + n) ∷ [] ≡ numbers start (suc n)
unfolding numbers
numbers-last start zero = ap (λ k. k ∷ []) (omega arith)
numbers-last start (suc n) = ap (◌∷◌ start) (
    ap (λ k. numbers (suc start) n ++ k ∷ []) {y = suc start + n} (omega arith)
    ∙ numbers-last (suc start) n)

module _ {F : Type 0} where
  -- The subbands of an observation are in order, none twice, and the best one is among them.
  pub record IsContributed (subbands : ℕ) (o : DiscoveryObservation F) : Type 0 where
    pub ascending : IsAscending o.contributing_subbands
    pub known : All (λ s. s < subbands) o.contributing_subbands
    pub best : has_subband o.best_subband o.contributing_subbands ≡ true

  -- At most 256 observations with consecutive numbers, the last ones that were given: every number
  -- so far is that of an observation that is kept or was evicted, the oldest first.
  pub record IsRecent (o : DiscoveryObservations F) : Type 0 where
    pub bounded : length o.recent ≤ 256
    pub ids :
        map (λ (r : DiscoveryObservation F). r.id) o.recent
        ≡ numbers (o.evictions + 1) (length o.recent)
    pub next : o.next_id ≡ o.evictions + length o.recent + 1
    pub width : o.next_id < 2 ^ 64
    pub contributed : All (IsContributed o.subbands) o.recent

  map_id-set :
      (l : List (DiscoveryObservation F)) (i : ℕ) (r default : DiscoveryObservation F)
      → r.id ≡ (get_or l i default).id
      → map (λ (o : DiscoveryObservation F). o.id) (set l i r)
        ≡ map (λ (o : DiscoveryObservation F). o.id) l
  map_id-set [] i r default e = refl
  map_id-set (o ∷ l) zero r default e = ap (λ k. k ∷ map (λ (o : DiscoveryObservation F). o.id) l) e
  map_id-set (o ∷ l) (suc i) r default e = ap (◌∷◌ o.id) (map_id-set l i r default e)

  All-set :
      (P : DiscoveryObservation F → Type 0) (l : List (DiscoveryObservation F)) (i : ℕ)
      (r : DiscoveryObservation F)
      → P r
      → All P l
      → All P (set l i r)
  All-set P [] i r p h = tt
  All-set P (o ∷ l) zero r p (q, h) = (p, h)
  All-set P (o ∷ l) (suc i) r p (q, h) = (q, All-set P l i r p h)

  All-get_or :
      (P : DiscoveryObservation F → Type 0) (l : List (DiscoveryObservation F)) (i : ℕ)
      (default : DiscoveryObservation F)
      → i < length l
      → All P l
      → P (get_or l i default)
  All-get_or P [] i default small h = absurd (omega arith)
  All-get_or P (o ∷ l) zero default small (q, h) = q
  All-get_or P (o ∷ l) (suc i) default small (q, h) = All-get_or P l i default (omega arith) h

module _ {F : Type 0} (d : Doubles F) where
  merge-IsContributed :
      (subbands subband : ℕ) (candidate previous : DiscoveryObservation F)
      → subband < subbands
      → candidate.best_subband ≡ subband
      → has_subband subband previous.contributing_subbands ≡ false
      → IsContributed subbands previous
      → IsContributed subbands (merge d subband candidate previous)
  unfolding merge
  merge-IsContributed subbands subband candidate previous small best new h =
      let older = previous.contributing_subbands in
      let found : (x : ℕ)
          → has_subband x older ≡ true ⊎ (subband == x) ≡ true
          → has_subband x (sort (older ++ subband ∷ [])) ≡ true =
        λ x which.
          has_subband-sort x (older ++ subband ∷ [])
          ∙ has_subband-append x older (subband ∷ [])
          ∙ unfold has_subband in elim which [ inl old ↦ ground arith | inr now ↦ ground arith ] in
      record {
        ascending = sort-IsAscending subband older h.ascending new;
        known =
            sort-All (λ s. s < subbands) (older ++ subband ∷ [])
              (All-append (λ s. s < subbands) older (subband ∷ []) h.known (small, tt));
        best =
            either (sort (older ++ subband ∷ [])) _ candidate previous
              (found candidate.best_subband (inr ((==_iff _ _).1 (sym best))))
              (found previous.best_subband (inl h.best));
      }
    where
      either :
          (l : List ℕ) (better : Bool) (a b : DiscoveryObservation F)
          → has_subband a.best_subband l ≡ true
          → has_subband b.best_subband l ≡ true
          → has_subband (if better then a else b).best_subband l ≡ true
      either l true a b first second = first
      either l false a b first second = second

  merge-id :
      (subband : ℕ) (candidate previous : DiscoveryObservation F)
      → (merge d subband candidate previous).id ≡ previous.id
  unfolding merge
  merge-id subband candidate previous = refl

  pub merge_observation-IsRecent :
      (match subband : ℕ) (candidate : DiscoveryObservation F) (o : DiscoveryObservations F)
      → match < length o.recent
      → subband < o.subbands
      → candidate.best_subband ≡ subband
      → has_subband subband (get_or o.recent match candidate).contributing_subbands ≡ false
      → IsRecent o
      → IsRecent (merge_observation d match subband candidate o).1
  unfolding merge_observation
  merge_observation-IsRecent match subband candidate o inside small best new h =
      let previous = get_or o.recent match candidate in
      let size = length-set o.recent match (merge d subband candidate previous) in
      record {
        bounded = omega (arith, size, h.bounded);
        ids =
            map_id-set o.recent match _ candidate (merge-id subband candidate previous)
            ∙ h.ids
            ∙ ap (numbers (o.evictions + 1)) (sym size);
        next = omega (arith, size, h.next);
        width = h.width;
        contributed =
            All-set (IsContributed o.subbands) o.recent match _
              (merge-IsContributed o.subbands subband candidate previous small best new (
                All-get_or (IsContributed o.subbands) o.recent match candidate inside
                  h.contributed))
              h.contributed;
      }

  -- A further observation, with the next number.
  extended-IsRecent :
      (o : DiscoveryObservations F) (kept : List (DiscoveryObservation F)) (evictions : ℕ)
      (added : DiscoveryObservation F)
      → map (λ (r : DiscoveryObservation F). r.id) kept ≡ numbers (evictions + 1) (length kept)
      → o.next_id ≡ evictions + length kept + 1
      → length kept ≤ 255
      → o.next_id + 1 < 2 ^ 64
      → added.id ≡ o.next_id
      → All (IsContributed o.subbands) kept
      → IsContributed o.subbands added
      → IsRecent
          (record o { next_id = o.next_id + 1; evictions = evictions; recent = kept ++ added ∷ [] })
  extended-IsRecent o kept evictions added ids next room width id all held =
      let size : length (kept ++ added ∷ []) ≡ suc (length kept) =
        omega (arith, length-append {0} kept (added ∷ [])) in
      let last : added.id ≡ evictions + 1 + length kept = id ∙ next ∙ omega arith in
      record {
        bounded = omega (arith, size);
        ids =
            map-append (λ (r : DiscoveryObservation F). r.id) kept (added ∷ [])
            ∙ ap₂ (λ l k. l ++ k ∷ []) ids last
            ∙ numbers-last (evictions + 1) (length kept)
            ∙ ap (numbers (evictions + 1)) (sym size);
        next = omega (arith, size, next);
        width = width;
        contributed = All-append (IsContributed o.subbands) kept (added ∷ []) all (held, tt);
      }

  -- The observations without the oldest.
  without_oldest :
      (P : DiscoveryObservation F → Type 0) (start : ℕ) (l : List (DiscoveryObservation F))
      → 0 < length l
      → map (λ (r : DiscoveryObservation F). r.id) l ≡ numbers start (length l)
      → All P l
      → (map (λ (r : DiscoveryObservation F). r.id) (drop 1 l)
          ≡ numbers (start + 1) (length (drop 1 l)))
        × (length (drop 1 l) + 1 ≡ length l)
        × All P (drop 1 l)
  unfolding numbers
  without_oldest P start [] some_entry e all = absurd (omega arith)
  without_oldest P start (r ∷ l) some_entry e (p, all) =
      let one_more : suc start ≡ start + 1 = omega arith in
      (ap (drop 1) e ∙ ap (λ k. numbers k (length l)) one_more, omega arith, all)

  pub append_observation-Gives :
      (matches : ℕ) (candidate : DiscoveryObservation F) (o : DiscoveryObservations F)
      → IsContributed o.subbands candidate
      → IsRecent o
      → Gives
          (λ (r : Observed × DiscoveryObservations F). IsRecent r.1)
          (append_observation d matches candidate o)
  unfolding append_observation
  append_observation-Gives matches candidate o c h =
      let added : DiscoveryObservation F = record candidate {
        id = o.next_id;
        association_ambiguous = ltb 1 matches;
      } in
      let held : IsContributed o.subbands added = record {
        ascending = c.ascending;
        known = c.known;
        best = c.best;
      } in
      guard-Gives (not (o.next_id == 2 ^ 64 - 1)) _ (λ more.
        let width : o.next_id + 1 < 2 ^ 64 = ground (arith, h.width) in
        some-Gives _ (
          by_size added (length o.recent == capacity) (o.evictions + 1) o.evictions
            (drop 1 o.recent) o.recent
            (λ full.
              let (ids, size, all) =
                without_oldest (IsContributed o.subbands) (o.evictions + 1) o.recent (ground arith)
                  h.ids h.contributed in
              extended-IsRecent o (drop 1 o.recent) (o.evictions + 1) added ids
                (omega (arith, h.next, size)) (omega (arith, size, h.bounded)) width refl all held)
            (λ some_room.
              extended-IsRecent o o.recent o.evictions added h.ids h.next
                (ground (arith, h.bounded)) width refl h.contributed held)))
    where
      by_size :
          (added : DiscoveryObservation F) (full : Bool) (e f : ℕ)
          (k l : List (DiscoveryObservation F))
          → (full ≡ true
              → IsRecent
                  (record o { next_id = o.next_id + 1; evictions = e; recent = k ++ added ∷ [] }))
          → (full ≡ false
              → IsRecent
                  (record o { next_id = o.next_id + 1; evictions = f; recent = l ++ added ∷ [] }))
          → IsRecent (record o {
            next_id = o.next_id + 1;
            evictions = if full then e else f;
            recent = (if full then k else l) ++ added ∷ [];
          })
      by_size added true e f k l first second = first refl
      by_size added false e f k l first second = second refl
