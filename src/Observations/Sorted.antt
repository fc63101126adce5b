-- ===== src/Observations/Sorted.antt =====
-- The subbands that contribute to an observation, as src/discovery_observations.hpp sorts them.
use ovmesh_drpp.Base.{
  ℕ, ◌<◌, false, ◌||◌, List, [], ◌∷◌, ◌++◌, All, All-append, leb, ◌==◌, Bool-cases, ◌≡◌, ◌≢◌, inl,
  inr, refl, sym, ap, ◌∙◌, arith,
}
use ovmesh_drpp.Observations.{has_subband, insert_sorted, sort}

abbrev pub IsAscending : List ℕ → Type 0
IsAscending [] = Unit
IsAscending (a ∷ rest) = All (λ b. a < b) rest × IsAscending rest

insert_sorted-All :
    (P : ℕ → Type 0) (a : ℕ) (bs : List ℕ) → P a → All P bs → All P (insert_sorted a bs)
unfolding insert_sorted
insert_sorted-All P a [] p h = (p, tt)
insert_sorted-All P a (b ∷ bs) p (q, h) = elim (Bool-cases (leb a b)) [
  | inl e ↦ rw e (p, (q, h))
  | inr e ↦ rw e (q, insert_sorted-All P a bs p h)
]

pub sort-All : (P : ℕ → Type 0) (bs : List ℕ) → All P bs → All P (sort bs)
unfolding sort
sort-All P [] h = tt
sort-All P (b ∷ bs) (p, h) = insert_sorted-All P b (sort bs) p (sort-All P bs h)

above_all : (a b : ℕ) (bs : List ℕ) → a < b → All (λ c. b < c) bs → All (λ c. a < c) bs
above_all a b [] low h = tt
above_all a b (c ∷ bs) low (p, h) = (omega arith, above_all a b bs low h)

insert_sorted-IsAscending :
    (a : ℕ) (bs : List ℕ) → IsAscending bs → All (λ b. b ≢ a) bs → IsAscending (insert_sorted a bs)
unfolding insert_sorted
insert_sorted-IsAscending a [] h other = (tt, tt)
insert_sorted-IsAscending a (b ∷ bs) (least, h) (p, other) = elim (Bool-cases (leb a b)) [
  | inl e ↦ let low : a < b = ground arith in rw e ((low, above_all a b bs low least), (least, h))
  | inr e ↦ rw e (
    insert_sorted-All (λ c. b < c) a bs (ground arith) least,
    insert_sorted-IsAscending a bs h other,
  )
]

has_subband-insert_sorted :
    (x a : ℕ) (bs : List ℕ) → has_subband x (insert_sorted a bs) ≡ (a == x || has_subband x bs)
unfolding has_subband insert_sorted
has_subband-insert_sorted x a [] = refl
has_subband-insert_sorted x a (b ∷ bs) = elim (Bool-cases (leb a b)) [
  | inl e ↦ rw e refl
  | inr e ↦ rw e (rw (has_subband-insert_sorted x a bs) (ground arith))
]

pub has_subband-sort : (x : ℕ) (bs : List ℕ) → has_subband x (sort bs) ≡ has_subband x bs
unfolding sort has_subband
has_subband-sort x [] = refl
has_subband-sort x (b ∷ bs) =
    has_subband-insert_sorted x b (sort bs) ∙ ap (λ t. b == x || t) (has_subband-sort x bs)

pub has_subband-append :
    (x : ℕ) (older bs : List ℕ)
    → has_subband x (older ++ bs) ≡ (has_subband x older || has_subband x bs)
unfolding has_subband
has_subband-append x [] bs = refl
has_subband-append x (a ∷ older) bs = rw (has_subband-append x older bs) (ground arith)

absent : (x : ℕ) (bs : List ℕ) → has_subband x bs ≡ false → All (λ b. b ≢ x) bs
unfolding has_subband
absent x [] e = tt
absent x (b ∷ bs) e = (ground arith, absent x bs (ground arith))

not_least : (b : ℕ) (bs : List ℕ) → All (λ c. b < c) bs → All (λ c. c ≢ b) bs
not_least b [] h = tt
not_least b (c ∷ bs) (p, h) = (λ e. omega arith, not_least b bs h)

-- Subbands in their order, with a further one behind them.
pub sort-IsAscending :
    (x : ℕ) (bs : List ℕ)
    → IsAscending bs
    → has_subband x bs ≡ false
    → IsAscending (sort (bs ++ x ∷ []))
unfolding sort insert_sorted has_subband
sort-IsAscending x [] h e = (tt, tt)
sort-IsAscending x (b ∷ bs) (least, h) e =
    let (first, rest) = absent x (b ∷ bs) e in
    insert_sorted-IsAscending b (sort (bs ++ x ∷ [])) (sort-IsAscending x bs h (ground arith)) (
      sort-All (λ c. c ≢ b) (bs ++ x ∷ [])
        (All-append (λ c. c ≢ b) bs (x ∷ []) (not_least b bs least) (λ same. first (sym same), tt)))
