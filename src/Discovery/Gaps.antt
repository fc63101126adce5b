-- ===== src/Discovery/Gaps.antt =====
-- The log of gaps of the discovery worker as a list.
use ovmesh_drpp.Base.{
  ◌<◌, Bool, true, false, not, ◌&&◌, List, [], ◌∷◌, ◌++◌, length, get_or, set, if◌then◌else◌, ◌==◌,
  Bool-cases, dec_eq, ==-false, ==_iff, ◌≡◌, refl, sym, ap, ◌∙◌, inl, inr, arith, subst, ◌⊎◌,
}
use ovmesh_drpp.Ring.{Ring, push, is_full}
use ovmesh_drpp.Ring.Contents.{
  IsRing, contents, contents-push, push-IsRing, set_last-contents, length-contents, contents-last,
  older, set_last-IsRing,
}
use ovmesh_drpp.Discovery.{Gap, gap_capacity, no_gap, joins, prolonged, last_slot, log_gap}

abbrev pub entries : Ring Gap → List Gap
entries = contents gap_capacity no_gap

-- The log with one more gap: it prolongs the last entry or comes behind it, if there is room.
abbrev pub logged : Gap → List Gap → List Gap
logged gap [] = gap ∷ []
logged gap (p ∷ []) = if joins p gap then prolonged p gap ∷ [] else p ∷ gap ∷ []
logged gap (p ∷ q ∷ rest) = p ∷ logged gap (q ∷ rest)

empty_list : (l : List Gap) → length l ≡ 0 → l ≡ []
empty_list [] e = refl
empty_list (x ∷ l) e = absurd (omega arith)

logged-concat :
    (gap : Gap) (l : List Gap) (p : Gap)
    → logged gap (l ++ p ∷ [])
      ≡ (if joins p gap then l ++ prolonged p gap ∷ [] else (l ++ p ∷ []) ++ gap ∷ [])
logged-concat gap [] p = elim (Bool-cases (joins p gap)) [ inl t ↦ rw t refl | inr f ↦ rw f refl ]
logged-concat gap (x ∷ []) p = elim (Bool-cases (joins p gap)) [
  | inl t ↦ rw t refl
  | inr f ↦ rw f refl
]
logged-concat gap (x ∷ y ∷ l) p = ap (λ t. x ∷ t) (logged-concat gap (y ∷ l) p) ∙ step (joins p gap)
  where
    step :
        (b : Bool)
        → x ∷ (if b then (y ∷ l) ++ prolonged p gap ∷ [] else ((y ∷ l) ++ p ∷ []) ++ gap ∷ [])
          ≡ (if b then (x ∷ y ∷ l) ++ prolonged p gap ∷ [] else ((x ∷ y ∷ l) ++ p ∷ []) ++ gap ∷ [])
    step true = refl
    step false = refl

-- What a new gap does to a well-formed log: the log stays well formed, and its entries are
-- those of `logged`; or else the gap would come behind 128 entries, and the log does not change,
-- which is reported.
abbrev pub Logged : Gap → Ring Gap → Ring Gap × Bool → Type 0
Logged gap gaps out =
    IsRing gap_capacity no_gap out.0
    × (((out.1 ≡ false) × (entries out.0 ≡ logged gap (entries gaps)))
        ⊎ ((out.1 ≡ true)
            × (out.0 ≡ gaps)
            × (length (entries gaps) ≡ gap_capacity)
            × (logged gap (entries gaps) ≡ entries gaps ++ gap ∷ [])))

-- Behind the last entry, where it does not join or there is none.
append_gap :
    (gap : Gap) (gaps : Ring Gap)
    → IsRing gap_capacity no_gap gaps
    → logged gap (entries gaps) ≡ entries gaps ++ gap ∷ []
    → Logged gap gaps (
        if is_full gap_capacity no_gap gaps
        then (gaps, true)
        else (push gap_capacity no_gap gap gaps, false))
append_gap gap gaps h e = elim (Bool-cases (gaps.count == gap_capacity)) [
  | inl t ↦ rw t (
    h,
    inr (
      refl,
      refl,
      length-contents gap_capacity no_gap gaps ∙ (==_iff gaps.count gap_capacity).0 t,
      e,
    ),
  )
  | inr f ↦
      let room : gaps.count < gap_capacity = ground (arith, h.bounded) in
      rw f (
        push-IsRing gap_capacity no_gap gap gaps h room,
        inl (refl, contents-push gap_capacity no_gap gap gaps h room ∙ sym e),
      )
]

-- On a well-formed log, `log_gap` prolongs the youngest entry where the new gap continues it for
-- the same reason and subband, whether the log is full or not. Otherwise it appends the gap, or, if
-- the log is full, changes nothing and reports it. The log stays well formed.
pub log_gap-Logged :
    (gap : Gap) (gaps : Ring Gap)
    → IsRing gap_capacity no_gap gaps
    → Logged gap gaps (log_gap gap gaps)
unfolding log_gap
log_gap-Logged gap gaps h = elim (dec_eq gaps.count 0) [
  | yes z ↦
      let none_there = empty_list (entries gaps) (length-contents gap_capacity no_gap gaps ∙ z) in
      let shut : guard ≡ false = ground arith in
      subst by_guard (sym shut) (
        append_gap gap gaps h
          (ap (logged gap) none_there ∙ ap (λ l. l ++ gap ∷ []) (sym none_there)))
  | no nz ↦
      let some_there : 0 < gaps.count = omega arith in
      let split = contents-last gap_capacity no_gap gaps some_there in
      let l = older gap_capacity no_gap gaps in
      let there = ==-false gaps.count 0 nz in
      elim (Bool-cases (joins previous gap)) [
        | inl t ↦ subst by_guard (sym (both there t)) (
          set_last-IsRing gap_capacity no_gap (prolonged previous gap) gaps (last_slot gaps) h,
          inl (
            refl,
            set_last-contents gap_capacity no_gap (prolonged previous gap) gaps h some_there
                ∙ sym (
                    ap (logged gap) split
                    ∙ logged-concat gap l previous
                    ∙ ap
                        (λ b.
                          if b
                          then l ++ prolonged previous gap ∷ []
                          else (l ++ previous ∷ []) ++ gap ∷ [])
                        t),
          ),
        )
        | inr f ↦ subst by_guard (sym (neither f)) (
            append_gap gap gaps h (
              ap (logged gap) split
              ∙ logged-concat gap l previous
              ∙ ap
                  (λ b.
                    if b
                    then l ++ prolonged previous gap ∷ []
                    else (l ++ previous ∷ []) ++ gap ∷ [])
                  f
              ∙ ap (λ m. m ++ gap ∷ []) (sym split)))
      ]
]
  where
    previous : Gap
    previous = get_or gaps.slots (last_slot gaps) no_gap

    guard : Bool
    guard = not (gaps.count == 0) && joins previous gap

    by_guard : Bool → Type 0
    by_guard b = Logged gap gaps (
        if b
        then (
          record gaps { slots = set gaps.slots (last_slot gaps) (prolonged previous gap) },
          false,
        )
        else if is_full gap_capacity no_gap gaps
        then (gaps, true)
        else (push gap_capacity no_gap gap gaps, false))

    and_true : (a b : Bool) → a ≡ false → b ≡ true → (not a && b) ≡ true
    and_true a b p q = ground arith

    and_false : (a b : Bool) → b ≡ false → (not a && b) ≡ false
    and_false a b q = ground arith

    both : (gaps.count == 0) ≡ false → joins previous gap ≡ true → guard ≡ true
    both p q = and_true (gaps.count == 0) (joins previous gap) p q

    neither : joins previous gap ≡ false → guard ≡ false
    neither q = and_false (gaps.count == 0) (joins previous gap) q
