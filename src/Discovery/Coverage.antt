-- ===== src/Discovery/Coverage.antt =====
-- Which samples the log of gaps accounts for, by the reason and the subband.
use ovmesh_drpp.Base.{
  ℕ, ◌≤◌, ◌<◌, Bool, true, false, ◌&&◌, List, [], ◌∷◌, All, ◌==◌, Bool-cases, ◌≡◌, ◌⊎◌, refl, sym,
  ◌∙◌, inl, inr, arith, subst,
}
use ovmesh_drpp.Ring.{Ring}
use ovmesh_drpp.Ring.Contents.{IsRing}
use ovmesh_drpp.Discovery.{
  Gap, GapReason, gap_capacity, no_gap, joins, prolonged, same_reason, log_gap, source_queue_full,
  input_discontinuity, input_too_large, invalid_input_order, invalid_sample_coordinate,
  processing_failure,
}
use ovmesh_drpp.Discovery.Gaps.{entries, logged, log_gap-Logged}

same_reason_sound : (a b : GapReason) → same_reason a b ≡ true → a ≡ b
same_reason_sound source_queue_full source_queue_full e = refl
same_reason_sound input_discontinuity input_discontinuity e = refl
same_reason_sound input_too_large input_too_large e = refl
same_reason_sound invalid_input_order invalid_input_order e = refl
same_reason_sound invalid_sample_coordinate invalid_sample_coordinate e = refl
same_reason_sound processing_failure processing_failure e = refl
same_reason_sound _ _ e = cc

-- The gap accounts for a sample.
abbrev pub Covers : (sample subband : ℕ) → GapReason → Gap → Type 0
Covers sample subband reason gap =
    (gap.reason ≡ reason)
    × (gap.subband_index ≡ subband)
    × (gap.first_input_sample ≤ sample)
    × (sample < gap.end_input_sample)

abbrev pub Covered : (sample subband : ℕ) → GapReason → List Gap → Type 0
Covered sample subband reason [] = ⊥
Covered sample subband reason (g ∷ l) =
    Covers sample subband reason g ⊎ Covered sample subband reason l

-- A gap with at least one sample.
abbrev pub IsProper : Gap → Type 0
IsProper g = g.first_input_sample < g.end_input_sample

joins_sound :
    (p gap : Gap)
    → joins p gap ≡ true
    → (p.reason ≡ gap.reason)
      × (p.subband_index ≡ gap.subband_index)
      × (p.end_input_sample ≡ gap.first_input_sample)
joins_sound p gap e =
    let (a, b, c) = parts (same_reason p.reason gap.reason) e in
    (same_reason_sound p.reason gap.reason a, b, c)
  where
    parts :
        (r : Bool)
        → (r
            && (p.subband_index == gap.subband_index
                && p.end_input_sample == gap.first_input_sample))
          ≡ true
        → (r ≡ true)
          × (p.subband_index ≡ gap.subband_index)
          × (p.end_input_sample ≡ gap.first_input_sample)
    parts true h = (refl, ground arith, ground arith)
    parts false h = cc

module _ (gap : Gap) (proper : IsProper gap) where
  logged-IsProper : (l : List Gap) → All IsProper l → All IsProper (logged gap l)
  logged-IsProper [] h = (proper, tt)
  logged-IsProper (p ∷ []) (h, _) = elim (Bool-cases (joins p gap)) [
    | inl t ↦ let (a, b, c) = joins_sound p gap t in rw t (omega arith, tt)
    | inr f ↦ rw f (h, (proper, tt))
  ]
  logged-IsProper (p ∷ q ∷ l) (h, hs) = (h, logged-IsProper (q ∷ l) hs)

  logged-Covered :
      (sample subband : ℕ) (reason : GapReason) (l : List Gap)
      → All IsProper l
      → Covers sample subband reason gap ⊎ Covered sample subband reason l
      → Covered sample subband reason (logged gap l)
  logged-Covered sample subband reason [] h (inl c) = inl c
  logged-Covered sample subband reason [] h (inr n) = elim n [ ]
  logged-Covered sample subband reason (p ∷ []) (h, _) k = elim (Bool-cases (joins p gap)) [
    | inl t ↦ rw t (inl (longer (joins_sound p gap t) k))
    | inr f ↦ rw f (apart k)
  ]
    where
      longer :
          (p.reason ≡ gap.reason)
            × (p.subband_index ≡ gap.subband_index)
            × (p.end_input_sample ≡ gap.first_input_sample)
          → Covers sample subband reason gap ⊎ (Covers sample subband reason p ⊎ ⊥)
          → Covers sample subband reason (prolonged p gap)
      longer (a, b, c) (inl (x, y, z, w)) = (a ∙ x, b ∙ y, omega arith, w)
      longer (a, b, c) (inr (inl (x, y, z, w))) = (x, y, z, omega arith)
      longer (a, b, c) (inr (inr n)) = elim n [ ]

      apart :
          Covers sample subband reason gap ⊎ (Covers sample subband reason p ⊎ ⊥)
          → Covers sample subband reason p ⊎ (Covers sample subband reason gap ⊎ ⊥)
      apart (inl c) = inr (inl c)
      apart (inr (inl c)) = inl c
      apart (inr (inr n)) = elim n [ ]
  logged-Covered sample subband reason (p ∷ q ∷ l) (h, hs) (inl c) =
      inr (logged-Covered sample subband reason (q ∷ l) hs (inl c))
  logged-Covered sample subband reason (p ∷ q ∷ l) (h, hs) (inr (inl c)) = inl c
  logged-Covered sample subband reason (p ∷ q ∷ l) (h, hs) (inr (inr c)) =
      inr (logged-Covered sample subband reason (q ∷ l) hs (inr c))

log_gap-IsProper :
    (gap : Gap) (gaps : Ring Gap)
    → IsRing gap_capacity no_gap gaps
    → IsProper gap
    → All IsProper (entries gaps)
    → All IsProper (entries (log_gap gap gaps).0)
log_gap-IsProper gap gaps h p ps = elim (log_gap-Logged gap gaps h).1 [
  | inl (f, same) ↦ subst (All IsProper) (sym same) (logged-IsProper gap p (entries gaps) ps)
  | inr (f, same, full, appended) ↦ subst (λ r. All IsProper (entries r)) (sym same) ps
]

-- Unless `log_gap` reports a full log, the log then accounts for every sample of the new gap and
-- for every sample that it accounted for before, each by the same reason and subband. The gaps
-- have at least one sample each.
pub log_gap-Covered :
    (gap : Gap) (gaps : Ring Gap) (sample subband : ℕ) (reason : GapReason)
    → IsRing gap_capacity no_gap gaps
    → IsProper gap
    → All IsProper (entries gaps)
    → (log_gap gap gaps).1 ≡ false
    → Covers sample subband reason gap ⊎ Covered sample subband reason (entries gaps)
    → Covered sample subband reason (entries (log_gap gap gaps).0)
log_gap-Covered gap gaps sample subband reason h p ps e k = elim (log_gap-Logged gap gaps h).1 [
  | inl (f, same) ↦
      subst (Covered sample subband reason) (sym same)
        (logged-Covered gap p sample subband reason (entries gaps) ps k)
  | inr (f, same, full, appended) ↦ let q : true ≡ false = sym f ∙ e in cc
]
