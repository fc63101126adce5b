-- ===== src/Gps/History.antt =====
-- The position at a time: `position_at` of src/gps.cpp. The history is in the order of its arrival.
use mathlib.Core.List.{reverse, reverse-append, reverse-reverse}
use ovmesh_drpp.Base.{
  true, false, not, ◌||◌, List, [], ◌∷◌, ◌++◌, Option, none, some, All, All-append, if◌then◌else◌,
  Bool-cases, append_assoc, inl, inr, ◌≡◌, ◌↔◌, sym, ap, ◌∙◌, subst, arith,
}
use ovmesh_drpp.Floats.{Doubles, whole}
use ovmesh_drpp.Gps.{PositionFix, position_loop}

All-reverse {ℓ κ} : {A : Type ℓ} (P : A → Type κ) (xs : List A) → All P xs → All P (reverse xs)
All-reverse P [] h = tt
All-reverse P (x ∷ xs) h =
    subst (All P) (sym (reverse-append (x ∷ []) xs))
      (All-append P (reverse xs) (x ∷ []) (All-reverse P xs h.1) (h.0, tt))

module _ {F : Type 0} (d : Doubles F) (target : F) where
  unfoldable pub position_at : List (PositionFix F) → Option (PositionFix F)
  position_at history =
      if not (d.finite target) || d.less target (whole d 0)
      then none
      else position_loop d target (reverse history)

  abbrev IsLater : PositionFix F → Type 0
  IsLater fix = d.less target fix.monotonic_seconds ≡ true

  -- The fix is not later than the target, valid, and typed in or at most two seconds old.
  abbrev IsUsable : PositionFix F → Type 0
  IsUsable fix =
      (d.less target fix.monotonic_seconds ≡ false)
      × (fix.valid ≡ true)
      × (fix.manual || d.less_equal (d.minus target fix.monotonic_seconds) (whole d 2) ≡ true)

  -- The last fix of a history that is not later than the target.
  pub record IsLast (fix : PositionFix F) (history : List (PositionFix F)) : Type 0 where
    pub before : List (PositionFix F)
    pub behind : List (PositionFix F)
    pub split : history ≡ before ++ fix ∷ behind
    pub all_later : All IsLater behind
    pub usable : IsUsable fix

  -- The same from the newest fix on.
  record IsFirst (fix : PositionFix F) (history : List (PositionFix F)) : Type 0 where
    newer : List (PositionFix F)
    older : List (PositionFix F)
    split : history ≡ newer ++ fix ∷ older
    all_later : All IsLater newer
    usable : IsUsable fix

  loop_sound :
      (fix : PositionFix F) (history : List (PositionFix F))
      → position_loop d target history ≡ some fix
      → IsFirst fix history
  unfolding position_loop
  loop_sound fix [] e = cc
  loop_sound fix (f ∷ history) e = elim (Bool-cases (d.less target f.monotonic_seconds)) [
    | inl later ↦
        let rest : position_loop d target history ≡ some fix = rw later at e in
        let r = loop_sound fix history rest in
        record {
          newer = f ∷ r.newer;
          older = r.older;
          split = ap (◌∷◌ f) r.split;
          all_later = (later, r.all_later);
          usable = r.usable;
        }
    | inr reached ↦
        let stop : (f ≡ fix) × IsUsable f = (ground arith, ground arith) in
        record {
          newer = [];
          older = history;
          split = ap (λ (g : PositionFix F). g ∷ history) stop.0;
          all_later = tt;
          usable = subst IsUsable stop.0 stop.1;
        }
  ]

  loop_complete :
      (fix : PositionFix F) (newer older : List (PositionFix F))
      → All IsLater newer
      → IsUsable fix
      → position_loop d target (newer ++ fix ∷ older) ≡ some fix
  unfolding position_loop
  loop_complete fix [] older all usable = ground arith
  loop_complete fix (f ∷ newer) older (later, all) usable =
      rw later (loop_complete fix newer older all usable)

  -- At a time that is finite and not negative, `position_at` gives a fix exactly when it is the
  -- last one of the history that is not later than the time, and it is valid, and it was typed in
  -- or is at most two seconds old: an older fix never stands in for a newer one that is unusable.
  pub position_at_iff :
      (history : List (PositionFix F)) (fix : PositionFix F)
      → d.finite target ≡ true
      → d.less target (whole d 0) ≡ false
      → (position_at history ≡ some fix) ↔ IsLast fix history
  unfolding position_at
  position_at_iff history fix finite positive = (sound, complete)
    where
      sound : position_at history ≡ some fix → IsLast fix history
      sound e =
          let run : position_loop d target (reverse history) ≡ some fix =
            rw (finite, positive) at e in
          let r = loop_sound fix (reverse history) run in
          record {
            before = reverse r.older;
            behind = reverse r.newer;
            split =
                sym (reverse-reverse history)
                ∙ ap reverse r.split
                ∙ reverse-append r.newer (fix ∷ r.older)
                ∙ ap (λ t. t ++ reverse r.newer) (reverse-append (fix ∷ []) r.older)
                ∙ append_assoc (reverse r.older) (fix ∷ []) (reverse r.newer);
            all_later = All-reverse IsLater r.newer r.all_later;
            usable = r.usable;
          }

      complete : IsLast fix history → position_at history ≡ some fix
      complete r =
          let turned : reverse history ≡ reverse r.behind ++ fix ∷ reverse r.before =
            ap reverse r.split
            ∙ reverse-append r.before (fix ∷ r.behind)
            ∙ ap (λ t. t ++ reverse r.before) (reverse-append (fix ∷ []) r.behind)
            ∙ append_assoc (reverse r.behind) (fix ∷ []) (reverse r.before) in
          rw (finite, positive, turned)
            (loop_complete fix (reverse r.behind) (reverse r.before)
              (All-reverse IsLater r.behind r.all_later) r.usable)
