-- ===== src/Gps/Serial/Connection.antt =====
-- The state of a serial receiver and what its members say of one another: the
-- delivery of a fix by `SerialGps` of src/gps.cpp.
use ovmesh_drpp.Base.{
  ℕ, ◌≤◌, Bool, true, false, [], ◌∷◌, Option, none, some, Bytes, All, length, if◌then◌else◌,
  Bool-cases, Option-cases, ◌≡◌, ◌≢◌, inl, inr, refl, ◌∙◌,
}
use ovmesh_drpp.Floats.{Doubles, fraction}
use ovmesh_drpp.Gps.{PositionFix}
use ovmesh_drpp.Gps.Serial.{
  GpsConnectionState, is_read_error, unconnected, waiting_for_fix, valid_fix, stale_fix, read_error,
  SerialGps, complement, connect, call_back, order_fix, deliver,
}

-- Text in a sentence behind its `$`.
abbrev pub IsInner : ℕ → Type 0
IsInner c = (c ≢ b'$') × (c ≢ 10)

-- The pending part of a sentence: nothing, or `$` and what follows in the same line.
abbrev pub IsPending : Bytes → Type 0
IsPending [] = Unit
IsPending (c ∷ s) = (c ≡ b'$') × (All IsInner s × (length s ≤ 126))

module _ {F : Type 0} where
  -- What the connection's state says of the last fix and of its age.
  abbrev pub Fits : GpsConnectionState → Option (PositionFix F) → (fresh : F) → Type 0
  Fits unconnected last fresh = last ≡ none
  Fits waiting_for_fix last fresh = last ≡ none
  Fits valid_fix last fresh =
      (fix : PositionFix F) × (last ≡ some fix) × (fix.monotonic_seconds ≡ fresh)
  Fits stale_fix last fresh = last ≢ none
  Fits read_error last fresh = Unit

  -- The last fix is valid and as old as the epoch that was last seen.
  abbrev pub IsKept : (last_monotonic : F) → Option (PositionFix F) → Type 0
  IsKept last_monotonic none = Unit
  IsKept last_monotonic (some fix) = (fix.valid ≡ true) × (fix.monotonic_seconds ≡ last_monotonic)

  pub record IsSerial (s : SerialGps F) : Type 0 where
    pub pending : IsPending s.pending
    pub kept : IsKept s.last_monotonic s.last_fix
    pub fits : Fits s.connection.state s.last_fix s.fresh_fix_monotonic

module _ {F : Type 0} where
  after_error :
      (state : GpsConnectionState) (last : Option (PositionFix F)) (fresh : F)
      → is_read_error state ≡ true
      → Fits state last fresh
  after_error unconnected last fresh e = cc
  after_error waiting_for_fix last fresh e = cc
  after_error valid_fix last fresh e = cc
  after_error stale_fix last fresh e = cc
  after_error read_error last fresh e = tt

  -- The parts of the state that `connect` and `call_back` leave.
  record IsSettled (s t : SerialGps F) : Type 0 where
    pending : t.pending ≡ s.pending
    last_fix : t.last_fix ≡ s.last_fix
    last_monotonic : t.last_monotonic ≡ s.last_monotonic
    fits : Fits t.connection.state t.last_fix t.fresh_fix_monotonic

  connect-IsSettled :
      (fix : PositionFix F) (s : SerialGps F)
      → (fix.valid ≡ true → s.last_fix ≡ some fix)
      → IsSettled s (connect fix s)
  unfolding connect
  connect-IsSettled fix s last = elim (Bool-cases (is_read_error s.connection.state)) [
    | inl failed ↦ rw failed (record {
      pending = refl;
      last_fix = refl;
      last_monotonic = refl;
      fits = after_error s.connection.state s.last_fix s.fresh_fix_monotonic failed;
    })
    | inr live ↦ elim (Bool-cases fix.valid) [
      | inl valid ↦
          rw (live, valid)
            (record {
              pending = refl;
              last_fix = refl;
              last_monotonic = refl;
              fits = (fix, last valid, refl);
            })
      | inr invalid ↦ elim (Option-cases s.last_fix) [
        | inl none_yet ↦
            rw (live, invalid)
              (record {
                pending = refl;
                last_fix = refl;
                last_monotonic = refl;
                fits = rw none_yet refl;
              })
        | inr (old, some_fix) ↦
            rw (live, invalid)
              (record {
                pending = refl;
                last_fix = refl;
                last_monotonic = refl;
                fits = rw some_fix (λ e. cc);
              })
      ]
    ]
  ]

  call_back-IsSettled :
      (throws : Bool) (s t : SerialGps F) → IsSettled s t → IsSettled s (call_back throws t)
  unfolding call_back
  call_back-IsSettled true s t h = record {
    pending = h.pending;
    last_fix = h.last_fix;
    last_monotonic = h.last_monotonic;
    fits = tt;
  }
  call_back-IsSettled false s t h = h

  complement-valid :
      (last : Option (PositionFix F)) (fix : PositionFix F)
      → ((complement last fix).valid ≡ fix.valid)
        × ((complement last fix).monotonic_seconds ≡ fix.monotonic_seconds)
  unfolding complement
  complement-valid none fix = (refl, refl)
  complement-valid (some last) fix = (refl, refl)

module _ {F : Type 0} (d : Doubles F) where
  -- What the order of a fix leaves.
  record IsOrdered (s : SerialGps F) (fix : PositionFix F) (t : SerialGps F) : Type 0 where
    pending : t.pending ≡ s.pending
    last : fix.valid ≡ true → t.last_fix ≡ some fix
    kept : IsKept t.last_monotonic t.last_fix

  order_fix-IsOrdered :
      (fix : PositionFix F) (s : SerialGps F)
      → fix.valid ≡ true
      → IsKept s.last_monotonic s.last_fix
      → IsOrdered s (order_fix d fix s).0 (order_fix d fix s).1
  unfolding order_fix
  order_fix-IsOrdered fix s valid kept =
      elim (Bool-cases (d.less fix.utc_seconds (d.minus s.last_utc (fraction d 1 10000)))) [
        | inl late ↦ rw late (record { pending = refl; last = λ e. cc; kept = kept })
        | inr ordered ↦
            elim (Bool-cases
              (d.less (d.magnitude (d.minus fix.utc_seconds s.last_utc)) (fraction d 1 10000))) [
                | inl same ↦
                    let held =
                      complement-valid s.last_fix
                        (record fix { monotonic_seconds = s.last_monotonic }) in
                    rw (ordered, same)
                      (record { pending = refl; last = λ e. refl; kept = (held.0 ∙ valid, held.1) })
                | inr new ↦
                    rw (ordered, new)
                      (record { pending = refl; last = λ e. refl; kept = (valid, refl) })
              ]
      ]

  by_validity :
      {s : SerialGps F} (valid : Bool) (a b : PositionFix F × SerialGps F)
      → (valid ≡ true → IsOrdered s a.0 a.1)
      → (valid ≡ false → IsOrdered s b.0 b.1)
      → IsOrdered s (if valid then a else b).0 (if valid then a else b).1
  by_validity true a b first second = first refl
  by_validity false a b first second = second refl

  pub deliver-IsSerial :
      (throws : Bool) (fix : PositionFix F) (s : SerialGps F)
      → IsPending s.pending
      → IsKept s.last_monotonic s.last_fix
      → IsSerial (deliver d throws fix s).1
  unfolding deliver
  deliver-IsSerial throws fix s pending kept = settled (
      by_validity fix.valid (order_fix d fix s) (fix, s)
        (λ valid. order_fix-IsOrdered fix s valid kept)
        (λ invalid. record { pending = refl; last = λ e. cc; kept = kept }))
    where
      settled :
          {f : PositionFix F} {t : SerialGps F}
          → IsOrdered s f t
          → IsSerial (call_back throws (connect f t))
      settled {f} {t} o =
          let h = call_back-IsSettled throws t (connect f t) (connect-IsSettled f t o.last) in
          record {
            pending = rw (h.pending, o.pending) pending;
            kept = rw (h.last_monotonic, h.last_fix) o.kept;
            fits = h.fits;
          }
