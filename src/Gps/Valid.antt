-- ===== src/Gps/Valid.antt =====
-- What stands behind a valid fix of `parse_nmea` of src/gps.cpp.
use ovmesh_drpp.Base.{
  ℕ, ◌≤◌, true, false, not, ◌&&◌, ◌||◌, List, some, Gives, bind-Gives, guard-Gives, if-Gives,
  some-Gives, Bytes, length, get_or, drop, leb, ◌==◌, equal, equal_iff, codes, Bool-cases, ◌≡◌, ◌⊎◌,
  inl, inr, refl, sym, ◌∙◌, leb→le, arith,
}
use ovmesh_drpp.Floats.{Doubles}
use ovmesh_drpp.Preferences.Lines.{both}
use ovmesh_drpp.Gps.{PositionFix, maximum_sentence}
use ovmesh_drpp.Gps.Numbers.{clock_seconds}
use ovmesh_drpp.Gps.Nmea.{
  without_line_end, sentence_body, split_commas, field_at, upper_case, sentence_kind,
  parse_nmea_fields, clocks_accepted, parse_nmea,
}
use ovmesh_drpp.Gps.Checksum.{IsFramed, sentence_body-IsFramed}
use ovmesh_drpp.Gps.Origin.{IsRmcFix, IsGgaFix, IsReceived}
use ovmesh_drpp.Gps.Branches.{parse_rmc-Gives, parse_gga-Gives}

-- Behind a valid fix stands a whole sentence with its checksum, of a kind that names its origin,
-- and the fields of that kind.
pub record IsTrusted {F : Type 0} (d : Doubles F) (sentence : Bytes)
    (received_monotonic received_utc : F) (fix : PositionFix F) : Type 0 where
  pub body : Bytes
  pub fields : List Bytes
  pub framed : IsFramed body sentence
  pub split : split_commas 20 body ≡ some fields
  pub short : length sentence ≤ 128
  pub received : IsReceived d received_monotonic received_utc fix
  pub origin :
      ((drop 2 (field_at fields 0) ≡ codes "RMC") × IsRmcFix d fields fix)
      ⊎ ((drop 2 (field_at fields 0) ≡ codes "GGA") × IsGgaFix d received_utc fields fix)

sentence_kind-Gives :
    (fields : List Bytes)
    → Gives
        (λ kind.
          (kind ≡ drop 2 (field_at fields 0)) × ((kind ≡ codes "RMC") ⊎ (kind ≡ codes "GGA")))
        (sentence_kind fields)
unfolding sentence_kind
sentence_kind-Gives fields =
    guard-Gives
      (length talker == 5 && upper_case (get_or talker 0 0) && upper_case (get_or talker 1 0)) _
      (λ _. guard-Gives (equal kind (codes "RMC") || equal kind (codes "GGA")) _ (λ known.
        guard-Gives (not (equal kind (codes "RMC")) || (leb 12 count && leb count 14)) _ (λ _.
          guard-Gives (not (equal kind (codes "GGA")) || count == 15) _
            (λ _. some-Gives kind (refl, one_kind known)))))
  where
    talker : Bytes
    talker = field_at fields 0

    count : ℕ
    count = length fields

    kind : Bytes
    kind = drop 2 (field_at fields 0)

    one_kind :
        equal kind (codes "RMC") || equal kind (codes "GGA") ≡ true
        → (kind ≡ codes "RMC") ⊎ (kind ≡ codes "GGA")
    one_kind known = elim (Bool-cases (equal kind (codes "RMC"))) [
      | inl rmc ↦ inl ((equal_iff kind (codes "RMC")).0 rmc)
      | inr other ↦ inr ((equal_iff kind (codes "GGA")).0 (ground arith))
    ]

module _ {F : Type 0} (d : Doubles F) (received_monotonic received_utc : F) where
  -- What a valid fix says of the fields, whatever their kind is.
  abbrev IsOrigin : List Bytes → PositionFix F → Type 0
  IsOrigin fields fix =
      IsReceived d received_monotonic received_utc fix
      × (((drop 2 (field_at fields 0) ≡ codes "RMC") × IsRmcFix d fields fix)
          ⊎ ((drop 2 (field_at fields 0) ≡ codes "GGA") × IsGgaFix d received_utc fields fix))

  parse_nmea_fields-Gives :
      (fields : List Bytes)
      → Gives
          (λ fix. fix.valid ≡ true → IsOrigin fields fix)
          (parse_nmea_fields d received_monotonic received_utc fields)
  unfolding parse_nmea_fields
  parse_nmea_fields-Gives fields = bind-Gives (sentence_kind fields) _ (λ kind kinded.
      let (named, known) = (sentence_kind-Gives fields).result kind kinded in
      bind-Gives (clock_seconds d (field_at fields 1)) _ (λ time timed.
        if-Gives (equal kind (codes "RMC")) _ _
          (λ rmc. record {
            result = λ fix e v.
                let (r, held) =
                  (parse_rmc-Gives d received_monotonic received_utc time fields _ refl refl
                      timed).result
                    fix e v in
                (held, inl (sym named ∙ (equal_iff _ _).0 rmc, r));
          })
          (λ other. record {
            result = λ fix e v.
                let (r, held) =
                  (parse_gga-Gives d received_monotonic received_utc time fields _ refl refl
                      timed).result
                    fix e v in
                (held, inr (sym named ∙ other_kind kind known other, r));
          })))
    where
      other_kind :
          (kind : Bytes)
          → (kind ≡ codes "RMC") ⊎ (kind ≡ codes "GGA")
          → equal kind (codes "RMC") ≡ false
          → kind ≡ codes "GGA"
      other_kind kind (inl rmc) other = let yes_rmc = (equal_iff kind (codes "RMC")).1 rmc in cc
      other_kind kind (inr gga) other = gga

  parse_nmea-Gives :
      (sentence : Bytes)
      → Gives
          (λ fix. fix.valid ≡ true → IsTrusted d sentence received_monotonic received_utc fix)
          (parse_nmea d sentence received_monotonic received_utc)
  unfolding parse_nmea
  parse_nmea-Gives sentence =
      guard-Gives
        (clocks_accepted d received_monotonic received_utc
          && leb (length sentence) maximum_sentence)
        _
        (λ accepted. bind-Gives (sentence_body (without_line_end sentence)) _ (λ body read.
          bind-Gives (split_commas 20 body) _ (λ fields split. record {
            result = λ fix e v.
                let (received, origin) = (parse_nmea_fields-Gives fields).result fix e v in
                record {
                  body = body;
                  fields = fields;
                  framed = sentence_body-IsFramed sentence body read;
                  split = split;
                  short = leb→le _ _ (both _ _ accepted).1;
                  received = received;
                  origin = origin;
                };
          })))

  -- Every valid fix that `parse_nmea` gives comes from a whole sentence `$body*HL` of at most 128
  -- bytes whose checksum fits, with an active RMC or a measured GGA position read from its fields,
  -- a time that agrees with the host's, and the monotonic time of its reception.
  pub parse_nmea-IsTrusted :
      (sentence : Bytes) (fix : PositionFix F)
      → parse_nmea d sentence received_monotonic received_utc ≡ some fix
      → fix.valid ≡ true
      → IsTrusted d sentence received_monotonic received_utc fix
  parse_nmea-IsTrusted sentence fix e v = (parse_nmea-Gives sentence).result fix e v
