-- ===== src/Protocol/Refusals.antt =====
-- When `classify_meshtastic` of src/protocol.cpp answers that the configuration is invalid.
use mathlib.Core.Option.{some-injective}
use ovmesh_drpp.Base.{
  ◌≤◌, ◌<◌, Bool, true, false, ◌||◌, List, [], ◌∷◌, Option, none, some, Bytes, length, ltb, leb,
  Bool-cases, Option-cases, ◌≡◌, ◌≢◌, ◌↔◌, inl, inr, refl, sym, ap, ◌∙◌, arith,
}
use ovmesh_drpp.Key.{ChannelKey}
use ovmesh_drpp.Protocol.{
  Libraries, Profile, EnvelopeEvidence, Attempts, Outcome, stopped, going, and_then, same_key,
  decrypted, try_key, after_parse, after_crypt, any_refused, guarded, conclude, recognized_evidence,
  classify_meshtastic, plain_result, no_attempts, invalid_profile, bad_phy_crc, invalid_frame,
  ambiguous_keys, classified, unsupported_payload, decryption_unvalidated, no_matching_key,
}
use ovmesh_drpp.Protocol.Profiles.{IsMalformed, any_refused_iff}
use ovmesh_drpp.Protocol.Trials.{eligible, run}
use ovmesh_drpp.Protocol.Evidence.{classify-open, classify-shut}

-- The configuration is refused, behind the tests of the frame's integrity and size.
abbrev pub IsRefused : Bytes → Bool → List Profile → Type 0
IsRefused frame crc ps = (crc ≡ true) × (16 < length frame) × (length frame ≤ 255) × IsMalformed ps

guarded-IsRefused :
    (frame : Bytes) (crc : Bool) (ps : List Profile)
    → guarded frame crc ps ≡ some invalid_profile
    → IsRefused frame crc ps
unfolding guarded
guarded-IsRefused frame false ps e =
    let other : some bad_phy_crc ≡ some invalid_profile = e in
    let same : bad_phy_crc ≡ invalid_profile = some-injective _ _ other in cc
guarded-IsRefused frame true ps e =
    elim (Bool-cases (leb (length frame) 16 || ltb 255 (length frame))) [
      | inl bad ↦
          let other : some invalid_frame ≡ some invalid_profile = rw bad at e in
          let same : invalid_frame ≡ invalid_profile = some-injective _ _ other in cc
      | inr good ↦ (refl, ground arith, ground arith, malformed)
    ]
  where
    malformed : IsMalformed ps
    malformed = elim (Bool-cases (any_refused ps)) [
      | inl t ↦ inr ((any_refused_iff ps).0 t)
      | inr f ↦ inl (ground arith)
    ]

IsRefused-guarded :
    (frame : Bytes) (crc : Bool) (ps : List Profile)
    → IsRefused frame crc ps
    → guarded frame crc ps ≡ some invalid_profile
unfolding guarded
IsRefused-guarded frame crc ps (ok, low, high, inl many) = ground arith
IsRefused-guarded frame crc ps (ok, low, high, inr bad) =
    let refused = (any_refused_iff ps).1 bad in ground arith

module _ {D : Type 0} (lib : Libraries D) (frame : Bytes) where
  -- The loops stop for other reasons only.
  abbrev NeverRefuses : Outcome → Type 0
  NeverRefuses o = o ≢ stopped invalid_profile

  after_parse-NeverRefuses :
      (key : ChannelKey) (s : Attempts) (o : Option EnvelopeEvidence)
      → NeverRefuses (after_parse lib key s o)
  unfolding after_parse
  after_parse-NeverRefuses key s none e = cc
  after_parse-NeverRefuses key s (some c) e = elim (Bool-cases s.plausible) [
    | inl t ↦ let never : stopped ambiguous_keys ≡ stopped invalid_profile = rw t at e in cc
    | inr f ↦ cc
  ]

  after_crypt-NeverRefuses :
      (key : ChannelKey) (s : Attempts) (o : Option Bytes) → NeverRefuses (after_crypt lib key s o)
  unfolding after_crypt
  after_crypt-NeverRefuses key s none e = cc
  after_crypt-NeverRefuses key s (some plain) e = after_parse-NeverRefuses key s _ e

  try_key-NeverRefuses : (key : ChannelKey) (s : Attempts) → NeverRefuses (try_key lib frame key s)
  unfolding try_key
  try_key-NeverRefuses key s e = elim (Bool-cases (same_key lib s.successful_key key)) [
    | inl t ↦ cc
    | inr f ↦
        after_crypt-NeverRefuses key (record s { matched = true }) (decrypted lib frame key)
          (rw f at e)
  ]

  and_then-NeverRefuses :
      (o : Outcome) (f : Attempts → Outcome)
      → NeverRefuses o
      → ((s : Attempts) → NeverRefuses (f s))
      → NeverRefuses (and_then o f)
  unfolding and_then
  and_then-NeverRefuses (stopped st) f h rest = h
  and_then-NeverRefuses (going s) f h rest = rest s

  run-NeverRefuses : (keys : List ChannelKey) (s : Attempts) → NeverRefuses (run lib frame keys s)
  unfolding run
  run-NeverRefuses [] s e = cc
  run-NeverRefuses (key ∷ keys) s e =
      and_then-NeverRefuses (try_key lib frame key s) (run lib frame keys)
        (try_key-NeverRefuses key s) (run-NeverRefuses keys) e

  conclude-NeverRefuses : (o : Outcome) → NeverRefuses o → (conclude o).status ≢ invalid_profile
  unfolding conclude
  conclude-NeverRefuses (stopped st) h e = h (ap stopped e)
  conclude-NeverRefuses (going s) h e = elim (Bool-cases (recognized_evidence s.evidence)) [
    | inl a ↦ let never : classified ≡ invalid_profile = rw a at e in cc
    | inr a ↦ elim (Bool-cases s.plausible) [
      | inl b ↦ let never : unsupported_payload ≡ invalid_profile = rw (a, b) at e in cc
      | inr b ↦ elim (Bool-cases s.matched) [
        | inl c ↦ let never : decryption_unvalidated ≡ invalid_profile = rw (a, b, c) at e in cc
        | inr c ↦ let never : no_matching_key ≡ invalid_profile = rw (a, b, c) at e in cc
      ]
    ]
  ]

  classify-IsRefused :
      (crc : Bool) (ps : List Profile)
      → (classify_meshtastic lib frame crc ps).status ≡ invalid_profile
      → IsRefused frame crc ps
  classify-IsRefused crc ps e = elim (Option-cases (guarded frame crc ps)) [
    | inl open_ ↦ absurd (
        conclude-NeverRefuses (run lib frame (eligible lib frame ps) no_attempts)
          (run-NeverRefuses (eligible lib frame ps) no_attempts)
          (ap (λ r. r.status) (sym (classify-open lib frame crc ps open_)) ∙ e))
    | inr (st, shut) ↦
        let same : st ≡ invalid_profile =
          ap (λ r. r.status) (sym (classify-shut lib frame crc ps shut)) ∙ e in
        guarded-IsRefused frame crc ps (shut ∙ ap some same)
  ]

  -- The classifier's status is that for an invalid configuration exactly if the frame's integrity
  -- check has passed, the frame has 17 to 255 bytes, and there are more than 17 profiles or one of
  -- them, wherever it stands, is bad: it is restricted to a channel name and has none, its name has
  -- more than 32 bytes, its id has none or more than 128, it has more than 16 keys, or a key of
  -- neither 16 nor 32 bytes. The result then has no evidence and the default texts.
  pub classify-malformed_iff :
      (crc : Bool) (ps : List Profile)
      → (((classify_meshtastic lib frame crc ps).status ≡ invalid_profile) ↔ IsRefused frame crc ps)
        × (IsRefused frame crc ps
            → classify_meshtastic lib frame crc ps ≡ plain_result invalid_profile)
  classify-malformed_iff crc ps =
      let shut = λ (r : IsRefused frame crc ps).
        classify-shut lib frame crc ps (IsRefused-guarded frame crc ps r) in
      ((classify-IsRefused crc ps, λ r. ap (λ a. a.status) (shut r)), shut)
