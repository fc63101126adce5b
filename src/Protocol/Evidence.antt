-- ===== src/Protocol/Evidence.antt =====
-- When `classify_meshtastic` reports evidence, and which.
use mathlib.Core.List.{Memᴰ}
use mathlib.Core.List.Memᴰ.{head, tail, not-nil}
use mathlib.Core.Option.{some-injective}
use ovmesh_drpp.Base.{
  Bool, true, false, List, [], ◌∷◌, Option, none, some, Bytes, All, length, if◌then◌else◌,
  Option-cases, codes, ◌≡◌, ◌↔◌, inl, inr, refl, sym, ap, ◌∙◌, subst,
}
use ovmesh_drpp.Key.{ChannelKey, bytes}
use ovmesh_drpp.Protocol.{
  Libraries, Profile, Status, EnvelopeEvidence, Attempts, Outcome, no_attempts, stopped, going,
  try_key, and_then, profiles_loop, conclude, guarded, classify_meshtastic, parse_data,
  plain_result, recognized_evidence, classified, unsupported_payload, decryption_unvalidated,
  no_matching_key,
}
use ovmesh_drpp.Protocol.Trials.{
  eligible, run, profiles_loop-run, Opens, Fails, Harmless, searching, holding, and_then_going,
  run-holding, holding-run, try-searching, Fails-try, Opens-try, decrypted_same,
}

module _ {D : Type 0} (lib : Libraries D) (frame : Bytes) where
  pub classify-open :
      (crc : Bool) (ps : List Profile)
      → guarded frame crc ps ≡ none
      → classify_meshtastic lib frame crc ps
        ≡ conclude (run lib frame (eligible lib frame ps) no_attempts)
  unfolding classify_meshtastic
  classify-open crc ps g =
      ap
        (λ (o : Option Status). elim o [
          | some st ↦ plain_result st
          | none ↦ conclude (profiles_loop lib frame ps no_attempts)
        ])
        g
      ∙ ap conclude (profiles_loop-run lib frame ps no_attempts)

  pub classify-shut :
      (crc : Bool) (ps : List Profile) {st : Status}
      → guarded frame crc ps ≡ some st
      → classify_meshtastic lib frame crc ps ≡ plain_result st
  unfolding classify_meshtastic
  classify-shut crc ps g = rw (g, classify_meshtastic) refl

module _ {D : Type 0} (lib : Libraries D) (frame : Bytes)
    (memcmp_iff : (a b : Bytes) → length a ≡ length b → (lib.crypto_memcmp a b ≡ 0) ↔ (a ≡ b)) where
  -- A key among the given ones opens the frame, and every one of them has the same bytes or
  -- decrypts the frame to no plausible envelope.
  abbrev pub OpensAlone : List ChannelKey → EnvelopeEvidence → Type 0
  OpensAlone keys e =
      (k : ChannelKey) × Memᴰ k keys × Opens lib frame k e × All (Harmless lib frame k) keys

  run-OpensAlone :
      (m : Bool) (xs : List ChannelKey) (e : EnvelopeEvidence) {s : Attempts}
      → run lib frame xs (searching lib frame m) ≡ going s
      → s.evidence ≡ some e
      → OpensAlone xs e
  unfolding run
  run-OpensAlone m [] e h v = absurd (
      let q : none ≡ some e =
        ap (λ (o : Outcome). elim o [ stopped st ↦ none | going t ↦ t.evidence ]) h ∙ v in
      cc)
  run-OpensAlone m (x ∷ xs) e {s} h v =
      let (t, a, b) =
        and_then_going (try_key lib frame x (searching lib frame m)) (run lib frame xs) h in
      elim (try-searching lib frame memcmp_iff m x a) [
        | inl (q, f) ↦
            let (k, mem, o, all) =
              run-OpensAlone true xs e (subst (λ t'. run lib frame xs t' ≡ going s) q b) v in
            (k, tail mem, o, (inr f, all))
        | inr (c, q, o) ↦
            let (same, all) =
              run-holding lib frame memcmp_iff x c xs
                (subst (λ t'. run lib frame xs t' ≡ going s) q b) in
            let w : some c ≡ some e = ap (λ t'. t'.evidence) (sym same) ∙ v in
            (x, head refl, subst (Opens lib frame x) (some-injective _ _ w) o, (inl refl, all))
      ]

  Opens-move :
      (k x : ChannelKey) {e : EnvelopeEvidence}
      → bytes k ≡ bytes x
      → Opens lib frame k e
      → Opens lib frame x e
  Opens-move k x q (plain, n, p) = (plain, sym (decrypted_same lib frame k x q) ∙ n, p)

  Opens-Fails :
      (k : ChannelKey) {e : EnvelopeEvidence} → Opens lib frame k e → Fails lib frame k → ⊥
  Opens-Fails k {e} (plain, n, p) (other, m, q) =
      let same : plain ≡ other = some-injective _ _ (sym n ∙ m) in
      let w : none ≡ some e = sym (subst (λ b. parse_data lib b ≡ none) (sym same) q) ∙ p in cc

  Harmless-move :
      (k x : ChannelKey) (xs : List ChannelKey)
      → bytes k ≡ bytes x
      → All (Harmless lib frame k) xs
      → All (Harmless lib frame x) xs
  Harmless-move k x [] q h = tt
  Harmless-move k x (y ∷ ys) q (inl p, h) = (inl (sym q ∙ p), Harmless-move k x ys q h)
  Harmless-move k x (y ∷ ys) q (inr p, h) = (inr p, Harmless-move k x ys q h)

  OpensAlone-run :
      (m : Bool) (xs : List ChannelKey) (e : EnvelopeEvidence)
      → OpensAlone xs e
      → (k : ChannelKey) × (run lib frame xs (searching lib frame m)
          ≡ going (holding lib frame k e))
  unfolding run and_then
  OpensAlone-run m [] e (k, mem, o, all) = absurd (not-nil mem)
  OpensAlone-run m (x ∷ xs) e (k, mem, o, (inl q, all)) =
      let r = holding-run lib frame memcmp_iff x e xs (Harmless-move k x xs q all) in
      (x, rw (Opens-try lib frame memcmp_iff m x e (Opens-move k x q o)) r)
  OpensAlone-run m (x ∷ xs) e (k, mem, o, (inr f, all)) =
      let (k', r) = OpensAlone-run true xs e (k, tail_of mem, o, all) in
      (k', rw (Fails-try lib frame memcmp_iff m x f) r)
    where
      tail_of : Memᴰ k (x ∷ xs) → Memᴰ k xs
      tail_of (head q) = absurd (Opens-Fails k o (subst (Fails lib frame) (sym q) f))
      tail_of (tail mem) = mem

  abbrev evidence_of : Outcome → Option EnvelopeEvidence
  evidence_of (stopped st) = none
  evidence_of (going s) = s.evidence

  conclude-evidence : (o : Outcome) → (conclude o).evidence ≡ evidence_of o
  unfolding conclude
  conclude-evidence (stopped st) = refl
  conclude-evidence (going s) = go (recognized_evidence s.evidence) s.plausible s.matched
    where
      go :
          (a b c : Bool)
          → (if a
              then record (plain_result classified) {
                classification = codes "likely Meshtastic";
                evidence = s.evidence;
              }
              else if b
              then record (plain_result unsupported_payload) {
                classification = codes "possible Meshtastic";
                evidence = s.evidence;
              }
              else if c
              then record (plain_result decryption_unvalidated) { evidence = s.evidence }
              else record (plain_result no_matching_key) { evidence = s.evidence }).evidence
            ≡ s.evidence
      go true b c = refl
      go false true c = refl
      go false false true = refl
      go false false false = refl

  -- The classifier reports evidence exactly if the frame and the configuration pass all tests
  -- before the loops, one of the eligible keys decrypts the frame to a plausible envelope with that
  -- evidence, and every eligible key can be tried and has the same bytes as that key or yields no
  -- plausible envelope.
  pub classify-evidence_iff :
      (crc : Bool) (ps : List Profile) (e : EnvelopeEvidence)
      → ((classify_meshtastic lib frame crc ps).evidence ≡ some e)
        ↔ ((guarded frame crc ps ≡ none) × OpensAlone (eligible lib frame ps) e)
  classify-evidence_iff crc ps e = (
    (λ h. elim (Option-cases (guarded frame crc ps)) [
      | inl g ↦ (
        g,
        outcome (run lib frame (eligible lib frame ps) no_attempts) refl (
            sym (conclude-evidence _)
            ∙ ap (λ r. r.evidence) (sym (classify-open lib frame crc ps g))
            ∙ h),
      )
      | inr (st, g) ↦
          let q : none ≡ some e =
            ap (λ r. r.evidence) (sym (classify-shut lib frame crc ps g)) ∙ h in
          cc
    ]),
    (λ (g, alone).
        let (k, r) = OpensAlone-run false (eligible lib frame ps) e alone in
        ap (λ r. r.evidence) (classify-open lib frame crc ps g)
        ∙ conclude-evidence _
        ∙ ap evidence_of r),
  )
    where
      outcome :
          (o : Outcome)
          → run lib frame (eligible lib frame ps) no_attempts ≡ o
          → evidence_of o ≡ some e
          → OpensAlone (eligible lib frame ps) e
      outcome (stopped st) q h = let w : none ≡ some e = h in cc
      outcome (going s) q h = run-OpensAlone false (eligible lib frame ps) e q h
