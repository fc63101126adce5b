-- ===== src/Protocol/Trials.antt =====
-- The nested loops of `classify_meshtastic` as one loop over the eligible keys, and what a run of
-- that loop means for the keys.
use ovmesh_drpp.Base.{
  Bool, true, false, List, [], ◌∷◌, ◌++◌, none, some, Bytes, append_assoc, All, length,
  if◌then◌else◌, Bool-cases, Option-cases, ◌≡◌, ◌↔◌, ◌⊎◌, inl, inr, refl, sym, ap, ◌∙◌, arith,
  subst,
}
use ovmesh_drpp.Key.{ChannelKey, bytes}
use ovmesh_drpp.Protocol.{
  Libraries, Profile, EnvelopeEvidence, Attempts, Outcome, stopped, going, ambiguous_keys,
  crypto_error, crypt, parse_data, same_key, after_parse, after_crypt, decrypted, try_key, skipped,
  and_then, keys_loop, profiles_loop,
}

-- What comes before a run that went on went on.
pub and_then_going :
    (o : Outcome) (f : Attempts → Outcome) {s : Attempts}
    → and_then o f ≡ going s
    → (t : Attempts) × (o ≡ going t) × (f t ≡ going s)
unfolding and_then
and_then_going (stopped st) f h = cc
and_then_going (going t) f h = (t, refl, h)

module _ {D : Type 0} (lib : Libraries D) (frame : Bytes) where
  -- The keys of a profile that the inner loop does not skip, in order.
  pub eligible_keys : Profile → List ChannelKey → List ChannelKey
  eligible_keys profile [] = []
  eligible_keys profile (key ∷ keys) =
      if skipped lib frame profile key
      then eligible_keys profile keys
      else key ∷ eligible_keys profile keys

  pub eligible : List Profile → List ChannelKey
  eligible [] = []
  eligible (profile ∷ profiles) = eligible_keys profile profile.keys ++ eligible profiles

  pub eligible-append : (ps qs : List Profile) → eligible (ps ++ qs) ≡ eligible ps ++ eligible qs
  unfolding eligible
  eligible-append [] qs = refl
  eligible-append (p ∷ ps) qs =
      ap (λ r. eligible_keys p p.keys ++ r) (eligible-append ps qs)
      ∙ sym (append_assoc (eligible_keys p p.keys) (eligible ps) (eligible qs))

  -- One loop over a list of keys.
  unfoldable pub run : List ChannelKey → Attempts → Outcome
  run [] s = going s
  run (key ∷ keys) s = and_then (try_key lib frame key s) (run keys)

  run-append :
      (xs ys : List ChannelKey) (s : Attempts) → run (xs ++ ys) s ≡ and_then (run xs s) (run ys)
  unfolding run and_then
  run-append [] ys s = refl
  run-append (x ∷ xs) ys s = go (try_key lib frame x s) (run-append xs ys)
    where
      go :
          (o : Outcome)
          → ((s' : Attempts) → run (xs ++ ys) s' ≡ and_then (run xs s') (run ys))
          → and_then o (run (xs ++ ys)) ≡ and_then (and_then o (run xs)) (run ys)
      go (stopped status) ih = refl
      go (going s') ih = ih s'

  keys_loop-run :
      (p : Profile) (keys : List ChannelKey) (s : Attempts)
      → keys_loop lib frame p keys s ≡ run (eligible_keys p keys) s
  unfolding keys_loop eligible_keys run and_then
  keys_loop-run p [] s = refl
  keys_loop-run p (key ∷ keys) s = go (skipped lib frame p key) (keys_loop-run p keys)
    where
      more :
          (o : Outcome)
          → ((s' : Attempts) → keys_loop lib frame p keys s' ≡ run (eligible_keys p keys) s')
          → and_then o (keys_loop lib frame p keys) ≡ and_then o (run (eligible_keys p keys))
      more (stopped status) ih = refl
      more (going s') ih = ih s'

      go :
          (b : Bool)
          → ((s' : Attempts) → keys_loop lib frame p keys s' ≡ run (eligible_keys p keys) s')
          → and_then (if b then going s else try_key lib frame key s) (keys_loop lib frame p keys)
            ≡ run (if b then eligible_keys p keys else key ∷ eligible_keys p keys) s
      go true ih = ih s
      go false ih = more (try_key lib frame key s) ih

  pub profiles_loop-run :
      (ps : List Profile) (s : Attempts) → profiles_loop lib frame ps s ≡ run (eligible ps) s
  unfolding profiles_loop eligible run and_then
  profiles_loop-run [] s = refl
  profiles_loop-run (p ∷ ps) s =
      rw (keys_loop-run p p.keys s, run-append (eligible_keys p p.keys) (eligible ps) s)
        (go (run (eligible_keys p p.keys) s) (profiles_loop-run ps))
    where
      go :
          (o : Outcome)
          → ((s' : Attempts) → profiles_loop lib frame ps s' ≡ run (eligible ps) s')
          → and_then o (profiles_loop lib frame ps) ≡ and_then o (run (eligible ps))
      go (stopped status) ih = refl
      go (going s') ih = ih s'

  -- A key decrypts the frame to a plausible envelope.
  abbrev pub Opens : ChannelKey → EnvelopeEvidence → Type 0
  Opens k e =
      (plain : Bytes) × (decrypted lib frame k ≡ some plain) × (parse_data lib plain ≡ some e)

  -- A key decrypts the frame, but not to a plausible envelope.
  abbrev pub Fails : ChannelKey → Type 0
  Fails k = (plain : Bytes) × (decrypted lib frame k ≡ some plain) × (parse_data lib plain ≡ none)

  -- A key that leaves the evidence of the key `k` alone: it has the same bytes or fails.
  abbrev pub Harmless : ChannelKey → ChannelKey → Type 0
  Harmless k x = (bytes k ≡ bytes x) ⊎ Fails x

  -- Keys with the same bytes decrypt alike.
  pub decrypted_same :
      (k x : ChannelKey) → bytes k ≡ bytes x → decrypted lib frame k ≡ decrypted lib frame x
  unfolding crypt
  decrypted_same k x e = rw e refl

  -- The locals of the loops before and after a plausible envelope.
  abbrev pub searching : Bool → Attempts
  searching m = record { matched = m; plausible = false; successful_key = none; evidence = none }

  abbrev pub holding : ChannelKey → EnvelopeEvidence → Attempts
  holding k e = record {
    matched = true;
    plausible = true;
    successful_key = some k;
    evidence = some e;
  }

  -- `CRYPTO_memcmp` of two buffers of the same length is zero exactly if they have the same bytes.
  module _
      (memcmp_iff : (a b : Bytes)
        → length a ≡ length b
        → (lib.crypto_memcmp a b ≡ 0) ↔ (a ≡ b)) where
    same_key_iff : (k x : ChannelKey) → (same_key lib (some k) x ≡ true) ↔ (bytes k ≡ bytes x)
    unfolding same_key
    same_key_iff k x = (
      (λ h.
          let l : length (bytes k) ≡ length (bytes x) = ground arith in
          (memcmp_iff (bytes k) (bytes x) l).0 (ground arith)),
      (λ e. let l = ap length e in let z = (memcmp_iff (bytes k) (bytes x) l).1 e in ground arith),
    )

    try-holding :
        (k x : ChannelKey) (e : EnvelopeEvidence) {s : Attempts}
        → try_key lib frame x (holding k e) ≡ going s
        → (s ≡ holding k e) × Harmless k x
    unfolding try_key after_crypt after_parse
    try-holding k x e {s} h = elim (Bool-cases (same_key lib (some k) x)) [
      | inl t ↦
          let q : going (holding k e) ≡ going s = rw t at h in (cc, inl ((same_key_iff k x).0 t))
      | inr t ↦ elim (Option-cases (decrypted lib frame x)) [
        | inl n ↦ let q : stopped crypto_error ≡ going s = rw n at (rw t at h) in cc
        | inr (plain, n) ↦ elim (Option-cases (parse_data lib plain)) [
          | inl p ↦
              let q : going (holding k e) ≡ going s = rw p at (rw n at (rw t at h)) in
              (cc, inr (plain, n, p))
          | inr (c, p) ↦
              let q : stopped ambiguous_keys ≡ going s = rw p at (rw n at (rw t at h)) in cc
        ]
      ]
    ]

    holding-try :
        (k x : ChannelKey) (e : EnvelopeEvidence)
        → Harmless k x
        → try_key lib frame x (holding k e) ≡ going (holding k e)
    unfolding try_key after_crypt after_parse
    holding-try k x e (inl q) = rw ((same_key_iff k x).1 q) refl
    holding-try k x e (inr (plain, n, p)) = elim (Bool-cases (same_key lib (some k) x)) [
      | inl t ↦ rw t refl
      | inr t ↦ rw t (rw n (rw p refl))
    ]

    pub run-holding :
        (k : ChannelKey) (e : EnvelopeEvidence) (xs : List ChannelKey) {s : Attempts}
        → run xs (holding k e) ≡ going s
        → (s ≡ holding k e) × All (Harmless k) xs
    unfolding run
    run-holding k e [] h = (cc, tt)
    run-holding k e (x ∷ xs) {s} h =
        let (t, a, b) = and_then_going (try_key lib frame x (holding k e)) (run xs) h in
        let (q, harmless) = try-holding k x e a in
        let (same, rest) = run-holding k e xs (subst (λ t'. run xs t' ≡ going s) q b) in
        (same, (harmless, rest))

    pub holding-run :
        (k : ChannelKey) (e : EnvelopeEvidence) (xs : List ChannelKey)
        → All (Harmless k) xs
        → run xs (holding k e) ≡ going (holding k e)
    unfolding run and_then
    holding-run k e [] h = refl
    holding-run k e (x ∷ xs) (h, hs) = rw (holding-try k x e h) (holding-run k e xs hs)

    -- One key while no envelope was found: it fails, and the search goes on, or opens the frame.
    pub try-searching :
        (m : Bool) (x : ChannelKey) {s : Attempts}
        → try_key lib frame x (searching m) ≡ going s
        → ((s ≡ searching true) × Fails x)
          ⊎ ((e : EnvelopeEvidence) × (s ≡ holding x e) × Opens x e)
    unfolding try_key after_crypt after_parse same_key
    try-searching m x {s} h = elim (Option-cases (decrypted lib frame x)) [
      | inl n ↦ let q : stopped crypto_error ≡ going s = rw n at h in cc
      | inr (plain, n) ↦ elim (Option-cases (parse_data lib plain)) [
        | inl p ↦
            let q : going (searching true) ≡ going s = rw p at (rw n at h) in
            inl (cc, (plain, n, p))
        | inr (e, p) ↦
            let q : going (holding x e) ≡ going s = rw p at (rw n at h) in
            inr (e, cc, (plain, n, p))
      ]
    ]

    pub Fails-try :
        (m : Bool) (x : ChannelKey)
        → Fails x
        → try_key lib frame x (searching m) ≡ going (searching true)
    unfolding try_key after_crypt after_parse same_key
    Fails-try m x (plain, n, p) = rw n (rw p refl)

    pub Opens-try :
        (m : Bool) (x : ChannelKey) (e : EnvelopeEvidence)
        → Opens x e
        → try_key lib frame x (searching m) ≡ going (holding x e)
    unfolding try_key after_crypt after_parse same_key
    Opens-try m x e (plain, n, p) = rw n (rw p refl)
