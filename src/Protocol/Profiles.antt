-- ===== src/Protocol/Profiles.antt =====
-- What the validation of a configuration in `classify_meshtastic` of src/protocol.cpp refuses.
use mathlib.Core.List.{Memᴰ}
use mathlib.Core.List.Memᴰ.{head, tail, not-nil}
use ovmesh_drpp.Base.{
  ◌<◌, true, ◌||◌, List, [], ◌∷◌, Bytes, length, ltb, Bool-cases, ◌==◌, ◌≡◌, ◌≢◌, ◌↔◌, ◌⊎◌, inl,
  inr, refl, ap, ◌∙◌, arith,
}
use ovmesh_drpp.Key.{ChannelKey, bytes}
use ovmesh_drpp.Protocol.{Profile, any_bad_key, profile_refused, any_refused}

-- A key of neither length.
abbrev pub IsBadKey : ChannelKey → Type 0
IsBadKey key = (length (bytes key) ≢ 16) × (length (bytes key) ≢ 32)

-- What is wrong with a profile.
pub data BadProfile (p : Profile) : Type 0 where
  unnamed : p.restrict_channel_name ≡ true → p.channel_name ≡ [] → BadProfile p
  long_name : 32 < length p.channel_name → BadProfile p
  no_id : p.id ≡ [] → BadProfile p
  long_id : 128 < length p.id → BadProfile p
  many_keys : 16 < length p.keys → BadProfile p
  bad_key : (key : ChannelKey) → Memᴰ key p.keys → IsBadKey key → BadProfile p

empty_bytes : (s : Bytes) → length s ≡ 0 → s ≡ []
empty_bytes [] e = refl
empty_bytes (c ∷ s) e = absurd (omega arith)

any_bad_key-found :
    (keys : List ChannelKey)
    → any_bad_key keys ≡ true
    → (key : ChannelKey) × Memᴰ key keys × IsBadKey key
unfolding any_bad_key
any_bad_key-found [] e = cc
any_bad_key-found (key ∷ keys) e =
    elim (Bool-cases (length (bytes key) == 16 || length (bytes key) == 32)) [
      | inl t ↦
          let later : any_bad_key keys ≡ true = rw t at e in
          let (k, m, bad) = any_bad_key-found keys later in (k, tail m, bad)
      | inr f ↦ (key, head refl, (λ h. ground arith, λ h. ground arith))
    ]

any_bad_key-Mem :
    (key : ChannelKey) (keys : List ChannelKey)
    → Memᴰ key keys
    → IsBadKey key
    → any_bad_key keys ≡ true
unfolding any_bad_key
any_bad_key-Mem key [] m bad = absurd (not-nil m)
any_bad_key-Mem key (k ∷ keys) (head e) (a, b) =
    let same : length (bytes key) ≡ length (bytes k) = ap (λ j. length (bytes j)) e in
    let not_16 : length (bytes k) ≢ 16 = λ h. a (same ∙ h) in
    let not_32 : length (bytes k) ≢ 32 = λ h. b (same ∙ h) in ground arith
any_bad_key-Mem key (k ∷ keys) (tail m) bad =
    let later = any_bad_key-Mem key keys m bad in ground arith

profile_refused-BadProfile : (p : Profile) → profile_refused p ≡ true → BadProfile p
unfolding profile_refused
profile_refused-BadProfile p e = elim (Bool-cases (any_bad_key p.keys)) [
  | inl t ↦ let (key, m, bad) = any_bad_key-found p.keys t in bad_key key m bad
  | inr f ↦ elim (Bool-cases (ltb 16 (length p.keys))) [
    | inl t ↦ many_keys (ground arith)
    | inr g ↦ elim (Bool-cases (ltb 128 (length p.id))) [
      | inl t ↦ long_id (ground arith)
      | inr i ↦ elim (Bool-cases (length p.id == 0)) [
        | inl t ↦ no_id (empty_bytes p.id (ground arith))
        | inr j ↦ elim (Bool-cases (ltb 32 (length p.channel_name))) [
          | inl t ↦ long_name (ground arith)
          | inr k ↦ unnamed (ground arith) (empty_bytes p.channel_name (ground arith))
        ]
      ]
    ]
  ]
]

BadProfile-profile_refused : (p : Profile) → BadProfile p → profile_refused p ≡ true
unfolding profile_refused
BadProfile-profile_refused p (unnamed r n) =
    let none_there : length p.channel_name ≡ 0 = ap length n in ground arith
BadProfile-profile_refused p (long_name h) = ground arith
BadProfile-profile_refused p (no_id e) =
    let none_there : length p.id ≡ 0 = ap length e in ground arith
BadProfile-profile_refused p (long_id h) = ground arith
BadProfile-profile_refused p (many_keys h) = ground arith
BadProfile-profile_refused p (bad_key key m bad) =
    let found = any_bad_key-Mem key p.keys m bad in ground arith

-- Too many profiles, or a bad one among them.
abbrev pub IsMalformed : List Profile → Type 0
IsMalformed ps = (17 < length ps) ⊎ ((p : Profile) × Memᴰ p ps × BadProfile p)

any_refused-found :
    (ps : List Profile) → any_refused ps ≡ true → (p : Profile) × Memᴰ p ps × BadProfile p
unfolding any_refused
any_refused-found [] e = cc
any_refused-found (p ∷ ps) e = elim (Bool-cases (profile_refused p)) [
  | inl t ↦ (p, head refl, profile_refused-BadProfile p t)
  | inr f ↦
      let later : any_refused ps ≡ true = rw f at e in
      let (q, m, bad) = any_refused-found ps later in (q, tail m, bad)
]

any_refused-Mem :
    (p : Profile) (ps : List Profile) → Memᴰ p ps → profile_refused p ≡ true → any_refused ps ≡ true
unfolding any_refused
any_refused-Mem p [] m r = absurd (not-nil m)
any_refused-Mem p (q ∷ ps) (head e) r = let same = ap profile_refused e in ground arith
any_refused-Mem p (q ∷ ps) (tail m) r = let later = any_refused-Mem p ps m r in ground arith

pub any_refused_iff :
    (ps : List Profile) → (any_refused ps ≡ true) ↔ ((p : Profile) × Memᴰ p ps × BadProfile p)
any_refused_iff ps =
    (any_refused-found ps, λ (p, m, bad). any_refused-Mem p ps m (BadProfile-profile_refused p bad))
