-- ===== src/Protocol/Statuses.antt =====
-- `classify_meshtastic` of src/protocol.cpp and the order of the profiles in its configuration.
use mathlib.Core.List.{Memᴰ}
use mathlib.Core.List.Memᴰ.{head, tail}
use ovmesh_drpp.Base.{
  Bool, ◌||◌, List, [], ◌∷◌, ◌++◌, Option, none, some, Bytes, All, All-append, length,
  length-append, ◌≡◌, ◌↔◌, refl, sym, ◌∙◌, arith, subst,
}
use ovmesh_drpp.Protocol.{
  Libraries, Profile, EnvelopeEvidence, guarded, classify_meshtastic, any_refused,
}
use ovmesh_drpp.Protocol.Trials.{eligible, eligible-append, Harmless}
use ovmesh_drpp.Protocol.Evidence.{OpensAlone, classify-evidence_iff}

-- Options with the same values are equal.
same_values : {A : Type 0} (o p : Option A) → ((a : A) → (o ≡ some a) ↔ (p ≡ some a)) → o ≡ p
same_values none none h = refl
same_values none (some b) h = (h b).1 refl
same_values (some a) p h = sym ((h a).0 refl)

any_refused-append :
    (ps qs : List Profile) → any_refused (ps ++ qs) ≡ (any_refused ps || any_refused qs)
unfolding any_refused
any_refused-append [] qs = refl
any_refused-append (p ∷ ps) qs = ground (arith, any_refused-append ps qs)

guarded_swap :
    (frame : Bytes) (crc : Bool) (ps qs : List Profile)
    → guarded frame crc (ps ++ qs) ≡ guarded frame crc (qs ++ ps)
unfolding guarded
guarded_swap frame crc ps qs =
    let l : length (ps ++ qs) ≡ length (qs ++ ps) =
      omega (arith, length-append ps qs, length-append qs ps) in
    let r : any_refused (ps ++ qs) ≡ any_refused (qs ++ ps) =
      ground (arith, any_refused-append ps qs, any_refused-append qs ps) in
    rw (l, r) refl

Mem-left : {A : Type 0} {a : A} {xs : List A} (ys : List A) → Memᴰ a xs → Memᴰ a (xs ++ ys)
Mem-left ys (head q) = head q
Mem-left ys (tail m) = tail (Mem-left ys m)

Mem-right : {A : Type 0} {a : A} (xs : List A) {ys : List A} → Memᴰ a ys → Memᴰ a (xs ++ ys)
Mem-right [] m = m
Mem-right (x ∷ xs) m = tail (Mem-right xs m)

Mem-between :
    {A : Type 0} {a : A} (x : A) (xs zs : List A) → Memᴰ a (zs ++ xs) → Memᴰ a (zs ++ x ∷ xs)
Mem-between x xs [] m = tail m
Mem-between x xs (z ∷ zs) (head q) = head q
Mem-between x xs (z ∷ zs) (tail m) = tail (Mem-between x xs zs m)

Mem-swap : {A : Type 0} {a : A} (xs ys : List A) → Memᴰ a (xs ++ ys) → Memᴰ a (ys ++ xs)
Mem-swap [] ys m = Mem-left [] m
Mem-swap (x ∷ xs) ys (head q) = Mem-right ys (head q)
Mem-swap (x ∷ xs) ys (tail m) = Mem-between x xs ys (Mem-swap xs ys m)

All-left : {A : Type 0} (P : A → Type 0) (xs ys : List A) → All P (xs ++ ys) → All P xs
All-left P [] ys h = tt
All-left P (x ∷ xs) ys (p, h) = (p, All-left P xs ys h)

All-right : {A : Type 0} (P : A → Type 0) (xs ys : List A) → All P (xs ++ ys) → All P ys
All-right P [] ys h = h
All-right P (x ∷ xs) ys (p, h) = All-right P xs ys h

All-swap : {A : Type 0} (P : A → Type 0) (xs ys : List A) → All P (xs ++ ys) → All P (ys ++ xs)
All-swap P xs ys h = All-append P ys xs (All-right P xs ys h) (All-left P xs ys h)

module _ {D : Type 0} (lib : Libraries D) (frame : Bytes)
    (memcmp_iff : (a b : Bytes) → length a ≡ length b → (lib.crypto_memcmp a b ≡ 0) ↔ (a ≡ b)) where
  OpensAlone-swap :
      (ps qs : List Profile) (e : EnvelopeEvidence)
      → OpensAlone lib frame memcmp_iff (eligible lib frame (ps ++ qs)) e
      → OpensAlone lib frame memcmp_iff (eligible lib frame (qs ++ ps)) e
  OpensAlone-swap ps qs e h =
      let a = eligible lib frame ps in
      let b = eligible lib frame qs in
      let (k, mem, o, all) =
        subst (λ ks. OpensAlone lib frame memcmp_iff ks e) (eligible-append lib frame ps qs) h in
      subst (λ ks. OpensAlone lib frame memcmp_iff ks e) (sym (eligible-append lib frame qs ps))
        (k, Mem-swap a b mem, o, All-swap (Harmless lib frame k) a b all)

  evidence-swap :
      (crc : Bool) (ps qs : List Profile) (e : EnvelopeEvidence)
      → (classify_meshtastic lib frame crc (ps ++ qs)).evidence ≡ some e
      → (classify_meshtastic lib frame crc (qs ++ ps)).evidence ≡ some e
  evidence-swap crc ps qs e h =
      let (g, o) = (classify-evidence_iff lib frame memcmp_iff crc (ps ++ qs) e).0 h in
      (classify-evidence_iff lib frame memcmp_iff crc (qs ++ ps) e).1
        (sym (guarded_swap frame crc ps qs) ∙ g, OpensAlone-swap ps qs e o)

  -- Which evidence the classifier reports does not depend on the order of two parts of the
  -- configuration.
  pub classify-swap :
      (crc : Bool) (ps qs : List Profile)
      → (classify_meshtastic lib frame crc (ps ++ qs)).evidence
        ≡ (classify_meshtastic lib frame crc (qs ++ ps)).evidence
  classify-swap crc ps qs =
      same_values _ _ (λ e. (evidence-swap crc ps qs e, evidence-swap crc qs ps e))
