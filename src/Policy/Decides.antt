-- ===== src/Policy/Decides.antt =====
-- One known field of the loop of `validate_wire` of src/protobuf_guard.hpp, against the list of the
-- fields that follow.
use ovmesh_drpp.Base.{
  ℕ, zero, suc, ◌+◌, ◌≤◌, Bool, true, false, ◌||◌, List, [], ◌∷◌, Option, none, some, Bool-cases,
  ◌≡◌, refl, sym, inl, inr, ap, Bytes, length, length-append, ◌==◌, if◌then◌else◌, arith, subst,
  subst₂, ==-false, Option-cases, ◌*◌,
}
use mathlib.Core.Option.{some-injective}
use ovmesh_drpp.Wire.{Reader, Field, next}
use ovmesh_drpp.Wire.Fields.{IsInside, next_moves}
use ovmesh_drpp.Policy.Accepts.{
  Fresh, singular_tags, oneof_count, Accepts, with_tag, Accepts-with_tag, with_tag-Accepts,
  Accepts-repeated, repeated-Accepts,
}
use ovmesh_drpp.Policy.{
  HType, repeated, oneof, single, admit, admit_oneof, FieldInfo, Seen, contains, is_repeated,
  is_oneof, check_kind,
}

module _ {D : Type 0} (sub : Bytes → D → Option Bool) (info : FieldInfo D) (f : Field)
    (ks : List (FieldInfo D × Field)) where
  -- The guard before a tag is kept.
  abbrev refused : Seen → Bool
  refused seen = contains seen.singular f.tag || length seen.singular == 128

  -- What the loop admits is acceptable, if what follows is.
  pub admit-Accepts :
      (seen seen' : Seen)
      → admit info.htype f.tag seen ≡ some seen'
      → check_kind info.ltype sub info f ≡ some true
      → Accepts sub seen' ks
      → Accepts sub seen ((info, f) ∷ ks)
  unfolding admit admit_oneof
  admit-Accepts seen seen' a c k = go info.htype refl a
    where
      keep :
          (o : Bool)
          → is_repeated info.htype ≡ false
          → contains seen.singular f.tag ≡ false
          → (if seen.oneof_seen then 1 else 0) + (if is_oneof info.htype then 1 else 0)
            ≤ (if o then 1 else 0)
          → some (with_tag sub info f ks seen o) ≡ some seen'
          → Accepts sub seen ((info, f) ∷ ks)
      keep o r n q e =
          Accepts-with_tag sub info f ks seen o r n q c
            (subst (λ s. Accepts sub s ks) (sym (some-injective _ _ e)) k)

      go :
          (h : HType)
          → info.htype ≡ h
          → admit h f.tag seen ≡ some seen'
          → Accepts sub seen ((info, f) ∷ ks)
      go repeated e a =
          Accepts-repeated sub info f ks seen (rw e) (rw e) c
            (subst (λ s. Accepts sub s ks) (sym (some-injective _ _ a)) k)
      go single e a = elim (Bool-cases (refused seen)) [
        | inl t ↦ let q : none ≡ some seen' = rw t at a in cc
        | inr t ↦ keep seen.oneof_seen (rw e) (ground arith) (rw e (omega arith)) (rw t at a)
      ]
      go oneof e a = elim (Bool-cases (refused seen)) [
        | inl t ↦ let q : none ≡ some seen' = rw t at a in cc
        | inr t ↦ elim (Bool-cases seen.oneof_seen) [
          | inl o ↦ let q : none ≡ some seen' = rw o at (rw t at a) in cc
          | inr o ↦ keep true (rw e) (ground arith) (rw (e, o) (omega arith)) (rw o at (rw t at a))
        ]
      ]

  not_refused :
      (seen : Seen)
      → is_repeated info.htype ≡ false
      → Accepts sub seen ((info, f) ∷ ks)
      → refused seen ≡ false
  not_refused seen n k =
      let tags : Bool → List ℕ = λ b. if b then singular_tags ks else f.tag ∷ singular_tags ks in
      let fr = subst (λ b. Fresh seen.singular (tags b)) n k.fresh in
      let ro = subst (λ b. length seen.singular + length (tags b) ≤ 128) n k.room in
      rw (fr.0, ==-false (length seen.singular) 128 (omega arith))

  unseen :
      (seen : Seen)
      → is_oneof info.htype ≡ true
      → Accepts sub seen ((info, f) ∷ ks)
      → seen.oneof_seen ≡ false
  unseen seen o k = elim (Bool-cases seen.oneof_seen) [
    | inr n ↦ n
    | inl y ↦
        let q : 1 + (1 + oneof_count ks) ≤ 1 =
          subst₂ (λ a b. (if a then 1 else 0) + ((if b then 1 else 0) + oneof_count ks) ≤ 1) y o
            k.one in
        absurd (omega arith)
  ]

  -- What is acceptable is admitted.
  pub Accepts-admit :
      (seen : Seen)
      → Accepts sub seen ((info, f) ∷ ks)
      → (seen' : Seen) × (admit info.htype f.tag seen ≡ some seen') × Accepts sub seen' ks
  unfolding admit admit_oneof
  Accepts-admit seen k = go info.htype refl
    where
      go :
          (h : HType)
          → info.htype ≡ h
          → (seen' : Seen) × (admit info.htype f.tag seen ≡ some seen') × Accepts sub seen' ks
      go repeated e = (seen, rw e, repeated-Accepts sub info f ks seen (rw e) (rw e) k)
      go single e = (
        with_tag sub info f ks seen seen.oneof_seen,
        rw (e, not_refused seen (rw e) k),
        with_tag-Accepts sub info f ks seen seen.oneof_seen (rw e) (omega arith) k,
      )
      go oneof e = (
        with_tag sub info f ks seen true,
        rw (e, not_refused seen (rw e) k) (rw (unseen seen (rw e) k)),
        with_tag-Accepts sub info f ks seen true (rw e) (rw e (omega arith)) k,
      )

pub admit-room :
    (h : HType) (tag : ℕ) (seen : Seen) {seen' : Seen}
    → length seen.singular ≤ 128
    → admit h tag seen ≡ some seen'
    → length seen'.singular ≤ 128
unfolding admit admit_oneof
admit-room h tag seen p e = ground (arith, length-append seen.singular (tag ∷ []))

-- The fields from the result of one call of `next` on, with the fields behind.
more_fields : List Field × Reader → Reader → Option Field → List Field × Reader
more_fields rest r none = ([], r)
more_fields rest r (some f) = (f ∷ rest.0, rest.1)

-- All fields that the reader finds, and the reader behind them.
pub fields : ℕ → Reader → List Field × Reader
fields zero r = ([], r)
fields (suc fuel) r = let rest = fields fuel (next r).1 in more_fields rest (next r).1 (next r).0

pub fields_end :
    (fuel : ℕ) (r : Reader) → (next r).0 ≡ none → fields (suc fuel) r ≡ ([], (next r).1)
unfolding fields more_fields
fields_end fuel r e = ap (more_fields (fields fuel (next r).1) (next r).1) e

pub fields_more :
    (fuel : ℕ) (r : Reader) {f : Field}
    → (next r).0 ≡ some f
    → fields (suc fuel) r ≡ (f ∷ (fields fuel (next r).1).0, (fields fuel (next r).1).1)
unfolding fields more_fields
fields_more fuel r e = ap (more_fields (fields fuel (next r).1) (next r).1) e

pub length-fields :
    (fuel : ℕ) (r : Reader)
    → IsInside r
    → length (fields fuel r).0 * 2 + r.position ≤ length r.input
length-fields zero r h = unfold fields in omega arith
length-fields (suc fuel) r h = elim (Option-cases (next r).0) [
  | inl e ↦ rw (fields_end fuel r e) (omega arith)
  | inr (f, e) ↦
      let (same, ahead, inside, g) = next_moves r h e in
      let size = ap length same in
      rw (fields_more fuel r e) (omega (arith, length-fields fuel (next r).1 (omega arith)))
]
