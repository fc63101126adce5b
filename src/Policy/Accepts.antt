-- ===== src/Policy/Accepts.antt =====
-- The policy of src/protobuf_guard.hpp for a message, stated on the list of its known fields, and the
-- step of the loop of `validate_wire` for one of them.
use ovmesh_drpp.Base.{
  ℕ, ◌+◌, ◌≤◌, Bool, true, false, ◌||◌, List, [], ◌∷◌, ◌++◌, Option, some, ◌≡◌, refl, Bytes, All,
  length, length-append, ◌==◌, if◌then◌else◌, arith, subst,
}
use ovmesh_drpp.Wire.{Field}
use ovmesh_drpp.Policy.{FieldInfo, Seen, contains, is_repeated, is_oneof, check_kind}

-- No tag twice.
abbrev pub Distinct : List ℕ → Type 0
Distinct [] = Unit
Distinct (t ∷ ts) = (contains ts t ≡ false) × Distinct ts

-- None of the tags is in a list.
abbrev pub Fresh : List ℕ → List ℕ → Type 0
Fresh seen = All (λ t. contains seen t ≡ false)

contains-concat : (ys : List ℕ) (y x : ℕ) → contains (ys ++ y ∷ []) x ≡ (contains ys x || y == x)
unfolding contains
contains-concat [] y x = ground arith
contains-concat (z ∷ ys) y x = ground (arith, contains-concat ys y x)

Fresh-concat :
    (seen ts : List ℕ) (t : ℕ) → contains ts t ≡ false → Fresh seen ts → Fresh (seen ++ t ∷ []) ts
unfolding contains
Fresh-concat seen [] t c h = tt
Fresh-concat seen (x ∷ ts) t c (p, h) =
    (ground (arith, contains-concat seen t x), Fresh-concat seen ts t (ground arith) h)

Fresh-split :
    (seen ts : List ℕ) (t : ℕ) → Fresh (seen ++ t ∷ []) ts → Fresh seen ts × (contains ts t ≡ false)
unfolding contains
Fresh-split seen [] t h = (tt, refl)
Fresh-split seen (x ∷ ts) t (p, h) =
    let (q, c) = Fresh-split seen ts t h in
    ((ground (arith, contains-concat seen t x), q), ground (arith, contains-concat seen t x))

module _ {D : Type 0} where
  -- The tags of the known fields that are not repeated, in order.
  abbrev pub singular_tags : List (FieldInfo D × Field) → List ℕ
  singular_tags [] = []
  singular_tags ((info, f) ∷ ks) =
      if is_repeated info.htype then singular_tags ks else f.tag ∷ singular_tags ks

  abbrev pub oneof_count : List (FieldInfo D × Field) → ℕ
  oneof_count [] = 0
  oneof_count ((info, f) ∷ ks) = (if is_oneof info.htype then 1 else 0) + oneof_count ks

  -- Every known field passes the check for its type.
  abbrev pub AllChecked : (Bytes → D → Option Bool) → List (FieldInfo D × Field) → Type 0
  AllChecked sub = All (λ k. check_kind k.0.ltype sub k.0 k.1 ≡ some true)

  -- The known fields that are still to come are acceptable behind those that were seen.
  pub record Accepts (sub : Bytes → D → Option Bool) (seen : Seen) (ks : List (FieldInfo D × Field))
      : Type 0 where
    pub fresh : Fresh seen.singular (singular_tags ks)
    pub distinct : Distinct (singular_tags ks)
    pub one : (if seen.oneof_seen then 1 else 0) + oneof_count ks ≤ 1
    pub room : length seen.singular + length (singular_tags ks) ≤ 128
    pub checked : AllChecked sub ks

  module _ (sub : Bytes → D → Option Bool) (info : FieldInfo D) (f : Field)
      (ks : List (FieldInfo D × Field)) where
    abbrev pub with_tag : Seen → Bool → Seen
    with_tag seen o = record { singular = seen.singular ++ f.tag ∷ []; oneof_seen = o }

    abbrev pub one_more : Bool → ℕ
    one_more b = if b then 1 else 0

    -- A field that is not repeated, before and after its tag is kept.
    pub Accepts-with_tag :
        (seen : Seen) (o : Bool)
        → is_repeated info.htype ≡ false
        → contains seen.singular f.tag ≡ false
        → one_more seen.oneof_seen + one_more (is_oneof info.htype) ≤ one_more o
        → check_kind info.ltype sub info f ≡ some true
        → Accepts sub (with_tag seen o) ks
        → Accepts sub seen ((info, f) ∷ ks)
    Accepts-with_tag seen o n c q w k =
        let (fr, di) = Fresh-split seen.singular (singular_tags ks) f.tag k.fresh in
        let size = length-append seen.singular (f.tag ∷ []) in
        record {
          fresh = rw n (c, fr);
          distinct = rw n (di, k.distinct);
          one = omega (arith, k.one);
          room = rw n (omega (arith, k.room));
          checked = (w, k.checked);
        }

    pub with_tag-Accepts :
        (seen : Seen) (o : Bool)
        → is_repeated info.htype ≡ false
        → one_more o ≤ one_more seen.oneof_seen + one_more (is_oneof info.htype)
        → Accepts sub seen ((info, f) ∷ ks)
        → Accepts sub (with_tag seen o) ks
    with_tag-Accepts seen o n q k =
        let fr =
          subst
            (λ b. Fresh seen.singular (if b then singular_tags ks else f.tag ∷ singular_tags ks)) n
            k.fresh in
        let di =
          subst (λ b. Distinct (if b then singular_tags ks else f.tag ∷ singular_tags ks)) n
            k.distinct in
        let ro =
          subst
            (λ b.
              length seen.singular
                + length (if b then singular_tags ks else f.tag ∷ singular_tags ks)
              ≤ 128)
            n k.room in
        let size = length-append seen.singular (f.tag ∷ []) in
        record {
          fresh = Fresh-concat seen.singular (singular_tags ks) f.tag di.0 fr.1;
          distinct = di.1;
          one = omega (arith, k.one);
          room = omega arith;
          checked = k.checked.1;
        }

    pub Accepts-repeated :
        (seen : Seen)
        → is_repeated info.htype ≡ true
        → is_oneof info.htype ≡ false
        → check_kind info.ltype sub info f ≡ some true
        → Accepts sub seen ks
        → Accepts sub seen ((info, f) ∷ ks)
    Accepts-repeated seen r n w k = record {
      fresh = rw r k.fresh;
      distinct = rw r k.distinct;
      one = rw n (omega (arith, k.one));
      room = rw r k.room;
      checked = (w, k.checked);
    }

    pub repeated-Accepts :
        (seen : Seen)
        → is_repeated info.htype ≡ true
        → is_oneof info.htype ≡ false
        → Accepts sub seen ((info, f) ∷ ks)
        → Accepts sub seen ks
    repeated-Accepts seen r n k = record {
      fresh =
          subst
            (λ b. Fresh seen.singular (if b then singular_tags ks else f.tag ∷ singular_tags ks)) r
            k.fresh;
      distinct =
          subst (λ b. Distinct (if b then singular_tags ks else f.tag ∷ singular_tags ks)) r
            k.distinct;
      one = omega (arith, k.one);
      room =
          subst
            (λ b.
              length seen.singular
                + length (if b then singular_tags ks else f.tag ∷ singular_tags ks)
              ≤ 128)
            r k.room;
      checked = k.checked.1;
    }
