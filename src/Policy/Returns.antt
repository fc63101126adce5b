-- ===== src/Policy/Returns.antt =====
-- Termination of `validate_wire`, nested messages included.
use ovmesh_drpp.Base.{
  ℕ, zero, suc, ◌+◌, ◌<◌, Bool, true, false, not, Option, none, some, ◌≡◌, refl, ap, Bytes, length,
  ltb, ◌==◌, if◌then◌else◌, arith,
}
use ovmesh_drpp.Wire.{Reader, Field, done, is_good, open_reader, varint, next}
use ovmesh_drpp.Wire.Fields.{IsInside, Stepped, varint-Stepped, next_moves}
use ovmesh_drpp.Policy.{
  LType, FieldInfo, Seen, nothing_seen, scalar_fits, packed_value, packed_loop, if_checked, admit,
  check_scalar, check_fixed, check_submessage, check_kind, known, one_field, policy_loop,
  validate_at, validate_wire,
}
use ovmesh_drpp.Policy.{bool, varint_type, uvarint, svarint, submessage, submsg_w_cb}

-- The computation returns.
abbrev pub Returns : Option Bool → Type 0
Returns o = (b : Bool) × (o ≡ some b)

Returns-some : (b : Bool) → Returns (some b)
Returns-some b = (b, refl)

Returns-if : (t : Bool) {x y : Option Bool} → Returns x → Returns y → Returns (if t then x else y)
Returns-if true p q = p
Returns-if false p q = q

packed_loop-Returns :
    (fuel : ℕ) (kind : LType) (size : ℕ) (r : Reader)
    → IsInside r
    → length r.input < fuel + r.position
    → Returns (packed_loop fuel kind size r)
unfolding packed_loop packed_value
packed_loop-Returns zero kind size r h k = absurd (omega arith)
packed_loop-Returns (suc fuel) kind size r h k =
    Returns-if (done r) (Returns-some (is_good r))
      (go (varint r).0 (varint-Stepped r h) (packed_loop-Returns fuel kind size (varint r).1))
  where
    go :
        (v : Option ℕ)
        → Stepped 1 r v (varint r).1
        → (IsInside (varint r).1
            → length (varint r).1.input < fuel + (varint r).1.position
            → Returns (packed_loop fuel kind size (varint r).1))
        → Returns (packed_value kind size (packed_loop fuel kind size (varint r).1) v)
    go none p ih = Returns-some false
    go (some v) (same, ahead, inside, g) ih =
        let e = ap length same in
        Returns-if (scalar_fits kind size v) (ih (omega arith) (omega arith)) (Returns-some false)

module _ {D : Type 0} (sub : Bytes → D → Option Bool)
    (sub-Returns : (b : Bytes) (d : D) → Returns (sub b d)) where
  check_scalar-Returns : (info : FieldInfo D) (f : Field) → Returns (check_scalar info f)
  unfolding check_scalar
  check_scalar-Returns info f = Returns-if (f.wire == 0) (Returns-some _) (
      Returns-if _
        (packed_loop-Returns _ info.ltype info.data_size (open_reader f.bytes) (omega arith)
          (omega arith))
        (Returns-some false))

  check_submessage-Returns :
      (info : FieldInfo D) (f : Field) → Returns (check_submessage sub info f)
  unfolding check_submessage
  check_submessage-Returns info f =
      Returns-if (not (f.wire == 2)) (Returns-some false) (go info.submsg_desc)
    where
      go : (o : Option D) → Returns (elim o [ none ↦ some true | some d ↦ sub f.bytes d ])
      go none = Returns-some true
      go (some d) = sub-Returns f.bytes d

  check_kind-Returns :
      (k : LType) (info : FieldInfo D) (f : Field) → Returns (check_kind k sub info f)
  unfolding check_kind check_fixed
  check_kind-Returns bool info f = check_scalar-Returns info f
  check_kind-Returns varint_type info f = check_scalar-Returns info f
  check_kind-Returns uvarint info f = check_scalar-Returns info f
  check_kind-Returns svarint info f = check_scalar-Returns info f
  check_kind-Returns submessage info f = check_submessage-Returns info f
  check_kind-Returns submsg_w_cb info f = check_submessage-Returns info f
  check_kind-Returns _ info f = Returns-some _

  module _ (has_fields : D → Bool) (find : D → ℕ → Option (FieldInfo D)) where
    one_field-Returns :
        (d : D) (seen : Seen) (rest : Seen → Option Bool) (f : Field)
        → ((s : Seen) → Returns (rest s))
        → Returns (one_field has_fields find sub d seen rest f)
    unfolding one_field
    one_field-Returns d seen rest f h = go (known has_fields find d f.tag)
      where
        checked : (o : Option Bool) (s : Seen) → Returns o → Returns (if_checked o (rest s))
        checked none s (b, e) = cc
        checked (some true) s r = h s
        checked (some false) s r = Returns-some false

        admitted :
            (info : FieldInfo D) (o : Option Seen)
            → Returns (elim o [
              | none ↦ some false
              | some s ↦ if_checked (check_kind info.ltype sub info f) (rest s)
            ])
        admitted info none = Returns-some false
        admitted info (some s) = checked _ s (check_kind-Returns info.ltype info f)

        go :
            (o : Option (FieldInfo D))
            → Returns (elim o [
              | none ↦ rest seen
              | some info ↦ elim (admit info.htype f.tag seen) [
                | none ↦ some false
                | some s ↦ if_checked (check_kind info.ltype sub info f) (rest s)
              ]
            ])
        go none = h seen
        go (some info) = admitted info (admit info.htype f.tag seen)

    policy_loop-Returns :
        (d : D) (fuel : ℕ) (seen : Seen) (r : Reader)
        → IsInside r
        → length r.input < fuel + r.position
        → Returns (policy_loop has_fields find sub d fuel seen r)
    unfolding policy_loop
    policy_loop-Returns d zero seen r h k = absurd (omega arith)
    policy_loop-Returns d (suc fuel) seen r h k =
        go (next r).0 refl (λ s. policy_loop-Returns d fuel s (next r).1)
      where
        go :
            (o : Option Field)
            → (next r).0 ≡ o
            → ((s : Seen)
                → IsInside (next r).1
                → length (next r).1.input < fuel + (next r).1.position
                → Returns (policy_loop has_fields find sub d fuel s (next r).1))
            → Returns (elim o [
              | none ↦ some (is_good (next r).1)
              | some f ↦
                  one_field has_fields find sub d seen
                    (λ s. policy_loop has_fields find sub d fuel s (next r).1)
                    f
            ])
        go none e ih = Returns-some _
        go (some f) e ih =
            let (same, ahead, inside, g) = next_moves r h e in
            let size = ap length same in
            one_field-Returns d seen _ f (λ s. ih s (omega arith) (omega arith))

module _ {D : Type 0} (has_fields : D → Bool) (find : D → ℕ → Option (FieldInfo D)) where
  pub validate_at-Returns :
      (levels : ℕ) (b : Bytes) (d : D) → Returns (validate_at has_fields find levels b d)
  unfolding validate_at
  validate_at-Returns zero b d = Returns-some false
  validate_at-Returns (suc levels) b d = Returns-if (ltb 239 (length b)) (Returns-some false) (
      policy_loop-Returns (validate_at has_fields find levels) (validate_at-Returns levels)
        has_fields find d _ nothing_seen (open_reader b) (omega arith) (omega arith))

  -- `validate_wire` returns true or false on every input, for every descriptor and every search
  -- for tags: the fuel of one round per byte is enough, and nesting ends at the ninth level.
  pub validate_wire-Returns :
      (b : Bytes) (d : Option D) → Returns (validate_wire has_fields find b d)
  unfolding validate_wire
  validate_wire-Returns b none = Returns-some false
  validate_wire-Returns b (some d) = validate_at-Returns 9 b d
