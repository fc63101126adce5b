-- ===== src/Policy/Message.antt =====
-- The whole pass of `validate_wire` of src/protobuf_guard.hpp, which keeps only the tags that it met,
-- against the list of all fields of the message.
use mathlib.Core.Option.{some-injective}
use ovmesh_drpp.Base.{
  ℕ, zero, suc, ◌+◌, ◌≤◌, ◌<◌, Bool, true, false, List, [], ◌∷◌, Option, none, some, Option-cases,
  ◌≡◌, ◌↔◌, refl, sym, inl, inr, ap, ◌∙◌, Bytes, length, ltb, if◌then◌else◌, arith, subst,
}
use ovmesh_drpp.Wire.{Reader, Field, next, is_good, open_reader}
use ovmesh_drpp.Wire.Fields.{IsInside, next_moves}
use ovmesh_drpp.Policy.{
  FieldInfo, Seen, contains, nothing_seen, admit, check_kind, if_checked, known, one_field,
  policy_loop, validate_at, is_repeated,
}
use ovmesh_drpp.Policy.Accepts.{Accepts, Fresh, singular_tags, oneof_count, AllChecked, Distinct}
use ovmesh_drpp.Policy.Decides.{
  fields, fields_end, fields_more, length-fields, admit-room, admit-Accepts, Accepts-admit,
}

if_checked-true :
    (c rest : Option Bool) → if_checked c rest ≡ some true → (c ≡ some true) × (rest ≡ some true)
if_checked-true none rest e = cc
if_checked-true (some true) rest e = (refl, e)
if_checked-true (some false) rest e = cc

-- All fields of a message, in order, and the reader behind them.
abbrev pub message_fields : Bytes → List Field × Reader
message_fields bytes = fields (length bytes + 1) (open_reader bytes)

module _ {D : Type 0} (has_fields : D → Bool) (find : D → ℕ → Option (FieldInfo D)) where
  -- The fields with a descriptor, with it.
  pub known_fields : D → List Field → List (FieldInfo D × Field)
  known_fields d [] = []
  known_fields d (f ∷ fs) = elim (known has_fields find d f.tag) [
    | none ↦ known_fields d fs
    | some info ↦ (info, f) ∷ known_fields d fs
  ]

  module _ (sub : Bytes → D → Option Bool) (d : D) where
    one_field_sound :
        (G : Type 0) (seen : Seen) (rest : Seen → Option Bool) (f : Field) (fs : List Field)
        → length seen.singular ≤ 128
        → ((s : Seen)
            → length s.singular ≤ 128
            → rest s ≡ some true
            → G × Accepts sub s (known_fields d fs))
        → one_field has_fields find sub d seen rest f ≡ some true
        → G × Accepts sub seen (known_fields d (f ∷ fs))
    unfolding one_field known_fields
    one_field_sound G seen rest f fs room h e = go (known has_fields find d f.tag) e
      where
        admitted :
            (info : FieldInfo D) (o : Option Seen)
            → admit info.htype f.tag seen ≡ o
            → elim o [
              | none ↦ some false
              | some s ↦ if_checked (check_kind info.ltype sub info f) (rest s)
            ]
              ≡ some true
            → G × Accepts sub seen ((info, f) ∷ known_fields d fs)
        admitted info none a e = cc
        admitted info (some s) a e =
            let (c, r) = if_checked-true (check_kind info.ltype sub info f) (rest s) e in
            let (g, k) = h s (admit-room info.htype f.tag seen room a) r in
            (g, admit-Accepts sub info f (known_fields d fs) seen s a c k)

        go :
            (o : Option (FieldInfo D))
            → elim o [
              | none ↦ rest seen
              | some info ↦ elim (admit info.htype f.tag seen) [
                | none ↦ some false
                | some s ↦ if_checked (check_kind info.ltype sub info f) (rest s)
              ]
            ]
              ≡ some true
            → G
              × Accepts sub seen
                  (elim o [ none ↦ known_fields d fs | some info ↦ (info, f) ∷ known_fields d fs ])
        go none e = h seen room e
        go (some info) e = admitted info (admit info.htype f.tag seen) refl e

    one_field_complete :
        (seen : Seen) (rest : Seen → Option Bool) (f : Field) (fs : List Field)
        → ((s : Seen) → Accepts sub s (known_fields d fs) → rest s ≡ some true)
        → Accepts sub seen (known_fields d (f ∷ fs))
        → one_field has_fields find sub d seen rest f ≡ some true
    unfolding one_field known_fields
    one_field_complete seen rest f fs h k = go (known has_fields find d f.tag) k
      where
        go :
            (o : Option (FieldInfo D))
            → Accepts sub seen
                (elim o [ none ↦ known_fields d fs | some info ↦ (info, f) ∷ known_fields d fs ])
            → elim o [
              | none ↦ rest seen
              | some info ↦ elim (admit info.htype f.tag seen) [
                | none ↦ some false
                | some s ↦ if_checked (check_kind info.ltype sub info f) (rest s)
              ]
            ]
              ≡ some true
        go none k = h seen k
        go (some info) k =
            let (s, a, l) = Accepts-admit sub info f (known_fields d fs) seen k in
            rw a (rw k.checked.0 (h s l))

    abbrev Good : ℕ → Reader → Type 0
    Good fuel r = is_good (fields fuel r).1 ≡ true

    policy_loop_end :
        (fuel : ℕ) (seen : Seen) (r : Reader)
        → (next r).0 ≡ none
        → policy_loop has_fields find sub d (suc fuel) seen r ≡ some (is_good (next r).1)
    unfolding policy_loop
    policy_loop_end fuel seen r e =
        ap
          (λ (o : Option Field). elim o [
            | none ↦ some (is_good (next r).1)
            | some f ↦
                one_field has_fields find sub d seen
                  (λ s. policy_loop has_fields find sub d fuel s (next r).1) f
          ])
          e

    policy_loop_more :
        (fuel : ℕ) (seen : Seen) (r : Reader) {f : Field}
        → (next r).0 ≡ some f
        → policy_loop has_fields find sub d (suc fuel) seen r
          ≡ one_field has_fields find sub d seen
              (λ s. policy_loop has_fields find sub d fuel s (next r).1)
              f
    unfolding policy_loop
    policy_loop_more fuel seen r e =
        ap
          (λ (o : Option Field). elim o [
            | none ↦ some (is_good (next r).1)
            | some f ↦
                one_field has_fields find sub d seen
                  (λ s. policy_loop has_fields find sub d fuel s (next r).1) f
          ])
          e

    no_more : (seen : Seen) → length seen.singular ≤ 128 → Accepts sub seen []
    no_more seen h = record {
      fresh = tt;
      distinct = tt;
      one = ground arith;
      room = omega arith;
      checked = tt;
    }

    policy_loop_sound :
        (fuel : ℕ) (seen : Seen) (r : Reader)
        → length seen.singular ≤ 128
        → policy_loop has_fields find sub d fuel seen r ≡ some true
        → Good fuel r × Accepts sub seen (known_fields d (fields fuel r).0)
    policy_loop_sound zero seen r h e = absurd (out_of_fuel e)
      where
        out_of_fuel : policy_loop has_fields find sub d zero seen r ≡ some true → ⊥
        out_of_fuel e = unfold policy_loop in cc
    policy_loop_sound (suc fuel) seen r h e = elim (Option-cases (next r).0) [
      | inl n ↦ rw (fields_end fuel r n) (
        some-injective _ _ (sym (policy_loop_end fuel seen r n) ∙ e),
        unfold known_fields in no_more seen h,
      )
      | inr (f, n) ↦ rw (fields_more fuel r n) (
          one_field_sound (Good fuel (next r).1) seen _ f (fields fuel (next r).1).0 h
            (λ s p q. policy_loop_sound fuel s (next r).1 p q)
            (sym (policy_loop_more fuel seen r n) ∙ e))
    ]

    policy_loop_complete :
        (fuel : ℕ) (seen : Seen) (r : Reader)
        → IsInside r
        → length r.input < fuel + r.position
        → Good fuel r
        → Accepts sub seen (known_fields d (fields fuel r).0)
        → policy_loop has_fields find sub d fuel seen r ≡ some true
    policy_loop_complete zero seen r h w g k = absurd (omega arith)
    policy_loop_complete (suc fuel) seen r h w g k = elim (Option-cases (next r).0) [
      | inl n ↦
          policy_loop_end fuel seen r n
          ∙ ap some (subst (λ p. is_good p.1 ≡ true) (fields_end fuel r n) g)
      | inr (f, n) ↦
          let (same, ahead, inside, o) = next_moves r h n in
          let size = ap length same in
          let e = fields_more fuel r n in
          policy_loop_more fuel seen r n
          ∙ one_field_complete seen _ f (fields fuel (next r).1).0
              (λ s l.
                policy_loop_complete fuel s (next r).1 (omega arith) (omega arith)
                  (subst (λ p. is_good p.1 ≡ true) e g) l)
              (subst (λ p. Accepts sub seen (known_fields d p.0)) e k)
    ]

  length-singular_tags :
      (d : D) (fs : List Field) → length (singular_tags (known_fields d fs)) ≤ length fs
  unfolding known_fields
  length-singular_tags d [] = omega arith
  length-singular_tags d (f ∷ fs) = go (known has_fields find d f.tag) (length-singular_tags d fs)
    where
      kept :
          (b : Bool) (ts : List ℕ)
          → length ts ≤ length fs
          → length (if b then ts else f.tag ∷ ts) ≤ suc (length fs)
      kept true ts h = omega arith
      kept false ts h = omega arith

      go :
          (o : Option (FieldInfo D))
          → length (singular_tags (known_fields d fs)) ≤ length fs
          → length (
              singular_tags
                (elim o [ none ↦ known_fields d fs | some info ↦ (info, f) ∷ known_fields d fs ]))
            ≤ suc (length fs)
      go none ih = omega arith
      go (some info) ih = kept (is_repeated info.htype) (singular_tags (known_fields d fs)) ih

  nothing_seen-Fresh : (ts : List ℕ) → Fresh [] ts
  unfolding contains
  nothing_seen-Fresh [] = tt
  nothing_seen-Fresh (t ∷ ts) = (refl, nothing_seen-Fresh ts)

  -- At a level of nesting that is still allowed, a message is accepted exactly if it has at most 239
  -- bytes, its fields are read up to the end with no error, no known field that is not repeated
  -- comes twice, at most one belongs to a oneof, and every known field passes the check for its
  -- type, where nested messages are checked one level further down.
  pub validate_at_iff :
      (levels : ℕ) (bytes : Bytes) (d : D)
      → (validate_at has_fields find (suc levels) bytes d ≡ some true) ↔ (
          (length bytes ≤ 239)
          × (is_good (message_fields bytes).1 ≡ true)
          × Distinct (singular_tags (known_fields d (message_fields bytes).0))
          × (oneof_count (known_fields d (message_fields bytes).0) ≤ 1)
          × AllChecked
              (validate_at has_fields find levels)
              (known_fields d (message_fields bytes).0))
  unfolding validate_at
  validate_at_iff levels bytes d = (
    (λ e. accepted (ltb 239 (length bytes)) refl e),
    (λ (small, good, distinct, one, checked). rw (ltb_false (length bytes) 239 small) (
        policy_loop_complete (validate_at has_fields find levels) d (length bytes + 1) nothing_seen
          (open_reader bytes) (omega arith) (omega arith) good
          (record {
            fresh = nothing_seen-Fresh _;
            distinct = distinct;
            one = omega (arith, one);
            room = fits small;
            checked = checked;
          }))),
  )
    where
      ltb_false : (a b : ℕ) → a ≤ b → ltb b a ≡ false
      ltb_false a b h = ground arith

      fits :
          length bytes ≤ 239
          → 0 + length (singular_tags (known_fields d (message_fields bytes).0)) ≤ 128
      fits h = omega (
        arith,
        length-singular_tags d (message_fields bytes).0,
        length-fields (length bytes + 1) (open_reader bytes) (omega arith),
      )

      accepted :
          (b : Bool)
          → ltb 239 (length bytes) ≡ b
          → (if b
              then some false
              else policy_loop has_fields find
                  (validate_at has_fields find levels)
                  d
                  (length bytes + 1)
                  nothing_seen
                  (open_reader bytes))
            ≡ some true
          → (length bytes ≤ 239)
            × (is_good (message_fields bytes).1 ≡ true)
            × Distinct (singular_tags (known_fields d (message_fields bytes).0))
            × (oneof_count (known_fields d (message_fields bytes).0) ≤ 1)
            × AllChecked
                (validate_at has_fields find levels)
                (known_fields d (message_fields bytes).0)
      accepted true t e = let q : some false ≡ some true = e in cc
      accepted false t e =
          let (good, k) =
            policy_loop_sound (validate_at has_fields find levels) d (length bytes + 1) nothing_seen
              (open_reader bytes) (omega arith) e in
          (ground arith, good, k.distinct, omega (arith, k.one), k.checked)
