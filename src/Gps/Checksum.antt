-- ===== src/Gps/Checksum.antt =====
-- A sentence that `parse_nmea` of src/gps.cpp reads on: its marks, its checksum and its line end.
use ovmesh_drpp.Base.{
  ℕ, ◌-◌, ◌≤◌, true, ◌&&◌, ◌||◌, [], ◌∷◌, ◌++◌, some, Gives, bind-Gives, guard-Gives, some-Gives,
  none-Gives, Bytes, All, length, drop, take-append-drop, get_or, ltb, leb, ◌==◌, ==_iff, equal_iff,
  bit_xor, bit_or, ◌<<<◌, append_assoc, append-nil, Bool-cases, ◌≡◌, ◌≢◌, ◌⊎◌, inl, inr, refl, sym,
  ap, ap₂, subst, ◌∙◌, arith,
}
use ovmesh_drpp.Preferences.Fields.{break_at}
use ovmesh_drpp.Preferences.Lines.{Without}
use ovmesh_drpp.Gps.Numbers.{hex_value}
use ovmesh_drpp.Gps.Nmea.{without_line_end, ends_with, checksum_loop, sentence_body}

-- The exclusive or of a text and a number.
unfoldable pub xor_from : (start : ℕ) → Bytes → ℕ
xor_from start [] = start
xor_from start (c ∷ s) = xor_from (bit_xor start c) s

-- A printable character of a sentence's body.
abbrev pub IsPlain : ℕ → Type 0
IsPlain c = (0x20 ≤ c) × ((c ≤ 0x7e) × (c ≢ b'$'))

abbrev pub IsLineEnd : Bytes → Type 0
IsLineEnd ending = (ending ≡ 13 ∷ 10 ∷ []) ⊎ ((ending ≡ 10 ∷ []) ⊎ (ending ≡ []))

-- `$body*HL` and a line end, with `HL` the checksum of the body in hexadecimal digits.
pub record IsFramed (body sentence : Bytes) : Type 0 where
  pub high : ℕ
  pub low : ℕ
  pub ending : Bytes
  pub text : sentence ≡ b'$' ∷ body ++ b'*' ∷ high ∷ low ∷ ending
  pub line_end : IsLineEnd ending
  pub no_star : Without b'*' body
  pub plain : All IsPlain body
  pub checksum :
      (h : ℕ) × (l : ℕ) × (hex_value high ≡ some h)
      × (hex_value low ≡ some l)
      × (xor_from 0 body ≡ bit_or (h <<< 4) l)

-- What is in front of the first mark, and behind it.
pub break_at-Gives :
    (mark : ℕ) (s : Bytes)
    → Gives (λ p. (s ≡ p.0 ++ mark ∷ p.1) × Without mark p.0) (break_at mark s)
unfolding break_at
break_at-Gives mark [] = none-Gives
break_at-Gives mark (c ∷ s) = elim (Bool-cases (c == mark)) [
  | inl e ↦ rw e (some-Gives ([], s) (ap (λ (x : ℕ). x ∷ s) ((==_iff c mark).0 e), tt))
  | inr n ↦ rw n (
      bind-Gives (break_at mark s) _ (λ p r.
        let (e, w) = (break_at-Gives mark s).result p r in
        some-Gives (c ∷ p.0, p.1) (ap (◌∷◌ c) e, (n, w))))
]

checksum_loop-Gives :
    (start : ℕ) (s : Bytes)
    → Gives (λ checksum. (checksum ≡ xor_from start s) × All IsPlain s) (checksum_loop start s)
unfolding checksum_loop xor_from
checksum_loop-Gives start [] = some-Gives start (refl, tt)
checksum_loop-Gives start (c ∷ s) = elim (Bool-cases (ltb c 0x20 || ltb 0x7e c || c == b'$')) [
  | inl e ↦ rw e none-Gives
  | inr n ↦
      let later = checksum_loop-Gives (bit_xor start c) s in
      let plain : IsPlain c = (ground arith, (ground arith, ground arith)) in
      rw n (record {
        result = λ checksum r. let (e, all) = later.result checksum r in (e, (plain, all));
      })
]

split_ending :
    (s : Bytes) → (ending : Bytes) × (s ≡ without_line_end s ++ ending) × IsLineEnd ending
unfolding without_line_end
split_ending s = elim (Bool-cases (ends_with s (13 ∷ 10 ∷ []))) [
  | inl e ↦ (
    13 ∷ 10 ∷ [],
    rw e (sym (rw (← (equal_iff _ _).0 e) (take-append-drop (length s - 2) s))),
    inl refl,
  )
  | inr n ↦ elim (Bool-cases (ends_with s (10 ∷ []))) [
    | inl e ↦ (
      10 ∷ [],
      rw (n, e) (sym (rw (← (equal_iff _ _).0 e) (take-append-drop (length s - 1) s))),
      inr (inl refl),
    )
    | inr m ↦ ([], rw (n, m) (rw append-nil refl), inr (inr refl))
  ]
]

-- What `sentence_body` finds in a text whose line end is gone.
record IsBody (s body : Bytes) : Type 0 where
  high : ℕ
  low : ℕ
  text : s ≡ b'$' ∷ body ++ b'*' ∷ high ∷ low ∷ []
  no_star : Without b'*' body
  plain : All IsPlain body
  checksum :
      (h : ℕ) × (l : ℕ) × (hex_value high ≡ some h)
      × (hex_value low ≡ some l)
      × (xor_from 0 body ≡ bit_or (h <<< 4) l)

-- The text in front of the star, without the mark.
without_mark :
    (front rest : Bytes)
    → (get_or (front ++ b'*' ∷ rest) 0 0 == b'$') ≡ true
    → front ≡ b'$' ∷ drop 1 front
without_mark [] rest e = cc
without_mark (c ∷ front) rest e = ap (λ (x : ℕ). x ∷ front) ((==_iff c b'$').0 e)

two_bytes :
    (back : Bytes) → (length back == 2) ≡ true → back ≡ get_or back 0 0 ∷ get_or back 1 0 ∷ []
two_bytes [] e = cc
two_bytes (a ∷ []) e = ground arith
two_bytes (a ∷ b ∷ []) e = refl
two_bytes (a ∷ b ∷ c ∷ s) e = ground arith

Without-drop : (mark : ℕ) (s : Bytes) → Without mark s → Without mark (drop 1 s)
Without-drop mark [] w = tt
Without-drop mark (c ∷ s) w = w.1

sentence_body-Gives : (s : Bytes) → Gives (IsBody s) (sentence_body s)
unfolding sentence_body
sentence_body-Gives s = guard-Gives (leb 10 (length s) && get_or s 0 0 == b'$') _ (λ marked.
    bind-Gives (break_at b'*' s) _ (λ (front, back) broken.
      let (text, no_star) = (break_at-Gives b'*' s).result (front, back) broken in
      guard-Gives (length back == 2) _ (λ two. bind-Gives (hex_value (get_or back 0 0)) _ (λ h high.
        bind-Gives (hex_value (get_or back 1 0)) _ (λ l low.
          bind-Gives (checksum_loop 0 (drop 1 front)) _ (λ checksum summed.
            let (fold, plain) = (checksum_loop-Gives 0 (drop 1 front)).result checksum summed in
            let dollar : (get_or s 0 0 == b'$') ≡ true = ground arith in
            let mark =
              without_mark front back (subst (λ t. (get_or t 0 0 == b'$') ≡ true) text dollar) in
            guard-Gives (checksum == bit_or (h <<< 4) l) _ (λ fits.
              some-Gives (drop 1 front) (record {
                high = get_or back 0 0;
                low = get_or back 1 0;
                text = text ∙ ap₂ (λ (f g : Bytes). f ++ b'*' ∷ g) mark (two_bytes back two);
                no_star = Without-drop b'*' front no_star;
                plain = plain;
                checksum = (h, l, high, low, sym fold ∙ (==_iff _ _).0 fits);
              }))))))))

-- Two lists in front of a third.
IsBody-IsFramed :
    (s body ending : Bytes) → IsBody s body → IsLineEnd ending → IsFramed body (s ++ ending)
IsBody-IsFramed s body ending b line_end = record {
  high = b.high;
  low = b.low;
  ending = ending;
  text =
      ap (λ t. t ++ ending) b.text
      ∙ ap (◌∷◌ b'$') (append_assoc body (b'*' ∷ b.high ∷ b.low ∷ []) ending);
  line_end = line_end;
  no_star = b.no_star;
  plain = b.plain;
  checksum = b.checksum;
}

-- The body that `parse_nmea` reads is that of a sentence with its marks and its checksum.
pub sentence_body-IsFramed :
    (s body : Bytes) → sentence_body (without_line_end s) ≡ some body → IsFramed body s
sentence_body-IsFramed s body e =
    let (ending, whole_text, line_end) = split_ending s in
    let b = (sentence_body-Gives (without_line_end s)).result body e in
    subst (IsFramed body) (sym whole_text)
      (IsBody-IsFramed (without_line_end s) body ending b line_end)
