-- ===== src/Devices/Select.antt =====
-- Which device `select_gps_device` of src/gps_discovery.cpp chooses.
use ovmesh_drpp.Base.{
  ℕ, suc, ◌+◌, ◌<◌, ◌≤◌, Bool, true, false, not, ◌&&◌, ◌||◌, List, [], ◌∷◌, ◌++◌, Option, none,
  some, Bytes, All, length, ◌==◌, ==-false, if◌then◌else◌, get_or, get_or-append, equal, Bool-cases,
  ◌≡◌, ◌≢◌, ◌↔◌, ◌⊎◌, refl, sym, ap, ◌∙◌, inl, inr, arith, subst,
}
use mathlib.Core.Option.{some-injective}
use ovmesh_drpp.Devices.{
  GpsDevice, no_device, matches, local_serial_path, select_loop, ambiguous, select_gps_device,
}

-- A device that can be chosen: it has an identity and a local path.
abbrev pub IsUsable : GpsDevice → Type 0
IsUsable d = (length d.stable_id == 0 || not (local_serial_path d.path)) ≡ false

-- Another device has another identity and another path.
abbrev pub Unlike : GpsDevice → GpsDevice → Type 0
Unlike chosen d = (equal d.stable_id chosen.stable_id || equal d.path chosen.path) ≡ false

module _ (preferred_id : Bytes) where
  abbrev pub Unmatched : GpsDevice → Type 0
  Unmatched d = matches preferred_id d ≡ false

  -- Behind a match, the first loop goes on exactly if nothing else matches.
  loop_some :
      (i j : ℕ) (ds : List GpsDevice) {o : Option ℕ}
      → select_loop preferred_id i ds (some j) ≡ some o
      → (o ≡ some j) × All Unmatched ds
  unfolding select_loop
  loop_some i j [] e = (sym (some-injective _ _ e), tt)
  loop_some i j (d ∷ ds) {o} e = elim (Bool-cases (matches preferred_id d)) [
    | inl t ↦ let q : none ≡ some o = rw t at e in cc
    | inr f ↦ let (same, rest) = loop_some (i + 1) j ds (rw f at e) in (same, (f, rest))
  ]

  some_loop :
      (i j : ℕ) (ds : List GpsDevice)
      → All Unmatched ds
      → select_loop preferred_id i ds (some j) ≡ some (some j)
  unfolding select_loop
  some_loop i j [] h = refl
  some_loop i j (d ∷ ds) (f, h) = rw f (some_loop (i + 1) j ds h)

  -- The list has one match, which can be chosen.
  pub record Found (ds : List GpsDevice) : Type 0 where
    pub before : List GpsDevice
    pub device : GpsDevice
    pub after : List GpsDevice
    pub whole : ds ≡ before ++ device ∷ after
    pub match : matches preferred_id device ≡ true
    pub usable : IsUsable device
    pub front : All Unmatched before
    pub back : All Unmatched after

  loop_none :
      (i k : ℕ) (ds : List GpsDevice)
      → select_loop preferred_id i ds none ≡ some (some k)
      → (f : Found ds) × (k ≡ i + length f.before)
  unfolding select_loop
  loop_none i k [] e = let q : none ≡ some k = some-injective _ _ e in cc
  loop_none i k (d ∷ ds) e = elim (Bool-cases (matches preferred_id d)) [
    | inl t ↦ elim (Bool-cases (length d.stable_id == 0 || not (local_serial_path d.path))) [
      | inl u ↦ let q : none ≡ some (some k) = rw u at (rw t at e) in cc
      | inr u ↦
          let (same, rest) = loop_some (i + 1) i ds (rw u at (rw t at e)) in
          (
            record {
              before = [];
              device = d;
              after = ds;
              whole = refl;
              match = t;
              usable = u;
              front = tt;
              back = rest;
            },
            some-injective _ _ same ∙ omega arith,
          )
    ]
    | inr f ↦
        let (found, at) = loop_none (i + 1) k ds (rw f at e) in
        (
          record {
            before = d ∷ found.before;
            device = found.device;
            after = found.after;
            whole = ap (λ l. d ∷ l) found.whole;
            match = found.match;
            usable = found.usable;
            front = (f, found.front);
            back = found.back;
          },
          omega arith,
        )
  ]

  none_loop :
      (i : ℕ) (before after : List GpsDevice) (d : GpsDevice)
      → matches preferred_id d ≡ true
      → IsUsable d
      → All Unmatched before
      → All Unmatched after
      → select_loop preferred_id i (before ++ d ∷ after) none ≡ some (some (i + length before))
  unfolding select_loop
  none_loop i [] after d t u p q =
      rw t (rw u (some_loop (i + 1) i after q ∙ ap (λ k. some (some k)) (omega arith)))
  none_loop i (x ∷ before) after d t u (f, p) q =
      rw f (none_loop (i + 1) before after d t u p q ∙ ap (λ k. some (some k)) (omega arith))

-- The second loop passes over the index of the chosen device only.
far :
    (chosen : GpsDevice) (k i : ℕ) (ds : List GpsDevice)
    → (k < i) ⊎ (i + length ds ≤ k)
    → (ambiguous chosen k i ds ≡ false) ↔ All (Unlike chosen) ds
unfolding ambiguous
far chosen k i [] h = ((λ e. tt), (λ e. refl))
far chosen k i (d ∷ ds) h =
    let next = far chosen k (i + 1) ds (further h) in
    let other : (i == k) ≡ false = ==-false i k (apart h) in
    (
      (λ e. let (a, b) = parts _ _ _ other e in (a, next.0 b)),
      (λ (a, b). whole _ _ _ other a (next.1 b)),
    )
  where
    further : (k < i) ⊎ (i + suc (length ds) ≤ k) → (k < i + 1) ⊎ (i + 1 + length ds ≤ k)
    further (inl p) = inl (omega arith)
    further (inr p) = inr (omega arith)

    apart : (k < i) ⊎ (i + suc (length ds) ≤ k) → i ≢ k
    apart (inl p) e = omega arith
    apart (inr p) e = omega arith

    parts : (a b c : Bool) → a ≡ false → ((not a && b) || c) ≡ false → (b ≡ false) × (c ≡ false)
    parts a b c p e = (ground arith, ground arith)

    whole : (a b c : Bool) → a ≡ false → b ≡ false → c ≡ false → ((not a && b) || c) ≡ false
    whole a b c p q r = ground arith

ambiguous-append :
    (chosen : GpsDevice) (k i : ℕ) (xs ys : List GpsDevice)
    → ambiguous chosen k i (xs ++ ys)
      ≡ (ambiguous chosen k i xs || ambiguous chosen k (i + length xs) ys)
unfolding ambiguous
ambiguous-append chosen k i [] ys = ap (λ n. ambiguous chosen k n ys) (omega arith)
ambiguous-append chosen k i (x ∷ xs) ys =
    ap
      (λ b. (not (i == k) && (equal x.stable_id chosen.stable_id || equal x.path chosen.path)) || b)
      (ambiguous-append chosen k (i + 1) xs ys)
    ∙ regroup _ (ambiguous chosen k (i + 1) xs) _
    ∙ ap (λ n. ambiguous chosen k i (x ∷ xs) || ambiguous chosen k n ys) (omega arith)
  where
    regroup : (a b c : Bool) → (a || (b || c)) ≡ ((a || b) || c)
    regroup true b c = refl
    regroup false b c = refl

at_chosen :
    (d : GpsDevice) (k i : ℕ) (after : List GpsDevice)
    → i ≡ k
    → ambiguous d k i (d ∷ after) ≡ ambiguous d k (i + 1) after
unfolding ambiguous
at_chosen d k i after e = let t : (i == k) ≡ true = ground arith in rw t refl

or_false_iff : (a b : Bool) → ((a || b) ≡ false) ↔ ((a ≡ false) × (b ≡ false))
or_false_iff true b = ((λ e. cc), (λ (x, y). x))
or_false_iff false b = ((λ e. (refl, e)), (λ (x, y). y))

ambiguous_iff :
    (before after : List GpsDevice) (d : GpsDevice)
    → (ambiguous d (length before) 0 (before ++ d ∷ after) ≡ false)
      ↔ (All (Unlike d) before × All (Unlike d) after)
ambiguous_iff before after d =
    let k = length before in
    let split =
      ambiguous-append d k 0 before (d ∷ after)
      ∙ ap (λ b. ambiguous d k 0 before || b) (at_chosen d k (0 + k) after (omega arith)) in
    let front = far d k 0 before (inr (omega arith)) in
    let back = far d k (0 + k + 1) after (inl (omega arith)) in
    let both = or_false_iff (ambiguous d k 0 before) (ambiguous d k (0 + k + 1) after) in
    (
      (λ e. let (a, b) = both.0 (sym split ∙ e) in (front.0 a, back.0 b)),
      (λ (a, b). split ∙ both.1 (front.1 a, back.1 b)),
    )

-- The list has one match, at this index, which can be chosen, and no other device of the list has
-- its identity or its path.
abbrev pub Chosen : (preferred_id : Bytes) → List GpsDevice → ℕ → Type 0
Chosen preferred_id ds i =
    (f : Found preferred_id ds) × (i ≡ length f.before)
    × All (Unlike f.device) f.before
    × All (Unlike f.device) f.after

-- The end of `select_gps_device`, from the result of the first loop on.
abbrev finish : List GpsDevice → Option (Option ℕ) → Option ℕ
finish ds o = elim o [
  | none ↦ none
  | some none ↦ none
  | some (some k) ↦ if ambiguous (get_or ds k no_device) k 0 ds then none else some k
]

chosen_device :
    (pref : Bytes) (ds : List GpsDevice) (f : Found pref ds)
    → get_or ds (length f.before) no_device ≡ f.device
chosen_device pref ds f = rw f.whole (get_or-append f.before f.after f.device no_device)

finish-Chosen :
    (pref : Bytes) (ds : List GpsDevice) (i : ℕ) (o : Option (Option ℕ))
    → select_loop pref 0 ds none ≡ o
    → finish ds o ≡ some i
    → Chosen pref ds i
finish-Chosen pref ds i none s e = cc
finish-Chosen pref ds i (some none) s e = cc
finish-Chosen pref ds i (some (some k)) s e =
    elim (Bool-cases (ambiguous (get_or ds k no_device) k 0 ds)) [
      | inl t ↦ let q : none ≡ some i = rw t at e in cc
      | inr f ↦
          let (found, at) = loop_none pref 0 k ds s in
          let here : k ≡ length found.before = omega arith in
          let q : some k ≡ some i = rw f at e in
          let device = ap (λ n. get_or ds n no_device) here ∙ chosen_device pref ds found in
          let clear : ambiguous found.device (length found.before) 0
                (found.before ++ found.device ∷ found.after)
              ≡ false =
            subst (λ l. ambiguous found.device (length found.before) 0 l ≡ false) found.whole
              (subst (λ d. ambiguous d (length found.before) 0 ds ≡ false) device
                (subst (λ n. ambiguous (get_or ds k no_device) n 0 ds ≡ false) here f)) in
          let (a, b) = (ambiguous_iff found.before found.after found.device).0 clear in
          (found, sym (some-injective _ _ q) ∙ here, a, b)
    ]

-- `select_gps_device` returns an index exactly if the device there is the only one of the list that
-- is automatic or, with a preferred identity, has that identity; it has an identity and a local
-- path; and no other device of the list shares either with it.
pub select_gps_device_iff :
    (ds : List GpsDevice) (preferred_id : Bytes) (i : ℕ)
    → (select_gps_device ds preferred_id ≡ some i) ↔ Chosen preferred_id ds i
unfolding select_gps_device
select_gps_device_iff ds pref i = (
  (λ e. finish-Chosen pref ds i (select_loop pref 0 ds none) refl e),
  (λ (f, at, a, b).
      let found : select_loop pref 0 ds none ≡ some (some (length f.before)) =
        ap (λ l. select_loop pref 0 l none) f.whole
        ∙ none_loop pref 0 f.before f.after f.device f.match f.usable f.front f.back
        ∙ ap (λ k. some (some k)) (omega arith) in
      let clear : ambiguous (get_or ds (length f.before) no_device) (length f.before) 0 ds ≡ false =
        ap (λ d. ambiguous d (length f.before) 0 ds) (chosen_device pref ds f)
        ∙ ap (λ l. ambiguous f.device (length f.before) 0 l) f.whole
        ∙ (ambiguous_iff f.before f.after f.device).1 (a, b) in
      ap (finish ds) found
      ∙ ap (λ t. if t then none else some (length f.before)) clear
      ∙ ap some (sym at)),
)
