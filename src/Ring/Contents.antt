-- ===== src/Ring/Contents.antt =====
-- A bounded queue as the list of its entries, oldest first.
use native.Mathlib.Nat.{mod-eq_of_lt, mod-eq-sub-mod, mod-add-mod, mod-lt}
use ovmesh_drpp.Base.{
  ℕ, zero, suc, ◌+◌, ◌-◌, ◌%◌, ◌≤◌, ◌<◌, ◌*◌, List, [], ◌∷◌, ◌++◌, get_or, set, length, length-set,
  get_or-set_self, get_or-set_ne, ◌≡◌, ◌≢◌, refl, sym, ap, ap₂, Bool-cases, ltb, ltb→lt, ◌∙◌, ◌⊎◌,
  inl, inr, arith,
}
use ovmesh_drpp.Ring.{Ring, slot, push, pop, take_loop, take_all}

-- An index wraps at most once.
wrapped :
    (capacity x : ℕ)
    → x < capacity * 2
    → ((x < capacity) × (x % capacity ≡ x)) ⊎ ((capacity ≤ x) × (x % capacity + capacity ≡ x))
wrapped capacity x h = elim (Bool-cases (ltb x capacity)) [
  | inl t ↦ inl (ground arith, mod-eq_of_lt (ltb→lt x capacity t))
  | inr f ↦
      let le : capacity ≤ x = ground arith in
      let small : (x - capacity) % capacity ≡ x - capacity = mod-eq_of_lt (omega arith) in
      inr (le, omega (arith, mod-eq-sub-mod le))
]

module _ {ℓ} {A : Type ℓ} (capacity : ℕ) (empty : A) where
  pub record IsRing (r : Ring A) : Type 0 where
    pub size : length r.slots ≡ capacity
    pub inside : r.head < capacity
    pub bounded : r.count ≤ capacity

  -- The entries from the `i`-th on, `n` of them.
  abbrev pub items : (slots : List A) (head n i : ℕ) → List A
  items slots head zero i = []
  items slots head (suc n) i =
      get_or slots ((head + i) % capacity) empty ∷ items slots head n (suc i)

  abbrev pub contents : Ring A → List A
  contents r = items r.slots r.head r.count 0

  -- Different entries stand in different slots.
  apart :
      (head i j : ℕ)
      → head < capacity
      → i < j
      → j < capacity
      → (head + i) % capacity ≢ (head + j) % capacity
  apart head i j h p q e = elim (wrapped capacity (head + i) (omega arith)) [
    | inl (a, b) ↦ elim (wrapped capacity (head + j) (omega arith)) [
      | inl (c, d) ↦ omega arith
      | inr (c, d) ↦ omega arith
    ]
    | inr (a, b) ↦ elim (wrapped capacity (head + j) (omega arith)) [
      | inl (c, d) ↦ omega arith
      | inr (c, d) ↦ omega arith
    ]
  ]

  pub slot-bound : (head i : ℕ) → head < capacity → (head + i) % capacity < capacity
  slot-bound head i h = mod-lt (head + i) (omega arith)

  pub items-set :
      (slots : List A) (x : A) (head j n i : ℕ)
      → head < capacity
      → j < capacity
      → i + n ≤ j
      → items (set slots ((head + j) % capacity) x) head n i ≡ items slots head n i
  items-set slots x head j zero i h q p = refl
  items-set slots x head j (suc n) i h q p =
      ap₂ (λ a l. a ∷ l)
        (get_or-set_ne slots ((head + j) % capacity) ((head + i) % capacity) x empty
          (λ e. apart head i j h (omega arith) q (sym e)))
        (items-set slots x head j n (suc i) h q (omega arith))

  -- The same for a slot in front of them.
  pub items-set_before :
      (slots : List A) (x : A) (head j n i : ℕ)
      → head < capacity
      → j < i
      → i + n ≤ capacity
      → items (set slots ((head + j) % capacity) x) head n i ≡ items slots head n i
  items-set_before slots x head j zero i h q p = refl
  items-set_before slots x head j (suc n) i h q p =
      ap₂ (λ a l. a ∷ l)
        (get_or-set_ne slots ((head + j) % capacity) ((head + i) % capacity) x empty
          (apart head j i h q (omega arith)))
        (items-set_before slots x head j n (suc i) h (omega arith) (omega arith))

  -- Entries in two parts.
  pub items-append :
      (slots : List A) (head m n i : ℕ)
      → items slots head (m + n) i ≡ items slots head m i ++ items slots head n (i + m)
  items-append slots head zero n i = ap₂ (λ k j. items slots head k j) (omega arith) (omega arith)
  items-append slots head (suc m) n i =
      ap (λ k. items slots head k i) {y = suc (m + n)} (omega arith)
      ∙ ap (λ l. get_or slots ((head + i) % capacity) empty ∷ l)
          (items-append slots head m n (suc i)
            ∙ ap (λ j. items slots head m (suc i) ++ items slots head n j) (omega arith))

  pub items-suc :
      (slots : List A) (head n i : ℕ)
      → items slots head (suc n) i
        ≡ items slots head n i ++ get_or slots ((head + (i + n)) % capacity) empty ∷ []
  items-suc slots head zero i =
      ap (λ k. get_or slots ((head + k) % capacity) empty ∷ []) (omega arith)
  items-suc slots head (suc n) i =
      ap (λ l. get_or slots ((head + i) % capacity) empty ∷ l)
        (items-suc slots head n (suc i)
          ∙ ap (λ k. items slots head n (suc i) ++ get_or slots ((head + k) % capacity) empty ∷ [])
              (omega arith))

  -- An entry that is added to a queue with room comes behind all others.
  pub contents-push :
      (x : A) (r : Ring A)
      → IsRing r
      → r.count < capacity
      → contents (push capacity empty x r) ≡ contents r ++ x ∷ []
  contents-push x r h room =
      let p : (r.head + r.count) % capacity < length r.slots =
        rw h.size (slot-bound r.head r.count h.inside) in
      ap (λ k. items (set r.slots (slot capacity empty r r.count) x) r.head k 0) {y = suc r.count}
        (omega arith)
      ∙ items-suc (set r.slots (slot capacity empty r r.count) x) r.head r.count 0
      ∙ ap₂ (λ l a. l ++ a ∷ [])
          (items-set r.slots x r.head r.count r.count 0 h.inside room (omega arith))
          (ap
              (λ k.
                get_or (set r.slots (slot capacity empty r r.count) x) ((r.head + k) % capacity)
                  empty)
              (omega arith)
            ∙ get_or-set_self r.slots ((r.head + r.count) % capacity) x empty p)

  pub push-IsRing :
      (x : A) (r : Ring A) → IsRing r → r.count < capacity → IsRing (push capacity empty x r)
  push-IsRing x r h room = record {
    size = length-set r.slots _ x ∙ h.size;
    inside = h.inside;
    bounded = omega arith;
  }

  -- Taking the oldest entry away moves the others one place to the front.
  pub items-pop :
      (slots : List A) (head n i : ℕ)
      → head < capacity
      → i + n < capacity
      → items (set slots head empty) ((head + 1) % capacity) n i ≡ items slots head n (suc i)
  items-pop slots head zero i h p = refl
  items-pop slots head (suc n) i h p =
      let at : ((head + 1) % capacity + i) % capacity ≡ (head + suc i) % capacity =
        mod-add-mod (head + 1) capacity i ∙ ap (λ k. k % capacity) (omega arith) in
      let zeroth : (head + 0) % capacity ≡ head =
        ap (λ k. k % capacity) (omega arith) ∙ mod-eq_of_lt h in
      ap₂ (λ a l. a ∷ l)
        (ap (λ k. get_or (set slots head empty) k empty) at
          ∙ get_or-set_ne slots head ((head + suc i) % capacity) empty empty
              (λ e. apart head 0 (suc i) h (omega arith) (omega arith) (zeroth ∙ e)))
        (items-pop slots head n (suc i) h (omega arith))

  pub pop-IsRing : (r : Ring A) → IsRing r → IsRing (pop capacity empty r).1
  pop-IsRing r h = record {
    size = length-set r.slots r.head empty ∙ h.size;
    inside = slot-bound r.head 1 h.inside;
    bounded = omega (arith, h.bounded);
  }

  take_loop-items :
      (n : ℕ) (r : Ring A)
      → IsRing r
      → r.count ≡ n
      → ((take_loop capacity empty n r).0 ≡ contents r)
        × IsRing (take_loop capacity empty n r).1
        × ((take_loop capacity empty n r).1.count ≡ 0)
  unfolding take_loop
  take_loop-items zero r h e = (ap (λ k. items r.slots r.head k 0) (sym e), h, e)
  take_loop-items (suc n) r h e =
      let zeroth : (r.head + 0) % capacity ≡ r.head =
        ap (λ k. k % capacity) (omega arith) ∙ mod-eq_of_lt h.inside in
      let less : r.count - 1 ≡ n = omega arith in
      let (same, ring, none_left) =
        take_loop-items n (pop capacity empty r).1 (pop-IsRing r h) less in
      (
        ap₂ (λ a l. a ∷ l) (ap (λ k. get_or r.slots k empty) (sym zeroth))
              (same
                ∙ ap (λ k. items (set r.slots r.head empty) ((r.head + 1) % capacity) k 0) less
                ∙ items-pop r.slots r.head n 0 h.inside (omega (arith, h.bounded)))
            ∙ ap (λ k. items r.slots r.head k 0) (sym e),
        ring,
        none_left,
      )

  -- Taking all entries of a queue gives them oldest first, and leaves a well-formed queue with none.
  pub take_all-contents :
      (r : Ring A)
      → IsRing r
      → ((take_all capacity empty r).0 ≡ contents r)
        × IsRing (take_all capacity empty r).1
        × (contents (take_all capacity empty r).1 ≡ [])
  unfolding take_all
  take_all-contents r h =
      let (same, ring, none_left) = take_loop-items r.count r h refl in
      (
        same,
        ring,
        ap (λ k. items (take_all capacity empty r).1.slots (take_all capacity empty r).1.head k 0)
            none_left,
      )

  pub length-items : (slots : List A) (head n i : ℕ) → length (items slots head n i) ≡ n
  length-items slots head zero i = refl
  length-items slots head (suc n) i = ap suc (length-items slots head n (suc i))

  pub length-contents : (r : Ring A) → length (contents r) ≡ r.count
  length-contents r = length-items r.slots r.head r.count 0

  -- The entries of a queue with at least one, with the youngest apart.
  abbrev pub older : Ring A → List A
  older r = items r.slots r.head (r.count - 1) 0

  abbrev pub youngest : Ring A → ℕ
  youngest r = (r.head + r.count - 1) % capacity

  pub contents-last :
      (r : Ring A) → 0 < r.count → contents r ≡ older r ++ get_or r.slots (youngest r) empty ∷ []
  contents-last r h =
      ap (λ k. items r.slots r.head k 0) {y = suc (r.count - 1)} (omega arith)
      ∙ items-suc r.slots r.head (r.count - 1) 0
      ∙ ap (λ k. older r ++ get_or r.slots (k % capacity) empty ∷ []) (omega arith)

  -- A change of the youngest entry.
  pub set_last-contents :
      (x : A) (r : Ring A)
      → IsRing r
      → 0 < r.count
      → contents (record r { slots = set r.slots (youngest r) x }) ≡ older r ++ x ∷ []
  set_last-contents x r h p =
      let at : youngest r ≡ (r.head + (r.count - 1)) % capacity =
        ap (λ k. k % capacity) (omega arith) in
      let b : youngest r < length r.slots =
        rw (h.size, at) (slot-bound r.head (r.count - 1) h.inside) in
      contents-last (record r { slots = set r.slots (youngest r) x }) p
      ∙ ap₂ (λ l a. l ++ a ∷ [])
          (ap (λ k. items (set r.slots k x) r.head (r.count - 1) 0) at
            ∙ items-set r.slots x r.head (r.count - 1) (r.count - 1) 0 h.inside
                (omega (arith, h.bounded)) (omega arith))
          (get_or-set_self r.slots (youngest r) x empty b)

  pub set_last-IsRing :
      (x : A) (r : Ring A) (i : ℕ) → IsRing r → IsRing (record r { slots = set r.slots i x })
  set_last-IsRing x r i h = record {
    size = length-set r.slots i x ∙ h.size;
    inside = h.inside;
    bounded = h.bounded;
  }
