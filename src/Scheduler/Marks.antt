-- ===== src/Scheduler/Marks.antt =====
-- The marks of the slots of a detector queue of src/discovery_worker.cpp, and lists without
-- repetition.
use ovmesh_drpp.Base.{
  ℕ, zero, suc, ◌+◌, ◌-◌, ◌≤◌, ◌<◌, Bool, true, false, List, [], ◌∷◌, ◌++◌, none, some, All, get_or,
  set, length, get_or-set_ne, if◌then◌else◌, ◌≡◌, ◌≢◌, refl, sym, ap, ◌∙◌, subst, arith,
}
use ovmesh_drpp.Scheduler.{find_free}

module _ {ℓ} {A : Type ℓ} where
  -- No element stands twice.
  abbrev pub AllApart : List A → Type ℓ
  AllApart [] = Unit
  AllApart (x ∷ xs) = All (λ y. y ≢ x) xs × AllApart xs

  pub All-split {κ} : (P : A → Type κ) (xs ys : List A) → All P (xs ++ ys) → All P xs × All P ys
  All-split P [] ys h = (tt, h)
  All-split P (x ∷ xs) ys (p, h) = let (a, b) = All-split P xs ys h in ((p, a), b)

  pub All-combine {κ} :
      (P Q R : A → Type κ) (xs : List A)
      → ((x : A) → P x → Q x → R x)
      → All P xs
      → All Q xs
      → All R xs
  All-combine P Q R [] f p q = tt
  All-combine P Q R (x ∷ xs) f (p, ps) (q, qs) = (f x p q, All-combine P Q R xs f ps qs)

  pub All-remove {κ} :
      (P : A → Type κ) (xs : List A) (c : A) (ys : List A)
      → All P (xs ++ c ∷ ys)
      → P c × All P (xs ++ ys)
  All-remove P [] c ys h = h
  All-remove P (x ∷ xs) c ys (p, h) = let (a, b) = All-remove P xs c ys h in (a, (p, b))

  pub All-insert {κ} :
      (P : A → Type κ) (xs : List A) (c : A) (ys : List A)
      → P c
      → All P (xs ++ ys)
      → All P (xs ++ c ∷ ys)
  All-insert P [] c ys p h = (p, h)
  All-insert P (x ∷ xs) c ys p (q, h) = (q, All-insert P xs c ys p h)

  pub AllApart-remove :
      (xs : List A) (c : A) (ys : List A)
      → AllApart (xs ++ c ∷ ys)
      → All (λ y. y ≢ c) (xs ++ ys) × AllApart (xs ++ ys)
  AllApart-remove [] c ys h = h
  AllApart-remove (x ∷ xs) c ys (p, h) =
      let (a, b) = All-remove (λ y. y ≢ x) xs c ys p in
      let (d, e) = AllApart-remove xs c ys h in ((λ same. a (sym same), d), (b, e))

  pub AllApart-insert :
      (xs : List A) (c : A) (ys : List A)
      → All (λ y. y ≢ c) (xs ++ ys)
      → AllApart (xs ++ ys)
      → AllApart (xs ++ c ∷ ys)
  AllApart-insert [] c ys p h = (p, h)
  AllApart-insert (x ∷ xs) c ys (q, p) (r, h) =
      (All-insert (λ y. y ≢ x) xs c ys (λ same. q (sym same)) r, AllApart-insert xs c ys p h)

-- The slot that `enqueue` finds is free.
pub find_free-free :
    (i : ℕ) (occupied : List Bool) (free : ℕ)
    → find_free i occupied ≡ some free
    → (i ≤ free) × ((free - i < length occupied) × (get_or occupied (free - i) false ≡ false))
unfolding find_free
find_free-free i [] free e = cc
find_free-free i (true ∷ occupied) free e =
    let (a, (b, c)) = find_free-free (i + 1) occupied free e in
    let step : free - i ≡ suc (free - (i + 1)) = omega arith in
    (omega arith, (omega arith, rw step c))
find_free-free i (false ∷ occupied) free e =
    let same : i ≡ free = ground arith in
    let zeroth : free - i ≡ 0 = omega arith in (omega arith, (omega arith, rw zeroth refl))

-- The number of the slots that are marked.
unfoldable pub count_true : List Bool → ℕ
count_true [] = 0
count_true (taken ∷ occupied) = if taken then suc (count_true occupied) else count_true occupied

pub count_true-mark :
    (occupied : List Bool) (i : ℕ)
    → i < length occupied
    → get_or occupied i false ≡ false
    → count_true (set occupied i true) ≡ count_true occupied + 1
unfolding count_true
count_true-mark [] i small e = absurd (omega arith)
count_true-mark (true ∷ occupied) zero small e = cc
count_true-mark (false ∷ occupied) zero small e = omega arith
count_true-mark (true ∷ occupied) (suc i) small e =
    omega (arith, count_true-mark occupied i (omega arith) e)
count_true-mark (false ∷ occupied) (suc i) small e = count_true-mark occupied i (omega arith) e

pub count_true-clear :
    (occupied : List Bool) (i : ℕ)
    → get_or occupied i false ≡ true
    → count_true (set occupied i false) + 1 ≡ count_true occupied
unfolding count_true
count_true-clear [] i e = cc
count_true-clear (true ∷ occupied) zero e = omega arith
count_true-clear (false ∷ occupied) zero e = cc
count_true-clear (true ∷ occupied) (suc i) e = omega (arith, count_true-clear occupied i e)
count_true-clear (false ∷ occupied) (suc i) e = count_true-clear occupied i e

-- Where no slot is free, all are marked.
pub find_free-none :
    (i : ℕ) (occupied : List Bool)
    → find_free i occupied ≡ none
    → count_true occupied ≡ length occupied
unfolding find_free count_true
find_free-none i [] e = refl
find_free-none i (true ∷ occupied) e = ap suc (find_free-none (i + 1) occupied e)
find_free-none i (false ∷ occupied) e = cc

abbrev pub IsTaken : List Bool → ℕ → Type 0
IsTaken occupied c = (c < 16) × (get_or occupied c false ≡ true)

-- A slot that is taken stays so when another one changes.
pub IsTaken-set :
    (occupied : List Bool) (free : ℕ) (value : Bool) (c : ℕ)
    → IsTaken occupied c
    → c ≢ free
    → IsTaken (set occupied free value) c
IsTaken-set occupied free value c (small, taken) other =
    (small, get_or-set_ne occupied free c value false (λ e. other (sym e)) ∙ taken)

-- No slot in use is the free one.
pub taken_ne_free :
    (occupied : List Bool) (free c : ℕ)
    → get_or occupied free false ≡ false
    → IsTaken occupied c
    → c ≢ free
taken_ne_free occupied free c e (small, taken) same =
    let no_way : true ≡ false = sym taken ∙ ap (λ k. get_or occupied k false) same ∙ e in cc

pub first_free :
    (occupied : List Bool) (free : ℕ)
    → find_free 0 occupied ≡ some free
    → (free < length occupied) × (get_or occupied free false ≡ false)
first_free occupied free e =
    let (_, (inside, unused)) = find_free-free 0 occupied free e in
    let here : free - 0 ≡ free = omega arith in
    (omega arith, subst (λ k. get_or occupied k false ≡ false) here unused)
