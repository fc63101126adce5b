-- ===== src/Observations/Matches.antt =====
-- The match that the loop of `observe` in src/discovery_observations.hpp finds.
use ovmesh_drpp.Base.{
  ℕ, suc, ◌+◌, ◌-◌, ◌<◌, ◌≤◌, Bool, true, List, [], ◌∷◌, length, get_or, Bool-cases, ◌≡◌, ◌⊎◌, inl,
  inr, arith,
}
use ovmesh_drpp.Observations.{DiscoveryObservation, match_loop}

module _ {F : Type 0} where
  -- An index that the loop returns is that of a match.
  pub record IsMatch (test : DiscoveryObservation F → Bool) (i match : ℕ)
      (l : List (DiscoveryObservation F)) (default : DiscoveryObservation F) : Type 0 where
    pub after : i ≤ match
    pub inside : match < i + length l
    pub fits : test (get_or l (match - i) default) ≡ true

  pub match_loop-IsMatch :
      (test : DiscoveryObservation F → Bool) (i match matches : ℕ)
      (l : List (DiscoveryObservation F)) (default : DiscoveryObservation F) (m n : ℕ)
      → match_loop test i match matches l ≡ (m, n)
      → ((m ≡ match) × (n ≡ matches)) ⊎ (IsMatch test i m l default × (matches < n))
  unfolding match_loop
  match_loop-IsMatch test i match matches [] default m n e = inl (cc, cc)
  match_loop-IsMatch test i match matches (r ∷ l) default m n e = elim (Bool-cases (test r)) [
    | inl t ↦
        let rest : match_loop test (i + 1) i (matches + 1) l ≡ (m, n) = rw t at e in
        elim (match_loop-IsMatch test (i + 1) i (matches + 1) l default m n rest) [
          | inl (here, once) ↦
              let zeroth : m - i ≡ 0 = omega arith in
              inr (
                record { after = omega arith; inside = omega arith; fits = rw zeroth t },
                omega arith,
              )
          | inr (later, more) ↦ inr (one_later test i m r l default later, omega arith)
        ]
    | inr t ↦
        let rest : match_loop test (i + 1) match matches l ≡ (m, n) = rw t at e in
        elim (match_loop-IsMatch test (i + 1) match matches l default m n rest) [
          | inl same ↦ inl same
          | inr (later, more) ↦ inr (one_later test i m r l default later, more)
        ]
  ]
    where
      one_later :
          (test : DiscoveryObservation F → Bool) (i m : ℕ) (r : DiscoveryObservation F)
          (l : List (DiscoveryObservation F)) (default : DiscoveryObservation F)
          → IsMatch test (i + 1) m l default
          → IsMatch test i m (r ∷ l) default
      one_later test i m r l default later =
          let further : m - i ≡ suc (m - (i + 1)) = omega (arith, later.after) in
          record {
            after = omega (arith, later.after);
            inside = omega (arith, later.inside);
            fits = rw further later.fits;
          }
