-- ===== src/Observations/Calls.antt =====
-- What `DiscoveryObservations` of src/discovery_observations.hpp keeps after any calls of `observe`.
use ovmesh_drpp.Base.{
  ℕ, ◌-◌, ◌<◌, Bool, true, false, not, ◌&&◌, List, [], ◌∷◌, Option, none, some, Gives, guard-Gives,
  if-Gives, some-Gives, length, get_or, ◌%◌, leb, ◌==◌, ◌≡◌, inl, inr, refl, subst, arith,
}
use ovmesh_drpp.Floats.{Doubles}
use ovmesh_drpp.Observations.{
  LoRaDiscovery, DiscoveryObservation, DiscoveryObservations, Observed, maximum_sample,
  maximum_subbands, new_observations, has_subband, found_valid, new_candidate, frequency_tolerance,
  time_tolerance, is_match, match_loop, observe,
}
use ovmesh_drpp.Observations.Matches.{match_loop-IsMatch}
use ovmesh_drpp.Observations.Kept.{
  numbers, IsContributed, IsRecent, merge_observation-IsRecent, append_observation-Gives,
}

module _ {F : Type 0} (d : Doubles F) where
  found_valid-subband :
      (o : DiscoveryObservations F) (found : LoRaDiscovery F) (subband first stride : ℕ)
      → found_valid d o found subband first stride ≡ true
      → subband < o.subbands
  unfolding found_valid
  found_valid-subband o found subband first stride e = ground arith

  new_candidate-IsContributed :
      (found : LoRaDiscovery F) (subband first stride subbands : ℕ)
      → subband < subbands
      → IsContributed subbands (new_candidate d found subband first stride)
  unfolding new_candidate has_subband
  new_candidate-IsContributed found subband first stride subbands small = record {
    ascending = (tt, tt);
    known = (small, tt);
    best = ground arith;
  }

  new_candidate-best :
      (found : LoRaDiscovery F) (subband first stride : ℕ)
      → (new_candidate d found subband first stride).best_subband ≡ subband
  unfolding new_candidate
  new_candidate-best found subband first stride = refl

  is_match-new :
      (frequency time : F) (subband : ℕ) (candidate previous : DiscoveryObservation F)
      → is_match d frequency time subband candidate previous ≡ true
      → has_subband subband previous.contributing_subbands ≡ false
  unfolding is_match
  is_match-new frequency time subband candidate previous e = ground arith

  observe-Gives :
      (far : F → (distance stride : ℕ) → Bool) (found : LoRaDiscovery F) (subband first stride : ℕ)
      (o : DiscoveryObservations F)
      → IsRecent o
      → Gives
          (λ (r : Observed × DiscoveryObservations F). IsRecent r.1)
          (observe d far found subband first stride o)
  unfolding observe
  observe-Gives far found subband first stride o h =
      guard-Gives (found_valid d o found subband first stride) _ (λ valid.
        guard-Gives (not (far found.delimiter_sample (maximum_sample - first) stride)) _ (λ _.
          let small = found_valid-subband o found subband first stride valid in
          let candidate = new_candidate d found subband first stride in
          let test =
            is_match d (frequency_tolerance d found) (time_tolerance d o.rate found) subband
              candidate in
          let result = match_loop test 0 (length o.recent) 0 o.recent in
          if-Gives (result.1 == 1) _ _
            (λ once.
              elim (match_loop-IsMatch test 0 (length o.recent) 0 o.recent candidate result.0
                result.1 refl) [
                  | inl same ↦ absurd (ground arith)
                  | inr (m, _) ↦
                      let start : result.0 - 0 ≡ result.0 = omega arith in
                      let fits : test (get_or o.recent result.0 candidate) ≡ true =
                        subst (λ k. test (get_or o.recent k candidate) ≡ true) start m.fits in
                      some-Gives _ (
                        merge_observation-IsRecent d result.0 subband candidate o
                          (omega (arith, m.inside)) small
                          (new_candidate-best found subband first stride)
                          (is_match-new _ _ subband candidate (get_or o.recent result.0 candidate)
                            fits)
                          h)
                ])
            (λ _.
              append_observation-Gives d result.1 candidate o
                (new_candidate-IsContributed found subband first stride o.subbands small) h)))

  -- A call of `observe`.
  pub record Call : Type 0 where
    pub found : LoRaDiscovery F
    pub subband : ℕ
    pub first_input_sample : ℕ
    pub stride : ℕ

  -- The observations after calls, of which one that throws leaves them as they are.
  unfoldable pub observe_all :
      (far : F → (distance stride : ℕ) → Bool)
      → List Call
      → DiscoveryObservations F
      → DiscoveryObservations F
  observe_all far [] o = o
  observe_all far (c ∷ calls) o =
      observe_all far calls
        (elim (observe d far c.found c.subband c.first_input_sample c.stride o) [
          | none ↦ o
          | some r ↦ r.1
        ])

  observe_all-IsRecent :
      (far : F → (distance stride : ℕ) → Bool) (calls : List Call) (o : DiscoveryObservations F)
      → IsRecent o
      → IsRecent (observe_all far calls o)
  unfolding observe_all
  observe_all-IsRecent far [] o h = h
  observe_all-IsRecent far (c ∷ calls) o h = observe_all-IsRecent far calls _ (
      behind (observe d far c.found c.subband c.first_input_sample c.stride o)
        (observe-Gives far c.found c.subband c.first_input_sample c.stride o h))
    where
      behind :
          (r : Option (Observed × DiscoveryObservations F))
          → Gives (λ (r : Observed × DiscoveryObservations F). IsRecent r.1) r
          → IsRecent (elim r [ none ↦ o | some x ↦ x.1 ])
      behind none g = h
      behind (some x) g = g.result x refl

  new_observations-Gives :
      (rate subbands : ℕ)
      → Gives {A = DiscoveryObservations F} IsRecent (new_observations rate subbands)
  unfolding new_observations numbers
  new_observations-Gives rate subbands =
      guard-Gives
        (leb 2000000 rate
          && leb rate 20000000
          && rate % 2000000 == 0
          && not (subbands == 0)
          && leb subbands maximum_subbands)
        _
        (λ _. some-Gives _ (record {
          bounded = omega arith;
          ids = refl;
          next = omega arith;
          width = omega arith;
          contributed = tt;
        }))

  -- After any calls of `observe` on new observations: at most 256 are kept; their numbers are
  -- consecutive and end with the last one that was given, so that none was lost but the oldest,
  -- which were counted as evictions; the next number has 64 bits; and each has its contributing
  -- subbands in strict order, all of them below the number of subbands, with its best one among
  -- them.
  pub observe_all-new_observations :
      (far : F → (distance stride : ℕ) → Bool) (rate subbands : ℕ) (o : DiscoveryObservations F)
      (calls : List Call)
      → new_observations rate subbands ≡ some o
      → IsRecent (observe_all far calls o)
  observe_all-new_observations far rate subbands o calls e =
      observe_all-IsRecent far calls o ((new_observations-Gives rate subbands).result o e)
