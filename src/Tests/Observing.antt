-- ===== src/Tests/Observing.antt =====
-- A run of the modelled observations, and the instance of their theorem, with whole numbers.
use ovmesh_drpp.Base.{ℕ, Bool, ◌/◌, false, List, [], ◌∷◌, some, ltb, ◌≡◌, refl}
use ovmesh_drpp.Tests.Numbers.{whole_numbers}
use ovmesh_drpp.Observations.{
  LoRaDiscovery, DiscoveryObservation, DiscoveryObservations, new_observations, has_subband,
  insert_sorted, sort, found_valid, new_candidate, is_match, match_loop, merge, append_observation,
  merge_observation, observe,
}
use ovmesh_drpp.Observations.Kept.{IsRecent}
use ovmesh_drpp.Observations.Calls.{Call, observe_all, observe_all-new_observations}

abbrev far_away : ℕ → (distance stride : ℕ) → Bool
far_away sample distance stride = ltb (distance / stride) sample

abbrev preamble : (center : ℕ) → LoRaDiscovery ℕ
preamble center = record {
  center_hz = center;
  bandwidth_hz = 250000;
  spreading_factor = 11;
  first_observed_upchirp_sample = 100;
  delimiter_sample = 500;
  up_match = 1;
  down_match = 1;
  repeat_coherence = 1;
}

abbrev call : (center subband : ℕ) → Call whole_numbers
call center subband = record {
  found = preamble center;
  subband = subband;
  first_input_sample = 1000;
  stride = 4;
}

abbrev observations : DiscoveryObservations ℕ
observations = record { rate = 8000000; subbands = 3; next_id = 1; evictions = 0; recent = [] }

-- Two overlapping subbands see one preamble, and a third call is refused.
abbrev three_calls : List (Call whole_numbers)
three_calls = call 906875000 2 ∷ call 906875100 1 ∷ call 906875000 3 ∷ []

abbrev merged_observation : DiscoveryObservation ℕ
merged_observation = record {
  id = 1;
  received_center_hz = 906875000;
  bandwidth_hz = 250000;
  spreading_factor = 11;
  first_observed_upchirp_input_sample = 1400;
  delimiter_input_sample = 3000;
  up_match = 1;
  down_match = 1;
  repeat_coherence = 1;
  best_subband = 2;
  contributing_subbands = 1 ∷ 2 ∷ [];
  center_min_hz = 906875000;
  center_max_hz = 906875100;
  delimiter_min_input_sample = 3000;
  delimiter_max_input_sample = 3000;
  association_ambiguous = false;
}

merged_once :
    observe_all whole_numbers far_away three_calls observations
    ≡ record observations { next_id = 2; recent = merged_observation ∷ [] }
unfolding observe_all observe found_valid new_candidate is_match match_loop has_subband merge sort
    insert_sorted merge_observation append_observation
merged_once = refl

observations_created : new_observations 8000000 3 ≡ some observations
unfolding new_observations
observations_created = refl

observe_all-new_observations_example :
    IsRecent (observe_all whole_numbers far_away three_calls observations)
observe_all-new_observations_example =
    observe_all-new_observations whole_numbers far_away 8000000 3 observations three_calls
      observations_created
