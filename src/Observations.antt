-- ===== src/Observations.antt =====
-- The recent waveform observations: `DiscoveryObservations` of src/discovery_observations.hpp, with
-- `LoRaDiscovery` of src/lora_discovery.hpp. A `double` is a value of a type `F`; the comparison in
-- `long double` is a parameter.
pub mod Sorted
pub mod Kept
pub mod Matches
pub mod Calls
use ovmesh_drpp.Base.{
  ℕ, zero, suc, ◌+◌, ◌-◌, ◌*◌, ◌/◌, ◌%◌, ◌^◌, Bool, true, false, not, ◌&&◌, ◌||◌, List, [], ◌∷◌,
  ◌++◌, Option, none, some, ◌>>=◌, ◌>>◌, guard, length, drop, get_or, set, ltb, leb, ◌==◌,
  if◌then◌else◌,
}
use ovmesh_drpp.Floats.{Doubles, whole, fraction}

pub record LoRaDiscovery (F : Type 0) : Type 0 where
  pub center_hz : F
  pub bandwidth_hz : ℕ
  pub spreading_factor : ℕ
  pub first_observed_upchirp_sample : F
  pub delimiter_sample : F
  pub up_match : F
  pub down_match : F
  pub repeat_coherence : F

pub record DiscoveryObservation (F : Type 0) : Type 0 where
  pub id : ℕ
  pub received_center_hz : F
  pub bandwidth_hz : ℕ
  pub spreading_factor : ℕ
  pub first_observed_upchirp_input_sample : F
  pub delimiter_input_sample : F
  pub up_match : F
  pub down_match : F
  pub repeat_coherence : F
  pub best_subband : ℕ
  pub contributing_subbands : List ℕ
  pub center_min_hz : F
  pub center_max_hz : F
  pub delimiter_min_input_sample : F
  pub delimiter_max_input_sample : F
  pub association_ambiguous : Bool

pub record DiscoveryObservations (F : Type 0) : Type 0 where
  pub rate : ℕ
  pub subbands : ℕ
  pub next_id : ℕ
  pub evictions : ℕ
  pub recent : List (DiscoveryObservation F)

-- `Update`
pub record Observed : Type 0 where
  pub id : ℕ
  pub merged : Bool
  pub evicted : Bool

abbrev pub capacity : ℕ
capacity = 256

abbrev pub maximum_subbands : ℕ
maximum_subbands = 32

abbrev pub maximum_sample : ℕ
maximum_sample = 2 ^ 53

-- The constructor; `none` is its exception.
unfoldable pub new_observations :
    {F : Type 0} (rate subbands : ℕ) → Option (DiscoveryObservations F)
new_observations rate subbands = do
  guard (
      leb 2000000 rate
      && leb rate 20000000
      && rate % 2000000 == 0
      && not (subbands == 0)
      && leb subbands maximum_subbands)
  some (record { rate = rate; subbands = subbands; next_id = 1; evictions = 0; recent = [] })

abbrev pub known_bandwidth : ℕ → Bool
known_bandwidth hz = hz == 15625 || hz == 62500 || hz == 125000 || hz == 250000 || hz == 500000

unfoldable pub has_subband : (subband : ℕ) → List ℕ → Bool
has_subband subband [] = false
has_subband subband (s ∷ subbands) = s == subband || has_subband subband subbands

-- `std::sort`
unfoldable pub insert_sorted : ℕ → List ℕ → List ℕ
insert_sorted a [] = a ∷ []
insert_sorted a (b ∷ bs) = if leb a b then a ∷ b ∷ bs else b ∷ insert_sorted a bs

unfoldable pub sort : List ℕ → List ℕ
sort [] = []
sort (a ∷ rest) = insert_sorted a (sort rest)

module _ {F : Type 0} where
  -- The loop, from the index `i` on: the last match, and the number of matches.
  unfoldable pub match_loop :
      (DiscoveryObservation F → Bool)
      → (i match matches : ℕ) → List (DiscoveryObservation F)
      → ℕ × ℕ
  match_loop test i match matches [] = (match, matches)
  match_loop test i match matches (previous ∷ recent) =
      match_loop test (i + 1) (if test previous then i else match)
        (if test previous then matches + 1 else matches) recent

module _ {F : Type 0} (d : Doubles F) where
  -- `std::max` and `std::min`
  abbrev pub larger : F → F → F
  larger a b = if d.less a b then b else a

  abbrev pub smaller : F → F → F
  smaller a b = if d.less b a then b else a

  abbrev pub score_valid : F → Bool
  score_valid value =
      d.finite value
      && d.less_equal (whole d 0) value
      && d.less_equal value (fraction d 100001 100000)

  -- The arguments that `observe` accepts by its first test.
  unfoldable pub found_valid :
      DiscoveryObservations F → LoRaDiscovery F → (subband first_input_sample stride : ℕ) → Bool
  found_valid o found subband first_input_sample stride =
      ltb subband o.subbands
      && stride == o.rate / 2000000
      && leb first_input_sample maximum_sample
      && d.finite found.center_hz
      && not (d.less_equal found.center_hz (whole d 0))
      && known_bandwidth found.bandwidth_hz
      && leb 7 found.spreading_factor
      && leb found.spreading_factor 12
      && not (d.less found.center_hz (d.divide (whole d found.bandwidth_hz) (whole d 2)))
      && d.finite found.first_observed_upchirp_sample
      && d.finite found.delimiter_sample
      && not (d.less found.first_observed_upchirp_sample (whole d 0))
      && not (d.less_equal found.delimiter_sample found.first_observed_upchirp_sample)
      && score_valid found.up_match
      && score_valid found.down_match
      && score_valid found.repeat_coherence
      && not (d.less_equal found.up_match (whole d 0))
      && not (d.less_equal found.down_match (whole d 0))

  unfoldable pub new_candidate :
      LoRaDiscovery F → (subband first_input_sample stride : ℕ) → DiscoveryObservation F
  new_candidate found subband first_input_sample stride =
      let mapped : F → F =
        λ sample. d.plus (whole d first_input_sample) (d.times sample (whole d stride)) in
      let delimiter = mapped found.delimiter_sample in
      record {
        id = 0;
        received_center_hz = found.center_hz;
        bandwidth_hz = found.bandwidth_hz;
        spreading_factor = found.spreading_factor;
        first_observed_upchirp_input_sample = mapped found.first_observed_upchirp_sample;
        delimiter_input_sample = delimiter;
        up_match = found.up_match;
        down_match = found.down_match;
        repeat_coherence = found.repeat_coherence;
        best_subband = subband;
        contributing_subbands = subband ∷ [];
        center_min_hz = found.center_hz;
        center_max_hz = found.center_hz;
        delimiter_min_input_sample = delimiter;
        delimiter_max_input_sample = delimiter;
        association_ambiguous = false;
      }

  abbrev pub frequency_tolerance : LoRaDiscovery F → F
  frequency_tolerance found =
      d.divide (d.times (whole d 2) (whole d found.bandwidth_hz))
        (whole d (2 ^ found.spreading_factor))

  abbrev pub time_tolerance : (rate : ℕ) → LoRaDiscovery F → F
  time_tolerance rate found =
      d.divide (d.times (whole d 2) (whole d rate)) (whole d found.bandwidth_hz)

  -- The test of the loop over the recent observations.
  unfoldable pub is_match :
      (frequency_tolerance time_tolerance : F) (subband : ℕ)
      → (candidate previous : DiscoveryObservation F) → Bool
  is_match frequency_limit time_limit subband candidate previous =
      previous.bandwidth_hz == candidate.bandwidth_hz
      && previous.spreading_factor == candidate.spreading_factor
      && not (has_subband subband previous.contributing_subbands)
      && not (
          d.less frequency_limit (
            d.minus (larger previous.center_max_hz candidate.received_center_hz)
              (smaller previous.center_min_hz candidate.received_center_hz)))
      && not (
          d.less time_limit (
            d.minus (larger previous.delimiter_max_input_sample candidate.delimiter_input_sample)
              (smaller previous.delimiter_min_input_sample candidate.delimiter_input_sample)))

  -- The observation that a match leaves.
  unfoldable pub merge :
      (subband : ℕ) (candidate previous : DiscoveryObservation F) → DiscoveryObservation F
  merge subband candidate previous =
      let better =
        d.less (smaller previous.up_match previous.down_match)
          (smaller candidate.up_match candidate.down_match) in
      record (if better then candidate else previous) {
        id = previous.id;
        contributing_subbands = sort (previous.contributing_subbands ++ subband ∷ []);
        center_min_hz = smaller previous.center_min_hz candidate.received_center_hz;
        center_max_hz = larger previous.center_max_hz candidate.received_center_hz;
        delimiter_min_input_sample =
            smaller previous.delimiter_min_input_sample candidate.delimiter_input_sample;
        delimiter_max_input_sample =
            larger previous.delimiter_max_input_sample candidate.delimiter_input_sample;
        association_ambiguous = previous.association_ambiguous;
      }

  -- The end of `observe` for a candidate without one match.
  unfoldable pub append_observation :
      (matches : ℕ)
      → DiscoveryObservation F
      → DiscoveryObservations F
      → Option (Observed × DiscoveryObservations F)
  append_observation matches candidate o = do
    guard (not (o.next_id == 2 ^ 64 - 1))
    let evicted = length o.recent == capacity
    let kept = if evicted then drop 1 o.recent else o.recent
    let added = record candidate { id = o.next_id; association_ambiguous = ltb 1 matches }
    some (
      record { id = o.next_id; merged = false; evicted = evicted },
      record o {
        next_id = o.next_id + 1;
        evictions = if evicted then o.evictions + 1 else o.evictions;
        recent = kept ++ added ∷ [];
      },
    )

  unfoldable pub merge_observation :
      (match subband : ℕ)
      → DiscoveryObservation F
      → DiscoveryObservations F
      → Observed × DiscoveryObservations F
  merge_observation match subband candidate o =
      let previous = get_or o.recent match candidate in
      (
        record { id = previous.id; merged = true; evicted = false },
        record o { recent = set o.recent match (merge subband candidate previous) },
      )

  -- `observe`; `none` is an exception. `far sample distance stride` is whether a sample is above
  -- `distance / stride` as a `long double`.
  unfoldable pub observe :
      (far : F → (distance stride : ℕ) → Bool)
      → LoRaDiscovery F
      → (subband first_input_sample stride : ℕ) → DiscoveryObservations F
      → Option (Observed × DiscoveryObservations F)
  observe far found subband first_input_sample stride o = do
    guard (found_valid o found subband first_input_sample stride)
    guard (not (far found.delimiter_sample (maximum_sample - first_input_sample) stride))
    let candidate = new_candidate found subband first_input_sample stride
    let test = is_match (frequency_tolerance found) (time_tolerance o.rate found) subband candidate
    let (match, matches) = match_loop test 0 (length o.recent) 0 o.recent
    if matches == 1
        then some (merge_observation match subband candidate o)
        else append_observation matches candidate o
