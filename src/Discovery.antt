-- ===== src/Discovery.antt =====
-- The bookkeeping of `DiscoveryWorker::Impl` in src/discovery_worker.cpp (types in
-- src/discovery_worker.hpp): how samples are submitted, the queue of source blocks, and the log of
-- gaps. Each function below runs under its mutexes, so a run of the program is a sequence of them.
-- A `std::complex<float>` is a value of the type `S`. Numbers of 64 bits stay below their limit,
-- apart from the counters, whose `add` saturates.
pub mod Gaps
pub mod Submit
pub mod Coverage
use ovmesh_drpp.Base.{
  ℕ, zero, suc, ◌+◌, ◌-◌, ◌*◌, ◌%◌, ◌^◌, ◌≤◌, ◌<◌, max, Bool, true, false, not, ◌&&◌, ◌||◌, List,
  [], ◌∷◌, map, Option, none, some, length, ltb, leb, ◌==◌, if◌then◌else◌, get_or, set,
}
use ovmesh_drpp.Ring.{Ring, is_full, slot, push, take_all}

abbrev pub gap_capacity : ℕ
gap_capacity = 128

abbrev pub source_capacity : ℕ
source_capacity = 64

abbrev pub maximum_input_block : ℕ
maximum_input_block = 131072

abbrev pub maximum_coordinate : ℕ
maximum_coordinate = 2 ^ 53

-- `std::numeric_limits<size_t>::max()`
abbrev pub all_subbands : ℕ
all_subbands = 2 ^ 64 - 1

pub data GapReason : Type 0 where
  source_queue_full input_discontinuity input_too_large : GapReason
  invalid_input_order invalid_sample_coordinate processing_failure : GapReason

abbrev pub same_reason : GapReason → GapReason → Bool
same_reason source_queue_full source_queue_full = true
same_reason input_discontinuity input_discontinuity = true
same_reason input_too_large input_too_large = true
same_reason invalid_input_order invalid_input_order = true
same_reason invalid_sample_coordinate invalid_sample_coordinate = true
same_reason processing_failure processing_failure = true
same_reason _ _ = false

pub record Gap : Type 0 where
  pub first_input_sample : ℕ
  pub end_input_sample : ℕ
  pub subband_index : ℕ
  pub reason : GapReason

-- `Gap{}`
abbrev pub no_gap : Gap
no_gap = record {
  first_input_sample = 0;
  end_input_sample = 0;
  subband_index = all_subbands;
  reason = input_discontinuity;
}

-- `add`, which saturates.
abbrev pub add : ℕ → ℕ → ℕ
add counter value = if ltb (2 ^ 64 - 1 - counter) value then 2 ^ 64 - 1 else counter + value

-- What submission and the gap log change of `Snapshot view`; `subbands` has the field
-- `source_gap_input_samples` of every subband.
pub record View : Type 0 where
  pub accepted_input_samples : ℕ
  pub rejected_input_samples : ℕ
  pub source_gap_input_samples : ℕ
  pub source_queue_drops : ℕ
  pub invalid_submissions : ℕ
  pub rejected_after_close : ℕ
  pub gap_overflows : ℕ
  pub source_queue_high_water : ℕ
  pub subbands : List ℕ

pub record SourceBlock (S : Type 0) : Type 0 where
  pub values : List S
  pub first : ℕ

pub record Impl (S : Type 0) : Type 0 where
  pub closed : Bool
  pub failed : Bool
  pub submitted_before : Bool
  pub expected_submission : ℕ
  pub sources : List (SourceBlock S)
  pub source_head : ℕ
  pub source_tail : ℕ
  pub source_count : ℕ
  pub gaps : Ring Gap
  pub view : View

-- The test by which a gap prolongs the previous one.
abbrev pub joins : Gap → Gap → Bool
joins previous gap =
    same_reason previous.reason gap.reason
    && (previous.subband_index == gap.subband_index
        && previous.end_input_sample == gap.first_input_sample)

abbrev pub prolonged : Gap → Gap → Gap
prolonged previous gap = record previous { end_input_sample = gap.end_input_sample }

abbrev pub last_slot : Ring Gap → ℕ
last_slot gaps = (gaps.head + gaps.count - 1) % gap_capacity

-- The part of `gap_locked` on the log, from `if (gap_count)` on, with whether an entry was lost.
unfoldable pub log_gap : Gap → Ring Gap → Ring Gap × Bool
log_gap gap gaps =
    let previous = get_or gaps.slots (last_slot gaps) no_gap in
    if not (gaps.count == 0) && joins previous gap
    then (record gaps { slots = set gaps.slots (last_slot gaps) (prolonged previous gap) }, false)
    else if is_full gap_capacity no_gap gaps
    then (gaps, true)
    else (push gap_capacity no_gap gap gaps, false)

-- `gap_locked` on the counters of lost samples.
abbrev pub count_loss : ℕ → Bool → ℕ → View → View
count_loss lost source_loss subband v =
    if source_loss && subband == all_subbands
    then record v {
      source_gap_input_samples = add v.source_gap_input_samples lost;
      subbands = map (λ band. add band lost) v.subbands;
    }
    else v

-- `reject` on the counters.
pub count_rejection : ℕ → GapReason → View → View
count_rejection size reason v =
    let w = record v { rejected_input_samples = add v.rejected_input_samples size } in
    if same_reason reason source_queue_full
    then record w { source_queue_drops = add w.source_queue_drops 1 }
    else if not (same_reason reason processing_failure)
    then record w { invalid_submissions = add w.invalid_submissions 1 }
    else w

module _ {S : Type 0} where
  pub gap_locked :
      (first end : ℕ) → GapReason → (subband : ℕ) → (source_loss : Bool) → Impl S → Impl S
  gap_locked first end reason subband source_loss s =
      let v = count_loss (end - first) source_loss subband s.view in
      let logged =
        log_gap
          (record {
            first_input_sample = first;
            end_input_sample = end;
            subband_index = subband;
            reason = reason;
          })
          s.gaps in
      if leb end first then s else record s {
        gaps = logged.0;
        view = if logged.1 then record v { gap_overflows = add v.gap_overflows 1 } else v;
      }

  pub reject : (first end : ℕ) → GapReason → Impl S → Bool × Impl S
  reject first end reason s = (
    false,
    gap_locked first end reason all_subbands
        (not (same_reason reason invalid_input_order)
          && not (same_reason reason invalid_sample_coordinate))
        (record s { view = count_rejection (end - first) reason s.view }),
  )

  abbrev pub reject_late : Impl S → Bool × Impl S
  reject_late s = (
    false,
    record s { view = record s.view { rejected_after_close = add s.view.rejected_after_close 1 } },
  )

  -- The part of `submit` that holds `source_mutex`.
  pub store : List S → (first : ℕ) → Impl S → Bool × Impl S
  store input first s =
      if s.closed
      then reject_late s
      else if s.failed
      then reject first (first + length input) processing_failure s
      else if s.source_count == source_capacity
      then reject first (first + length input) source_queue_full s
      else (
        true,
        record s {
          sources = set s.sources s.source_tail (record { values = input; first = first });
          source_tail = (s.source_tail + 1) % source_capacity;
          source_count = s.source_count + 1;
          view = record s.view {
            accepted_input_samples = add s.view.accepted_input_samples (length input);
            source_queue_high_water = max s.view.source_queue_high_water (s.source_count + 1);
          };
        },
      )

  -- The part of `submit` behind the tests on the order; `others` is what other threads do before
  -- this one holds `source_mutex`.
  pub submit_ordered : (Impl S → Impl S) → List S → (first : ℕ) → Impl S → Bool × Impl S
  submit_ordered others input first s =
      if ltb maximum_input_block (length input)
      then reject first (first + length input) input_too_large s
      else if s.failed
      then reject first (first + length input) processing_failure s
      else store input first (others s)

  -- The gap before a block that does not follow the previous one, and the note of the block.
  pub note_block : List S → (first : ℕ) → Impl S → Impl S
  note_block input first s =
      let s' =
        if s.submitted_before && ltb s.expected_submission first
        then gap_locked s.expected_submission first input_discontinuity all_subbands true s
        else s in
      record s' { submitted_before = true; expected_submission = first + length input }

  pub submit : (Impl S → Impl S) → List S → (first : ℕ) → Impl S → Bool × Impl S
  submit others input first s =
      if s.closed
      then reject_late s
      else if ltb maximum_coordinate (length input) || ltb (maximum_coordinate - length input) first
      then reject first first invalid_sample_coordinate s
      else if length input == 0
      then (true, s)
      else if s.submitted_before && ltb first s.expected_submission
      then reject first (first + length input) invalid_input_order s
      else submit_ordered others input first (note_block input first s)

  pub take_gaps : Impl S → List Gap × Impl S
  take_gaps s =
      let taken = take_all gap_capacity no_gap s.gaps in (taken.0, record s { gaps = taken.1 })
