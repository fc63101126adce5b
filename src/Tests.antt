-- ===== src/Tests.antt =====
-- Runs of the modelled code on concrete inputs, and the instances of the theorems at such inputs.
mod Settings
mod Scheduling
mod Records
mod Numbers
mod Positions
mod Observing
use mathlib.Core.Option
use ovmesh_drpp.Base.{
  negsuc, ℕ, ◌∷◌, ◌⊎◌, [], ◌++◌, ◌≤◌, ◌^◌, ◌<◌, Bool, true, false, Option, none, some, ◌≡◌, ◌↔◌,
  refl, inl, inr, Bytes, IsBytes, length, drop, codes, replicate, if◌then◌else◌, ◌==◌, ◌||◌, arith,
}
use ovmesh_drpp.Key.{bytes, from_hex, from_user_input, public_key_hex, public_key_token}
use ovmesh_drpp.Key.Hex.{hex_text, unhex, from_hex-unhex, from_hex-hex_text}
use ovmesh_drpp.Key.Encoder.{to_base64}
use ovmesh_drpp.Key.Canonical.{
  from_user_input-to_base64, from_user_input_canonical, from_user_input-IsKeyMaterial,
  IsKeyMaterial,
}
use ovmesh_drpp.Wire.{Reader, open_reader, is_good, varint, next, has_wire_field}
use ovmesh_drpp.Wire.Varint.{encode_varint, varint-encode_varint}
use ovmesh_drpp.Wire.Canonical.{varint_canonical}
use ovmesh_drpp.Wire.Fields.{Stepped, next-Stepped, has_wire_field_returns}
use ovmesh_drpp.Policy.{FieldInfo, uvarint, bytes_type, single, validate_at, validate_wire}
use mathlib.Core.List.Memᴰ.{head, tail}
use ovmesh_drpp.Base.{All, set, equal, equal_iff}
use ovmesh_drpp.Key.{ChannelKey}
use ovmesh_drpp.Protocol.{
  Libraries, Profile, EnvelopeEvidence, guarded, classify_meshtastic, plain_result, profile_refused,
  invalid_profile,
}
use ovmesh_drpp.Protocol.{le32, meshtastic_nonce}
use ovmesh_drpp.Protocol.Nonce.{le32-meshtastic_nonce}
use ovmesh_drpp.Protocol.Trials.{eligible}
use ovmesh_drpp.Protocol.Evidence.{OpensAlone, classify-evidence_iff}
use ovmesh_drpp.Protocol.Statuses.{classify-swap}
use ovmesh_drpp.Protocol.Refusals.{IsRefused, classify-malformed_iff}
use ovmesh_drpp.Ring.{Ring, take_all}
use ovmesh_drpp.Ring.Contents.{IsRing, contents, take_all-contents}
use ovmesh_drpp.Discovery.{
  input_discontinuity, Gap, Impl, View, gap_capacity, no_gap, log_gap, submit, store, take_gaps,
}
use ovmesh_drpp.Discovery.Gaps.{Logged, entries, log_gap-Logged}
use ovmesh_drpp.Discovery.Coverage.{Covered, log_gap-Covered}
use ovmesh_drpp.Discovery.Submit.{
  WellFormed, Stored, no_block, store-Stored, submit-WellFormed, take_gaps-WellFormed,
}
use ovmesh_drpp.Concentrator.{
  all_boards, board_error, device_error, has_nul, modem_error, boards_loop, ConcentratorBoardConfig,
  ConcentratorConfig, validate_concentrator_config,
}
use ovmesh_drpp.Concentrator.Safe.{
  PacketsInside, DistinctDevices, validate_concentrator_config_safe,
}
use ovmesh_drpp.Policy.Returns.{Returns, validate_wire-Returns}
use ovmesh_drpp.Policy.Accepts.{Distinct, oneof_count, singular_tags, AllChecked}
use ovmesh_drpp.Policy.Message.{message_fields, known_fields, validate_at_iff}

-- `AQ==` stands for the published key.
abbrev published_key : Bytes
published_key =
    212 ∷ 241 ∷ 187 ∷ 58 ∷ 32 ∷ 41 ∷ 7 ∷ 89 ∷ 240 ∷ 188 ∷ 255 ∷ 171 ∷ 207 ∷ 78 ∷ 105 ∷ 1 ∷ []

from_user_input_public : Option.map bytes (from_user_input public_key_token) ≡ some published_key
unfolding from_user_input
from_user_input_public = refl

abbrev sixteen_bytes : Bytes
sixteen_bytes = 255 ∷ 1 ∷ 2 ∷ replicate 13 128

sixteen_bytes-IsBytes : IsBytes sixteen_bytes
sixteen_bytes-IsBytes = omega arith

from_hex-unhex_example : Option.map bytes (from_hex public_key_hex) ≡ (
    if length public_key_hex == 32 || length public_key_hex == 64
    then unhex public_key_hex
    else none)
from_hex-unhex_example = from_hex-unhex public_key_hex

from_hex-hex_text_example :
    Option.map bytes (from_hex (hex_text sixteen_bytes)) ≡ some sixteen_bytes
from_hex-hex_text_example = from_hex-hex_text sixteen_bytes sixteen_bytes-IsBytes (inl refl)

from_user_input-to_base64_example :
    Option.map bytes (from_user_input (to_base64 sixteen_bytes)) ≡ some sixteen_bytes
from_user_input-to_base64_example =
    from_user_input-to_base64 sixteen_bytes sixteen_bytes-IsBytes (inl refl)

from_user_input_canonical_example :
    (to_base64 sixteen_bytes ≡ to_base64 sixteen_bytes) × IsKeyMaterial sixteen_bytes
from_user_input_canonical_example =
    from_user_input_canonical (to_base64 sixteen_bytes) (inl refl) from_user_input-to_base64_example

from_user_input-IsKeyMaterial_example : IsKeyMaterial published_key
from_user_input-IsKeyMaterial_example =
    from_user_input-IsKeyMaterial public_key_token from_user_input_public

-- 300 in two bytes, and another byte behind.
abbrev three_hundred : Reader
three_hundred = open_reader (172 ∷ 2 ∷ 7 ∷ [])

varint-encode_varint_example :
    varint three_hundred ≡ (some 300, record three_hundred { position = 2 })
varint-encode_varint_example = varint-encode_varint 300 three_hundred (7 ∷ []) (omega arith) refl

varint_canonical_example :
    (300 < 2 ^ 64)
    × (drop 0 three_hundred.input ≡ encode_varint 10 300 ++ (7 ∷ []))
    × (record three_hundred { position = 2 } ≡ record three_hundred { position = 2 })
    × (2 ≤ 3)
varint_canonical_example =
    varint_canonical three_hundred (omega arith) (omega arith) varint-encode_varint_example

-- A varint field and a field of two bytes.
abbrev two_fields : Bytes
two_fields = 8 ∷ 1 ∷ 18 ∷ 2 ∷ 104 ∷ 105 ∷ []

next-Stepped_example :
    Stepped 2
      (open_reader two_fields)
      (next (open_reader two_fields)).0
      (next (open_reader two_fields)).1
next-Stepped_example = next-Stepped (open_reader two_fields) (omega arith) refl

has_wire_field_returns_example : (b : Bool) × (has_wire_field two_fields 2 ≡ some b)
has_wire_field_returns_example = has_wire_field_returns two_fields 2

-- A schema with two singular fields, as the descriptor 0.
abbrev find_field : ℕ → ℕ → Option (FieldInfo ℕ)
find_field d tag =
    if tag == 1
    then some (record { ltype = uvarint; htype = single; data_size = 4; submsg_desc = none })
    else if tag == 2
    then some (record { ltype = bytes_type; htype = single; data_size = 0; submsg_desc = none })
    else none

abbrev any_fields : ℕ → Bool
any_fields d = true

validate_wire-Returns_example : Returns (validate_wire any_fields find_field two_fields (some 0))
validate_wire-Returns_example = validate_wire-Returns any_fields find_field two_fields (some 0)

validate_at_iff_example : (validate_at any_fields find_field 9 two_fields 0 ≡ some true) ↔ (
    (length two_fields ≤ 239)
    × (is_good (message_fields two_fields).1 ≡ true)
    × Distinct (singular_tags (known_fields any_fields find_field 0 (message_fields two_fields).0))
    × (oneof_count (known_fields any_fields find_field 0 (message_fields two_fields).0) ≤ 1)
    × AllChecked
        (validate_at any_fields find_field 8)
        (known_fields any_fields find_field 0 (message_fields two_fields).0))
validate_at_iff_example = validate_at_iff any_fields find_field 8 two_fields 0

-- Libraries with a cipher that changes nothing, and a decoder that always finds a short text.
abbrev compare_bytes : Bytes → Bytes → ℕ
compare_bytes a b = if equal a b then 0 else 1

compare_bytes_iff : (a b : Bytes) → length a ≡ length b → (compare_bytes a b ≡ 0) ↔ (a ≡ b)
compare_bytes_iff a b l = ground (arith, equal_iff a b)

abbrev plain_libraries : Libraries ℕ
plain_libraries = record {
  has_fields = any_fields;
  find = find_field;
  data_msg = some 0;
  pb_decode = λ b. some (record { portnum = 1; payload_size = 2; signature_size = 0 }, 0);
  ctr = λ key nonce input. some input;
  crypto_memcmp = compare_bytes;
}

abbrev zero_key : ChannelKey
zero_key = record { data_ = replicate 32 0; size_ = 16 }

abbrev any_channel : Profile
any_channel = record {
  id = codes "a";
  label = codes "A";
  channel_name = [];
  keys = zero_key ∷ [];
  restrict_channel_name = false;
}

abbrev nameless : Profile
nameless = record any_channel { restrict_channel_name = true }

abbrev broadcast : Bytes
broadcast = 255 ∷ 255 ∷ 255 ∷ 255 ∷ 64 ∷ 48 ∷ 32 ∷ 16 ∷ 1 ∷ 0 ∷ 0 ∷ 0 ∷ 99 ∷ 8 ∷ 0 ∷ 0 ∷ two_fields

abbrev text_message : EnvelopeEvidence
text_message = record { port = 1; signature_present = false }

classify-evidence_iff_example :
    ((classify_meshtastic plain_libraries broadcast true (any_channel ∷ [])).evidence
      ≡ some text_message)
    ↔ ((guarded broadcast true (any_channel ∷ []) ≡ none)
        × OpensAlone plain_libraries broadcast compare_bytes_iff
            (eligible plain_libraries broadcast (any_channel ∷ []))
            text_message)
classify-evidence_iff_example =
    classify-evidence_iff plain_libraries broadcast compare_bytes_iff true (any_channel ∷ [])
      text_message

classify-malformed_iff_example :
    (((classify_meshtastic plain_libraries broadcast true (any_channel ∷ nameless ∷ [])).status
        ≡ invalid_profile)
      ↔ IsRefused broadcast true (any_channel ∷ nameless ∷ []))
    × (IsRefused broadcast true (any_channel ∷ nameless ∷ [])
        → classify_meshtastic plain_libraries broadcast true (any_channel ∷ nameless ∷ [])
          ≡ plain_result invalid_profile)
classify-malformed_iff_example =
    classify-malformed_iff plain_libraries broadcast true (any_channel ∷ nameless ∷ [])

classify-swap_example :
    (classify_meshtastic plain_libraries broadcast true
      ((any_channel ∷ []) ++ (nameless ∷ []))).evidence
    ≡ (classify_meshtastic plain_libraries broadcast true
        ((nameless ∷ []) ++ (any_channel ∷ []))).evidence
classify-swap_example =
    classify-swap plain_libraries broadcast compare_bytes_iff true (any_channel ∷ [])
      (nameless ∷ [])

-- A log with one gap, and a gap that continues it.
abbrev first_gap : Gap
first_gap = record no_gap { first_input_sample = 10; end_input_sample = 20 }

abbrev next_gap : Gap
next_gap = record no_gap { first_input_sample = 20; end_input_sample = 25 }

abbrev one_gap : Ring Gap
one_gap = record { slots = set (replicate 128 no_gap) 127 first_gap; head = 127; count = 1 }

one_gap-IsRing : IsRing gap_capacity no_gap one_gap
one_gap-IsRing = record { size = refl; inside = omega arith; bounded = omega arith }

take_all-contents_example :
    ((take_all gap_capacity no_gap one_gap).0 ≡ contents gap_capacity no_gap one_gap)
    × IsRing gap_capacity no_gap (take_all gap_capacity no_gap one_gap).1
    × (contents gap_capacity no_gap (take_all gap_capacity no_gap one_gap).1 ≡ [])
take_all-contents_example = take_all-contents gap_capacity no_gap one_gap one_gap-IsRing

log_gap-Logged_example : Logged next_gap one_gap (log_gap next_gap one_gap)
log_gap-Logged_example = log_gap-Logged next_gap one_gap one_gap-IsRing

log_gap_room : (log_gap next_gap one_gap).1 ≡ false
unfolding log_gap
log_gap_room = refl

log_gap-Covered_example :
    Covered 22 next_gap.subband_index input_discontinuity (entries (log_gap next_gap one_gap).0)
log_gap-Covered_example =
    log_gap-Covered next_gap one_gap 22 next_gap.subband_index input_discontinuity one_gap-IsRing
      (omega arith) (omega arith, tt) log_gap_room (inl (refl, refl, omega arith, omega arith))

abbrev no_counts : View
no_counts = record {
  accepted_input_samples = 0;
  rejected_input_samples = 0;
  source_gap_input_samples = 0;
  source_queue_drops = 0;
  invalid_submissions = 0;
  rejected_after_close = 0;
  gap_overflows = 0;
  source_queue_high_water = 0;
  subbands = 0 ∷ 0 ∷ [];
}

-- A worker whose source queue wraps, with a gap in its log. A sample is a number.
abbrev worker : Impl ℕ
worker = record {
  closed = false;
  failed = false;
  submitted_before = true;
  expected_submission = 25;
  sources = replicate 64 no_block;
  source_head = 63;
  source_tail = 0;
  source_count = 1;
  gaps = one_gap;
  view = no_counts;
}

worker-WellFormed : WellFormed worker
worker-WellFormed = record {
  log = one_gap-IsRing;
  blocks = record { size = refl; inside = omega arith; bounded = omega arith };
  tail = refl;
}

store-Stored_example : Stored (1 ∷ 2 ∷ []) 30 worker (store (1 ∷ 2 ∷ []) 30 worker)
store-Stored_example = store-Stored (1 ∷ 2 ∷ []) 30 worker worker-WellFormed

-- Another thread takes the gaps while the call waits.
submit-WellFormed_example : WellFormed (submit (λ t. (take_gaps t).1) (1 ∷ 2 ∷ []) 30 worker).1
submit-WellFormed_example =
    submit-WellFormed (λ t. (take_gaps t).1) (1 ∷ 2 ∷ []) 30 worker take_gaps-WellFormed
      worker-WellFormed

-- The default board on a device, in a survey of 26 MHz around 915 MHz.
abbrev long_fast : ConcentratorBoardConfig
long_fast = record {
  device_path = codes "/dev/a";
  device_id = codes "a";
  packets_enabled = true;
  frequency_hz = 906875000;
  bandwidth_hz = 250000;
  spreading_factor = 11;
  sync_word = 0x2b;
}

abbrev two_boards : ConcentratorConfig
two_boards = record {
  boards =
      long_fast ∷ record long_fast { device_path = codes "/dev/b"; device_id = codes "b" } ∷ [];
  scan_enabled = true;
  decode_enabled = false;
  scan_step_hz = 200000;
  scan_samples = 2000;
}

two_boards_accepted :
    validate_concentrator_config two_boards 915000000 20000000 (negsuc 99) true ≡ none
unfolding validate_concentrator_config all_boards board_error device_error has_nul modem_error
    boards_loop equal
two_boards_accepted = refl

validate_concentrator_config_safe_example :
    (0 < length two_boards.boards)
    × (length two_boards.boards ≤ 2)
    × All PacketsInside two_boards.boards
    × ((true ≡ false) ⊎ DistinctDevices two_boards.boards)
validate_concentrator_config_safe_example =
    validate_concentrator_config_safe two_boards 915000000 20000000 (negsuc 99) true
      two_boards_accepted

le32-meshtastic_nonce_example :
    (le32 (meshtastic_nonce 0x10203040 7) 0 ≡ 7)
    × (le32 (meshtastic_nonce 0x10203040 7) 8 ≡ 0x10203040)
le32-meshtastic_nonce_example = le32-meshtastic_nonce 0x10203040 7 (omega arith) (omega arith)
