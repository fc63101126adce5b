-- ===== src/Protocol.antt =====
-- The classifier of received frames, src/protocol.cpp and include/ovmesh/protocol.hpp. OpenSSL and
-- Nanopb are not part of the repository's own code: the record `Libraries` has what the classifier
-- uses of them. A `std::string` is the list of its bytes.
pub mod Trials
pub mod Evidence
pub mod Profiles
pub mod Refusals
pub mod Statuses
pub mod Nonce
use ovmesh_drpp.Base.{
  ℕ, zero, suc, ◌+◌, ◌*◌, Bool, true, false, not, ◌&&◌, ◌||◌, List, [], ◌∷◌, Option, none, some,
  Bytes, length, ltb, leb, ◌==◌, if◌then◌else◌, get_or, set, drop, replicate, codes, u8, ◌<<<◌,
  ◌>>>◌, bit_or, bit_xor, ◌≡◌, refl, ◌++◌,
}
use ovmesh_drpp.Key.{ChannelKey, bytes, from_hex, from_user_input, public_key_token}
use ovmesh_drpp.Wire.{has_wire_field}
use ovmesh_drpp.Policy.{FieldInfo, validate_wire}

-- What `parse_data` reads of a decoded `meshtastic_Data`.
pub record DecodedData : Type 0 where
  pub portnum : ℕ
  pub payload_size : ℕ
  pub signature_size : ℕ

-- `has_fields`, `find` and `data_msg` are the descriptors of Nanopb. `pb_decode` is its decoder,
-- with the bytes that are left behind. `ctr key nonce input` is the output of the calls to
-- `EVP_EncryptInit_ex2`, `EVP_EncryptUpdate` and `EVP_EncryptFinal_ex`, if all succeed.
-- `crypto_memcmp` is `CRYPTO_memcmp`.
pub record Libraries (D : Type 0) : Type 0 where
  pub has_fields : D → Bool
  pub find : D → ℕ → Option (FieldInfo D)
  pub data_msg : Option D
  pub pb_decode : Bytes → Option (DecodedData × ℕ)
  pub ctr : Bytes → Bytes → Bytes → Option Bytes
  pub crypto_memcmp : Bytes → Bytes → ℕ

pub record Profile : Type 0 where
  pub id : Bytes
  pub label : Bytes
  pub channel_name : Bytes
  pub keys : List ChannelKey
  pub restrict_channel_name : Bool

pub data Status : Type 0 where
  classified bad_phy_crc invalid_frame no_matching_key decryption_unvalidated : Status
  unsupported_payload ambiguous_keys unsupported_pki invalid_profile crypto_error : Status

pub record EnvelopeEvidence : Type 0 where
  pub port : ℕ
  pub signature_present : Bool

pub record DecodeResult : Type 0 where
  pub status : Status
  pub classification : Bytes
  pub authentication : Bytes
  pub evidence : Option EnvelopeEvidence

-- `DecodeResult result;` with another status.
abbrev pub plain_result : Status → DecodeResult
plain_result s = record {
  status = s;
  classification = codes "unknown LoRa";
  authentication = codes "not authenticated";
  evidence = none;
}

-- `le32` of the bytes from an offset on.
abbrev pub le32 : Bytes → ℕ → ℕ
le32 frame at =
    bit_or
      (bit_or (bit_or (get_or frame at 0) (get_or frame (at + 1) 0 <<< 8))
        (get_or frame (at + 2) 0 <<< 16))
      (get_or frame (at + 3) 0 <<< 24)

-- The loop of `put32`, with `left` rounds to go at round `i`.
pub put32_loop : (left i at value : ℕ) → Bytes → Bytes
put32_loop zero i at value p = p
put32_loop (suc left) i at value p =
    put32_loop left (i + 1) at value (set p (at + i) (u8 (value >>> (8 * i))))

pub put32 : (at value : ℕ) → Bytes → Bytes
unfolding put32_loop
put32 at value p = put32_loop 4 0 at value p

pub meshtastic_nonce : (from id : ℕ) → Bytes
unfolding put32
meshtastic_nonce from id = put32 8 from (put32 0 id (replicate 16 0))

-- One of the loops of `channel_hash`.
pub xor_all : ℕ → Bytes → ℕ
xor_all hash [] = hash
xor_all hash (c ∷ cs) = xor_all (bit_xor hash c) cs

pub channel_hash : Bytes → ChannelKey → ℕ
unfolding xor_all
channel_hash name key = xor_all (xor_all 0 name) (bytes key)

abbrev pub recognized_port : ℕ → Bool
recognized_port port = port == 1 || port == 3 || port == 4 || port == 5 || port == 67 || port == 70

-- Where the fuel of `validate_wire` or `has_wire_field` ran out, the answer would be false.
abbrev is_true : Option Bool → Bool
is_true none = false
is_true (some b) = b

abbrev key_length : ChannelKey → Bool
key_length key = length (bytes key) == 16 || length (bytes key) == 32

-- The locals of `classify_meshtastic` in its loops: `matched`, `plausible`, `successful_key` and
-- `result.evidence`.
pub record Attempts : Type 0 where
  pub matched : Bool
  pub plausible : Bool
  pub successful_key : Option ChannelKey
  pub evidence : Option EnvelopeEvidence

-- `stopped` is a `return` in the loops, with the evidence reset.
pub data Outcome : Type 0 where
  stopped : Status → Outcome
  going : Attempts → Outcome

unfoldable pub and_then : Outcome → (Attempts → Outcome) → Outcome
and_then (stopped status) rest = stopped status
and_then (going s) rest = rest s

-- `result.evidence && recognized_port(result.evidence->port)`
abbrev pub recognized_evidence : Option EnvelopeEvidence → Bool
recognized_evidence none = false
recognized_evidence (some e) = recognized_port e.port

-- Behind the loops.
pub conclude : Outcome → DecodeResult
conclude (stopped status) = plain_result status
conclude (going s) =
    if recognized_evidence s.evidence
    then record (plain_result classified) {
      classification = codes "likely Meshtastic";
      evidence = s.evidence;
    }
    else if s.plausible
    then record (plain_result unsupported_payload) {
      classification = codes "possible Meshtastic";
      evidence = s.evidence;
    }
    else if s.matched
    then record (plain_result decryption_unvalidated) { evidence = s.evidence }
    else record (plain_result no_matching_key) { evidence = s.evidence }

abbrev pub no_attempts : Attempts
no_attempts = record { matched = false; plausible = false; successful_key = none; evidence = none }

-- The test that a profile fails in the validation of the configuration, by itself or by a key.
pub any_bad_key : List ChannelKey → Bool
any_bad_key [] = false
any_bad_key (key ∷ keys) = not (key_length key) || any_bad_key keys

unfoldable pub profile_refused : Profile → Bool
profile_refused p =
    (p.restrict_channel_name && length p.channel_name == 0)
    || ltb 32 (length p.channel_name)
    || length p.id == 0
    || ltb 128 (length p.id)
    || ltb 16 (length p.keys)
    || any_bad_key p.keys

pub any_refused : List Profile → Bool
any_refused [] = false
any_refused (p ∷ ps) = profile_refused p || any_refused ps

-- The tests before the loops, with the status that they return.
pub guarded : Bytes → Bool → List Profile → Option Status
guarded frame crc profiles =
    if not crc
    then some bad_phy_crc
    else if leb (length frame) 16 || ltb 255 (length frame)
    then some invalid_frame
    else if ltb 17 (length profiles)
    then some invalid_profile
    else if any_refused profiles
    then some invalid_profile
    else if le32 frame 4 == 0 || le32 frame 4 == 0xffffffff || le32 frame 0 == 0
    then some invalid_frame
    else if get_or frame 13 0 == 0 && not (le32 frame 0 == 0xffffffff)
    then some unsupported_pki
    else none

module _ {D : Type 0} (lib : Libraries D) where
  -- `capacity` is the size of the output; `none` is false.
  pub crypt : Bytes → ChannelKey → Bytes → ℕ → Option Bytes
  crypt input key nonce capacity =
      if ltb 255 (length input) || ltb capacity (length input)
      then none
      else if not (key_length key)
      then none
      else elim (lib.ctr (bytes key) nonce input) [
        | none ↦ none
        | some output ↦ if length output == length input then some output else none
      ]

  -- `decode_message` for `meshtastic_Data_msg`.
  pub decode_message : Bytes → Option DecodedData
  decode_message input =
      if not (is_true (validate_wire lib.has_fields lib.find input lib.data_msg))
      then none
      else elim (lib.pb_decode input) [
        | none ↦ none
        | some (value, bytes_left) ↦ if bytes_left == 0 then some value else none
      ]

  abbrev pub data_refused : Bytes → DecodedData → Bool
  data_refused input value =
      value.portnum == 0
      || ltb 65535 value.portnum
      || ltb 233 value.payload_size
      || (not (value.signature_size == 0) && not (value.signature_size == 64))
      || (not (is_true (has_wire_field input 2)) && not (value.portnum == 70))

  pub parse_data : Bytes → Option EnvelopeEvidence
  parse_data input = elim (decode_message input) [
    | none ↦ none
    | some value ↦
        if data_refused input value
        then none
        else some
            (record { port = value.portnum; signature_present = not (value.signature_size == 0) })
  ]

  pub same_key : Option ChannelKey → ChannelKey → Bool
  same_key none key = false
  same_key (some k) key =
      length (bytes k) == length (bytes key) && lib.crypto_memcmp (bytes k) (bytes key) == 0

  -- Behind the decryption.
  pub after_parse : ChannelKey → Attempts → Option EnvelopeEvidence → Outcome
  after_parse key s none = going s
  after_parse key s (some candidate) =
      if s.plausible
      then stopped ambiguous_keys
      else going
          (record s { plausible = true; successful_key = some key; evidence = some candidate })

  pub after_crypt : ChannelKey → Attempts → Option Bytes → Outcome
  after_crypt key s none = stopped crypto_error
  after_crypt key s (some plain) = after_parse key s (parse_data plain)

  module _ (frame : Bytes) where
    abbrev pub decrypted : ChannelKey → Option Bytes
    decrypted key = crypt (drop 16 frame) key (meshtastic_nonce (le32 frame 4) (le32 frame 8)) 256

    -- The body of the inner loop behind the test on the channel hash.
    pub try_key : ChannelKey → Attempts → Outcome
    try_key key s =
        if same_key s.successful_key key
        then going (record s { matched = true })
        else after_crypt key (record s { matched = true }) (decrypted key)

    -- The test by which the inner loop skips a key.
    abbrev pub skipped : Profile → ChannelKey → Bool
    skipped profile key =
        profile.restrict_channel_name
        && not (channel_hash profile.channel_name key == get_or frame 13 0)

    pub keys_loop : Profile → List ChannelKey → Attempts → Outcome
    keys_loop profile [] s = going s
    keys_loop profile (key ∷ keys) s =
        and_then (if skipped profile key then going s else try_key key s)
          (λ s'. keys_loop profile keys s')

    pub profiles_loop : List Profile → Attempts → Outcome
    profiles_loop [] s = going s
    profiles_loop (profile ∷ profiles) s =
        and_then (keys_loop profile profile.keys s) (λ s'. profiles_loop profiles s')

  pub classify_meshtastic : Bytes → Bool → List Profile → DecodeResult
  classify_meshtastic frame crc profiles = elim (guarded frame crc profiles) [
    | some status ↦ plain_result status
    | none ↦ conclude (profiles_loop frame profiles no_attempts)
  ]
