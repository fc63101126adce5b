-- ===== src/Tests/Records.antt =====
-- Runs of the modelled record parser, and the instances of its theorems. Here the numbers of the
-- records that are not integers are whole decibels and seconds.
use ovmesh_drpp.Base.{
  ℕ, ◌≤◌, ◌++◌, ◌≡◌, refl, true, false, length, [], ◌∷◌, some, Bytes, codes, equal, arith,
}
use ovmesh_drpp.TextField.{lower_hex_digit}
use ovmesh_drpp.Decimal.{read_digits, from_chars}
use ovmesh_drpp.Preferences.Fields.{break_at}
use ovmesh_drpp.Preferences.Lines.{without, without-Without}
use ovmesh_drpp.Tests.Numbers.{whole_numbers}
use ovmesh_drpp.Rak.{
  RakMessage, packet, parsed, split_fields, payload_loop, parse_payload, numeric_double,
  parse_packet, parse_kind, parse_fields, parse_rak_message,
}
use ovmesh_drpp.Rak.{ready}
use ovmesh_drpp.Rak.Poll.{RakProcess, bytes, message, read_loop, poll_open, poll}
use ovmesh_drpp.Rak.Poll.Chunks.{then_poll, poll-append}
use ovmesh_drpp.Rak.Poll.Pending.{length-poll}
use ovmesh_drpp.Rak.Fields.{join, split_fields-join}
use ovmesh_drpp.Rak.Safe.{IsSafe, parse_rak_message-IsSafe}

abbrev packet_line : Bytes
packet_line = codes "PACKET 906875000 250000 11 5 40 10 1 77 0aff"

abbrev packet_message : RakMessage ℕ
packet_message = packet (record {
  frequency_hz = 906875000;
  bandwidth_hz = 250000;
  spreading_factor = 11;
  coding_rate = 5;
  rssi_dbm = 40;
  snr_db = 10;
  crc_valid = true;
  hardware_timestamp_us = 77;
  payload = 10 ∷ 255 ∷ [];
})

packet_parsed : parse_rak_message whole_numbers packet_line ≡ parsed packet_message
unfolding parse_rak_message split_fields break_at parse_fields parse_kind parse_packet
    numeric_double parse_payload payload_loop lower_hex_digit from_chars read_digits equal
packet_parsed = refl

parse_rak_message-IsSafe_example : IsSafe packet_message
parse_rak_message-IsSafe_example =
    parse_rak_message-IsSafe whole_numbers packet_line packet_message packet_parsed

split_fields-join_example :
    split_fields 10 0 (join (codes "READY") (codes "a" ∷ []))
    ≡ some (codes "READY" ∷ codes "a" ∷ [])
unfolding without join
split_fields-join_example =
    split_fields-join 10 0 (codes "READY") (codes "a" ∷ [])
      (
        (omega arith, without-Without b' ' (codes "READY") refl),
        ((omega arith, without-Without b' ' (codes "a") refl), tt),
      )
      (omega arith) (omega arith)

abbrev fresh_process : RakProcess
fresh_process = record { pending = []; ended = false; saw_end = false; failed = false; eof = false }

poll-append_example :
    poll whole_numbers (bytes (codes "REA" ++ codes "DY\n")) fresh_process
    ≡ then_poll whole_numbers
        (poll whole_numbers (bytes (codes "REA")) fresh_process)
        (poll whole_numbers (bytes (codes "DY\n")))
poll-append_example = poll-append whole_numbers (codes "REA") (codes "DY\n") fresh_process

length-poll_example :
    length (poll whole_numbers (bytes (codes "READY\nHEART")) fresh_process).1.pending ≤ 2048
length-poll_example =
    length-poll whole_numbers (bytes (codes "READY\nHEART")) fresh_process (omega arith)

poll_ready :
    poll whole_numbers (bytes (codes "READY\nHEART")) fresh_process
    ≡ (message ready ∷ [], record fresh_process { pending = codes "HEART" })
unfolding poll poll_open read_loop parse_rak_message split_fields break_at parse_fields parse_kind
    equal
poll_ready = refl
