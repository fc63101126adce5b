-- ===== src/Lib.antt =====
-- Verification library of OVMeshDR++, a receive-only survey program for LoRa mesh networks.
--
-- The program's protocol layer gets the bytes of a received frame and a keyring, tries the keys,
-- and reports whether one of them yields a plausible Meshtastic envelope. Its discovery worker gets
-- blocks of samples from the receiver, queues them for signal processing, and logs every gap. The
-- modules Key, Wire, Policy and Protocol are the protocol layer, from the ground up; Ring,
-- Discovery and Scheduler are the worker's bookkeeping. Preferences are the settings that the
-- desktop program keeps in a file; they hold those of the concentrator boards, which Concentrator
-- checks, and the identities of serial devices, among which Devices chooses. Rak reads what a
-- concentrator board's worker process reports. Gps reads positions from a serial receiver, and
-- Observations merges what overlapping subbands of the discovery see.
--
-- Key (src/protocol.cpp, include/ovmesh/protocol.hpp): the class ChannelKey and its two readers,
-- `from_hex` and `from_user_input`. Key/Hex has the hexadecimal form, Key/Base64 and Key/Encoder
-- the Base64 form, Key/Canonical what `from_user_input` accepts as a whole.
--
-- Wire (src/protobuf_guard.hpp): the class WireReader, a bounded reader of protobuf wire data, and
-- `has_wire_field`. A reader is a record of its input, position and `good_` flag, and each method
-- returns the new reader. Wire/Varint and Wire/Canonical relate `varint` to the shortest form of a
-- number, Wire/Fields shows how far each call of `next` moves.
--
-- Policy (src/protobuf_guard.hpp): `scalar_fits` and `validate_wire`, the check of a message
-- against its schema before Nanopb decodes it. Policy/Returns has termination, Policy/Accepts and
-- Policy/Decides the step for one field, Policy/Message the meaning of the whole loop.
--
-- Protocol (src/protocol.cpp): `classify_meshtastic` with its parts: the guards, the channel hash,
-- the nonce, decryption, `parse_data`, and the loops over profiles and keys. Protocol/Trials turns
-- the nested loops into one, Protocol/Evidence treats the evidence, Protocol/Profiles and
-- Protocol/Refusals the validation of the configuration, Protocol/Statuses the order of its
-- profiles, Protocol/Nonce the nonce.
--
-- Ring (src/discovery_worker.cpp): the bounded queues of the worker, arrays with a head and a
-- count. Ring/Contents reads them as lists.
--
-- Discovery (src/discovery_worker.cpp, src/discovery_worker.hpp): `submit` with `reject` and
-- `gap_locked`, and `take_gaps`, over the members of `DiscoveryWorker::Impl` that they change.
-- What other threads do while `submit` waits for its mutex is a function that it takes.
-- Discovery/Gaps and Discovery/Coverage treat the log of gaps, Discovery/Submit the queue.
--
-- Scheduler (src/discovery_worker.cpp): the queues of detector jobs, `enqueue`, the search for an
-- eligible job, the rounds of `consume`, which claim a job and release it, and
-- `discard_detector_jobs`. Each is one step under `detector_mutex`; the processing in between is
-- not modelled. Scheduler/Consume has the rounds of the threads, Scheduler/Queue reads a queue as
-- the list of its pending entries, Scheduler/Search treats the search and Scheduler/Claim says
-- which job is claimed. Scheduler/Runs is the step relation of the producer and the threads: who
-- holds a slot (Scheduler/Slots, Scheduler/Marks), which subbands run (Scheduler/Bands), and what
-- each step leaves of that (Scheduler/Enqueues, Claims, Releases, Discards). Scheduler/Waits says
-- what is pending where nothing is claimed.
--
-- Concentrator (src/concentrator.cpp, include/ovmesh/concentrator.hpp): the validation of a
-- configuration of one or two concentrator boards, with Concentrator/Safe on what it guarantees.
--
-- TextField (src/preferences.cpp): the check of text as UTF-8 without control characters, and the
-- hexadecimal form of a text field, with TextField/HexCodec on its way back. Decimal has the
-- decimal numbers of the standard library, `std::to_string` and `std::from_chars`.
--
-- Devices (src/gps_discovery.cpp, include/ovmesh/gps_discovery.hpp): the classification of a serial
-- device by its metadata, and the choice of the remembered or the only automatic device.
-- Devices/Select treats the choice, Devices/Identity the identities.
--
-- Preferences (src/preferences.cpp, include/ovmesh/preferences.hpp): the settings and
-- `validate_preferences`. Preferences/Fields and Preferences/Parse are `parse` with its lambdas,
-- Preferences/Serialize is `serialize`. The steps of the round trip are Preferences/Values (single
-- values), Preferences/Lines and Preferences/Plain (the lines), Preferences/Sections and
-- Preferences/BoardSections (the parts of `parse`) and Preferences/RoundTrip. Preferences/Size
-- bounds the length of the file and Preferences/Accepts treats what `parse` accepts, with the ranges
-- of what it reads in Preferences/Gives, Preferences/Ranges and Preferences/BoardRanges.
--
-- Rak (src/rak_process.cpp, src/rak_process.hpp): the parser of the records that the worker of a
-- concentrator board sends. Rak/Fields treats the split into fields, Rak/Safe what accepted records
-- hold. The floating-point numbers in them are a parameter. Rak/Poll is `RakProcess::poll` on what
-- the socket gives, with Rak/Poll/Chunks on the reads and Rak/Poll/Pending on the buffer.
--
-- Floats: the operations of `double` that the modelled code uses, an interface that Rak, Gps and
-- Observations take as a parameter. No theorem assumes anything of them.
--
-- Gps (src/gps.cpp, include/ovmesh/survey.hpp, include/ovmesh/engine.hpp): Gps/Numbers has the
-- fields of an NMEA sentence, with the calendar of `std::chrono`; Gps/Nmea is `parse_nmea`, with
-- Gps/Checksum on the frame of a sentence, Gps/Origin and Gps/Branches on its fields, and Gps/Valid
-- on what a valid fix rests on; Gps/History is `position_at`; Gps/Serial and Gps/Serial/Start are
-- the class SerialGps on POSIX systems, whose clocks, callback and system calls answer by
-- arguments, with Gps/Serial/Connection on the delivery of a fix, Gps/Serial/Shown on the status
-- and Gps/Serial/Life on any rounds and calls.
--
-- Observations (src/discovery_observations.hpp): the class DiscoveryObservations.
-- Observations/Sorted treats the contributing subbands, Observations/Matches the loop that looks
-- for a match, Observations/Kept a call of `observe`, Observations/Calls any calls.
--
-- A function that fails returns an option. Loops that the source bounds by a count are recursion on
-- that count. The loops of `has_wire_field` and `validate_wire` run on fuel, one more than the
-- number of input bytes: each call of `next` moves by at least two bytes or ends the loop. `none`
-- then means that the fuel ran out. `valid_text` and `parse` take a byte in each round, so that
-- they run on as many rounds as there are bytes. Nesting of messages is recursion on the nine
-- levels that `validate_wire` allows.
--
-- Not part of the repository's own code, and therefore parameters: the generated descriptors and
-- the decoder of Nanopb, AES in counter mode and `CRYPTO_memcmp` of OpenSSL, floating-point
-- numbers, the clocks and the system calls of the GPS receiver. Not modelled: the enumeration of
-- devices, the files of the settings, the processes and sockets of the concentrator worker, the
-- Windows branch of the GPS receiver, the clearing of memory, the texts of the statuses, the
-- discovery worker's producer thread, its results and frames and its signal processing, and the
-- other parts of the program (radio receivers, storage, reports, user interface).
pub mod Base
pub mod Key
pub mod Wire
pub mod Policy
pub mod Protocol
pub mod Ring
pub mod Discovery
pub mod Scheduler
pub mod Concentrator
pub mod TextField
pub mod Decimal
pub mod Devices
pub mod Preferences
pub mod Floats
pub mod Gps
pub mod Observations
pub mod Rak
mod Tests
