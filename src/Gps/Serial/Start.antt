-- ===== src/Gps/Serial/Start.antt =====
-- `start`, `stop` and `status` of `SerialGps` in src/gps.cpp, with POSIX devices.
use ovmesh_drpp.Base.{
  ℕ, Bool, true, false, not, ◌&&◌, ◌||◌, [], ◌∷◌, ◌++◌, Option, none, some, Bytes, length, ltb,
  ◌==◌, if◌then◌else◌, codes, negsuc,
}
use ovmesh_drpp.Floats.{Doubles, whole}
use ovmesh_drpp.Devices.{has_byte, starts_with}
use ovmesh_drpp.Gps.Serial.{
  GpsConnectionStatus, stale_fix, read_error, waiting_for_fix, SerialGps, no_connection,
  is_valid_fix, with_state,
}

-- How the operating system answers `start`.
pub data Opening : Type 0 where
  not_opened : (reason : Bytes) → Opening
  not_serial not_configured no_thread opened : Opening

abbrev pub known_rate : (baud : ℕ) → Bool
known_rate baud =
    baud == 4800
    || baud == 9600
    || baud == 19200
    || baud == 38400
    || baud == 57600
    || baud == 115200

-- `path.find(pattern) != npos`
unfoldable pub has_text : (pattern : Bytes) → Bytes → Bool
has_text pattern [] = length pattern == 0
has_text pattern (c ∷ s) = starts_with (c ∷ s) pattern || has_text pattern s

-- The checks of `start` before the device is opened.
unfoldable pub start_error : (callback : Bool) (path : Bytes) (baud : ℕ) → Option Bytes
start_error callback path baud =
    if not callback || length path == 0 || ltb 240 (length path) || has_byte 0 path
    then some (codes "An explicit local serial port is required")
    else if not (known_rate baud)
    then some (codes "Supported GPS baud rates: 4800, 9600, 19200, 38400, 57600, 115200")
    else if not (starts_with path (codes "/dev/tty") || starts_with path (codes "/dev/cu."))
        || has_text (codes "/../") path
    then some (codes "Specify a local serial device under /dev/tty or /dev/cu.")
    else none

module _ {F : Type 0} (d : Doubles F) where
  unfoldable pub stop : SerialGps F → SerialGps F
  stop s = record s {
    running = false;
    worker = false;
    pending = [];
    last_fix = none;
    connection = no_connection;
    fresh_fix_monotonic = whole d 0;
  }

  unfoldable pub status : (now : F) → SerialGps F → GpsConnectionStatus
  status now s =
      if is_valid_fix s.connection.state && d.less (whole d 2) (d.minus now s.fresh_fix_monotonic)
      then with_state stale_fix (codes "GPS fix stale; waiting for a fresh fix") s.connection
      else s.connection

  -- The answer of the operating system: the error, or the state with its thread.
  unfoldable pub open_device : Opening → (path : Bytes) → SerialGps F → Option Bytes × SerialGps F
  open_device answer path s =
      let failed : Bytes → SerialGps F → Option Bytes × SerialGps F = λ error t. (
        some error,
        record t { connection = record { state = read_error; device_path = path; detail = error } },
      ) in
      let begun = record s {
        running = true;
        pending = [];
        last_utc = d.value (negsuc 0);
        last_fix = none;
        connection = record {
          state = waiting_for_fix;
          device_path = path;
          detail = codes "GPS connected; waiting for a valid fix";
        };
        fresh_fix_monotonic = whole d 0;
      } in
      elim answer [
        | not_opened reason ↦
            failed (codes "Unable to open the requested GPS serial port: " ++ reason) s
        | not_serial ↦ failed (codes "Requested path is not a configurable local serial device") s
        | not_configured ↦ failed (codes "Unable to configure GPS serial settings") s
        | no_thread ↦ failed (codes "Unable to start GPS reader") (stop begun)
        | opened ↦ (none, record begun { worker = true })
      ]

  -- `start` behind its checks, with the error that they found.
  unfoldable pub start_checked :
      (error : Option Bytes) (path : Bytes) → Opening → SerialGps F → Option Bytes × SerialGps F
  start_checked (some error) path answer s = (
    some error,
    record s { connection = record { state = read_error; device_path = path; detail = error } },
  )
  start_checked none path answer s = open_device answer path s

  unfoldable pub start :
      (callback : Bool) (path : Bytes) (baud : ℕ)
      → Opening
      → SerialGps F
      → Option Bytes × SerialGps F
  start callback path baud answer s =
      if s.worker
      then (some (codes "GPS is already connected; disconnect before changing ports"), s)
      else start_checked (start_error callback path baud) path answer s
