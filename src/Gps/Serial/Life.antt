-- ===== src/Gps/Serial/Life.antt =====
-- A serial receiver over a whole life of it: the rounds of its thread and the calls of `start` and
-- `stop` of `SerialGps` in src/gps.cpp.
use ovmesh_drpp.Base.{
  ℕ, ◌≤◌, Bool, true, false, not, ◌&&◌, ◌||◌, List, [], ◌∷◌, ◌++◌, Option, none, some, Bytes,
  All-append, length, length-append, ltb, leb, ◌==◌, if◌then◌else◌, Bool-cases, Option-cases, ◌≡◌,
  inl, inr, refl, arith,
}
use ovmesh_drpp.Floats.{Doubles}
use ovmesh_drpp.Gps.Nmea.{parse_nmea}
use ovmesh_drpp.Gps.Serial.{
  SerialGps, Arrival, Round, nothing, arrived, lost, complete_line, take_byte, take_bytes,
  disconnected, read_round, new_gps,
}
use ovmesh_drpp.Gps.Serial.Start.{
  status, Opening, not_opened, not_serial, not_configured, no_thread, opened, stop, open_device,
  start_error, start_checked, start,
}
use ovmesh_drpp.Gps.Serial.Connection.{IsInner, IsPending, IsSerial, deliver-IsSerial}
use ovmesh_drpp.Gps.Serial.Shown.{IsShown, status-IsShown}

module _ {F : Type 0} (d : Doubles F) where
  push-IsPending :
      (s : Bytes) (c : ℕ)
      → IsPending s
      → length s ≤ 126
      → IsInner c
      → (length s == 0) ≡ false
      → IsPending (s ++ c ∷ [])
  push-IsPending [] c h room inner full = cc
  push-IsPending (b ∷ s) c (dollar, (all, short)) room inner full = (
    dollar,
    (All-append IsInner s (c ∷ []) all (inner, tt), omega (arith, length-append s (c ∷ []))),
  )

  complete_line-IsSerial :
      (a : Arrival F) (s : SerialGps F) → IsSerial s → IsSerial (complete_line d a s).1
  unfolding complete_line
  complete_line-IsSerial a s h =
      elim (Option-cases (parse_nmea d (s.pending ++ a.byte ∷ []) a.monotonic a.utc)) [
        | inl refused ↦
            rw (refused, complete_line) (record { pending = tt; kept = h.kept; fits = h.fits })
        | inr (fix, parsed) ↦
            let r = deliver-IsSerial d a.callback_throws fix s h.pending h.kept in
            rw (parsed, complete_line) (record { pending = tt; kept = r.kept; fits = r.fits })
      ]

  take_byte-IsSerial : (a : Arrival F) (s : SerialGps F) → IsSerial s → IsSerial (take_byte d a s).1
  unfolding take_byte
  take_byte-IsSerial a s h = elim (Bool-cases (a.byte == b'$')) [
    | inl mark ↦
        rw mark (record { pending = (refl, (tt, omega arith)); kept = h.kept; fits = h.fits })
    | inr other ↦ elim (Bool-cases (length s.pending == 0)) [
      | inl empty ↦ rw (other, empty) h
      | inr full ↦ elim (Bool-cases (a.byte == 10)) [
        | inl end ↦ rw (other, full, end) (complete_line-IsSerial a s h)
        | inr more ↦
            elim (Bool-cases (
              leb 127 (length s.pending)
              || (not (a.byte == 13) && (ltb a.byte 0x20 || ltb 0x7e a.byte)))) [
                | inl refused ↦
                    rw (other, full, more, refused)
                      (record { pending = tt; kept = h.kept; fits = h.fits })
                | inr taken ↦
                    let inner : IsInner a.byte = (ground arith, ground arith) in
                    let room : length s.pending ≤ 126 = ground arith in
                    rw (other, full, more, taken)
                      (record {
                        pending = push-IsPending s.pending a.byte h.pending room inner full;
                        kept = h.kept;
                        fits = h.fits;
                      })
              ]
      ]
    ]
  ]

  take_bytes-IsSerial :
      (input : List (Arrival F)) (s : SerialGps F) → IsSerial s → IsSerial (take_bytes d input s).1
  unfolding take_bytes
  take_bytes-IsSerial [] s h = h
  take_bytes-IsSerial (a ∷ input) s h =
      take_bytes-IsSerial input (take_byte d a s).1 (take_byte-IsSerial a s h)

  either-IsSerial {κ} :
      {A : Type κ} (test : Bool) (a b : A × SerialGps F)
      → (test ≡ true → IsSerial a.1)
      → (test ≡ false → IsSerial b.1)
      → IsSerial (if test then a else b).1
  either-IsSerial true a b first second = first refl
  either-IsSerial false a b first second = second refl

  disconnected-IsSerial :
      (monotonic utc : F) (throws : Bool) (s : SerialGps F)
      → IsSerial s
      → IsSerial (disconnected d monotonic utc throws s).1
  unfolding disconnected
  disconnected-IsSerial monotonic utc throws s h =
      either-IsSerial s.running _ _ (λ live. deliver-IsSerial d throws _ _ h.pending h.kept)
        (λ dead. h)

  read_round-IsSerial :
      (round : Round F) (s : SerialGps F) → IsSerial s → IsSerial (read_round d round s).1
  unfolding read_round
  read_round-IsSerial nothing s h = either-IsSerial (not s.running) _ _ (λ dead. h) (λ live. h)
  read_round-IsSerial (arrived input) s h =
      either-IsSerial (not s.running) _ _ (λ dead. h) (λ live. take_bytes-IsSerial input s h)
  read_round-IsSerial (lost monotonic utc throws) s h =
      either-IsSerial (not s.running) _ _ (λ dead. h)
        (λ live. disconnected-IsSerial monotonic utc throws s h)

  stop-IsSerial : (s : SerialGps F) → IsSerial (stop d s)
  unfolding stop
  stop-IsSerial s = record { pending = tt; kept = tt; fits = refl }

  open_device-IsSerial :
      (answer : Opening) (path : Bytes) (s : SerialGps F)
      → IsSerial s
      → IsSerial (open_device d answer path s).1
  unfolding open_device stop
  open_device-IsSerial (not_opened reason) path s h = record {
    pending = h.pending;
    kept = h.kept;
    fits = tt;
  }
  open_device-IsSerial not_serial path s h = record {
    pending = h.pending;
    kept = h.kept;
    fits = tt;
  }
  open_device-IsSerial not_configured path s h = record {
    pending = h.pending;
    kept = h.kept;
    fits = tt;
  }
  open_device-IsSerial no_thread path s h = record { pending = tt; kept = tt; fits = tt }
  open_device-IsSerial opened path s h = record { pending = tt; kept = tt; fits = refl }

  checked-IsSerial :
      (error : Option Bytes) (path : Bytes) (answer : Opening) (s : SerialGps F)
      → IsSerial s
      → IsSerial (start_checked d error path answer s).1
  unfolding start_checked
  checked-IsSerial (some error) path answer s h = record {
    pending = h.pending;
    kept = h.kept;
    fits = tt;
  }
  checked-IsSerial none path answer s h = open_device-IsSerial answer path s h

  start-IsSerial :
      (callback : Bool) (path : Bytes) (baud : ℕ) (answer : Opening) (s : SerialGps F)
      → IsSerial s
      → IsSerial (start d callback path baud answer s).1
  unfolding start
  start-IsSerial callback path baud answer s h =
      either-IsSerial s.worker _ _ (λ joined. h)
        (λ free. checked-IsSerial (start_error callback path baud) path answer s h)

  -- What happens to a receiver: a round of its thread, `stop`, or `start`.
  pub data Event : Type 0 where
    round : Round F → Event
    stopped : Event
    started : (callback : Bool) (path : Bytes) (baud : ℕ) → Opening → Event

  unfoldable pub happen : Event → SerialGps F → SerialGps F
  happen (round r) s = (read_round d r s).1
  happen stopped s = stop d s
  happen (started callback path baud answer) s = (start d callback path baud answer s).1

  unfoldable pub live : List Event → SerialGps F → SerialGps F
  live [] s = s
  live (e ∷ events) s = live events (happen e s)

  live-IsSerial : (events : List Event) (s : SerialGps F) → IsSerial s → IsSerial (live events s)
  unfolding live happen
  live-IsSerial [] s h = h
  live-IsSerial (round r ∷ events) s h = live-IsSerial events _ (read_round-IsSerial r s h)
  live-IsSerial (stopped ∷ events) s h = live-IsSerial events _ (stop-IsSerial s)
  live-IsSerial (started callback path baud answer ∷ events) s h =
      live-IsSerial events _ (start-IsSerial callback path baud answer s h)

  -- After any rounds of the thread and any calls of `start` and `stop` on a new receiver, whatever
  -- the device sends: the pending sentence is empty, or a `$` with at most 126 bytes of the same
  -- line behind it; the last fix that is kept is valid, and as old as the epoch last seen; the
  -- state of the connection fits it, a valid state only with a kept fix whose age it has; and
  -- `status` reports a valid fix only if the kept one is at most two seconds old at that time.
  pub live-new_gps :
      (events : List Event) (now : F)
      → IsSerial (live events (new_gps d))
        × IsShown d now
            (status d now (live events (new_gps d))).state
            (live events (new_gps d)).last_fix
  live-new_gps events now =
      let h = live-IsSerial events (new_gps d) (record { pending = tt; kept = tt; fits = refl }) in
      (h, status-IsShown d now (live events (new_gps d)) h)
