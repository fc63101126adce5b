-- ===== src/Rak/Poll.antt =====
-- `RakProcess::poll` of src/rak_process.cpp: the members of `Impl` that it changes, and one read of
-- the socket, whose result is an argument. A message or the failure behind it is a `Report`.
pub mod Chunks
pub mod Pending
use ovmesh_drpp.Base.{
  ℕ, zero, suc, ◌+◌, Bool, true, false, not, ◌&&◌, ◌||◌, List, [], ◌∷◌, ◌++◌, Bytes, length, ltb,
  leb, ◌==◌, if◌then◌else◌,
}
use ovmesh_drpp.Floats.{Doubles}
use ovmesh_drpp.Rak.{
  RakMessage, end_of_records, Refusal, malformed, Parsed, parsed, refused, parse_rak_message,
}

pub record RakProcess : Type 0 where
  pub pending : Bytes
  pub ended : Bool
  pub saw_end : Bool
  pub failed : Bool
  pub eof : Bool

-- What `recv` returns: the end of the stream, an error that passes, another error, or bytes.
pub data Received : Type 0 where
  closed again broken : Received
  bytes : Bytes → Received

-- The text of a terminal error.
pub data Reason : Type 0 where
  closed_early communication_failed : Reason
  rejected : Refusal → Reason

pub data Report (F : Type 0) : Type 0 where
  message : RakMessage F → Report F
  error : Reason → Report F

-- The state that `terminal` leaves.
abbrev pub terminal : RakProcess → RakProcess
terminal s = record s { failed = true; ended = true; pending = [] }

abbrev pub is_end : {F : Type 0} → RakMessage F → Bool
is_end end_of_records = true
is_end _ = false

-- The state behind a record.
abbrev pub received : {F : Type 0} → RakMessage F → RakProcess → RakProcess
received m s = record s {
  pending = [];
  saw_end = s.saw_end || is_end m;
  ended = s.ended || is_end m;
}

abbrev pub refused_byte : RakProcess → ℕ → Bool
refused_byte s c = not (ltb (length s.pending) 2048) || ltb c 32 || ltb 126 c

module _ {F : Type 0} (d : Doubles F) where
  -- The loop over the bytes of a read, with the `catch` behind it.
  unfoldable pub read_loop : Bytes → RakProcess → List (Report F) × RakProcess
  read_loop [] s = ([], s)
  read_loop (c ∷ more) s =
      let stopped = error (rejected malformed) ∷ [] in
      let pushed = read_loop more (record s { pending = s.pending ++ c ∷ [] }) in
      let taken : RakMessage F → List (Report F) × RakProcess =
        λ m. let rest = read_loop more (received m s) in (message m ∷ rest.0, rest.1) in
      if s.saw_end
      then (stopped, terminal s)
      else if c == 10
      then elim (parse_rak_message d s.pending) [
        | parsed m ↦ taken m
        | refused r ↦ (error (rejected r) ∷ [], terminal s)
      ]
      else if refused_byte s c
      then (stopped, terminal s)
      else pushed

  unfoldable pub poll_open : Received → RakProcess → List (Report F) × RakProcess
  poll_open closed s =
      let at_end = record s { eof = true; ended = true } in
      if not s.failed && (not s.saw_end || not (length s.pending == 0))
      then (error closed_early ∷ [], terminal at_end)
      else ([], at_end)
  poll_open again s = ([], s)
  poll_open broken s = if s.failed then ([], s) else (error communication_failed ∷ [], terminal s)
  poll_open (bytes input) s = if s.failed then ([], s) else read_loop input s

  -- A call, while the socket is there.
  unfoldable pub poll : Received → RakProcess → List (Report F) × RakProcess
  poll input s = if s.eof then ([], s) else poll_open input s
