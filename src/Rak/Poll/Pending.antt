-- ===== src/Rak/Poll/Pending.antt =====
-- The buffer of an unfinished record in src/rak_process.cpp, for which 2048 bytes are reserved.
use ovmesh_drpp.Base.{
  ◌≤◌, ◌<◌, Bool, true, false, not, ◌&&◌, ◌||◌, List, [], ◌∷◌, ◌++◌, Bytes, length, length-append,
  ◌==◌, if◌then◌else◌, ◌≡◌, refl, arith,
}
use ovmesh_drpp.Floats.{Doubles}
use ovmesh_drpp.Rak.{RakMessage, Refusal, Parsed, parsed, refused, parse_rak_message}
use ovmesh_drpp.Rak.Poll.{
  RakProcess, Received, closed, again, broken, bytes, Report, message, error, rejected, terminal,
  received, refused_byte, read_loop, poll_open, poll,
}

module _ {F : Type 0} (d : Doubles F) where
  -- The buffer is within its bound.
  data IsBounded : List (Report F) × RakProcess → Type 0 where
    bounded :
        {reports : List (Report F)} {s : RakProcess}
        → length s.pending ≤ 2048
        → IsBounded (reports, s)

  by_test :
      (t : Bool) (x y : List (Report F) × RakProcess)
      → (t ≡ true → IsBounded x)
      → (t ≡ false → IsBounded y)
      → IsBounded (if t then x else y)
  by_test true x y first second = first refl
  by_test false x y first second = second refl

  by_record :
      (p : Parsed F) (take : RakMessage F → List (Report F) × RakProcess)
      (refuse : Refusal → List (Report F) × RakProcess)
      → ((m : RakMessage F) → IsBounded (take m))
      → ((r : Refusal) → IsBounded (refuse r))
      → IsBounded (elim p [ parsed m ↦ take m | refused r ↦ refuse r ])
  by_record (parsed m) take refuse first second = first m
  by_record (refused r) take refuse first second = second r

  behind :
      (m : RakMessage F) (o : List (Report F) × RakProcess)
      → IsBounded o
      → IsBounded (message m ∷ o.0, o.1)
  behind m (reports, s) (bounded h) = bounded h

  read_loop-IsBounded :
      (input : Bytes) (s : RakProcess) → length s.pending ≤ 2048 → IsBounded (read_loop d input s)
  unfolding read_loop
  read_loop-IsBounded [] s h = bounded h
  read_loop-IsBounded (c ∷ more) s h =
      by_test s.saw_end _ _ (λ _. bounded (omega arith))
        (λ _.
          by_test (c == 10) _ _
            (λ _.
              by_record (parse_rak_message d s.pending)
                (λ m. let rest = read_loop d more (received m s) in (message m ∷ rest.0, rest.1))
                (λ r. (error (rejected r) ∷ [], terminal s))
                (λ m. behind m _ (read_loop-IsBounded more (received m s) (omega arith)))
                (λ r. bounded (omega arith)))
            (λ _.
              by_test (refused_byte s c) _ _ (λ _. bounded (omega arith))
                (λ fits.
                  let room : length s.pending < 2048 = ground arith in
                  read_loop-IsBounded more (record s { pending = s.pending ++ c ∷ [] })
                    (omega (arith, length-append s.pending (c ∷ []))))))

  IsBounded-length : (o : List (Report F) × RakProcess) → IsBounded o → length o.1.pending ≤ 2048
  IsBounded-length (reports, s) (bounded h) = h

  poll-IsBounded :
      (input : Received) (s : RakProcess) → length s.pending ≤ 2048 → IsBounded (poll d input s)
  unfolding poll poll_open
  poll-IsBounded closed s h =
      by_test s.eof _ _ (λ _. bounded h)
        (λ _.
          by_test (not s.failed && (not s.saw_end || not (length s.pending == 0))) _ _
            (λ _. bounded (omega arith)) (λ _. bounded h))
  poll-IsBounded again s h = by_test s.eof _ _ (λ _. bounded h) (λ _. bounded h)
  poll-IsBounded broken s h =
      by_test s.eof _ _ (λ _. bounded h)
        (λ _. by_test s.failed _ _ (λ _. bounded h) (λ _. bounded (omega arith)))
  poll-IsBounded (bytes input) s h =
      by_test s.eof _ _ (λ _. bounded h)
        (λ _. by_test s.failed _ _ (λ _. bounded h) (λ _. read_loop-IsBounded input s h))

  -- Whatever is received, a buffer of the unfinished record within 2048 bytes stays within them.
  pub length-poll :
      (input : Received) (s : RakProcess)
      → length s.pending ≤ 2048
      → length (poll d input s).1.pending ≤ 2048
  length-poll input s h = IsBounded-length (poll d input s) (poll-IsBounded input s h)
