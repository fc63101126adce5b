-- ===== src/Rak/Poll/Chunks.antt =====
-- How the reads of src/rak_process.cpp cut the stream of bytes makes no difference.
use ovmesh_drpp.Base.{
  Bool, true, false, List, [], ◌∷◌, ◌++◌, Bytes, ◌==◌, if◌then◌else◌, ◌≡◌, refl, sym, ap, inl, inr,
  Bool-cases,
}
use ovmesh_drpp.Floats.{Doubles}
use ovmesh_drpp.Rak.{RakMessage, Refusal, malformed, Parsed, parsed, refused, parse_rak_message}
use ovmesh_drpp.Rak.Poll.{
  RakProcess, bytes, Reason, Report, message, error, rejected, terminal, received, refused_byte,
  read_loop, poll_open, poll,
}

module _ {F : Type 0} (d : Doubles F) where
  -- One read after another.
  pub then_poll :
      List (Report F) × RakProcess
      → (RakProcess → List (Report F) × RakProcess)
      → List (Report F) × RakProcess
  then_poll (reports, s) next = (reports ++ (next s).0, (next s).1)

  abbrev Polled : Type 0
  Polled = List (Report F) × RakProcess

  by_test :
      (next : RakProcess → Polled) (t : Bool) (x y x' y' : Polled)
      → (t ≡ true → x ≡ then_poll x' next)
      → (t ≡ false → y ≡ then_poll y' next)
      → (if t then x else y) ≡ then_poll (if t then x' else y') next
  by_test next true x y x' y' first second = first refl
  by_test next false x y x' y' first second = second refl

  by_record :
      (next : RakProcess → Polled) (p : Parsed F) (take take' : RakMessage F → Polled)
      (refuse : Refusal → Polled)
      → ((m : RakMessage F) → take m ≡ then_poll (take' m) next)
      → ((r : Refusal) → refuse r ≡ then_poll (refuse r) next)
      → (elim p [ parsed m ↦ take m | refused r ↦ refuse r ])
        ≡ then_poll (elim p [ parsed m ↦ take' m | refused r ↦ refuse r ]) next
  by_record next (parsed m) take take' refuse first second = first m
  by_record next (refused r) take take' refuse first second = second r

  poll_closed : (b : Bytes) (s : RakProcess) → s.eof ≡ true → poll d (bytes b) s ≡ ([], s)
  unfolding poll
  poll_closed b s e = ap (λ t. if t then ([], s) else poll_open d (bytes b) s) e

  -- A failed stream gives nothing more.
  poll_failed : (b : Bytes) (s : RakProcess) → s.failed ≡ true → poll d (bytes b) s ≡ ([], s)
  unfolding poll poll_open
  poll_failed b s t = elim (Bool-cases s.eof) [ inl e ↦ rw e refl | inr e ↦ rw e (rw t refl) ]

  poll_live :
      (b : Bytes) (s : RakProcess)
      → s.failed ≡ false
      → s.eof ≡ false
      → poll d (bytes b) s ≡ read_loop d b s
  unfolding poll poll_open
  poll_live b s f e = rw e (rw f refl)

  stops :
      (r : Reason) (b : Bytes) (s : RakProcess)
      → (error r ∷ [], terminal s) ≡ then_poll (error r ∷ [], terminal s) (poll d (bytes b))
  unfolding then_poll
  stops r b s = ap (λ (n, t). (error r ∷ n, t)) (sym (poll_failed b (terminal s) refl))

  read_loop-append :
      (a b : Bytes) (s : RakProcess)
      → s.failed ≡ false
      → s.eof ≡ false
      → read_loop d (a ++ b) s ≡ then_poll (read_loop d a s) (poll d (bytes b))
  unfolding read_loop then_poll
  read_loop-append [] b s f e = sym (poll_live b s f e)
  read_loop-append (c ∷ a) b s f e =
      by_test (poll d (bytes b)) s.saw_end _ _ _ _ (λ _. stops (rejected malformed) b s)
        (λ _.
          by_test (poll d (bytes b)) (c == 10) _ _ _ _
            (λ _.
              by_record (poll d (bytes b)) (parse_rak_message d s.pending)
                (λ m.
                  let rest = read_loop d (a ++ b) (received m s) in (message m ∷ rest.0, rest.1))
                (λ m. let rest = read_loop d a (received m s) in (message m ∷ rest.0, rest.1))
                (λ r. (error (rejected r) ∷ [], terminal s))
                (λ m. ap (λ (r, t). (message m ∷ r, t)) (read_loop-append a b (received m s) f e))
                (λ r. stops (rejected r) b s))
            (λ _.
              by_test (poll d (bytes b)) (refused_byte s c) _ _ _ _
                (λ _. stops (rejected malformed) b s)
                (λ _. read_loop-append a b (record s { pending = s.pending ++ c ∷ [] }) f e)))

  -- The bytes of two reads give the same reports and the same state as one read of all of them.
  pub poll-append :
      (a b : Bytes) (s : RakProcess)
      → poll d (bytes (a ++ b)) s ≡ then_poll (poll d (bytes a) s) (poll d (bytes b))
  unfolding then_poll
  poll-append a b s = elim (Bool-cases s.eof) [
    | inl e ↦ rw (poll_closed (a ++ b) s e, poll_closed a s e) (rw (poll_closed b s e) refl)
    | inr e ↦ elim (Bool-cases s.failed) [
      | inl t ↦ rw (poll_failed (a ++ b) s t, poll_failed a s t) (rw (poll_failed b s t) refl)
      | inr f ↦ rw (poll_live (a ++ b) s f e, poll_live a s f e) (read_loop-append a b s f e)
    ]
  ]
