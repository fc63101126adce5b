-- ===== src/Discovery/Submit.antt =====
-- Submission of samples to the discovery worker: what stays well formed, and what the source queue
-- holds.
use ovmesh_drpp.Base.{
  ℕ, ◌+◌, ◌-◌, ◌%◌, ◌<◌, max, Bool, true, false, ◌&&◌, ◌||◌, List, [], ◌∷◌, ◌++◌, length, set,
  if◌then◌else◌, ◌==◌, ltb, leb, Bool-cases, ◌≡◌, refl, sym, ap, ◌∙◌, inl, inr, arith, subst,
}
use ovmesh_drpp.Ring.{Ring, push}
use ovmesh_drpp.Ring.Contents.{IsRing, contents, contents-push, push-IsRing, take_all-contents}
use ovmesh_drpp.Discovery.{
  GapReason, invalid_sample_coordinate, invalid_input_order, input_too_large, processing_failure,
  SourceBlock, Impl, gap_capacity, no_gap, source_capacity, maximum_coordinate, maximum_input_block,
  gap_locked, reject, add, store, submit_ordered, note_block, submit, take_gaps,
}
use ovmesh_drpp.Discovery.Gaps.{log_gap-Logged}

if_cases :
    {X : Type 0} (P : X → Type 0) (b : Bool) {x y : X}
    → (b ≡ true → P x)
    → (b ≡ false → P y)
    → P (if b then x else y)
if_cases P true p q = p refl
if_cases P false p q = q refl

module _ {S : Type 0} where
  -- `SourceBlock{}`
  abbrev pub no_block : SourceBlock S
  no_block = record { values = []; first = 0 }

  -- The queue of source blocks, which also keeps the index behind its last entry.
  abbrev pub queue : Impl S → Ring (SourceBlock S)
  queue s = record { slots = s.sources; head = s.source_head; count = s.source_count }

  abbrev pub pending : Impl S → List (SourceBlock S)
  pending s = contents source_capacity no_block (queue s)

  pub record WellFormed (s : Impl S) : Type 0 where
    pub log : IsRing gap_capacity no_gap s.gaps
    pub blocks : IsRing source_capacity no_block (queue s)
    pub tail : s.source_tail ≡ (s.source_head + s.source_count) % source_capacity

  -- A change of the log and the counters only.
  abbrev SameQueue : Impl S → Impl S → Type 0
  SameQueue s t =
      (queue t ≡ queue s) × (t.source_tail ≡ s.source_tail) × IsRing gap_capacity no_gap t.gaps

  SameQueue-WellFormed : (s t : Impl S) → WellFormed s → SameQueue s t → WellFormed t
  SameQueue-WellFormed s t w (q, b, g) = record {
    log = g;
    blocks = subst (IsRing source_capacity no_block) (sym q) w.blocks;
    tail =
        b
        ∙ w.tail
        ∙ ap (λ (r : Ring (SourceBlock S)). (r.head + r.count) % source_capacity) (sym q);
  }

  gap_locked-SameQueue :
      (first end : ℕ) (reason : GapReason) (subband : ℕ) (loss : Bool) (s : Impl S)
      → IsRing gap_capacity no_gap s.gaps
      → SameQueue s (gap_locked first end reason subband loss s)
  unfolding gap_locked
  gap_locked-SameQueue first end reason subband loss s h = elim (Bool-cases (leb end first)) [
    | inl t ↦ rw t (refl, refl, h)
    | inr f ↦ rw f (refl, refl, (log_gap-Logged _ s.gaps h).0)
  ]

  reject-SameQueue :
      (first end : ℕ) (reason : GapReason) (s : Impl S)
      → IsRing gap_capacity no_gap s.gaps
      → SameQueue s (reject first end reason s).1
  unfolding reject
  reject-SameQueue first end reason s h = gap_locked-SameQueue first end reason _ _ _ h

  reject-WellFormed :
      (first end : ℕ) (reason : GapReason) (s : Impl S)
      → WellFormed s
      → WellFormed (reject first end reason s).1
  reject-WellFormed first end reason s w =
      SameQueue-WellFormed s _ w (reject-SameQueue first end reason s w.log)

  -- The state behind an operation that returns a truth value is well formed.
  record Kept (out : Bool × Impl S) : Type 0 where
    state : WellFormed out.1

  reject-Kept :
      (first end : ℕ) (reason : GapReason) (s : Impl S)
      → WellFormed s
      → Kept (reject first end reason s)
  reject-Kept first end reason s w = record { state = reject-WellFormed first end reason s w }

  note_block-WellFormed :
      (input : List S) (first : ℕ) (s : Impl S)
      → WellFormed s
      → WellFormed (note_block input first s)
  unfolding note_block
  note_block-WellFormed input first s w = noted _ (
      if_cases WellFormed (s.submitted_before && ltb s.expected_submission first)
        (λ t.
          SameQueue-WellFormed s _ w
            (gap_locked-SameQueue s.expected_submission first _ _ _ s w.log))
        (λ f. w))
    where
      noted :
          (t : Impl S)
          → WellFormed t
          → WellFormed
              (record t { submitted_before = true; expected_submission = first + length input })
      noted t v = record { log = v.log; blocks = v.blocks; tail = v.tail }

  -- `store` on a well-formed state.
  abbrev pub Stored : List S → ℕ → Impl S → Bool × Impl S → Type 0
  Stored input first s out =
      WellFormed out.1
      × (pending out.1 ≡ (
          if out.0 then pending s ++ record { values = input; first = first } ∷ [] else pending s))

  refused_block :
      (input : List S) (first : ℕ) (s : Impl S) (t : Impl S)
      → WellFormed s
      → SameQueue s t
      → Stored input first s (false, t)
  refused_block input first s t w q =
      (SameQueue-WellFormed s t w q, ap (contents source_capacity no_block) q.0)

  -- The locked part of `submit` keeps a well-formed state well formed, and the queue then holds the
  -- blocks that it held, with the submitted one behind them exactly if the result is true.
  pub store-Stored :
      (input : List S) (first : ℕ) (s : Impl S)
      → WellFormed s
      → Stored input first s (store input first s)
  unfolding store reject
  store-Stored input first s w =
      if_cases (Stored input first s) s.closed
        (λ c. refused_block input first s _ w (refl, refl, w.log))
        (λ c.
          if_cases (Stored input first s) s.failed
            (λ f. refused_block input first s _ w (reject-SameQueue first _ _ s w.log))
            (λ f.
              if_cases (Stored input first s) (s.source_count == source_capacity)
                (λ e. refused_block input first s _ w (reject-SameQueue first _ _ s w.log))
                (λ e. accepted (ground (arith, w.blocks.bounded)))))
    where
      block : SourceBlock S
      block = record { values = input; first = first }

      next_tail :
          (s.source_tail + 1) % source_capacity
          ≡ (s.source_head + (s.source_count + 1)) % source_capacity
      next_tail = omega (arith, w.tail)

      stored : Impl S → Bool × Impl S
      stored t = (
        true,
        record t {
          sources = set t.sources t.source_tail block;
          source_tail = (t.source_tail + 1) % source_capacity;
          source_count = t.source_count + 1;
          view = record t.view {
            accepted_input_samples = add t.view.accepted_input_samples (length input);
            source_queue_high_water = max t.view.source_queue_high_water (t.source_count + 1);
          };
        },
      )

      pushed : queue (stored s).1 ≡ push source_capacity no_block block (queue s)
      pushed =
          ap
            (λ t. record {
              slots = set s.sources t block;
              head = s.source_head;
              count = s.source_count + 1;
            })
            w.tail

      accepted : s.source_count < source_capacity → Stored input first s (stored s)
      accepted room = (
        record {
          log = w.log;
          blocks =
              subst (IsRing source_capacity no_block) (sym pushed)
                (push-IsRing source_capacity no_block block (queue s) w.blocks room);
          tail = next_tail;
        },
        ap (contents source_capacity no_block) pushed
            ∙ contents-push source_capacity no_block block (queue s) w.blocks room,
      )

  -- Submission keeps a well-formed state well formed, if whatever the other threads do meanwhile
  -- does.
  pub submit-WellFormed :
      (others : Impl S → Impl S) (input : List S) (first : ℕ) (s : Impl S)
      → ((t : Impl S) → WellFormed t → WellFormed (others t))
      → WellFormed s
      → WellFormed (submit others input first s).1
  unfolding submit submit_ordered
  submit-WellFormed others input first s h w =
      let n = note_block-WellFormed input first s w in
      (if_cases Kept s.closed
        (λ c. record { state = SameQueue-WellFormed s _ w (refl, refl, w.log) })
        (λ c.
          if_cases Kept
            (ltb maximum_coordinate (length input) || ltb (maximum_coordinate - length input) first)
            (λ e. reject-Kept first first invalid_sample_coordinate s w)
            (λ e.
              if_cases Kept (length input == 0) (λ z. record { state = w })
                (λ z.
                  if_cases Kept (s.submitted_before && ltb first s.expected_submission)
                    (λ o. reject-Kept first (first + length input) invalid_input_order s w)
                    (λ o.
                      if_cases Kept (ltb maximum_input_block (length input))
                        (λ l. reject-Kept first (first + length input) input_too_large noted n)
                        (λ l.
                          if_cases Kept noted.failed
                            (λ f.
                              reject-Kept first (first + length input) processing_failure noted n)
                            (λ f. record {
                              state = (store-Stored input first (others noted) (h noted n)).0;
                            }))))))).state
    where
      noted : Impl S
      noted = note_block input first s

  -- What another thread does with the log while `submit` waits.
  pub take_gaps-WellFormed : (s : Impl S) → WellFormed s → WellFormed (take_gaps s).1
  unfolding take_gaps
  take_gaps-WellFormed s w =
      let (same, ring, none_left) = take_all-contents gap_capacity no_gap s.gaps w.log in
      record { log = ring; blocks = w.blocks; tail = w.tail }
