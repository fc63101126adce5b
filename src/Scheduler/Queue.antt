-- ===== src/Scheduler/Queue.antt =====
-- The pending entries of a detector queue of src/discovery_worker.cpp as a list, and what the
-- removal of one of them by `consume` leaves.
use ovmesh_drpp.Base.{
  ℕ, zero, suc, ◌+◌, ◌-◌, ◌%◌, ◌<◌, List, [], ◌∷◌, ◌++◌, append_assoc, append-nil, get_or, set,
  length, length-set, get_or-set_self, ◌≡◌, refl, sym, ap, ap₂, ◌∙◌, Bool-cases, ◌==◌, inl, inr,
  arith,
}
use ovmesh_drpp.Ring.Contents.{
  IsRing, items, contents, slot-bound, items-set, items-set_before, items-append, items-suc,
  items-pop,
}
use ovmesh_drpp.Scheduler.{Worker, detector_queue_capacity}
use ovmesh_drpp.Scheduler.Consume.{shift_loop, remove_pending}

abbrev pub entries : List ℕ → (head n i : ℕ) → List ℕ
entries slots head n i = items detector_queue_capacity 0 slots head n i

shift_loop-entries :
    (slots : List ℕ) (head left pending : ℕ)
    → length slots ≡ 16
    → head < 16
    → pending + left < 16
    → entries (shift_loop head left pending slots) head (pending + left) 0
      ≡ entries slots head pending 0 ++ entries slots head left (suc pending)
unfolding shift_loop
shift_loop-entries slots head zero pending size h room =
    ap (λ k. entries slots head k 0) {y = pending} (omega arith)
    ∙ sym (append-nil (entries slots head pending 0))
shift_loop-entries slots head (suc left) pending size h room =
    let next = get_or slots ((head + pending + 1) % 16) 0 in
    let moved = set slots ((head + pending) % 16) next in
    let inside : (head + pending) % 16 < length slots =
      rw size (slot-bound {A = ℕ} 16 0 head pending h) in
    let here : get_or moved ((head + (0 + pending)) % 16) 0
        ≡ get_or slots ((head + suc pending) % 16) 0 =
      ap (λ k. get_or moved (k % 16) 0) (omega arith)
      ∙ get_or-set_self slots ((head + pending) % 16) next 0 inside
      ∙ ap (λ k. get_or slots (k % 16) 0) (omega arith) in
    let front : entries moved head (suc pending) 0
        ≡ entries slots head pending 0 ++ get_or slots ((head + suc pending) % 16) 0 ∷ [] =
      items-suc 16 0 moved head pending 0
      ∙ ap₂ (λ l a. l ++ a ∷ [])
          (items-set 16 0 slots next head pending pending 0 h (omega arith) (omega arith)) here in
    ap (λ k. entries (shift_loop head left (suc pending) moved) head k 0) {y = suc pending + left}
      (omega arith)
    ∙ shift_loop-entries moved head left (suc pending) (length-set slots _ next ∙ size) h
        (omega arith)
    ∙ ap₂ ◌++◌ front (
        items-set_before 16 0 slots next head pending left (suc (suc pending)) h (omega arith)
          (omega arith))
    ∙ append_assoc (entries slots head pending 0) _ _

length-shift_loop :
    (head left pending : ℕ) (slots : List ℕ)
    → length (shift_loop head left pending slots) ≡ length slots
unfolding shift_loop
length-shift_loop head zero pending slots = refl
length-shift_loop head (suc left) pending slots =
    length-shift_loop head left (suc pending) _ ∙ length-set slots ((head + pending) % 16) _

-- The queue of a worker, whose `tail` is the place behind the youngest entry.
pub record IsQueue {S : Type 0} (w : Worker S) : Type 0 where
  pub ring : IsRing 16 0 w.ready
  pub tail : w.tail ≡ (w.ready.head + w.ready.count) % 16

abbrev pub pending_slots : {S : Type 0} → Worker S → List ℕ
pending_slots w = contents 16 0 w.ready

module _ {S : Type 0} (w : Worker S) where
  -- The entries in front of an offset, the one there, and those behind it.
  abbrev pub front : (offset : ℕ) → List ℕ
  front offset = entries w.ready.slots w.ready.head offset 0

  abbrev pub entry : (offset : ℕ) → ℕ
  entry offset = get_or w.ready.slots ((w.ready.head + offset) % 16) 0

  abbrev pub back : (offset : ℕ) → List ℕ
  back offset = entries w.ready.slots w.ready.head (w.ready.count - 1 - offset) (suc offset)

  pub pending_parts :
      (offset : ℕ)
      → offset < w.ready.count
      → pending_slots w ≡ front offset ++ entry offset ∷ back offset
  pending_parts offset h =
      let rest = w.ready.count - 1 - offset in
      ap (λ k. entries w.ready.slots w.ready.head k 0) {y = offset + suc rest} (omega arith)
      ∙ items-append 16 0 w.ready.slots w.ready.head offset (suc rest) 0
      ∙ ap (λ j. front offset ++ entries w.ready.slots w.ready.head (suc rest) j) {y = offset}
          (omega arith)

  removed_first :
      IsQueue w
      → 0 < w.ready.count
      → entries (set w.ready.slots w.ready.head 0) ((w.ready.head + 1) % 16) (w.ready.count - 1) 0
        ≡ front 0 ++ back 0
  removed_first q h =
      items-pop 16 0 w.ready.slots w.ready.head (w.ready.count - 1) 0 q.ring.inside
        (omega (arith, q.ring.bounded))
      ∙ ap (λ k. entries w.ready.slots w.ready.head k 1) (omega arith)

  removed_later :
      (offset : ℕ)
      → IsQueue w
      → offset < w.ready.count
      → entries
          (set
            (shift_loop w.ready.head (w.ready.count - 1 - offset) offset w.ready.slots)
            ((w.tail + 16 - 1) % 16)
            0)
          w.ready.head
          (w.ready.count - 1)
          0
        ≡ front offset ++ back offset
  removed_later offset q h =
      let head = w.ready.head in
      let left = w.ready.count - 1 - offset in
      let shifted = shift_loop head left offset w.ready.slots in
      let last : (w.tail + 16 - 1) % 16 ≡ (head + (w.ready.count - 1)) % 16 =
        omega (arith, q.tail) in
      ap (λ k. entries (set shifted k 0) head (w.ready.count - 1) 0) last
      ∙ items-set 16 0 shifted 0 head (w.ready.count - 1) (w.ready.count - 1) 0 q.ring.inside
          (omega (arith, q.ring.bounded)) (omega arith)
      ∙ ap (λ k. entries shifted head k 0) {y = offset + left} (omega arith)
      ∙ shift_loop-entries w.ready.slots head left offset q.ring.size q.ring.inside
          (omega (arith, q.ring.bounded))

  -- The entries that a removal leaves are those in front of it and those behind it, in their order.
  pub pending_removed :
      (offset : ℕ)
      → IsQueue w
      → offset < w.ready.count
      → pending_slots (remove_pending offset w) ≡ front offset ++ back offset
  unfolding remove_pending
  pending_removed offset q h = elim (Bool-cases (offset == 0)) [
    | inl e ↦ rw e (
        removed_first q (omega arith)
        ∙ ap (λ k. front k ++ back k) {x = 0} {y = offset} (ground arith))
    | inr e ↦ rw e (removed_later offset q h)
  ]

  -- The queue is well formed afterwards.
  pub removed-IsQueue :
      (offset : ℕ) → IsQueue w → offset < w.ready.count → IsQueue (remove_pending offset w)
  unfolding remove_pending
  removed-IsQueue offset q h = elim (Bool-cases (offset == 0)) [
    | inl e ↦ rw e (record {
      ring = record {
        size = length-set w.ready.slots _ 0 ∙ q.ring.size;
        inside = slot-bound {A = ℕ} 16 0 w.ready.head 1 q.ring.inside;
        bounded = omega (arith, q.ring.bounded);
      };
      tail = omega (arith, q.tail);
    })
    | inr e ↦ rw e (record {
      ring = record {
        size =
            length-set (shift_loop w.ready.head (w.ready.count - 1 - offset) offset w.ready.slots) _
              0
            ∙ length-shift_loop w.ready.head (w.ready.count - 1 - offset) offset w.ready.slots
            ∙ q.ring.size;
        inside = q.ring.inside;
        bounded = omega (arith, q.ring.bounded);
      };
      tail = omega (arith, q.tail);
    })
  ]
