-- ===== src/Ring.antt =====
-- The bounded queues of src/discovery_worker.cpp: an array `slots` with the index of the oldest
-- entry and the number of entries. `results`, `gaps` and `frames` are such queues.
pub mod Contents
use ovmesh_drpp.Base.{ℕ, zero, suc, ◌+◌, ◌-◌, ◌%◌, Bool, List, [], ◌∷◌, get_or, set, ◌==◌}

pub record Ring {ℓ} (A : Type ℓ) : Type ℓ where
  pub slots : List A
  pub head : ℕ
  pub count : ℕ

-- `capacity` is the length of the array, `empty` its initial value `{}`.
module _ {ℓ} {A : Type ℓ} (capacity : ℕ) (empty : A) where
  abbrev pub is_full : Ring A → Bool
  is_full r = r.count == capacity

  -- The index of an entry, counted from the oldest.
  abbrev pub slot : Ring A → ℕ → ℕ
  slot r i = (r.head + i) % capacity

  -- `slots[(head + count) % capacity] = x; ++count;`
  abbrev pub push : A → Ring A → Ring A
  push x r = record r { slots = set r.slots (slot r r.count) x; count = r.count + 1 }

  -- One round of a loop that takes all entries: the oldest entry, and the queue without it.
  abbrev pub pop : Ring A → A × Ring A
  pop r = (
    get_or r.slots r.head empty,
    record {
      slots = set r.slots r.head empty;
      head = (r.head + 1) % capacity;
      count = r.count - 1;
    },
  )

  -- That loop, with `left` entries to go.
  pub take_loop : ℕ → Ring A → List A × Ring A
  take_loop zero r = ([], r)
  take_loop (suc left) r = let rest = take_loop left (pop r).1 in ((pop r).0 ∷ rest.0, rest.1)

  pub take_all : Ring A → List A × Ring A
  take_all r = take_loop r.count r
