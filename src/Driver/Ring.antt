-- ===== src/Driver/Ring.antt =====
-- The keyboard ring of driver/win0doom-display.c: the ring fields of the control extension, the
-- insertion loop of Win0DoomQueueKeyboardAtDpc, the loop of Win0DoomDrainKeyboard, and the reset
-- of an IRP_MJ_CREATE. Each body runs under the extension's spin lock, so it is one step.
-- The driver never looks into a KEYBOARD_INPUT_DATA: its type, and its size in bytes, are
-- parameters.
pub mod Holds
pub mod Queue
pub mod Drain
pub mod Session
use win0_doom.Shared.{
  ℕ, zero, suc, ◌+◌, ◌%◌, ◌^◌, List, [], ◌∷◌, ◌++◌, Option, none, some, ◌==◌, leb, not, ◌&&◌,
  if◌then◌else◌, get_elem?, set, Bool, true, false,
}

abbrev pub ring_size : ℕ
ring_size = 128

-- An index is a ULONG.
abbrev pub next_index : ℕ → ℕ
next_index i = (i + 1) % 2 ^ 32 % ring_size

pub record Ring {ℓ} (R : Type ℓ) : Type ℓ where
  pub slots : List R
  pub read_index : ℕ
  pub write_index : ℕ

-- The ring left, the records copied out in order, and the count of bytes written.
pub record Drained {ℓ} (R : Type ℓ) : Type ℓ where
  pub ring : Ring R
  pub output : List R
  pub written : ℕ

module _ {ℓ} {R : Type ℓ} where
  -- One round of the insertion loop. A full ring gives up its oldest record.
  pub insert_record : Ring R → R → Ring R
  insert_record r x =
      let next = next_index r.write_index in
      record {
        slots = set r.slots r.write_index x;
        read_index = if next == r.read_index then next_index r.read_index else r.read_index;
        write_index = next;
      }

  pub queue_records : Ring R → List R → Ring R
  queue_records r [] = r
  queue_records r (x ∷ xs) = queue_records (insert_record r x) xs

  -- Opening the control device forgets what the ring holds.
  pub discard_records : Ring R → Ring R
  discard_records r = record r { read_index = r.write_index }

  module _ (record_bytes capacity : ℕ) where
    -- The test of the loop. `written` is a ULONG, the sum a SIZE_T.
    pub may_copy : Ring R → ℕ → Bool
    may_copy r written =
        not (r.read_index == r.write_index) && leb (written + record_bytes) capacity

    -- `none` stands for a read outside the ring, or for rounds that run out.
    pub drain_loop : ℕ → Ring R → List R → ℕ → Option (Drained R)
    drain_loop zero r out written = none
    drain_loop (suc rounds) r out written = elim (may_copy r written) [
      | false ↦ some (record { ring = r; output = out; written = written })
      | true ↦ elim (get_elem? r.slots r.read_index) [
        | none ↦ none
        | some x ↦
            drain_loop rounds (record r { read_index = next_index r.read_index }) (out ++ x ∷ [])
              ((written + record_bytes) % 2 ^ 32)
      ]
    ]

    pub drain_keyboard : Ring R → Option (Drained R)
    unfolding drain_loop may_copy
    drain_keyboard r = drain_loop ring_size r [] 0
