-- ===== src/Driver/Ring/Queue.antt =====
-- Win0DoomQueueKeyboardAtDpc against a queue of the last 127 records.
use win0_doom.Shared.{
  List, [], ◌∷◌, ◌++◌, arith, append-nil, append_assoc, last_n, last_n_all, last_n_append,
}
use win0_doom.Driver.Ring.{Ring, queue_records}
use win0_doom.Driver.Ring.Holds.{Holds, insert_record-Holds}

module _ {ℓ} {R : Type ℓ} where
  -- A ring that holds the records q, oldest first, holds after the insertion of the records xs the
  -- last 127 of q followed by xs, in order: the oldest are given up first.
  pub queue_records-Holds :
      (xs : List R) {r : Ring R} (q : List R)
      → Holds r q
      → Holds (queue_records r xs) (last_n 127 (q ++ xs))
  unfolding queue_records
  queue_records-Holds [] q h = rw (append-nil, last_n_all 127 q (omega (arith, h.fits))) h
  queue_records-Holds (x ∷ xs) q h =
      rw (← append_assoc q (x ∷ []) xs, ← last_n_append 127 (q ++ x ∷ []) xs)
        (queue_records-Holds xs (last_n 127 (q ++ x ∷ [])) (insert_record-Holds q x h))
