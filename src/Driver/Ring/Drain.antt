-- ===== src/Driver/Ring/Drain.antt =====
-- Win0DoomDrainKeyboard hands out the oldest records, as many whole ones as the buffer takes.
use win0_doom.Shared.{
  ℕ, zero, suc, ◌+◌, ◌*◌, ◌/◌, ◌%◌, ◌^◌, ◌<◌, ◌≤◌, ◌≡◌, ap, ◌∙◌, List, [], ◌∷◌, ◌++◌, true, false,
  some, arith, length, take, drop, take-nil, drop-nil, append-nil, append_assoc,
}
use win0_doom.Driver.Ring.{
  Ring, ring_size, next_index, may_copy, Drained, drain_loop, drain_keyboard,
}
use win0_doom.Driver.Ring.Holds.{IsValid, Holds, Holds-IsValid, IsValid-Holds}

-- Reading the oldest record leaves the others.
Holds-tail {ℓ} :
    {R : Type ℓ} {r : Ring R} (x : R) (q : List R)
    → Holds r (x ∷ q)
    → Holds (record r { read_index = next_index r.read_index }) q
Holds-tail {r} x q h = record {
  sized = h.sized;
  read_in = omega arith;
  write_at = omega (arith, h.write_at, h.read_in);
  fits = omega (arith, h.fits);
  window =
      let moves : next_index r.read_index ≡ (r.read_index + 1) % ring_size =
        omega (arith, h.read_in) in
      rw moves h.window.1;
}

module _ {ℓ} {R : Type ℓ} (record_bytes capacity : ℕ) (is_ulong : capacity < 2 ^ 32) where
  stops_empty :
      {r : Ring R} (written : ℕ) → Holds r [] → may_copy record_bytes capacity r written ≡ false
  unfolding may_copy
  stops_empty written h = ground (arith, h.write_at)

  stops_full :
      (r : Ring R) (written : ℕ)
      → capacity < written + record_bytes
      → may_copy record_bytes capacity r written ≡ false
  unfolding may_copy
  stops_full r written high = ground arith

  goes_on :
      {r : Ring R} (written : ℕ) (x : R) (q : List R)
      → Holds r (x ∷ q)
      → written + record_bytes ≤ capacity
      → may_copy record_bytes capacity r written ≡ true
  unfolding may_copy
  goes_on written x q h low = ground (arith, h.write_at)

  -- One round of the loop, where a record is held and fits.
  drain_round :
      (rounds : ℕ) {r : Ring R} (out : List R) (written : ℕ) (x : R) (q : List R)
      → Holds r (x ∷ q)
      → written + record_bytes ≤ capacity
      → drain_loop record_bytes capacity (suc rounds) r out written
        ≡ drain_loop record_bytes capacity rounds
            (record r { read_index = next_index r.read_index })
            (out ++ x ∷ [])
            (written + record_bytes)
  unfolding drain_loop
  drain_round rounds {r} out written x q h low =
      let go : may_copy record_bytes capacity r written ≡ true = goes_on written x q h low in
      let sum : (written + record_bytes) % 2 ^ 32 ≡ written + record_bytes = omega arith in
      rw (go, drain_loop, h.window.0, sum)

  -- What the loop gives, started with the records `q` in the ring, where `k` more would fit.
  record Copied (q out : List R) (written k : ℕ) (d : Drained R) : Type ℓ where
    copies : d.output ≡ out ++ take k q
    leaves : Holds d.ring (drop k q)
    counts : d.written ≡ written + length (take k q) * record_bytes
    within : d.written ≤ capacity

  drain_loop-Copied :
      (rounds k : ℕ) (q : List R) {r : Ring R} (out : List R) (written : ℕ)
      → Holds r q
      → length q < rounds
      → written + k * record_bytes ≤ capacity
      → capacity < written + suc k * record_bytes
      → (d : Drained R) × (drain_loop record_bytes capacity rounds r out written ≡ some d)
        × Copied q out written k d
  unfolding drain_loop
  drain_loop-Copied zero k q out written h enough low high = absurd (omega arith)
  drain_loop-Copied (suc rounds) k [] {r} out written h enough low high =
      let stop : may_copy record_bytes capacity r written ≡ false = stops_empty written h in
      (
        record { ring = r; output = out; written = written },
        rw (stop, drain_loop),
        record {
          copies = rw (take-nil, append-nil);
          leaves = rw drop-nil h;
          counts = rw take-nil (omega arith);
          within = omega arith;
        },
      )
  drain_loop-Copied (suc rounds) zero (x ∷ q) {r} out written h enough low high =
      let stop : may_copy record_bytes capacity r written ≡ false =
        stops_full r written (omega arith) in
      (
        record { ring = r; output = out; written = written },
        rw (stop, drain_loop),
        record { copies = rw append-nil; leaves = h; counts = omega arith; within = omega arith },
      )
  drain_loop-Copied (suc rounds) (suc k) (x ∷ q) {r} out written h enough low high =
      let (d, runs, done) =
        drain_loop-Copied rounds k q {r = record r { read_index = next_index r.read_index }}
          (out ++ x ∷ []) (written + record_bytes) (Holds-tail x q h) (omega arith) (omega arith)
          (omega arith) in
      (
        d,
        drain_round rounds out written x q h (omega arith) ∙ runs,
        record {
          copies = done.copies ∙ append_assoc out (x ∷ []) (take k q);
          leaves = done.leaves;
          counts = omega (arith, done.counts);
          within = done.within;
        },
      )

  -- For a buffer of a ULONG length and records of at least one byte, the drain of a ring that holds
  -- q never reads outside the ring and ends within its 128 rounds. It copies out, oldest first, as
  -- many whole records as the buffer takes, leaves the rest in the ring in order, and reports the
  -- size of what it copied, which fits the buffer.
  pub drain_keyboard-take :
      {r : Ring R} (q : List R)
      → 0 < record_bytes
      → Holds r q
      → (d : Drained R) × (drain_keyboard record_bytes capacity r ≡ some d)
        × (d.output ≡ take (capacity / record_bytes) q)
        × Holds d.ring (drop (capacity / record_bytes) q)
        × (d.written ≡ length d.output * record_bytes)
        × (d.written ≤ capacity)
  unfolding drain_keyboard
  drain_keyboard-take {r} q pos h =
      let k : ℕ = capacity / record_bytes in
      let (d, runs, done) =
        drain_loop-Copied ring_size k q {r = r} [] 0 h h.fits (omega arith) (omega arith) in
      (
        d,
        runs,
        done.copies,
        done.leaves,
        omega (arith, done.counts, ap (λ xs. length xs * record_bytes) done.copies),
        done.within,
      )

  pub drain_keyboard-IsValid :
      {r : Ring R}
      → 0 < record_bytes
      → IsValid r
      → (d : Drained R) × (drain_keyboard record_bytes capacity r ≡ some d) × IsValid d.ring
  drain_keyboard-IsValid {r} pos v =
      let (q, h) = IsValid-Holds v in
      let (d, runs, copies, leaves, counts, fits) = drain_keyboard-take {r = r} q pos h in
      (d, runs, Holds-IsValid leaves)
