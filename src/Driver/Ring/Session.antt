-- ===== src/Driver/Ring/Session.antt =====
-- The ring over time: keyboard callbacks, opens of the control device and polls in any order.
-- Each holds the spin lock for the whole of its body, so an interleaving is a list of them.
use mathlib.Core.Option
use win0_doom.Shared.{
  ℕ, ◌*◌, ◌/◌, ◌^◌, ◌≤◌, length, ◌^◌, ◌<◌, ◌≡◌, refl, List, [], ◌∷◌, ◌++◌, Option, none, some, take,
  drop, last_n,
}
use win0_doom.Driver.Ring.{Ring, Drained, queue_records, discard_records, drain_keyboard}
use win0_doom.Driver.Ring.Holds.{IsValid, Holds, IsValid-Holds, discard_records-Holds}
use win0_doom.Driver.Ring.Queue.{queue_records-Holds}
use win0_doom.Driver.Ring.Drain.{drain_keyboard-take}

pub data Event {ℓ} (R : Type ℓ) : Type ℓ where
  typed : List R → Event R
  opened : Event R
  polled : ℕ → Event R

module _ {ℓ} {R : Type ℓ} (record_bytes : ℕ) where
  -- What each poll hands out. `none` stands for a fault of the drain.
  pub run_ring : Ring R → List (Event R) → Option (List (List R))
  run_ring r [] = some []
  run_ring r (typed xs ∷ es) = run_ring (queue_records r xs) es
  run_ring r (opened ∷ es) = run_ring (discard_records r) es
  run_ring r (polled c ∷ es) = elim (drain_keyboard record_bytes c r) [
    | none ↦ none
    | some d ↦ Option.map (λ later. d.output ∷ later) (run_ring d.ring es)
  ]

  -- The same, of a queue that keeps the last 127 records.
  unfoldable pub run_queue : List R → List (Event R) → List (List R)
  run_queue q [] = []
  run_queue q (typed xs ∷ es) = run_queue (last_n 127 (q ++ xs)) es
  run_queue q (opened ∷ es) = run_queue [] es
  run_queue q (polled c ∷ es) = take (c / record_bytes) q ∷ run_queue (drop (c / record_bytes) q) es

  -- The length of an output buffer is a ULONG.
  abbrev pub AreUlongs : List (Event R) → Type 0
  AreUlongs [] = Unit
  AreUlongs (typed xs ∷ es) = AreUlongs es
  AreUlongs (opened ∷ es) = AreUlongs es
  AreUlongs (polled c ∷ es) = (c < 2 ^ 32) × AreUlongs es

  -- One poll, given what the drain does and what the later events do.
  polled_round :
      (es : List (Event R)) (c : ℕ) (r : Ring R) (q : List R)
      → (d : Drained R) × (drain_keyboard record_bytes c r ≡ some d)
        × (d.output ≡ take (c / record_bytes) q)
        × Holds d.ring (drop (c / record_bytes) q)
        × (d.written ≡ length d.output * record_bytes)
        × (d.written ≤ c)
      → ((s : Ring R)
          → Holds s (drop (c / record_bytes) q)
          → run_ring s es ≡ some (run_queue (drop (c / record_bytes) q) es))
      → run_ring r (polled c ∷ es) ≡ some (run_queue q (polled c ∷ es))
  unfolding run_ring run_queue
  polled_round es c r q (d, runs, copies, leaves, counts, fits) later =
      rw (runs, run_ring, later d.ring leaves, copies)

  module _ (pos : 0 < record_bytes) where
    -- For every sequence of keyboard callbacks, opens and polls with ULONG buffer lengths, with
    -- records of at least one byte, a ring that holds q never faults, and its polls hand out what
    -- those of a queue of the last 127 records that starts as q do.
    pub run_ring_refines :
        (es : List (Event R)) {r : Ring R} (q : List R)
        → AreUlongs es
        → Holds r q
        → run_ring r es ≡ some (run_queue q es)
    unfolding run_ring run_queue
    run_ring_refines [] q u h = refl
    run_ring_refines (typed xs ∷ es) q u h =
        run_ring_refines es (last_n 127 (q ++ xs)) u (queue_records-Holds xs q h)
    run_ring_refines (opened ∷ es) q u h = run_ring_refines es [] u (discard_records-Holds h)
    run_ring_refines (polled c ∷ es) {r} q u h =
        polled_round es c r q (drain_keyboard-take record_bytes c u.0 {r = r} q pos h)
          (λ s h'. run_ring_refines es {r = s} (drop (c / record_bytes) q) u.1 h')

    -- Records queued just before the control device is opened reach no later poll, and neither does
    -- what a valid ring held before them: the polls hand out what those of an empty queue do.
    -- Buffer lengths are ULONGs, and records have at least one byte.
    pub opened_forgets :
        (xs : List R) (es : List (Event R)) {r : Ring R}
        → AreUlongs es
        → IsValid r
        → run_ring r (typed xs ∷ opened ∷ es) ≡ some (run_queue [] es)
    unfolding run_queue
    opened_forgets xs es u v =
        let (q, h) = IsValid-Holds v in run_ring_refines (typed xs ∷ opened ∷ es) q u h
