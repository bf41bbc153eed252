-- ===== src/Driver/Callback/Forward.antt =====
-- The keyboard filter is transparent to the class driver, and mirrors what passes into the ring.
use win0_doom.Shared.{
  ℕ, ◌-◌, ◌<◌, ◌≤◌, ◌^◌, ◌≡◌, refl, ap, List, [], ◌∷◌, ◌++◌, Option, none, some, arith, last_n,
  length, zero, suc, ◌+◌, get_elem?, dec_le, ◌%◌, ◌∙◌, append-nil, last_n_all,
}
use win0_doom.Driver.Ring.{queue_records}
use win0_doom.Driver.Ring.Holds.{Holds}
use win0_doom.Driver.Ring.Queue.{queue_records-Holds}
use win0_doom.Driver.Device.{Service, ControlExtension, FilterExtension, Call, class_service}
use win0_doom.Driver.Callback.{records_from, service_callback}

-- The calls of a class service routine among these, in order.
abbrev pub class_calls : List Call → List Call
class_calls [] = []
class_calls (class_service s d b e n ∷ cs) = class_service s d b e n ∷ class_calls cs
class_calls (_ ∷ cs) = class_calls cs

module _ {R : Type 0} (memory : ℕ → R) where
  length-records_from : (begin n : ℕ) → length (records_from memory begin n) ≡ n
  unfolding records_from
  length-records_from begin zero = refl
  length-records_from begin (suc n) = ap suc (length-records_from (begin + 1) n)

  -- The records that a callback names, one for each place from begin to end.
  pub records_from_lem :
      (begin n i : ℕ)
      → i < n
      → (length (records_from memory begin n) ≡ n)
        × (get_elem? (records_from memory begin n) i ≡ some (memory (begin + i)))
  unfolding records_from
  records_from_lem begin zero i h = absurd (omega arith)
  records_from_lem begin (suc n) zero h =
      (omega (arith, length-records_from (begin + 1) n), ap (λ k. some (memory k)) (omega arith))
  records_from_lem begin (suc n) (suc i) h =
      let (l, g) = records_from_lem (begin + 1) n i (omega arith) in
      (omega (arith, l), g ∙ ap (λ k. some (memory k)) (omega arith))

  -- Every callback of a connected filter calls the original class service exactly once, with the
  -- class device and the three arguments unchanged, whether or not there is a ring to fill and
  -- whatever it holds.
  pub service_callback_forwards :
      (global : Option (ControlExtension R)) (f : FilterExtension) (s : Service)
      (begin end consumed : ℕ)
      → f.upper.class_service ≡ some s
      → class_calls (service_callback memory global f begin end consumed).calls
        ≡ class_service s f.upper.class_device begin end consumed ∷ []
  unfolding service_callback
  service_callback_forwards none f s begin end consumed e = ground arith
  service_callback_forwards (some c) f s begin end consumed e = ground arith

  pub queued_global :
      (c : ControlExtension R) (f : FilterExtension) (begin end consumed : ℕ)
      → begin ≤ end
      → (service_callback memory (some c) f begin end consumed).global
        ≡ some (record c {
          keyboard = queue_records c.keyboard (records_from memory begin ((end - begin) % 2 ^ 32));
        })
  unfolding service_callback
  queued_global c f begin end consumed h = ground arith

  pub skipped_global :
      (c : ControlExtension R) (f : FilterExtension) (begin end consumed : ℕ)
      → end < begin
      → (service_callback memory (some c) f begin end consumed).global ≡ some c
  unfolding service_callback
  skipped_global c f begin end consumed h = ground arith

  held_all :
      (begin : ℕ) (c : ControlExtension R) (q : List R)
      → Holds c.keyboard q
      → Holds c.keyboard (last_n 127 (q ++ records_from memory begin 0))
  unfolding records_from
  held_all begin c q h = rw (append-nil, last_n_all 127 q (omega (arith, h.fits))) h

  -- A callback with begin ≤ end and fewer than 2 ^ 32 records appends to the ring the records in
  -- memory from begin to end, keeping the last 127; one with end < begin leaves the ring.
  pub service_callback_mirrors :
      (c : ControlExtension R) (f : FilterExtension) {q : List R} (begin end consumed : ℕ)
      → Holds c.keyboard q
      → end < begin + 2 ^ 32
      → (c' : ControlExtension R) × ((service_callback memory (some c) f begin end consumed).global
          ≡ some c')
        × (c'.frame_buffer ≡ c.frame_buffer)
        × Holds c'.keyboard (last_n 127 (q ++ records_from memory begin (end - begin)))
  service_callback_mirrors c f {q} begin end consumed h small = elim (dec_le begin end) [
    | yes forward ↦
        let count : (end - begin) % 2 ^ 32 ≡ end - begin = omega arith in
        let records = records_from memory begin (end - begin) in
        (
          record c { keyboard = queue_records c.keyboard records },
          queued_global c f begin end consumed forward
              ∙ ap
                  (λ n. some (record c {
                    keyboard = queue_records c.keyboard (records_from memory begin n);
                  }))
                  count,
          refl,
          queue_records-Holds records q h,
        )
    | no backward ↦
        let empty : end - begin ≡ 0 = omega arith in
        (
          c,
          skipped_global c f begin end consumed (omega arith),
          refl,
          rw empty (held_all begin c q h),
        )
  ]
