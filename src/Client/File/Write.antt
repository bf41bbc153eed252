-- ===== src/Client/File/Write.antt =====
-- What native_write does to the position and the recorded length of an open file.
use win0_doom.Shared.{
  ℕ, ◌^◌, ◌<◌, ◌≡◌, refl, some, true, false, List, arith, ◌⊎◌, inl, inr, Bool-cases, if◌then◌else◌,
  ltb,
}
use win0_doom.Shared.Int.{ℤ, pos, negsuc, ◌+ℤ◌, ◌≤ℤ◌, ltb_ℤ}
use win0_doom.Client.File.{File, NtWrite, to_longlong, failed, native_write}
use win0_doom.Client.File.Position.{IsPlace, to_longlong_place}

-- What a position becomes: the sum, where it is a place.
moves :
    (p : ℤ) → (IsPlace p × (to_longlong p ≡ p)) ⊎ ((¬ IsPlace p) × (to_longlong p ≡ to_longlong p))
moves (negsuc n) = inr (λ h. omega arith, refl)
moves (pos n) = elim (Bool-cases (ltb n (2 ^ 63))) [
  | inl below ↦
      let place : IsPlace (pos n) = (omega arith, ground (arith, below)) in
      inl (place, to_longlong_place (pos n) place)
  | inr beyond ↦ inr (λ h. ground (arith, beyond), refl)
]

-- The file after a write of `n` bytes.
extended : File → ℕ → File
extended f n =
    let position = to_longlong (f.position +ℤ pos n) in
    record f {
      position = position;
      length = if ltb_ℤ f.length position then position else f.length;
    }

-- A write of a positive count either fails, returns 0 and changes nothing, or moves the position by
-- the bytes written, wrapped to a LONGLONG where the sum is not from 0 to 2 ^ 63 - 1, and the
-- recorded length to the greater of itself and the new position.
pub native_write_extends :
    (nt_write : NtWrite) (f : File) (buffer : List ℕ) (count : ℕ)
    → 0 < count
    → let io = nt_write f.handle buffer count f.position in
      let written = native_write nt_write (some f) buffer (pos count) in
      ((failed io.status ≡ true) × (written.value ≡ pos 0) × (written.file ≡ some f))
      ⊎ ((failed io.status ≡ false)
          × (f' : File) × (written.file ≡ some f')
          × (((IsPlace (f.position +ℤ pos io.information))
                × (f'.position ≡ f.position +ℤ pos io.information))
              ⊎ ((¬ IsPlace (f.position +ℤ pos io.information))
                  × (f'.position ≡ to_longlong (f.position +ℤ pos io.information))))
          × (f'.position ≤ℤ f'.length)
          × (f.length ≤ℤ f'.length)
          × ((f'.length ≡ f.length) ⊎ (f'.length ≡ f'.position)))
unfolding native_write extended
native_write_extends nt_write f buffer count h =
    elim (Bool-cases (failed (nt_write f.handle buffer count f.position).status)) [
      | inl bad ↦ inl (bad, ground arith, ground arith)
      | inr good ↦ inr (
        good,
        extended f (nt_write f.handle buffer count f.position).information,
        ground arith,
        moves (f.position +ℤ pos (nt_write f.handle buffer count f.position).information),
        ground arith,
        ground arith,
        ground arith,
      )
    ]
