-- ===== src/Client/Memory/Copy.antt =====
-- What memset and memcpy leave in memory.
use win0_doom.Shared.{
  ℕ, zero, suc, ◌+◌, ◌-◌, ◌%◌, ◌≤◌, ◌<◌, ◌≡◌, ◌⊎◌, inl, inr, refl, ap, ◌∙◌, arith, dec_lt, dec_le,
}
use win0_doom.Client.Memory.{Bytes, store_byte, memset_loop, memset, memcpy_loop, memcpy}

-- The bytes that a region of `length` from `at` on takes.
abbrev pub IsIn : (at length j : ℕ) → Type 0
IsIn at length j = (at ≤ j) × (j < at + length)

abbrev pub IsOut : (at length j : ℕ) → Type 0
IsOut at length j = (j < at) ⊎ (at + length ≤ j)

memset_loop-out :
    (length bytes value : ℕ) (memory : Bytes) (j : ℕ)
    → IsOut bytes length j
    → memset_loop length bytes value memory j ≡ memory j
unfolding memset_loop
memset_loop-out zero bytes value memory j h = refl
memset_loop-out (suc length) bytes value memory j h =
    memset_loop-out length (bytes + 1) value _ j (ground arith) ∙ ground arith

memset_loop-in :
    (length bytes value : ℕ) (memory : Bytes) (j : ℕ)
    → bytes ≤ j
    → j < bytes + length
    → memset_loop length bytes value memory j ≡ value % 256
unfolding memset_loop
memset_loop-in zero bytes value memory j lo hi = absurd (omega arith)
memset_loop-in (suc length) bytes value memory j lo hi = elim (dec_lt bytes j) [
  | yes later ↦ memset_loop-in length (bytes + 1) value _ j (omega arith) (omega arith)
  | no here ↦
      let at : bytes ≡ j = omega arith in
      memset_loop-out length (bytes + 1) value _ j (inl (omega arith)) ∙ ground arith
]

memcpy_loop-out :
    (length output input : ℕ) (memory : Bytes) (j : ℕ)
    → IsOut output length j
    → memcpy_loop length output input memory j ≡ memory j
unfolding memcpy_loop
memcpy_loop-out zero output input memory j h = refl
memcpy_loop-out (suc length) output input memory j h =
    memcpy_loop-out length (output + 1) (input + 1) _ j (ground arith) ∙ ground arith

-- Regions that a copy from the front to the back handles: apart, or the destination first.
abbrev pub CopiesForward : (output input length : ℕ) → Type 0
CopiesForward output input length = (output ≤ input) ⊎ (input + length ≤ output)

pub memcpy_loop-in :
    (length output input : ℕ) (memory : Bytes) (i : ℕ)
    → i < length
    → CopiesForward output input length
    → memcpy_loop length output input memory (output + i) ≡ memory (input + i)
unfolding memcpy_loop
memcpy_loop-in zero output input memory i hi forward = absurd (omega arith)
memcpy_loop-in (suc length) output input memory zero hi forward =
    let to : output + 0 ≡ output = omega arith in
    let from : input + 0 ≡ input = omega arith in
    let here : store_byte memory output (memory input) (output + 0) ≡ memory (input + 0) =
      rw (to, from) (ground arith) in
    memcpy_loop-out length (output + 1) (input + 1) _ (output + 0) (inl (omega arith)) ∙ here
memcpy_loop-in (suc length) output input memory (suc i) hi forward =
    let place : output + suc i ≡ output + 1 + i = omega arith in
    let from : input + suc i ≡ input + 1 + i = omega arith in
    rw (place, from)
      (memcpy_loop-in length (output + 1) (input + 1) _ i (omega arith) (ground arith)
        ∙ ground arith)

-- memset returns its destination, and sets each byte of the region to the low byte of the value,
-- and no other byte.
pub memset_lem :
    (destination value length : ℕ) (memory : Bytes) (j : ℕ)
    → ((memset destination value length memory).1 ≡ destination)
      × ((IsIn destination length j × ((memset destination value length memory).0 j ≡ value % 256))
          ⊎ (IsOut destination length j
              × ((memset destination value length memory).0 j ≡ memory j)))
unfolding memset
memset_lem destination value length memory j = (
  refl,
  elim (dec_le destination j) [
    | no before ↦
        inr
          (inl (omega arith), memset_loop-out length destination value memory j (inl (omega arith)))
    | yes from ↦ elim (dec_lt j (destination + length)) [
      | yes to ↦ inl ((from, to), memset_loop-in length destination value memory j from to)
      | no behind ↦
          inr (
            inr (omega arith),
            memset_loop-out length destination value memory j (inr (omega arith)),
          )
    ]
  ],
)

-- Where the regions are apart or the destination does not start behind the source, memcpy returns
-- its destination, and leaves there the bytes that the source had before, also those that the copy
-- itself overwrites; it changes no byte outside the destination.
pub memcpy_lem :
    (destination source length : ℕ) (memory : Bytes) (j : ℕ)
    → CopiesForward destination source length
    → ((memcpy destination source length memory).1 ≡ destination)
      × ((IsIn destination length j
            × ((memcpy destination source length memory).0 j ≡ memory (source + (j - destination))))
          ⊎ (IsOut destination length j
              × ((memcpy destination source length memory).0 j ≡ memory j)))
unfolding memcpy
memcpy_lem destination source length memory j forward = (
  refl,
  elim (dec_le destination j) [
    | no before ↦
        inr (
          inl (omega arith),
          memcpy_loop-out length destination source memory j (inl (omega arith)),
        )
    | yes from ↦ elim (dec_lt j (destination + length)) [
      | yes to ↦
          let place : j ≡ destination + (j - destination) = omega arith in
          inl (
            (from, to),
            ap (memcpy_loop length destination source memory) place
                ∙ memcpy_loop-in length destination source memory (j - destination) (omega arith)
                    forward,
          )
      | no behind ↦ inr (
        inr (omega arith),
        memcpy_loop-out length destination source memory j (inr (omega arith)),
      )
    ]
  ],
)
