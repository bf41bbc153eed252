-- ===== src/Client/File/Seek.antt =====
-- native_seek with native_tell and native_eof on a file of less than 2 GB.
use win0_doom.Shared.{◌-◌, ◌^◌, ◌≡◌, refl, some, true, arith, ◌∙◌, ◌⊎◌, inl, inr, Bool-cases}
use win0_doom.Shared.Int.{+ℤ_comm, ℤ, pos, negsuc, ◌+ℤ◌, ◌≤ℤ◌, ltb_ℤ}
use win0_doom.Client.File.{
  File, to_longlong, Origin, to_int, base_of, native_seek, native_tell, native_eof, Returned,
  seek_set, seek_cur, seek_other,
}
use win0_doom.Client.File.Position.{IsPlace, to_longlong_place}

to_int_small : (t : ℤ) → pos 0 ≤ℤ t → t ≤ℤ pos (2 ^ 31 - 1) → to_int t ≡ t
to_int_small (pos n) lo hi = ground arith
to_int_small (negsuc n) lo hi = absurd (omega arith)

small-IsPlace : (t : ℤ) → pos 0 ≤ℤ t → t ≤ℤ pos (2 ^ 31 - 1) → IsPlace t
small-IsPlace (pos n) lo hi = (omega arith, omega arith)
small-IsPlace (negsuc n) lo hi = absurd (omega arith)

-- A seek whose target is a place below 2 ^ 31 arrives there and native_tell says so.
arrives :
    (f : File) (offset : ℤ) (origin : Origin) (target : ℤ)
    → base_of f origin +ℤ offset ≡ target
    → pos 0 ≤ℤ target
    → target ≤ℤ pos (2 ^ 31 - 1)
    → let sought = native_seek (some f) offset origin in
      (sought.value ≡ pos 0)
      × (sought.file ≡ some (record f { position = target }))
      × (native_tell sought.file ≡ target)
unfolding native_seek native_tell
arrives f offset origin target e lo hi =
    let told = to_int_small target lo hi in
    let kept = to_longlong_place target (small-IsPlace target lo hi) in
    (ground (arith, e, told, kept), ground (arith, e, told, kept), ground (arith, e, told, kept))

-- A seek that succeeds: native_tell reports the target, and a seek from there to where native_tell
-- saw the file before gives that file back.
pub record SeeksTo (f : File) (sought : Returned) (target : ℤ) : Type 0 where
  pub succeeds : sought.value ≡ pos 0
  pub told : native_tell sought.file ≡ target
  pub returns : (native_seek sought.file (native_tell (some f)) seek_set).file ≡ some f

from_zero : (p : ℤ) → pos 0 +ℤ p ≡ p
unfolding ◌+ℤ◌
from_zero p = ground arith

native_tell_small :
    (f : File)
    → pos 0 ≤ℤ f.position
    → f.position ≤ℤ pos (2 ^ 31 - 1)
    → native_tell (some f) ≡ f.position
unfolding native_tell
native_tell_small f lo hi = to_int_small f.position lo hi

arrives-SeeksTo :
    (f : File) (offset : ℤ) (origin : Origin) (target : ℤ)
    → pos 0 ≤ℤ f.position
    → f.position ≤ℤ pos (2 ^ 31 - 1)
    → base_of f origin +ℤ offset ≡ target
    → pos 0 ≤ℤ target
    → target ≤ℤ pos (2 ^ 31 - 1)
    → SeeksTo f (native_seek (some f) offset origin) target
arrives-SeeksTo f offset origin target lo hi e above below =
    let (value, file, tells) = arrives f offset origin target e above below in
    let (_, back, _) =
      arrives (record f { position = target }) f.position seek_set f.position (from_zero f.position)
        lo hi in
    record { succeeds = value; told = tells; returns = rw (file, native_tell_small f lo hi) back }

at_length : (f : File) → native_eof (some (record f { position = f.length })) ≡ true
unfolding native_eof
at_length f = ground arith

-- A target before the start: the seek fails.
native_seek_before :
    (f : File) (offset : ℤ) (origin : Origin)
    → ltb_ℤ (to_longlong (base_of f origin +ℤ offset)) (pos 0) ≡ true
    → (native_seek (some f) offset origin).value ≡ negsuc 0
      × (native_seek (some f) offset origin).file ≡ some f
unfolding native_seek
native_seek_before f offset origin h = ground (arith, h)

to_longlong_before :
    (p d : ℤ)
    → pos 0 ≤ℤ p
    → negsuc (2 ^ 31 - 1) ≤ℤ d
    → ltb_ℤ (p +ℤ d) (pos 0) ≡ true
    → ltb_ℤ (to_longlong (p +ℤ d)) (pos 0) ≡ true
unfolding ◌+ℤ◌
to_longlong_before p d lo low h = ground arith

-- On a file whose position and length are from 0 to 2 ^ 31 - 1, and for an int d that leads to no
-- later place than that: a seek by 0 from the end goes to the length, where native_eof holds; a seek
-- by d from the position goes to position + d, or, where that is before the start, returns -1 and
-- leaves the file as it was. After each seek that succeeds, native_tell reports the new place, and a
-- seek to the place that it reported before restores the file.
pub native_seek_lem :
    (f : File) (d : ℤ)
    → pos 0 ≤ℤ f.position
    → f.position ≤ℤ pos (2 ^ 31 - 1)
    → pos 0 ≤ℤ f.length
    → f.length ≤ℤ pos (2 ^ 31 - 1)
    → negsuc (2 ^ 31 - 1) ≤ℤ d
    → f.position +ℤ d ≤ℤ pos (2 ^ 31 - 1)
    → let to_end = native_seek (some f) (pos 0) seek_other in
      let moved = native_seek (some f) d seek_cur in
      SeeksTo f to_end f.length
      × (native_eof to_end.file ≡ true)
      × (((pos 0 ≤ℤ f.position +ℤ d) × SeeksTo f moved (f.position +ℤ d))
          ⊎ ((¬ (pos 0 ≤ℤ f.position +ℤ d)) × (moved.value ≡ negsuc 0) × (moved.file ≡ some f)))
native_seek_lem f d at_lo at_hi end_lo end_hi d_lo target_hi =
    let (_, at_end, _) =
      arrives f (pos 0) seek_other f.length (+ℤ_comm f.length (pos 0) ∙ from_zero f.length) end_lo
        end_hi in
    (
      arrives-SeeksTo f (pos 0) seek_other f.length at_lo at_hi
          (+ℤ_comm f.length (pos 0) ∙ from_zero f.length) end_lo end_hi,
      rw at_end (at_length f),
      elim (Bool-cases (ltb_ℤ (f.position +ℤ d) (pos 0))) [
        | inl before ↦
            let (value, file) =
              native_seek_before f d seek_cur (to_longlong_before f.position d at_lo d_lo before) in
            inr (ground arith, value, file)
        | inr within ↦
            inl (
              ground arith,
              arrives-SeeksTo f d seek_cur _ at_lo at_hi refl (ground arith) target_hi,
            )
      ],
    )
