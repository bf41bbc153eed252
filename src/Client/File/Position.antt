-- ===== src/Client/File/Position.antt =====
-- What each call does to the position and the length of an open file.
use win0_doom.Shared.{
  ℕ, ◌-◌, ◌^◌, ◌≡◌, Option, none, some, false, List, [], ◌∷◌, arith, inl, inr, Bool-cases,
}
use win0_doom.Shared.Int.{ℤ, pos, negsuc, pos_part, ◌+ℤ◌, ◌≤ℤ◌, ltb_ℤ}
use win0_doom.Client.File.{
  File, NtRead, NtWrite, IoResult, to_longlong, Origin, failed, native_read, native_write, base_of,
  native_seek,
}

-- A place in a file that a LONGLONG holds.
abbrev pub IsPlace : ℤ → Type 0
IsPlace p = (pos 0 ≤ℤ p) × (p ≤ℤ pos (2 ^ 63 - 1))

pub record IsOpen (f : File) : Type 0 where
  pub at_place : IsPlace f.position
  pub sized : IsPlace f.length

abbrev pub StaysOpen : Option File → Type 0
StaysOpen none = ⊥
StaysOpen (some f) = IsOpen f

-- What the system documents of a transfer: its end is a file offset too, so it is below 2 ^ 63.
pub record EndsInRange (transfer : (handle count : ℕ) → ℤ → IoResult) : Type 0 where
  pub within :
      (handle count : ℕ) (at : ℤ)
      → IsPlace at
      → failed (transfer handle count at).status ≡ false
      → IsPlace (at +ℤ pos (transfer handle count at).information)

pub to_longlong_place : (p : ℤ) → IsPlace p → to_longlong p ≡ p
to_longlong_place (pos n) h = ground arith
to_longlong_place (negsuc n) h = absurd (omega arith)

not_before : (p : ℤ) → ltb_ℤ (to_longlong p) (pos 0) ≡ false → IsPlace (to_longlong p)
not_before (pos n) h = ground arith
not_before (negsuc n) h = ground arith

native_read-IsOpen :
    (nt_read : NtRead) (f : File) (count : ℤ)
    → EndsInRange nt_read
    → IsOpen f
    → StaysOpen (native_read nt_read (some f) count).file
unfolding native_read
native_read-IsOpen nt_read f count range h =
    elim (Bool-cases (failed (nt_read f.handle (pos_part count) f.position).status)) [
      | inl bad ↦ ground arith
      | inr good ↦
          let next = range.within f.handle (pos_part count) f.position h.at_place good in
          ground (arith, to_longlong_place _ next)
    ]

native_write-IsOpen :
    (nt_write : NtWrite) (f : File) (buffer : List ℕ) (count : ℤ)
    → EndsInRange (λ handle. nt_write handle buffer)
    → IsOpen f
    → StaysOpen (native_write nt_write (some f) buffer count).file
unfolding native_write
native_write-IsOpen nt_write f buffer count range h =
    elim (Bool-cases (failed (nt_write f.handle buffer (pos_part count) f.position).status)) [
      | inl bad ↦ ground arith
      | inr good ↦
          let next = range.within f.handle (pos_part count) f.position h.at_place good in
          ground (arith, to_longlong_place _ next)
    ]

native_seek-IsOpen :
    (f : File) (offset : ℤ) (origin : Origin)
    → IsOpen f
    → StaysOpen (native_seek (some f) offset origin).file
unfolding native_seek
native_seek-IsOpen f offset origin h =
    elim (Bool-cases (ltb_ℤ (to_longlong (base_of f origin +ℤ offset)) (pos 0))) [
      | inl before ↦ rw before h
      | inr within ↦
          rw within
            (record { at_place = not_before (base_of f origin +ℤ offset) within; sized = h.sized })
    ]

-- The calls of the engine on one open file.
pub data FileCall : Type 0 where
  reads : ℤ → FileCall
  writes : List ℕ → ℤ → FileCall
  seeks : ℤ → Origin → FileCall

module _ (nt_read : NtRead) (nt_write : NtWrite) where
  pub after_call : Option File → FileCall → Option File
  after_call f (reads count) = (native_read nt_read f count).file
  after_call f (writes buffer count) = (native_write nt_write f buffer count).file
  after_call f (seeks offset origin) = (native_seek f offset origin).file

  pub after_calls : Option File → List FileCall → Option File
  after_calls f [] = f
  after_calls f (c ∷ cs) = after_calls (after_call f c) cs

  module _ (reads_end : EndsInRange nt_read)
      (writes_end : (buffer : List ℕ) → EndsInRange (λ handle. nt_write handle buffer)) where
    after_call-StaysOpen :
        (f : Option File) (c : FileCall) → StaysOpen f → StaysOpen (after_call f c)
    unfolding after_call
    after_call-StaysOpen none c h = absurd h
    after_call-StaysOpen (some f) (reads count) h = native_read-IsOpen nt_read f count reads_end h
    after_call-StaysOpen (some f) (writes buffer count) h =
        native_write-IsOpen nt_write f buffer count (writes_end buffer) h
    after_call-StaysOpen (some f) (seeks offset origin) h = native_seek-IsOpen f offset origin h

    -- Where the system's transfers end below 2 ^ 63, no sequence of reads, writes and seeks, of any
    -- counts and to any offsets, on an open file loses the file or takes its position or its length
    -- out of the range from 0 to 2 ^ 63 - 1.
    pub after_calls-StaysOpen :
        (cs : List FileCall) (f : Option File) → StaysOpen f → StaysOpen (after_calls f cs)
    unfolding after_calls
    after_calls-StaysOpen [] f h = h
    after_calls-StaysOpen (c ∷ cs) f h =
        after_calls-StaysOpen cs (after_call f c) (after_call-StaysOpen f c h)
