-- ===== src/Client/File.antt =====
-- The open files of native/win0-doom.c: native_read, native_write, native_seek, native_tell and
-- native_eof. A pointer that may be null is an `Option`. NtReadFile and NtWriteFile are arguments.
-- Positions and lengths are LONGLONGs, whose sums wrap at 2 ^ 63.
pub mod Position
pub mod Reads
pub mod Seek
pub mod Write
use win0_doom.Shared.{
  ℕ, ◌+◌, ◌-◌, ◌%◌, ◌^◌, Option, none, some, Bool, true, false, ltb, leb, ◌||◌, not, if◌then◌else◌,
  List, [],
}
use win0_doom.Shared.Int.{ℤ, pos, negsuc, pos_part, neg_part, ltb_ℤ, ◌+ℤ◌}

-- WIN0DOOM_FILE
pub record File : Type 0 where
  pub handle : ℕ
  pub position : ℤ
  pub length : ℤ

-- What a system call on a file reports; `bytes` is what a read put into the buffer.
pub record IoResult : Type 0 where
  pub status : ℕ
  pub information : ℕ
  pub bytes : List ℕ

-- status < 0, of the word of an NTSTATUS
abbrev pub failed : ℕ → Bool
failed status = leb (2 ^ 31) (status % 2 ^ 32)

-- The int of a word, and the cast of a wider integer to int.
abbrev pub int_of_word : ℕ → ℤ
int_of_word w = if ltb w (2 ^ 31) then pos w else negsuc (2 ^ 32 - w - 1)

abbrev pub to_int : ℤ → ℤ
to_int (pos n) = int_of_word (n % 2 ^ 32)
to_int (negsuc n) = int_of_word (2 ^ 32 - 1 - n % 2 ^ 32)

-- The LONGLONG of a word of 64 bits, and the value that an integer leaves in a LONGLONG.
abbrev pub longlong_of_word : ℕ → ℤ
longlong_of_word w = if ltb w (2 ^ 63) then pos w else negsuc (2 ^ 64 - w - 1)

abbrev pub to_longlong : ℤ → ℤ
to_longlong (pos n) = longlong_of_word (n % 2 ^ 64)
to_longlong (negsuc n) = longlong_of_word (2 ^ 64 - 1 - n % 2 ^ 64)

-- A call returns a number, the file, and for a read the bytes delivered.
pub record Returned : Type 0 where
  pub file : Option File
  pub value : ℤ
  pub bytes : List ℕ

abbrev pub is_positive : ℤ → Bool
is_positive count = ltb_ℤ (pos 0) count

-- NtReadFile takes the handle, the length and the offset.
abbrev pub NtRead : Type 0
NtRead = (handle count : ℕ) → ℤ → IoResult

abbrev pub NtWrite : Type 0
NtWrite = (handle : ℕ) → List ℕ → (count : ℕ) → ℤ → IoResult

read_open : NtRead → File → ℕ → Returned
read_open nt_read f count =
    let io = nt_read f.handle count f.position in
    if failed io.status then record { file = some f; value = pos 0; bytes = [] } else record {
      file = some (record f { position = to_longlong (f.position +ℤ pos io.information) });
      value = int_of_word (io.information % 2 ^ 32);
      bytes = io.bytes;
    }

pub native_read : NtRead → Option File → ℤ → Returned
unfolding read_open
native_read nt_read none count = record { file = none; value = pos 0; bytes = [] }
native_read nt_read (some f) count =
    if not (is_positive count)
    then record { file = some f; value = pos 0; bytes = [] }
    else read_open nt_read f (pos_part count)

write_open : NtWrite → File → List ℕ → ℕ → Returned
write_open nt_write f buffer count =
    let io = nt_write f.handle buffer count f.position in
    if failed io.status
    then record { file = some f; value = pos 0; bytes = [] }
    else let position = to_longlong (f.position +ℤ pos io.information) in
      record {
        file = some (record f {
          position = position;
          length = if ltb_ℤ f.length position then position else f.length;
        });
        value = int_of_word (io.information % 2 ^ 32);
        bytes = [];
      }

pub native_write : NtWrite → Option File → List ℕ → ℤ → Returned
unfolding write_open
native_write nt_write none buffer count = record { file = none; value = pos 0; bytes = [] }
native_write nt_write (some f) buffer count =
    if not (is_positive count)
    then record { file = some f; value = pos 0; bytes = [] }
    else write_open nt_write f buffer (pos_part count)

-- doom_seek_t: DOOM_SEEK_SET, DOOM_SEEK_CUR, and any other value.
pub data Origin : Type 0 where
  seek_set seek_cur seek_other : Origin

abbrev pub base_of : File → Origin → ℤ
base_of f seek_set = pos 0
base_of f seek_cur = f.position
base_of f seek_other = f.length

pub native_seek : Option File → ℤ → Origin → Returned
native_seek none offset origin = record { file = none; value = negsuc 0; bytes = [] }
native_seek (some f) offset origin =
    let position = to_longlong (base_of f origin +ℤ offset) in
    if ltb_ℤ position (pos 0)
    then record { file = some f; value = negsuc 0; bytes = [] }
    else record { file = some (record f { position = position }); value = pos 0; bytes = [] }

pub native_tell : Option File → ℤ
native_tell none = negsuc 0
native_tell (some f) = to_int f.position

pub native_eof : Option File → Bool
native_eof none = true
native_eof (some f) = not (ltb_ℤ f.position f.length)
