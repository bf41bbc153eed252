-- ===== src/Client/Tests/Files.antt =====
-- The theorems on open files, with a file of five bytes.
use win0_doom.Shared.{
  ℕ, ltb, ◌^◌, ◌+◌, ◌-◌, ◌≡◌, List, [], ◌∷◌, some, true, false, arith, length, take, drop, min, leb,
  ◌⊎◌, if◌then◌else◌,
}
use win0_doom.Shared.Int.{pos, negsuc, pos_part, ◌+ℤ◌, ◌≤ℤ◌}
use win0_doom.Client.File.{
  to_longlong, File, NtRead, NtWrite, failed, native_write, native_seek, native_eof, seek_cur,
  seek_other,
}
use win0_doom.Client.File.Position.{
  StaysOpen, FileCall, reads, writes, seeks, after_calls, after_calls-StaysOpen, EndsInRange,
  IsPlace,
}
use win0_doom.Client.File.Seek.{SeeksTo, native_seek_lem}
use win0_doom.Client.File.Write.{native_write_extends}
use win0_doom.Client.File.Reads.{ReadsDisk, read_many, total, at, read_many_lem}

abbrev five_bytes : List ℕ
five_bytes = 10 ∷ 20 ∷ 30 ∷ 40 ∷ 50 ∷ []

abbrev five_bytes_file : File
five_bytes_file = record { handle = 4; position = pos 0; length = pos 5 }

abbrev read_five : NtRead
read_five handle count offset =
    if leb 5 (pos_part offset)
    then record { status = 0xc0000011; information = 0; bytes = [] }
    else record {
      status = 0;
      information = min count (5 - pos_part offset);
      bytes = take count (drop (pos_part offset) five_bytes);
    }

abbrev write_all : NtWrite
write_all handle buffer count offset = record { status = 0; information = count; bytes = [] }

-- A volume on which a write that would not end below 2 ^ 63 fails.
abbrev write_below : NtWrite
write_below handle buffer count offset =
    if ltb (pos_part offset + count) (2 ^ 63)
    then record { status = 0; information = count; bytes = [] }
    else record { status = 0xc000000d; information = 0; bytes = [] }

read_five-EndsInRange : EndsInRange read_five
unfolding ◌+ℤ◌
read_five-EndsInRange = record {
  within = λ handle count at place good. (ground arith, ground arith);
}

write_below-EndsInRange : (buffer : List ℕ) → EndsInRange (λ handle. write_below handle buffer)
unfolding ◌+ℤ◌
write_below-EndsInRange buffer = record {
  within = λ handle count at place good. (ground arith, ground arith);
}

read_five-ReadsDisk : ReadsDisk read_five 4 five_bytes
read_five-ReadsDisk = record {
  addressable = omega arith;
  inside = λ count a some_bytes before. ground arith;
  at_end = λ count a after. ground arith;
}

read_many_lem_example :
    read_many read_five (some (at five_bytes_file 1)) (2 ∷ 0 ∷ 9 ∷ []) ≡ record {
      file = some (at five_bytes_file (min (1 + total (2 ∷ 0 ∷ 9 ∷ [])) (length five_bytes)));
      bytes = take (total (2 ∷ 0 ∷ 9 ∷ [])) (drop 1 five_bytes);
    }
read_many_lem_example =
    read_many_lem read_five five_bytes five_bytes_file read_five-ReadsDisk (2 ∷ 0 ∷ 9 ∷ []) 1
      (omega arith)

abbrev some_calls : List FileCall
some_calls =
    seeks (negsuc 2) seek_other
    ∷ writes (1 ∷ 2 ∷ []) (pos 2)
    ∷ reads (pos 3)
    ∷ seeks (negsuc 9) seek_cur
    ∷ []

after_calls-StaysOpen_example :
    StaysOpen (after_calls read_five write_below (some five_bytes_file) some_calls)
after_calls-StaysOpen_example =
    after_calls-StaysOpen read_five write_below read_five-EndsInRange write_below-EndsInRange
      some_calls (some five_bytes_file)
      (record { at_place = (omega arith, omega arith); sized = (omega arith, omega arith) })

native_seek_lem_example :
    SeeksTo five_bytes_file (native_seek (some five_bytes_file) (pos 0) seek_other) (pos 5)
    × (native_eof (native_seek (some five_bytes_file) (pos 0) seek_other).file ≡ true)
    × (((pos 0 ≤ℤ five_bytes_file.position +ℤ pos 3)
          × SeeksTo five_bytes_file
              (native_seek (some five_bytes_file) (pos 3) seek_cur)
              (five_bytes_file.position +ℤ pos 3))
        ⊎ ((¬ (pos 0 ≤ℤ five_bytes_file.position +ℤ pos 3))
            × ((native_seek (some five_bytes_file) (pos 3) seek_cur).value ≡ negsuc 0)
            × ((native_seek (some five_bytes_file) (pos 3) seek_cur).file ≡ some five_bytes_file)))
unfolding ◌+ℤ◌
native_seek_lem_example =
    native_seek_lem five_bytes_file (pos 3) (omega arith) (omega arith) (omega arith) (omega arith)
      (omega arith) (omega arith)

native_write_extends_example :
    ((failed 0 ≡ true)
      × ((native_write write_all (some five_bytes_file) (1 ∷ 2 ∷ []) (pos 2)).value ≡ pos 0)
      × ((native_write write_all (some five_bytes_file) (1 ∷ 2 ∷ []) (pos 2)).file
          ≡ some five_bytes_file))
    ⊎ ((failed 0 ≡ false)
        × (f : File) × ((native_write write_all (some five_bytes_file) (1 ∷ 2 ∷ []) (pos 2)).file
            ≡ some f)
        × (((IsPlace (five_bytes_file.position +ℤ pos 2))
              × (f.position ≡ five_bytes_file.position +ℤ pos 2))
            ⊎ ((¬ IsPlace (five_bytes_file.position +ℤ pos 2))
                × (f.position ≡ to_longlong (five_bytes_file.position +ℤ pos 2))))
        × (f.position ≤ℤ f.length)
        × (five_bytes_file.length ≤ℤ f.length)
        × ((f.length ≡ five_bytes_file.length) ⊎ (f.length ≡ f.position)))
native_write_extends_example =
    native_write_extends write_all five_bytes_file (1 ∷ 2 ∷ []) 2 (omega arith)
