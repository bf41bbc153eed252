-- ===== src/Client/File/Reads.antt =====
-- Reads in a row deliver the file's bytes in order.
use win0_doom.Shared.{
  ℕ, zero, suc, ◌^◌, ◌+◌, ◌-◌, ◌<◌, ◌≤◌, ◌≡◌, refl, ap, Option, some, true, false, List, [], ◌∷◌,
  ◌++◌, arith, length, take, drop, min, dec_lt, drop_all, drop-min, drop_add, take-take-drop, ◌↔◌,
}
use win0_doom.Shared.Int.{pos, ◌+ℤ◌}
use win0_doom.Client.File.{File, NtRead, failed, native_read, native_eof}

-- What the system documents of NtReadFile for a file with these bytes: before the end it delivers
-- what there is, at most as much as asked; from the end on it fails with end of file.
pub record ReadsDisk (nt_read : NtRead) (handle : ℕ) (contents : List ℕ) : Type 0 where
  -- A file has fewer than 2 ^ 63 bytes.
  pub addressable : length contents < 2 ^ 63
  pub inside :
      (count at : ℕ)
      → 0 < count
      → at < length contents
      → (failed (nt_read handle count (pos at)).status ≡ false)
        × ((nt_read handle count (pos at)).information ≡ min count (length contents - at))
        × ((nt_read handle count (pos at)).bytes ≡ take count (drop at contents))
  pub at_end :
      (count at : ℕ) → length contents ≤ at → failed (nt_read handle count (pos at)).status ≡ true

pub record ReadMany : Type 0 where
  pub file : Option File
  pub bytes : List ℕ

-- native_read for each of these counts.
pub read_many : NtRead → Option File → List ℕ → ReadMany
read_many nt_read f [] = record { file = f; bytes = [] }
read_many nt_read f (n ∷ ns) =
    let first = native_read nt_read f (pos n) in
    let later = read_many nt_read first.file ns in
    record { file = later.file; bytes = first.bytes ++ later.bytes }

abbrev pub total : List ℕ → ℕ
total [] = 0
total (n ∷ ns) = n + total ns

abbrev pub at : File → ℕ → File
at f p = record f { position = pos p }

module _ (nt_read : NtRead) (contents : List ℕ) (f : File)
    (disk : ReadsDisk nt_read f.handle contents) where
  -- One read from the place `p`.
  record ReadsOne (p n : ℕ) : Type 0 where
    moves :
        (native_read nt_read (some (at f p)) (pos n)).file
        ≡ some (at f (min (p + n) (length contents)))
    delivers : (native_read nt_read (some (at f p)) (pos n)).bytes ≡ take n (drop p contents)

  read_one : (p n : ℕ) → p ≤ length contents → ReadsOne p n
  unfolding native_read ◌+ℤ◌
  read_one p zero h = record { moves = ap (λ k. some (at f k)) (omega arith); delivers = refl }
  read_one p (suc n) h = elim (dec_lt p (length contents)) [
    | yes before ↦
        let short = disk.addressable in
        let (good, count, bytes) = disk.inside (suc n) p (omega arith) before in
        record { moves = ground arith; delivers = ground arith }
    | no after ↦
        let bad = disk.at_end (suc n) p (omega arith) in
        record { moves = ground arith; delivers = ground (arith, drop_all p contents) }
  ]

  -- Reads in a row, of any counts, from a place in a file that nobody else writes deliver its bytes
  -- from there on in order, none twice and none left out, up to the sum of the counts or the end of
  -- the file, and leave the position behind the last byte delivered.
  pub read_many_lem :
      (ns : List ℕ) (p : ℕ)
      → p ≤ length contents
      → read_many nt_read (some (at f p)) ns ≡ record {
        file = some (at f (min (p + total ns) (length contents)));
        bytes = take (total ns) (drop p contents);
      }
  unfolding read_many
  read_many_lem [] p h = ap (λ k. record { file = some (at f k); bytes = [] }) (omega arith)
  read_many_lem (n ∷ ns) p h =
      let one = read_one p n h in
      let next : ℕ = min (p + n) (length contents) in
      let rest = read_many_lem ns next (omega arith) in
      let place : min (next + total ns) (length contents)
          ≡ min (p + (n + total ns)) (length contents) =
        omega arith in
      let bytes : take n (drop p contents) ++ take (total ns) (drop next contents)
          ≡ take (n + total ns) (drop p contents) =
        rw (drop-min (p + n) contents, drop_add p n contents)
          (take-take-drop n (total ns) (drop p contents)) in
      ground (arith, one.moves, one.delivers, rest, place, bytes)

  -- After them native_eof holds exactly if the counts reach the end of the file.
  pub native_eof-read_many :
      (ns : List ℕ) (p : ℕ)
      → p ≤ length contents
      → f.length ≡ pos (length contents)
      → (native_eof (read_many nt_read (some (at f p)) ns).file ≡ true)
        ↔ (length contents ≤ p + total ns)
  unfolding native_eof
  native_eof-read_many ns p h sized = ground (arith, read_many_lem ns p h)
