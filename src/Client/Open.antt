-- ===== src/Client/Open.antt =====
-- native_open and native_close of native/win0-doom.c, with the static data_prefix_index. What
-- NtCreateFile, NtQueryInformationFile and the allocation of the WIN0DOOM_FILE answer is `NtOpen`.
pub mod Search
pub mod Cache
use win0_doom.Shared.{
  ℕ, zero, suc, ◌+◌, ◌-◌, ◌≤◌, List, [], ◌∷◌, ◌++◌, Option, none, some, Bool, true, false, ◌||◌,
  if◌then◌else◌, length, get_elem?,
}
use win0_doom.Shared.Int.{ℤ, pos, negsuc, pos_part, ltb_ℤ}
use win0_doom.Client.Text.{print_hex_text}
use win0_doom.Client.Path.{codes, data_prefixes, mode_has, ascii_path_to_native}
use win0_doom.Client.File.{File, failed}

-- FILE_OVERWRITE_IF, FILE_OPEN_IF, FILE_OPEN
pub data Disposition : Type 0 where
  overwrite_if open_if open_existing : Disposition

-- The access mask: SYNCHRONIZE always, GENERIC_READ and GENERIC_WRITE as these say.
pub record Access : Type 0 where
  pub generic_read : Bool
  pub generic_write : Bool

pub record Created : Type 0 where
  pub status : ℕ
  pub handle : ℕ

pub record Queried : Type 0 where
  pub status : ℕ
  pub end_of_file : ℤ

pub record NtOpen : Type 0 where
  pub allocated : Bool
  pub create : (path : List ℕ) → Access → Disposition → Created
  pub query : (handle : ℕ) → Queried

pub data OpenCall : Type 0 where
  create_file : (path : List ℕ) → OpenCall
  print : (text : List ℕ) → OpenCall
  free_file : OpenCall
  close_handle : ℕ → OpenCall

-- What the caller gets, the static variable, and the calls made.
pub record Opened : Type 0 where
  pub file : Option File
  pub data_prefix_index : ℤ
  pub calls : List OpenCall

abbrev pub creates : List (List ℕ) → List OpenCall
creates [] = []
creates (path ∷ paths) = create_file path ∷ creates paths

abbrev pub path_capacity : ℕ
path_capacity = 320

pub access_of : List ℕ → Access
access_of mode =
    if mode_has mode b'w' || (mode_has mode b'a' || mode_has mode b'+')
    then record { generic_read = true; generic_write = true }
    else record { generic_read = mode_has mode b'r'; generic_write = false }

pub disposition_of : List ℕ → Disposition
disposition_of mode =
    if mode_has mode b'w'
    then overwrite_if
    else if mode_has mode b'a'
    then open_if
    else open_existing

-- How the loop over the prefixes ends; each end carries the paths tried.
pub data Tried : Type 0 where
  found : (index handle : ℕ) → List (List ℕ) → Tried
  exhausted : (status : ℕ) → List (List ℕ) → Tried
  out_of_table : Tried

abbrev pub after_path : List ℕ → Tried → Tried
after_path path (found i h paths) = found i h (path ∷ paths)
after_path path (exhausted s paths) = exhausted s (path ∷ paths)
after_path path out_of_table = out_of_table

-- STATUS_OBJECT_PATH_NOT_FOUND, the status before the first round.
abbrev pub not_found_status : ℕ
not_found_status = 0xc000003a

module _ (nt : NtOpen) (filename mode : List ℕ) where
  -- for (; prefix_index < final_prefix; ++prefix_index), with the rounds left.
  pub try_prefixes : (rounds index status : ℕ) → Tried
  try_prefixes zero index status = exhausted status []
  try_prefixes (suc rounds) index status = elim (get_elem? data_prefixes index) [
    | none ↦ out_of_table
    | some data_prefix ↦
        let path = ascii_path_to_native filename data_prefix path_capacity in
        let created = nt.create path (access_of mode) (disposition_of mode) in
        let more = try_prefixes rounds (index + 1) created.status in
        if failed created.status
        then after_path path more
        else found index created.handle (path ∷ [])
  ]

  -- All prefixes, or the one that is cached.
  pub try_volumes : ℤ → Tried
  unfolding try_prefixes
  try_volumes data_prefix_index =
      if ltb_ℤ data_prefix_index (pos 0)
      then try_prefixes (length data_prefixes) 0 not_found_status
      else try_prefixes 1 (pos_part data_prefix_index) not_found_status

  pub opened_file : ℕ → File
  opened_file handle =
      let queried = nt.query handle in
      let size = if failed queried.status then pos 0 else queried.end_of_file in
      record {
        handle = handle;
        position = if mode_has mode b'a' then size else pos 0;
        length = size;
      }

  pub failure_calls : ℕ → List OpenCall
  failure_calls status =
      print (codes "\r\nwin0 doom: open failed for '")
      ∷ print filename
      ∷ print (codes "' with status ")
      ∷ print (print_hex_text status)
      ∷ print (codes ".\r\n")
      ∷ free_file
      ∷ []

  -- `none` stands for a read outside the table of prefixes.
  pub native_open : ℤ → Option Opened
  unfolding try_volumes opened_file failure_calls
  native_open data_prefix_index =
      if nt.allocated
      then elim (try_volumes data_prefix_index) [
        | found index handle paths ↦ some (record {
          file = some (opened_file handle);
          data_prefix_index = pos index;
          calls = creates paths;
        })
        | exhausted status paths ↦ some (record {
          file = none;
          data_prefix_index = data_prefix_index;
          calls = creates paths ++ failure_calls status;
        })
        | out_of_table ↦ none
      ]
      else some (record { file = none; data_prefix_index = data_prefix_index; calls = [] })

pub native_close : Option File → List OpenCall
native_close none = []
native_close (some f) = close_handle f.handle ∷ free_file ∷ []
