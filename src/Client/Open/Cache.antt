-- ===== src/Client/Open/Cache.antt =====
-- data_prefix_index over the calls of native_open.
use win0_doom.Shared.{
  ℕ, ◌+◌, ◌<◌, ◌≡◌, zero, suc, refl, List, [], ◌++◌, none, some, true, false, ◌∷◌, if◌then◌else◌,
  arith, length, ◌⊎◌, inl, inr, Bool-cases,
}
use win0_doom.Shared.Int.{ℤ, pos, negsuc, ltb_ℤ}
use win0_doom.Client.Path.{codes, data_prefixes, mode_has}
use win0_doom.Client.Text.{print_hex_text}
use win0_doom.Client.File.{failed}
use win0_doom.Client.Open.{
  NtOpen, Opened, print, free_file, creates, not_found_status, try_volumes, opened_file,
  failure_calls, native_open,
}
use win0_doom.Client.Open.Search.{
  answer_on, paths_on, AllRefuse, last_status, FindsFirst, try_prefixes-FindsFirst,
}

length-data_prefixes : length data_prefixes ≡ 13
unfolding data_prefixes
length-data_prefixes = refl

-- The static variable: -1, or the index of a prefix.
abbrev pub IsPrefixIndex : ℤ → Type 0
IsPrefixIndex (negsuc n) = n ≡ 0
IsPrefixIndex (pos i) = i < 13

-- The volumes that an open tries: from which on, and how many.
abbrev pub first_volume : ℤ → ℕ
first_volume (pos i) = i
first_volume (negsuc n) = 0

abbrev pub volume_count : ℤ → ℕ
volume_count (pos i) = 1
volume_count (negsuc n) = 13

module _ (nt : NtOpen) (filename mode : List ℕ) where
  try_volumes-FindsFirst :
      (k : ℤ)
      → IsPrefixIndex k
      → FindsFirst nt filename mode
          (first_volume k)
          (volume_count k)
          not_found_status
          (try_volumes nt filename mode k)
  unfolding try_volumes
  try_volumes-FindsFirst (pos i) h =
      let cached : ltb_ℤ (pos i) (pos 0) ≡ false = ground arith in
      rw cached (
        try_prefixes-FindsFirst nt filename mode 1 i not_found_status
          (omega (arith, length-data_prefixes)))
  try_volumes-FindsFirst (negsuc n) h =
      let uncached : ltb_ℤ (negsuc n) (pos 0) ≡ true = ground arith in
      rw (uncached, length-data_prefixes)
        (try_prefixes-FindsFirst nt filename mode 13 0 not_found_status
          (omega (arith, length-data_prefixes)))

  -- An open that succeeds: `refusals` volumes are tried in vain, the next one is remembered.
  pub record Opens (k : ℤ) (o : Opened) : Type 0 where
    pub refusals : ℕ
    pub in_range : refusals < volume_count k
    pub refused : AllRefuse nt filename mode (first_volume k) refusals
    pub accepted : failed (answer_on nt filename mode (first_volume k + refusals)).status ≡ false
    pub gives :
        let handle = (answer_on nt filename mode (first_volume k + refusals)).handle in
        let queried = nt.query handle in
        let size = if failed queried.status then pos 0 else queried.end_of_file in
        o.file
        ≡ some (record {
          handle = handle;
          position = if mode_has mode b'a' then size else pos 0;
          length = size;
        })
    pub caches : o.data_prefix_index ≡ pos (first_volume k + refusals)
    pub tries : o.calls ≡ creates (paths_on filename (first_volume k) (suc refusals))

  -- An open that fails on every volume tried: the file object is freed, nothing is remembered.
  pub record Fails (k : ℤ) (o : Opened) : Type 0 where
    pub refused : AllRefuse nt filename mode (first_volume k) (volume_count k)
    pub gives : o.file ≡ none
    pub keeps : o.data_prefix_index ≡ k
    pub tries :
        o.calls
        ≡ creates (paths_on filename (first_volume k) (volume_count k))
          ++ print (codes "\r\nwin0 doom: open failed for '")
            ∷ print filename
            ∷ print (codes "' with status ")
            ∷ print (
                print_hex_text
                  (last_status nt filename mode (first_volume k) (volume_count k) not_found_status))
            ∷ print (codes ".\r\n")
            ∷ free_file
            ∷ []

  native_open_from :
      (k : ℤ)
      → nt.allocated ≡ true
      → FindsFirst nt filename mode
          (first_volume k)
          (volume_count k)
          not_found_status
          (try_volumes nt filename mode k)
      → (o : Opened) × (native_open nt filename mode k ≡ some o) × (Opens k o ⊎ Fails k o)
  unfolding native_open failure_calls opened_file
  native_open_from k fits (inl (t, below, before, accepted, e)) = (
    record {
      file =
          some
            (opened_file nt filename mode (answer_on nt filename mode (first_volume k + t)).handle);
      data_prefix_index = pos (first_volume k + t);
      calls = creates (paths_on filename (first_volume k) (suc t));
    },
    rw (fits, e),
    inl (record {
      refusals = t;
      in_range = below;
      refused = before;
      accepted = accepted;
      gives = refl;
      caches = refl;
      tries = refl;
    }),
  )
  native_open_from k fits (inr (all, e)) = (
    record {
      file = none;
      data_prefix_index = k;
      calls =
          creates (paths_on filename (first_volume k) (volume_count k))
          ++ failure_calls nt filename mode
              (last_status nt filename mode (first_volume k) (volume_count k) not_found_status);
    },
    rw (fits, e),
    inr (record { refused = all; gives = refl; keeps = refl; tries = refl }),
  )

  -- With memory for the file object, and a remembered volume or none, native_open ends without
  -- leaving the table of prefixes. It tries only the remembered volume, or else all thirteen in
  -- order, up to the first that accepts the name, and remembers that one; the file has the handle that
  -- this volume gave, the length that the system reports, or 0 where it reports none, and the position
  -- 0, or its length where the mode has an 'a'. If all that it tries refuse, it prints the name and the
  -- status of the last refusal, frees the file object, returns null and remembers what it did before.
  pub native_open_lem :
      (k : ℤ)
      → nt.allocated ≡ true
      → IsPrefixIndex k
      → (o : Opened) × (native_open nt filename mode k ≡ some o) × (Opens k o ⊎ Fails k o)
  native_open_lem k fits h = native_open_from k fits (try_volumes-FindsFirst k h)

  -- Whatever the system answers, native_open does not leave the table of prefixes, and keeps the
  -- static variable at -1 or at an index of the table.
  pub native_open-IsPrefixIndex :
      (k : ℤ)
      → IsPrefixIndex k
      → (o : Opened) × (native_open nt filename mode k ≡ some o) × IsPrefixIndex o.data_prefix_index
  unfolding native_open
  native_open-IsPrefixIndex k h = elim (Bool-cases nt.allocated) [
    | inl fits ↦ let (o, runs, ends) = native_open_lem k fits h in (o, runs, index_of k o h ends)
    | inr full ↦ (record { file = none; data_prefix_index = k; calls = [] }, rw full, h)
  ]
    where
      index_of :
          (k : ℤ) (o : Opened)
          → IsPrefixIndex k
          → Opens k o ⊎ Fails k o
          → IsPrefixIndex o.data_prefix_index
      index_of (pos i) o h (inl s) = rw s.caches (omega (arith, s.in_range))
      index_of (negsuc n) o h (inl s) = rw s.caches (omega (arith, s.in_range))
      index_of k o h (inr f) = rw f.keeps h

module _ (nt : NtOpen) where
  -- A name that volume 0 accepts is opened there, and volume 0 is remembered.
  caches_first :
      (filename mode : List ℕ) (o : Opened)
      → failed (answer_on nt filename mode 0).status ≡ false
      → Opens nt filename mode (negsuc 0) o ⊎ Fails nt filename mode (negsuc 0) o
      → o.data_prefix_index ≡ pos 0
  caches_first filename mode o accepts (inl s) = at_first s.refusals s.refused s.caches
    where
      at_first :
          (r : ℕ)
          → AllRefuse nt filename mode 0 r
          → o.data_prefix_index ≡ pos (0 + r)
          → o.data_prefix_index ≡ pos 0
      at_first zero refused e = e
      at_first (suc r) refused e = cc (accepts, refused.0)
  caches_first filename mode o accepts (inr f) = cc (accepts, f.refused.0)

  misses_remembered :
      (filename mode : List ℕ) (i : ℕ) (o : Opened)
      → failed (answer_on nt filename mode i).status ≡ true
      → Opens nt filename mode (pos i) o ⊎ Fails nt filename mode (pos i) o
      → o.file ≡ none
  misses_remembered filename mode i o refuses (inl s) = at_none s.refusals s.in_range s.accepted
    where
      at_none :
          (r : ℕ)
          → r < 1
          → failed (answer_on nt filename mode (i + r)).status ≡ false
          → o.file ≡ none
      at_none r few accepted =
          let here : i + r ≡ i = omega arith in absurd (clash (rw here at accepted))
        where
          clash : failed (answer_on nt filename mode i).status ≡ false → ⊥
          clash e = cc (e, refuses)
  misses_remembered filename mode i o refuses (inr f) = f.gives

  -- The volume remembered is that of the first file opened, whatever file that is: once a first
  -- name is accepted on volume 0 (say an absolute path, or a file that the open creates), the open
  -- of a second name that volume 0 refuses returns null, though it lies on another volume j.
  pub other_volume_unreachable :
      (first first_mode second second_mode : List ℕ) (j : ℕ)
      → nt.allocated ≡ true
      → failed (answer_on nt first first_mode 0).status ≡ false
      → failed (answer_on nt second second_mode 0).status ≡ true
      → failed (answer_on nt second second_mode j).status ≡ false
      → (o : Opened) × (native_open nt first first_mode (negsuc 0) ≡ some o)
        × (o' : Opened) × (native_open nt second second_mode o.data_prefix_index ≡ some o')
        × (o'.file ≡ none)
  other_volume_unreachable first first_mode second second_mode j fits accepts refuses lies =
      let (o, runs, ends) = native_open_lem nt first first_mode (negsuc 0) fits refl in
      let here : o.data_prefix_index ≡ pos 0 = caches_first first first_mode o accepts ends in
      let (o', runs', ends') = native_open_lem nt second second_mode (pos 0) fits (omega arith) in
      (o, runs, o', rw here runs', misses_remembered second second_mode 0 o' refuses ends')
