-- ===== src/Client/Open/Search.antt =====
-- The search of native_open over the volumes.
use win0_doom.Shared.{
  ℕ, zero, suc, ◌+◌, ◌<◌, ◌≤◌, ◌≡◌, refl, ◌∙◌, List, [], ◌∷◌, true, false, arith, length, get_or,
  get_elem?-get_or, ◌⊎◌, inl, inr, Bool-cases,
}
use win0_doom.Client.Path.{data_prefixes, ascii_path_to_native}
use win0_doom.Client.File.{failed}
use win0_doom.Client.Open.{
  NtOpen, Created, Tried, found, exhausted, after_path, path_capacity, access_of, disposition_of,
  try_prefixes,
}

-- The path of a name on a volume, and the paths on `n` volumes from `i` on.
abbrev pub path_on : List ℕ → ℕ → List ℕ
path_on filename i = ascii_path_to_native filename (get_or data_prefixes i []) path_capacity

abbrev pub paths_on : List ℕ → ℕ → ℕ → List (List ℕ)
paths_on filename i zero = []
paths_on filename i (suc n) = path_on filename i ∷ paths_on filename (i + 1) n

module _ (nt : NtOpen) (filename mode : List ℕ) where
  -- What the system answers on a volume.
  abbrev pub answer_on : ℕ → Created
  answer_on i = nt.create (path_on filename i) (access_of mode) (disposition_of mode)

  -- That `n` volumes from `i` on refuse the name.
  abbrev pub AllRefuse : ℕ → ℕ → Type 0
  AllRefuse i zero = Unit
  AllRefuse i (suc n) = (failed (answer_on i).status ≡ true) × AllRefuse (i + 1) n

  -- The status that a search of `n` volumes from `i` on, in vain, leaves in the place of `start`.
  abbrev pub last_status : (i n start : ℕ) → ℕ
  last_status i zero start = start
  last_status i (suc n) start = last_status (i + 1) n (answer_on i).status

  -- How a search of `n` volumes from `i` on ends.
  abbrev pub FindsFirst : (i n start : ℕ) → Tried → Type 0
  FindsFirst i n start result =
      ((k : ℕ) × (k < n)
        × AllRefuse i k
        × (failed (answer_on (i + k)).status ≡ false)
        × (result ≡ found (i + k) (answer_on (i + k)).handle (paths_on filename i (suc k))))
      ⊎ (AllRefuse i n × (result ≡ exhausted (last_status i n start) (paths_on filename i n)))

  try_refused :
      (n i status : ℕ)
      → i < length data_prefixes
      → failed (answer_on i).status ≡ true
      → try_prefixes nt filename mode (suc n) i status
        ≡ after_path
            (path_on filename i)
            (try_prefixes nt filename mode n (i + 1) (answer_on i).status)
  unfolding try_prefixes
  try_refused n i status h refused =
      rw (get_elem?-get_or data_prefixes i [] h, try_prefixes, refused)

  try_accepted :
      (n i status : ℕ)
      → i < length data_prefixes
      → failed (answer_on i).status ≡ false
      → try_prefixes nt filename mode (suc n) i status
        ≡ found i (answer_on i).handle (path_on filename i ∷ [])
  unfolding try_prefixes
  try_accepted n i status h accepted =
      rw (get_elem?-get_or data_prefixes i [] h, try_prefixes, accepted)

  FindsFirst-later :
      (i n start : ℕ) (result : Tried)
      → failed (answer_on i).status ≡ true
      → FindsFirst (i + 1) n (answer_on i).status result
      → FindsFirst i (suc n) start (after_path (path_on filename i) result)
  FindsFirst-later i n start result refused (inl (k, below, before, accepted, e)) =
      let next : i + suc k ≡ i + 1 + k = omega arith in
      inl (suc k, omega arith, (refused, before), rw next accepted, rw (e, next))
  FindsFirst-later i n start result refused (inr (all, e)) = inr ((refused, all), rw e)

  -- A search within the table tries the volumes in order, stops at the first that does not refuse
  -- the name, and tries no other.
  pub try_prefixes-FindsFirst :
      (n i status : ℕ)
      → i + n ≤ length data_prefixes
      → FindsFirst i n status (try_prefixes nt filename mode n i status)
  unfolding try_prefixes
  try_prefixes-FindsFirst zero i status h = inr (tt, refl)
  try_prefixes-FindsFirst (suc n) i status h = elim (Bool-cases (failed (answer_on i).status)) [
    | inl refused ↦ rw (try_refused n i status (omega arith) refused) (
        FindsFirst-later i n status _ refused
          (try_prefixes-FindsFirst n (i + 1) (answer_on i).status (omega arith)))
    | inr accepted ↦
        let here : i + 0 ≡ i = omega arith in
        inl (
          0,
          omega arith,
          tt,
          rw here accepted,
          try_accepted n i status (omega arith) accepted ∙ (rw here),
        )
  ]
