-- ===== src/Client/Keys/Dispatch.antt =====
-- What a poll delivers to the engine: the events of the records, in order.
use Prim.Native.Nat.{bit_and}
use win0_doom.Shared.{
  ℕ, ◌+◌, ◌*◌, ◌/◌, ◌%◌, ◌^◌, ◌<◌, ◌≤◌, ◌≡◌, ◌≢◌, refl, sym, ap, List, [], ◌∷◌, ◌++◌, Bool, true,
  false, some, not, ◌==◌, arith, if◌then◌else◌, map, length, get_elem?, subst, append_assoc,
  length-append, Bool-cases, inl, inr,
}
use win0_doom.Client.File.{failed}
use win0_doom.Client.Keys.{
  DoomKey, key_unknown, KeyboardApi, key_break, scan_code_to_doom, KeyEvent, key_down, key_up,
  record_events, dispatch_loop, dispatch_keyboard_records, IoctlResult, engine, get_keyboard,
  poll_keyboard, buffer_records,
}

-- The events that a key stands for when it is pressed or released.
unfoldable pub events_of : DoomKey → (released : Bool) → List KeyEvent
events_of key_unknown released = []
events_of key true = key_up key ∷ []
events_of key false = key_down key ∷ []

events_of_known :
    (key : DoomKey) (released : Bool)
    → key ≢ key_unknown
    → events_of key released ≡ (if released then key_up key ∷ [] else key_down key ∷ [])
unfolding events_of
events_of_known key_unknown released known = absurd (known refl)
events_of_known _ true known = refl
events_of_known _ false known = refl

==-false : {a b : ℕ} → (a == b) ≡ false → a ≢ b
==-false e = ground arith

get_elem?-middle {ℓ} :
    {A : Type ℓ} (before : List A) (x : A) (after : List A)
    → get_elem? (before ++ x ∷ after) (length before) ≡ some x
get_elem?-middle [] x after = refl
get_elem?-middle (y ∷ before) x after = get_elem?-middle before x after

module _ {R : Type 0} (api : KeyboardApi R) where
  open api use {record_bytes, make_code, flags, key_number, unknown_alone}

  -- The events of a list of records, without the engine's numbers of its keys.
  unfoldable pub events_in : List R → List KeyEvent
  events_in [] = []
  events_in (r ∷ rs) =
      events_of (scan_code_to_doom (make_code r) (flags r)) (not (bit_and (flags r) key_break == 0))
      ++ events_in rs

  event_by_number :
      (key : DoomKey) (released : Bool)
      → (if key_number key == key_number key_unknown
          then []
          else if released
          then key_up key ∷ []
          else key_down key ∷ [])
        ≡ events_of key released
  unfolding events_of
  event_by_number key released = elim (Bool-cases (key_number key == key_number key_unknown)) [
    | inl same ↦
        let none : key ≡ key_unknown = unknown_alone key (ground arith) in
        rw same (ap (λ k. events_of k released) (sym none))
    | inr other ↦
        rw other (sym (events_of_known key released (λ e. ==-false other (ap key_number e))))
  ]

  record_events-events_of :
      (r : R)
      → record_events api r
        ≡ events_of
            (scan_code_to_doom (make_code r) (flags r))
            (not (bit_and (flags r) key_break == 0))
  unfolding record_events
  record_events-events_of r =
      event_by_number (scan_code_to_doom (make_code r) (flags r))
        (not (bit_and (flags r) key_break == 0))

  -- The rounds of the loop deliver the records that are left.
  dispatch_loop-events_in :
      (before records rest : List R)
      → dispatch_loop api (length records) (length before) (before ++ (records ++ rest))
        ≡ some (events_in records)
  unfolding dispatch_loop events_in
  dispatch_loop-events_in before [] rest = refl
  dispatch_loop-events_in before (r ∷ records) rest =
      let later = dispatch_loop-events_in (before ++ r ∷ []) records rest in
      let one_more : length (before ++ r ∷ []) ≡ length before + 1 =
        omega (arith, length-append before (r ∷ [])) in
      let here : dispatch_loop api (length records) (length before + 1)
            (before ++ r ∷ (records ++ rest))
          ≡ some (events_in records) =
        subst
          (λ xs.
            dispatch_loop api (length records) (length before + 1) xs ≡ some (events_in records))
          (append_assoc before (r ∷ []) (records ++ rest))
          (subst
            (λ n.
              dispatch_loop api (length records) n ((before ++ r ∷ []) ++ (records ++ rest))
              ≡ some (events_in records))
            one_more later) in
      rw (
        get_elem?-middle before r (records ++ rest),
        dispatch_loop,
        here,
        record_events-events_of r,
      )

  -- A successful ioctl that reports the size of `records`, which stand at the start of the buffer,
  -- makes the poll deliver exactly their events, in order: for each record of a known key one
  -- event, down or up by its KEY_BREAK flag, and none for the others. Nothing behind them is read,
  -- and the keyboard stays available.
  pub poll_keyboard_delivers :
      (ioctl : ℕ → IoctlResult R) (records rest : List R)
      → buffer_records * record_bytes < 2 ^ 32
      → length records ≤ buffer_records
      → failed (ioctl (buffer_records * record_bytes)).status ≡ false
      → (ioctl (buffer_records * record_bytes)).information ≡ length records * record_bytes
      → (ioctl (buffer_records * record_bytes)).buffer ≡ records ++ rest
      → poll_keyboard api true ioctl
        ≡ some (record {
          keyboard_available = true;
          calls = get_keyboard (buffer_records * record_bytes) ∷ map engine (events_in records);
        })
  unfolding poll_keyboard dispatch_keyboard_records events_in
  poll_keyboard_delivers ioctl [] rest small few well size start =
      let no_bytes : (length {A = R} [] * record_bytes == 0) ≡ true = grind arith in
      rw (well, size, no_bytes) refl
  poll_keyboard_delivers ioctl (r ∷ records) rest small few well size start =
      let some_bytes : (length (r ∷ records) * record_bytes == 0) ≡ false =
        grind (arith, api.record_bytes_pos) in
      let rounds : length (r ∷ records) * record_bytes % 2 ^ 32 / record_bytes
          ≡ length (r ∷ records) =
        grind (arith, api.record_bytes_pos) in
      rw (well, size, start, some_bytes, rounds)
        (rw (dispatch_loop-events_in [] (r ∷ records) rest) refl)
