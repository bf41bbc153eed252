-- ===== src/Client/Keys.antt =====
-- scan_code_to_doom, dispatch_keyboard_records and poll_keyboard of native/win0-doom.c.
-- The keys are the enumerators of the engine's doom_key_t that the function names. What ntddkbd.h
-- gives of a KEYBOARD_INPUT_DATA, and the engine's numbers for its keys, are `KeyboardApi`.
pub mod Codes
pub mod Dispatch
use Prim.Native.Nat.{bit_and}
use mathlib.Core.Option
use win0_doom.Shared.{
  ℕ, zero, suc, ◌+◌, ◌*◌, ◌/◌, ◌%◌, ◌^◌, ◌<◌, ◌≡◌, List, [], ◌∷◌, ◌++◌, Option, none, some, Bool,
  true, false, not, ◌==◌, if◌then◌else◌, get_elem?, map,
}
use win0_doom.Client.Path.{codes}
use win0_doom.Client.Text.{print_hex_text}
use win0_doom.Client.File.{failed}

pub data DoomKey : Type 0 where
  key_unknown key_up_arrow key_left_arrow key_right_arrow key_down_arrow key_ctrl key_alt key_escape
        key_1 key_2 key_3 key_4 key_5 key_6 key_7 key_8 key_9 key_0 key_minus key_equals
        key_backspace key_tab key_q key_w key_e key_r key_t key_y key_u key_i key_o key_p
        key_left_bracket key_right_bracket key_enter key_a key_s key_d key_f key_g key_h key_j key_k
        key_l key_semicolon key_apostrophe key_shift key_z key_x key_c key_v key_b key_n key_m
        key_comma key_period key_slash key_multiply key_space key_f1 key_f2 key_f3 key_f4 key_f5
        key_f6 key_f7 key_f8 key_f9 :
      DoomKey

-- The value of a switch over these cases; the first that fits is the only one.
unfoldable pub switch : List (ℕ × DoomKey) → ℕ → DoomKey
switch [] code = key_unknown
switch ((c, key) ∷ cases) code = if code == c then key else switch cases code

-- The cases for a code with the E0 prefix, and without.
abbrev pub extended_cases : List (ℕ × DoomKey)
extended_cases =
    (0x48, key_up_arrow)
    ∷ (0x4b, key_left_arrow)
    ∷ (0x4d, key_right_arrow)
    ∷ (0x50, key_down_arrow)
    ∷ (0x1d, key_ctrl)
    ∷ (0x38, key_alt)
    ∷ []

abbrev pub base_cases : List (ℕ × DoomKey)
base_cases =
    (0x01, key_escape)
    ∷ (0x02, key_1)
    ∷ (0x03, key_2)
    ∷ (0x04, key_3)
    ∷ (0x05, key_4)
    ∷ (0x06, key_5)
    ∷ (0x07, key_6)
    ∷ (0x08, key_7)
    ∷ (0x09, key_8)
    ∷ (0x0a, key_9)
    ∷ (0x0b, key_0)
    ∷ (0x0c, key_minus)
    ∷ (0x0d, key_equals)
    ∷ (0x0e, key_backspace)
    ∷ (0x0f, key_tab)
    ∷ (0x10, key_q)
    ∷ (0x11, key_w)
    ∷ (0x12, key_e)
    ∷ (0x13, key_r)
    ∷ (0x14, key_t)
    ∷ (0x15, key_y)
    ∷ (0x16, key_u)
    ∷ (0x17, key_i)
    ∷ (0x18, key_o)
    ∷ (0x19, key_p)
    ∷ (0x1a, key_left_bracket)
    ∷ (0x1b, key_right_bracket)
    ∷ (0x1c, key_enter)
    ∷ (0x1d, key_ctrl)
    ∷ (0x1e, key_a)
    ∷ (0x1f, key_s)
    ∷ (0x20, key_d)
    ∷ (0x21, key_f)
    ∷ (0x22, key_g)
    ∷ (0x23, key_h)
    ∷ (0x24, key_j)
    ∷ (0x25, key_k)
    ∷ (0x26, key_l)
    ∷ (0x27, key_semicolon)
    ∷ (0x28, key_apostrophe)
    ∷ (0x2a, key_shift)
    ∷ (0x36, key_shift)
    ∷ (0x2c, key_z)
    ∷ (0x2d, key_x)
    ∷ (0x2e, key_c)
    ∷ (0x2f, key_v)
    ∷ (0x30, key_b)
    ∷ (0x31, key_n)
    ∷ (0x32, key_m)
    ∷ (0x33, key_comma)
    ∷ (0x34, key_period)
    ∷ (0x35, key_slash)
    ∷ (0x37, key_multiply)
    ∷ (0x38, key_alt)
    ∷ (0x39, key_space)
    ∷ (0x3b, key_f1)
    ∷ (0x3c, key_f2)
    ∷ (0x3d, key_f3)
    ∷ (0x3e, key_f4)
    ∷ (0x3f, key_f5)
    ∷ (0x40, key_f6)
    ∷ (0x41, key_f7)
    ∷ (0x42, key_f8)
    ∷ (0x43, key_f9)
    ∷ []

-- `make_code` and `flags` read the fields of a record. The engine's number for an unknown key is no
-- other key's.
pub record KeyboardApi (R : Type 0) : Type 0 where
  pub record_bytes : ℕ
  pub record_bytes_pos : 0 < record_bytes
  pub make_code : R → ℕ
  pub flags : R → ℕ
  pub key_number : DoomKey → ℕ
  pub unknown_alone : (key : DoomKey) → key_number key ≡ key_number key_unknown → key ≡ key_unknown

-- The bits of the flags, as ntddkbd.h documents them.
abbrev pub key_break : ℕ
key_break = 1

abbrev pub key_e0 : ℕ
key_e0 = 2

unfoldable pub scan_code_to_doom : (make_code flags : ℕ) → DoomKey
unfolding switch
scan_code_to_doom make_code flags =
    if not (bit_and flags key_e0 == 0)
    then switch extended_cases make_code
    else switch base_cases make_code

-- doom_key_down and doom_key_up
pub data KeyEvent : Type 0 where
  key_down key_up : DoomKey → KeyEvent

-- IOCTL_WIN0DOOM_PRESENT and IOCTL_WIN0DOOM_GET_KEYBOARD, as the program writes them.
abbrev pub present_code : ℕ
present_code = 0x0022a000

abbrev pub get_keyboard_code : ℕ
get_keyboard_code = 0x00222004

abbrev pub buffer_records : ℕ
buffer_records = 32

-- What the ioctl of poll_keyboard gives: its status, and the records that are in keyboard_buffer
-- after it, from the first on. The whole array is 32 records; a shorter list is a front of it.
pub record IoctlResult (R : Type 0) : Type 0 where
  pub status : ℕ
  pub information : ℕ
  pub buffer : List R

-- The calls of one poll: engine events, the diagnosis, and the delay in units of 100 ns.
pub data PollCall : Type 0 where
  engine : KeyEvent → PollCall
  get_keyboard : (capacity : ℕ) → PollCall
  print : (text : List ℕ) → PollCall
  delay : (ticks : ℕ) → PollCall

pub record Polled : Type 0 where
  pub keyboard_available : Bool
  pub calls : List PollCall

module _ {R : Type 0} (api : KeyboardApi R) where
  open api use {record_bytes, make_code, flags, key_number}

  -- The body of the dispatch loop: no event for a key that is not known.
  pub record_events : R → List KeyEvent
  unfolding scan_code_to_doom
  record_events r =
      let key = scan_code_to_doom (make_code r) (flags r) in
      if key_number key == key_number key_unknown
      then []
      else if not (bit_and (flags r) key_break == 0)
      then key_up key ∷ []
      else key_down key ∷ []

  -- The loop, with the rounds left; `none` stands for a read outside the buffer.
  unfoldable pub dispatch_loop : (rounds index : ℕ) → List R → Option (List KeyEvent)
  dispatch_loop zero index records = some []
  dispatch_loop (suc rounds) index records = elim (get_elem? records index) [
    | none ↦ none
    | some r ↦
        Option.map (λ later. record_events r ++ later) (dispatch_loop rounds (index + 1) records)
  ]

  unfoldable pub dispatch_keyboard_records : List R → (byte_count : ℕ) → Option (List KeyEvent)
  unfolding dispatch_loop
  dispatch_keyboard_records records byte_count = dispatch_loop (byte_count / record_bytes) 0 records

  unfoldable pub poll_failed : ℕ → List PollCall
  poll_failed status =
      print (codes "\r\nwin0 doom: keyboard ioctl failed with status ")
      ∷ print (print_hex_text status)
      ∷ print (codes "; demo mode only.\r\n")
      ∷ delay 50000000
      ∷ []

  -- The ioctl is asked for the capacity of the buffer.
  unfoldable pub poll_keyboard : Bool → ((capacity : ℕ) → IoctlResult R) → Option Polled
  unfolding poll_failed dispatch_keyboard_records
  poll_keyboard false ioctl = some (record { keyboard_available = false; calls = [] })
  poll_keyboard true ioctl =
      let capacity = buffer_records * record_bytes in
      let io = ioctl capacity in
      if failed io.status
      then some (record {
        keyboard_available = false;
        calls = get_keyboard capacity ∷ poll_failed io.status;
      })
      else if not (io.information == 0)
      then Option.map
          (λ events. record {
            keyboard_available = true;
            calls = get_keyboard capacity ∷ map engine events;
          })
          (dispatch_keyboard_records io.buffer (io.information % 2 ^ 32))
      else some (record { keyboard_available = true; calls = get_keyboard capacity ∷ [] })
