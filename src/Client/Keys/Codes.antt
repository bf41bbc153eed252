-- ===== src/Client/Keys/Codes.antt =====
-- The scan codes and the keys that they stand for.
use win0_doom.Shared.{ℕ, List, [], ◌∷◌, Bool, true, ◌&&◌, ltb}
use win0_doom.Client.Keys.{DoomKey}
use win0_doom.Client.Keys.{
  key_unknown, key_up_arrow, key_left_arrow, key_right_arrow, key_down_arrow, key_ctrl, key_alt,
  key_escape, key_1, key_2, key_3, key_4, key_5, key_6, key_7, key_8, key_9, key_0, key_minus,
  key_equals, key_backspace, key_tab, key_q, key_w, key_e, key_r, key_t, key_y, key_u, key_i, key_o,
  key_p, key_left_bracket, key_right_bracket, key_enter, key_a, key_s, key_d, key_f, key_g, key_h,
  key_j, key_k, key_l, key_semicolon, key_apostrophe, key_shift, key_z, key_x, key_c, key_v, key_b,
  key_n, key_m, key_comma, key_period, key_slash, key_multiply, key_space, key_f1, key_f2, key_f3,
  key_f4, key_f5, key_f6, key_f7, key_f8, key_f9,
}

-- The scan code of a key on the main block of the keyboard, that of the left one where there are two.
code_of : DoomKey → ℕ
code_of key_escape = 0x01
code_of key_1 = 0x02
code_of key_2 = 0x03
code_of key_3 = 0x04
code_of key_4 = 0x05
code_of key_5 = 0x06
code_of key_6 = 0x07
code_of key_7 = 0x08
code_of key_8 = 0x09
code_of key_9 = 0x0a
code_of key_0 = 0x0b
code_of key_minus = 0x0c
code_of key_equals = 0x0d
code_of key_backspace = 0x0e
code_of key_tab = 0x0f
code_of key_q = 0x10
code_of key_w = 0x11
code_of key_e = 0x12
code_of key_r = 0x13
code_of key_t = 0x14
code_of key_y = 0x15
code_of key_u = 0x16
code_of key_i = 0x17
code_of key_o = 0x18
code_of key_p = 0x19
code_of key_left_bracket = 0x1a
code_of key_right_bracket = 0x1b
code_of key_enter = 0x1c
code_of key_ctrl = 0x1d
code_of key_a = 0x1e
code_of key_s = 0x1f
code_of key_d = 0x20
code_of key_f = 0x21
code_of key_g = 0x22
code_of key_h = 0x23
code_of key_j = 0x24
code_of key_k = 0x25
code_of key_l = 0x26
code_of key_semicolon = 0x27
code_of key_apostrophe = 0x28
code_of key_shift = 0x2a
code_of key_z = 0x2c
code_of key_x = 0x2d
code_of key_c = 0x2e
code_of key_v = 0x2f
code_of key_b = 0x30
code_of key_n = 0x31
code_of key_m = 0x32
code_of key_comma = 0x33
code_of key_period = 0x34
code_of key_slash = 0x35
code_of key_multiply = 0x37
code_of key_alt = 0x38
code_of key_space = 0x39
code_of key_f1 = 0x3b
code_of key_f2 = 0x3c
code_of key_f3 = 0x3d
code_of key_f4 = 0x3e
code_of key_f5 = 0x3f
code_of key_f6 = 0x40
code_of key_f7 = 0x41
code_of key_f8 = 0x42
code_of key_f9 = 0x43
code_of key_unknown = 0
code_of key_up_arrow = 0x48
code_of key_left_arrow = 0x4b
code_of key_right_arrow = 0x4d
code_of key_down_arrow = 0x50

abbrev all_below : ℕ → List (ℕ × DoomKey) → Bool
all_below n [] = true
all_below n ((c, key) ∷ cases) = ltb c n && all_below n cases
