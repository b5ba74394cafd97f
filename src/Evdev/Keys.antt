-- ===== src/Evdev/Keys.antt =====
-- keyboard_evdev.py: the keycodes that the program names, and its two tables. A keycode is only
-- ever compared and looked up, so it is given by the name that `evdev.ecodes` has for it; the
-- numbers behind the names are the kernel's, and the program does not depend on them.
use toothkey.Base.{ℕ, ◌^◌, Option, none, some, List, [], ◌∷◌, ℕ_discrete}

pub data Key : Type 0 where
  key_a key_b key_c key_d key_e key_f key_g key_h key_i key_j key_k key_l key_m key_n : Key
  key_o key_p key_q key_r key_s key_t key_u key_v key_w key_x key_y key_z key_1 key_2 : Key
  key_3 key_4 key_5 key_6 key_7 key_8 key_9 key_0 key_enter key_esc key_backspace key_tab : Key
  key_space key_minus key_equal key_leftbrace key_rightbrace key_backslash key_semicolon : Key
  key_apostrophe key_grave key_comma key_dot key_slash key_capslock key_f1 key_f2 key_f3 : Key
  key_f4 key_f5 key_f6 key_f7 key_f8 key_f9 key_f10 key_f11 key_f12 key_sysrq : Key
  key_scrolllock key_pause key_insert key_home key_pageup key_delete key_end key_pagedown : Key
  key_right key_left key_down key_up key_numlock key_kpslash key_kpasterisk key_kpminus : Key
  key_kpplus key_kpenter key_kp1 key_kp2 key_kp3 key_kp4 key_kp5 key_kp6 key_kp7 key_kp8 : Key
  key_kp9 key_kp0 key_kpdot key_102nd key_compose key_kpequal key_f13 key_f14 key_f15 : Key
  key_f16 key_f17 key_f18 key_f19 key_f20 key_f21 key_f22 key_f23 key_f24 key_open : Key
  key_help key_props key_front key_stop key_again key_undo key_cut key_copy key_paste : Key
  key_find key_mute key_volumeup key_volumedown key_ro key_katakanahiragana key_yen : Key
  key_henkan key_muhenkan key_kpjpcomma key_hangeul key_hanja key_katakana key_hiragana : Key
  key_zenkakuhankaku key_leftctrl key_leftshift key_leftalt key_leftmeta key_rightctrl : Key
  key_rightshift key_rightalt key_rightmeta btn_left btn_right btn_touch btn_stylus : Key
  other : ℕ → Key

unfoldable pub Key-discrete : Discrete Key
Key-discrete = hlevel ℕ_discrete

-- `KEYCODE_TO_HID.get(code)`
unfoldable pub keycode_to_hid : Key → Option ℕ
keycode_to_hid key_a = some 4
keycode_to_hid key_b = some 5
keycode_to_hid key_c = some 6
keycode_to_hid key_d = some 7
keycode_to_hid key_e = some 8
keycode_to_hid key_f = some 9
keycode_to_hid key_g = some 10
keycode_to_hid key_h = some 11
keycode_to_hid key_i = some 12
keycode_to_hid key_j = some 13
keycode_to_hid key_k = some 14
keycode_to_hid key_l = some 15
keycode_to_hid key_m = some 16
keycode_to_hid key_n = some 17
keycode_to_hid key_o = some 18
keycode_to_hid key_p = some 19
keycode_to_hid key_q = some 20
keycode_to_hid key_r = some 21
keycode_to_hid key_s = some 22
keycode_to_hid key_t = some 23
keycode_to_hid key_u = some 24
keycode_to_hid key_v = some 25
keycode_to_hid key_w = some 26
keycode_to_hid key_x = some 27
keycode_to_hid key_y = some 28
keycode_to_hid key_z = some 29
keycode_to_hid key_1 = some 30
keycode_to_hid key_2 = some 31
keycode_to_hid key_3 = some 32
keycode_to_hid key_4 = some 33
keycode_to_hid key_5 = some 34
keycode_to_hid key_6 = some 35
keycode_to_hid key_7 = some 36
keycode_to_hid key_8 = some 37
keycode_to_hid key_9 = some 38
keycode_to_hid key_0 = some 39
keycode_to_hid key_enter = some 40
keycode_to_hid key_esc = some 41
keycode_to_hid key_backspace = some 42
keycode_to_hid key_tab = some 43
keycode_to_hid key_space = some 44
keycode_to_hid key_minus = some 45
keycode_to_hid key_equal = some 46
keycode_to_hid key_leftbrace = some 47
keycode_to_hid key_rightbrace = some 48
keycode_to_hid key_backslash = some 49
keycode_to_hid key_semicolon = some 51
keycode_to_hid key_apostrophe = some 52
keycode_to_hid key_grave = some 53
keycode_to_hid key_comma = some 54
keycode_to_hid key_dot = some 55
keycode_to_hid key_slash = some 56
keycode_to_hid key_capslock = some 57
keycode_to_hid key_f1 = some 58
keycode_to_hid key_f2 = some 59
keycode_to_hid key_f3 = some 60
keycode_to_hid key_f4 = some 61
keycode_to_hid key_f5 = some 62
keycode_to_hid key_f6 = some 63
keycode_to_hid key_f7 = some 64
keycode_to_hid key_f8 = some 65
keycode_to_hid key_f9 = some 66
keycode_to_hid key_f10 = some 67
keycode_to_hid key_f11 = some 68
keycode_to_hid key_f12 = some 69
keycode_to_hid key_sysrq = some 70
keycode_to_hid key_scrolllock = some 71
keycode_to_hid key_pause = some 72
keycode_to_hid key_insert = some 73
keycode_to_hid key_home = some 74
keycode_to_hid key_pageup = some 75
keycode_to_hid key_delete = some 76
keycode_to_hid key_end = some 77
keycode_to_hid key_pagedown = some 78
keycode_to_hid key_right = some 79
keycode_to_hid key_left = some 80
keycode_to_hid key_down = some 81
keycode_to_hid key_up = some 82
keycode_to_hid key_numlock = some 83
keycode_to_hid key_kpslash = some 84
keycode_to_hid key_kpasterisk = some 85
keycode_to_hid key_kpminus = some 86
keycode_to_hid key_kpplus = some 87
keycode_to_hid key_kpenter = some 88
keycode_to_hid key_kp1 = some 89
keycode_to_hid key_kp2 = some 90
keycode_to_hid key_kp3 = some 91
keycode_to_hid key_kp4 = some 92
keycode_to_hid key_kp5 = some 93
keycode_to_hid key_kp6 = some 94
keycode_to_hid key_kp7 = some 95
keycode_to_hid key_kp8 = some 96
keycode_to_hid key_kp9 = some 97
keycode_to_hid key_kp0 = some 98
keycode_to_hid key_kpdot = some 99
keycode_to_hid key_102nd = some 100
keycode_to_hid key_compose = some 101
keycode_to_hid key_kpequal = some 103
keycode_to_hid key_f13 = some 104
keycode_to_hid key_f14 = some 105
keycode_to_hid key_f15 = some 106
keycode_to_hid key_f16 = some 107
keycode_to_hid key_f17 = some 108
keycode_to_hid key_f18 = some 109
keycode_to_hid key_f19 = some 110
keycode_to_hid key_f20 = some 111
keycode_to_hid key_f21 = some 112
keycode_to_hid key_f22 = some 113
keycode_to_hid key_f23 = some 114
keycode_to_hid key_f24 = some 115
keycode_to_hid key_open = some 116
keycode_to_hid key_help = some 117
keycode_to_hid key_props = some 118
keycode_to_hid key_front = some 119
keycode_to_hid key_stop = some 120
keycode_to_hid key_again = some 121
keycode_to_hid key_undo = some 122
keycode_to_hid key_cut = some 123
keycode_to_hid key_copy = some 124
keycode_to_hid key_paste = some 125
keycode_to_hid key_find = some 126
keycode_to_hid key_mute = some 127
keycode_to_hid key_volumeup = some 128
keycode_to_hid key_volumedown = some 129
keycode_to_hid key_ro = some 135
keycode_to_hid key_katakanahiragana = some 136
keycode_to_hid key_yen = some 137
keycode_to_hid key_henkan = some 138
keycode_to_hid key_muhenkan = some 139
keycode_to_hid key_kpjpcomma = some 140
keycode_to_hid key_hangeul = some 144
keycode_to_hid key_hanja = some 145
keycode_to_hid key_katakana = some 146
keycode_to_hid key_hiragana = some 147
keycode_to_hid key_zenkakuhankaku = some 148
keycode_to_hid _ = none

-- `KEYCODE_TO_MOD_BIT.get(code)`; the lookups below are `code in KEYCODE_TO_MOD_BIT` and
-- `KEYCODE_TO_MOD_BIT[code]`.
unfoldable pub keycode_to_mod_bit : Key → Option ℕ
keycode_to_mod_bit key_leftctrl = some (2 ^ 0)
keycode_to_mod_bit key_leftshift = some (2 ^ 1)
keycode_to_mod_bit key_leftalt = some (2 ^ 2)
keycode_to_mod_bit key_leftmeta = some (2 ^ 3)
keycode_to_mod_bit key_rightctrl = some (2 ^ 4)
keycode_to_mod_bit key_rightshift = some (2 ^ 5)
keycode_to_mod_bit key_rightalt = some (2 ^ 6)
keycode_to_mod_bit key_rightmeta = some (2 ^ 7)
keycode_to_mod_bit _ = none

abbrev pub ctrl_keys : List Key
ctrl_keys = key_leftctrl ∷ key_rightctrl ∷ []

abbrev pub shift_keys : List Key
shift_keys = key_leftshift ∷ key_rightshift ∷ []

abbrev pub alt_keys : List Key
alt_keys = key_leftalt ∷ key_rightalt ∷ []

abbrev pub meta_keys : List Key
meta_keys = key_leftmeta ∷ key_rightmeta ∷ []

-- How many non-modifier keys a report can carry.
abbrev pub max_keys : ℕ
max_keys = 6

-- Usage 0x01, which a boot keyboard puts in every slot when more keys are held.
abbrev pub hid_error_rollover : ℕ
hid_error_rollover = 0x01
