-- ===== src/Evdev/Report/Usages.antt =====
-- KEYCODE_TO_HID read backwards: the key of each usage, in the order of the HID usage page.
use toothkey.Base.{ℕ, ◌≡◌, some, List, [], ◌∷◌, arith, get_or, ◌∙◌, sym}
use toothkey.Evdev.Keys.{
  Key, keycode_to_hid, other, key_0, key_1, key_102nd, key_2, key_3, key_4, key_5, key_6, key_7,
  key_8, key_9, key_a, key_again, key_apostrophe, key_b, key_backslash, key_backspace, key_c,
  key_capslock, key_comma, key_compose, key_copy, key_cut, key_d, key_delete, key_dot, key_down,
  key_e, key_end, key_enter, key_equal, key_esc, key_f, key_f1, key_f10, key_f11, key_f12, key_f13,
  key_f14, key_f15, key_f16, key_f17, key_f18, key_f19, key_f2, key_f20, key_f21, key_f22, key_f23,
  key_f24, key_f3, key_f4, key_f5, key_f6, key_f7, key_f8, key_f9, key_find, key_front, key_g,
  key_grave, key_h, key_hangeul, key_hanja, key_help, key_henkan, key_hiragana, key_home, key_i,
  key_insert, key_j, key_k, key_katakana, key_katakanahiragana, key_kp0, key_kp1, key_kp2, key_kp3,
  key_kp4, key_kp5, key_kp6, key_kp7, key_kp8, key_kp9, key_kpasterisk, key_kpdot, key_kpenter,
  key_kpequal, key_kpjpcomma, key_kpminus, key_kpplus, key_kpslash, key_l, key_left, key_leftbrace,
  key_m, key_minus, key_muhenkan, key_mute, key_n, key_numlock, key_o, key_open, key_p,
  key_pagedown, key_pageup, key_paste, key_pause, key_props, key_q, key_r, key_right,
  key_rightbrace, key_ro, key_s, key_scrolllock, key_semicolon, key_slash, key_space, key_stop,
  key_sysrq, key_t, key_tab, key_u, key_undo, key_up, key_v, key_volumedown, key_volumeup, key_w,
  key_x, key_y, key_yen, key_z, key_zenkakuhankaku,
}

key_table : List Key
key_table =
    other 0
    ∷ other 0
    ∷ other 0
    ∷ other 0
    ∷ key_a
    ∷ key_b
    ∷ key_c
    ∷ key_d
    ∷ key_e
    ∷ key_f
    ∷ key_g
    ∷ key_h
    ∷ key_i
    ∷ key_j
    ∷ key_k
    ∷ key_l
    ∷ key_m
    ∷ key_n
    ∷ key_o
    ∷ key_p
    ∷ key_q
    ∷ key_r
    ∷ key_s
    ∷ key_t
    ∷ key_u
    ∷ key_v
    ∷ key_w
    ∷ key_x
    ∷ key_y
    ∷ key_z
    ∷ key_1
    ∷ key_2
    ∷ key_3
    ∷ key_4
    ∷ key_5
    ∷ key_6
    ∷ key_7
    ∷ key_8
    ∷ key_9
    ∷ key_0
    ∷ key_enter
    ∷ key_esc
    ∷ key_backspace
    ∷ key_tab
    ∷ key_space
    ∷ key_minus
    ∷ key_equal
    ∷ key_leftbrace
    ∷ key_rightbrace
    ∷ key_backslash
    ∷ other 0
    ∷ key_semicolon
    ∷ key_apostrophe
    ∷ key_grave
    ∷ key_comma
    ∷ key_dot
    ∷ key_slash
    ∷ key_capslock
    ∷ key_f1
    ∷ key_f2
    ∷ key_f3
    ∷ key_f4
    ∷ key_f5
    ∷ key_f6
    ∷ key_f7
    ∷ key_f8
    ∷ key_f9
    ∷ key_f10
    ∷ key_f11
    ∷ key_f12
    ∷ key_sysrq
    ∷ key_scrolllock
    ∷ key_pause
    ∷ key_insert
    ∷ key_home
    ∷ key_pageup
    ∷ key_delete
    ∷ key_end
    ∷ key_pagedown
    ∷ key_right
    ∷ key_left
    ∷ key_down
    ∷ key_up
    ∷ key_numlock
    ∷ key_kpslash
    ∷ key_kpasterisk
    ∷ key_kpminus
    ∷ key_kpplus
    ∷ key_kpenter
    ∷ key_kp1
    ∷ key_kp2
    ∷ key_kp3
    ∷ key_kp4
    ∷ key_kp5
    ∷ key_kp6
    ∷ key_kp7
    ∷ key_kp8
    ∷ key_kp9
    ∷ key_kp0
    ∷ key_kpdot
    ∷ key_102nd
    ∷ key_compose
    ∷ other 0
    ∷ key_kpequal
    ∷ key_f13
    ∷ key_f14
    ∷ key_f15
    ∷ key_f16
    ∷ key_f17
    ∷ key_f18
    ∷ key_f19
    ∷ key_f20
    ∷ key_f21
    ∷ key_f22
    ∷ key_f23
    ∷ key_f24
    ∷ key_open
    ∷ key_help
    ∷ key_props
    ∷ key_front
    ∷ key_stop
    ∷ key_again
    ∷ key_undo
    ∷ key_cut
    ∷ key_copy
    ∷ key_paste
    ∷ key_find
    ∷ key_mute
    ∷ key_volumeup
    ∷ key_volumedown
    ∷ other 0
    ∷ other 0
    ∷ other 0
    ∷ other 0
    ∷ other 0
    ∷ key_ro
    ∷ key_katakanahiragana
    ∷ key_yen
    ∷ key_henkan
    ∷ key_muhenkan
    ∷ key_kpjpcomma
    ∷ other 0
    ∷ other 0
    ∷ other 0
    ∷ key_hangeul
    ∷ key_hanja
    ∷ key_katakana
    ∷ key_hiragana
    ∷ key_zenkakuhankaku
    ∷ []

key_of : ℕ → Key
unfolding key_table
key_of u = get_or key_table u (other 0)

key_of-keycode_to_hid : (code : Key) (u : ℕ) → keycode_to_hid code ≡ some u → key_of u ≡ code
unfolding keycode_to_hid key_of
key_of-keycode_to_hid key_a u e = ground arith
key_of-keycode_to_hid _ u e = ground arith

-- Two keys with one usage are one key.
pub keycode_to_hid-injective :
    (j k : Key) (u : ℕ) → keycode_to_hid j ≡ some u → keycode_to_hid k ≡ some u → j ≡ k
keycode_to_hid-injective j k u p q = sym (key_of-keycode_to_hid j u p) ∙ key_of-keycode_to_hid k u q
