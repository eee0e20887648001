-- ===== src/Terminal/Tests.antt =====
-- Runs of the terminal, and its properties on a small frame buffer.
use gloxor.Base.{ℕ, ◌*◌, ◌%◌, ◌<◌, ◌≡◌, refl, [], ◌∷◌, ◌&&◌, ltb, if◌then◌else◌, arith}
use gloxor.Algorithms.Copies.{within}
use gloxor.Terminal.{
  Terminal, Pixels, glyph_color, write_char, exec_newline, write_str, clear_screen, set_fg_color,
}
use gloxor.Terminal.Glyph.{pixel, write_char-pixel, exec_newline-scrolls}
use gloxor.Terminal.Cursor.{InPlace, SameOutside, write_str-InPlace}

abbrev screen : Terminal
screen = record {
  fb_beg = 100;
  fb_end = 868;
  width = 20;
  height = 32;
  pitch = 24;
  fg = 1;
  bg = 0;
  x = 8;
  y = 16;
  cursor_shape = 95;
}

abbrev blank : Pixels
blank q = 7

-- Every glyph is a left border.
abbrev border : ℕ → ℕ
border k = 128

set_fg_run : (set_fg_color 5 screen).fg ≡ 5
unfolding set_fg_color
set_fg_run = refl

clear_run : (clear_screen 3 (screen, blank)).0.y ≡ 0
unfolding clear_screen
clear_run = refl

write_char-pixel_example :
    write_char border screen 65 blank (pixel screen 17 8)
    ≡ (if within 17 16 16 && within 8 8 8 then glyph_color border screen (65 % 256 * 16) 1 0 else 7)
write_char-pixel_example = write_char-pixel border screen 65 17 8 blank (omega arith) (omega arith)

exec_newline-scrolls_run :
    ((row col : ℕ)
      → col < 24
      → (exec_newline screen blank).1 (pixel screen row col)
        ≡ (if ltb row 16 then 7 else (if ltb row 32 then 0 else 7)))
    × ((q : ℕ) → q < 100 → (exec_newline screen blank).1 q ≡ 7)
    × ((exec_newline screen blank).0 ≡ record screen { x = 0 })
exec_newline-scrolls_run = exec_newline-scrolls screen blank (omega arith) (omega arith) refl

screen-InPlace : InPlace screen
screen-InPlace = record {
  buffer = record {
    tall = omega arith;
    wide = omega arith;
    height_small = omega arith;
    pitch_small = omega arith;
    ends = refl;
  };
  line = omega arith;
  row = omega arith;
  column = omega arith;
}

-- "A", a newline, "B".
write_str-InPlace_example :
    InPlace (write_str border (65 ∷ 10 ∷ 66 ∷ []) (screen, blank)).0
    × SameOutside screen blank (write_str border (65 ∷ 10 ∷ 66 ∷ []) (screen, blank)).1
write_str-InPlace_example = write_str-InPlace border (65 ∷ 10 ∷ 66 ∷ []) screen blank screen-InPlace
