-- ===== src/Terminal.antt =====
-- The terminal of kernel/system/terminal.cpp: its static state, and its functions over a memory of
-- pixels that is a function of the address, counted in pixels. The glyphs `font` are those of
-- kernel/system/font.cpp, 16 bytes each, and are a parameter. Coordinates are 32-bit, and below
-- 2 ^ 31 where put_pixel takes them as int.
pub mod Glyph
pub mod Cursor
mod Tests
use gloxor.Base.{
  ℕ, zero, suc, ◌+◌, ◌-◌, ◌*◌, ◌/◌, ◌%◌, ◌^◌, List, [], ◌∷◌, Bool, true, false, not, ltb, leb, ◌==◌,
  if◌then◌else◌, bit_and,
}
use gloxor.Algorithms.{write, copy_overlapped, set_range}

abbrev pub font_width : ℕ
font_width = 8

abbrev pub font_height : ℕ
font_height = 16

-- The arithmetic of u32.
abbrev pub u32 : ℕ → ℕ
u32 n = n % 4294967296

-- The frame buffer `con`, the colours `fgbg`, the cursor `at` and its look.
pub record Terminal : Type 0 where
  pub fb_beg : ℕ
  pub fb_end : ℕ
  pub width : ℕ
  pub height : ℕ
  pub pitch : ℕ
  pub fg : ℕ
  pub bg : ℕ
  pub x : ℕ
  pub y : ℕ
  pub cursor_shape : ℕ

abbrev pub Pixels : Type 0
Pixels = ℕ → ℕ

unfoldable pub put_pixel : Terminal → ℕ → ℕ → ℕ → Pixels → Pixels
unfolding write
put_pixel t x y color m = write m (t.fb_beg + (y * t.pitch + x)) color

-- The colour of a pixel of a glyph: row `i1` of the glyph at `index`, bit `j1` from the left.
unfoldable pub glyph_color : (ℕ → ℕ) → Terminal → ℕ → ℕ → ℕ → ℕ
glyph_color font t index i1 j1 =
    if bit_and (font (index + i1)) (128 / 2 ^ j1) == 0 then t.bg else t.fg

-- The inner loop of write_char, with `n` rounds to go; the scale is 1.
unfoldable pub write_columns : (ℕ → ℕ) → Terminal → ℕ → ℕ → ℕ → ℕ → ℕ → ℕ → ℕ → Pixels → Pixels
unfolding put_pixel glyph_color
write_columns font t index i1 i2 zero j j1 j2 m = m
write_columns font t index i1 i2 (suc n) j j1 j2 m =
    let wraps = j + 1 == 1 in
    write_columns font t index i1 i2 n (if wraps then 0 else j + 1) (if wraps then j1 + 1 else j1)
      (j2 + 1) (put_pixel t (t.x + j2) (t.y + i2) (glyph_color font t index i1 j1) m)

-- The outer loop.
unfoldable pub write_rows : (ℕ → ℕ) → Terminal → ℕ → ℕ → ℕ → ℕ → ℕ → Pixels → Pixels
unfolding write_columns
write_rows font t index zero i i1 i2 m = m
write_rows font t index (suc n) i i1 i2 m =
    let wraps = i + 1 == 1 in
    write_rows font t index n (if wraps then 0 else i + 1) (if wraps then i1 + 1 else i1) (i2 + 1)
      (write_columns font t index i1 i2 font_width 0 0 0 m)

-- At the cursor and in the colours of the terminal.
unfoldable pub write_char : (ℕ → ℕ) → Terminal → ℕ → Pixels → Pixels
unfolding write_rows
write_char font t ch m = write_rows font t (ch % 256 * 16) font_height 0 0 0 m

unfoldable pub exec_newline : Terminal → Pixels → Terminal × Pixels
unfolding copy_overlapped set_range
exec_newline t m =
    let line_offset = t.pitch * font_height in
    let end_pos = t.fb_beg + t.pitch * u32 (font_height + t.y) in
    let beg = t.fb_beg + line_offset in
    let moved = copy_overlapped (end_pos - beg) beg t.fb_beg m in
    let from = t.fb_beg + t.pitch * t.y in
    (record t { x = 0 }, set_range (t.fb_end - from) from t.bg moved)

-- The scroll that parse_char begins with.
unfoldable pub scroll : Terminal → Pixels → Terminal × Pixels
unfolding exec_newline
scroll t m =
    if ltb t.height (u32 (t.y + font_height))
    then exec_newline (record t { y = u32 (t.y + (4294967296 - font_height)) }) m
    else (t, m)

-- The switch.
unfoldable pub put_or_break : (ℕ → ℕ) → ℕ → Terminal × Pixels → Terminal × Pixels
put_or_break font c (t, m) =
    let yoffset = u32 (t.y + font_height) in
    if c == 10
    then (if leb t.fb_end (t.fb_beg + t.pitch * yoffset)
        then exec_newline t m
        else (record t { y = yoffset; x = 0 }, m))
    else (record t { x = u32 (t.x + font_width) }, write_char font t c m)

-- The test at the end, whether the next character goes to the next line.
unfoldable pub wrap_line : Terminal × Pixels → Terminal × Pixels
wrap_line (t, m) =
    if leb t.pitch (u32 (t.x + font_width))
    then (record t { y = u32 (t.y + font_height); x = 0 }, m)
    else (t, m)

unfoldable pub parse_char : (ℕ → ℕ) → ℕ → Terminal × Pixels → Terminal × Pixels
parse_char font c (t, m) = wrap_line (put_or_break font c (scroll t m))

unfoldable pub write_str : (ℕ → ℕ) → List ℕ → Terminal × Pixels → Terminal × Pixels
write_str font [] s = s
write_str font (c ∷ str) s = write_str font str (parse_char font c s)

-- Keeps the colours and the cursor.
unfoldable pub init_term : ℕ → ℕ → ℕ → ℕ → ℕ → Terminal → Terminal
init_term beg fin pitch width height t = record t {
  fb_beg = beg;
  fb_end = fin;
  width = width;
  height = height;
  pitch = pitch;
}

unfoldable pub clear_screen : ℕ → Terminal × Pixels → Terminal × Pixels
unfolding set_range
clear_screen color (t, m) =
    (record t { x = 0; y = 0 }, set_range (t.fb_end - t.fb_beg) t.fb_beg color m)

unfoldable pub set_fg_color : ℕ → Terminal → Terminal
set_fg_color fg t = record t { fg = fg }

unfoldable pub set_bg_color : ℕ → Terminal → Terminal
set_bg_color bg t = record t { bg = bg }

unfoldable pub set_cursor_look : ℕ → Terminal → Terminal
set_cursor_look ascii t = record t { cursor_shape = ascii % 256 }
