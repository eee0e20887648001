-- ===== src/Terminal/Cursor.antt =====
-- The cursor of kernel/system/terminal.cpp: where it stands between two characters, and that nothing
-- is written outside the frame buffer.
use gloxor.Base.{
  ℕ, zero, suc, ◌+◌, ◌-◌, ◌*◌, ◌%◌, ◌≤◌, ◌<◌, ◌≡◌, ◌⊎◌, refl, ap, ◌∙◌, List, [], ◌∷◌, false, ltb,
  leb, ◌==◌, Bool-cases, inl, inr, arith,
}
use native.Mathlib.Nat.{add-mul}
use gloxor.Algorithms.Copies.{within}
use gloxor.Terminal.{
  Terminal, Pixels, write_columns, write_rows, write_char, exec_newline, scroll, put_or_break,
  wrap_line, parse_char, write_str,
}
use gloxor.Terminal.Glyph.{row_lem, write_columns-at, newline_at}

-- A frame buffer with room for a row of text and for a glyph.
pub record Buffer (t : Terminal) : Type 0 where
  pub tall : 16 ≤ t.height
  pub wide : 8 < t.pitch
  pub height_small : t.height + 16 < 4294967296
  pub pitch_small : t.pitch + 8 < 4294967296
  pub ends : t.fb_end ≡ t.fb_beg + t.height * t.pitch

-- The cursor between two characters: at the start of a row of text, perhaps below the last whole
-- one, with a column to spare behind the next glyph.
pub record InPlace (t : Terminal) : Type 0 where
  pub buffer : Buffer t
  pub line : t.y % 16 ≡ 0
  pub row : t.y ≤ t.height
  pub column : t.x + 8 < t.pitch

-- Two memories agree outside the frame buffer.
abbrev pub SameOutside : Terminal → Pixels → Pixels → Type 0
SameOutside t m m' = (q : ℕ) → (q < t.fb_beg) ⊎ (t.fb_end ≤ q) → m' q ≡ m q

rows-outside :
    (font : ℕ → ℕ) (t : Terminal) (index n k : ℕ) (m : Pixels) (q : ℕ)
    → Buffer t
    → t.x + 8 ≤ t.pitch
    → t.y + (k + n) ≤ t.height
    → (q < t.fb_beg) ⊎ (t.fb_end ≤ q)
    → write_rows font t index n 0 k k m q ≡ m q
unfolding write_rows
rows-outside font t index zero k m q b x y o = refl
rows-outside font t index (suc n) k m q b x y o =
    let lower : (t.y + k) * t.pitch + (t.pitch - 1) < t.height * t.pitch =
      row_lem (t.y + k) t.height t.pitch (t.pitch - 1) (omega arith) (omega (arith, b.wide)) in
    let out : within q (t.fb_beg + ((t.y + k) * t.pitch + t.x) + 0) 8 ≡ false =
      ground (arith, b.ends, b.wide) in
    rows-outside font t index n (k + 1) (write_columns font t index k k 8 0 0 0 m) q b x
      (omega arith) o
    ∙ write_columns-at font t index k k 8 0 m q
    ∙ rw out refl

char-outside :
    (font : ℕ → ℕ) (t : Terminal) (c : ℕ) (m : Pixels) (q : ℕ)
    → Buffer t
    → t.x + 8 ≤ t.pitch
    → t.y + 16 ≤ t.height
    → (q < t.fb_beg) ⊎ (t.fb_end ≤ q)
    → write_char font t c m q ≡ m q
unfolding write_char
char-outside font t c m q b x y o = rows-outside font t (c % 256 * 16) 16 0 m q b x y o

newline-outside :
    (t : Terminal) (m : Pixels)
    → Buffer t
    → t.y + 16 ≤ t.height
    → SameOutside t m (exec_newline t m).1
newline-outside t m b y q o =
    let split : t.height ≡ t.y + (t.height - t.y) = omega arith in
    let rows : t.height * t.pitch ≡ t.y * t.pitch + (t.height - t.y) * t.pitch =
      ap (λ (n : ℕ). n * t.pitch) split ∙ add-mul t.y (t.height - t.y) t.pitch in
    let out : within q (t.fb_beg + t.y * t.pitch) ((t.height - t.y) * t.pitch) ≡ false =
      ground (arith, rows, b.ends) in
    let out' : within q t.fb_beg (t.y * t.pitch) ≡ false = ground (arith, rows, b.ends) in
    newline_at t m q y b.height_small b.ends ∙ rw (out, out') refl

-- The state of a step from a terminal: the same buffer, the cursor, and the pixels outside.
Stays : Terminal → Pixels → (Terminal → Type 0) → Terminal × Pixels → Type 0
Stays t m P (t', m') = P t' × (t'.fb_beg ≡ t.fb_beg) × (t'.fb_end ≡ t.fb_end) × SameOutside t m m'

stays :
    (t : Terminal) (m : Pixels) (s : Terminal × Pixels)
    → Stays t m InPlace s
    → InPlace s.0 × (s.0.fb_beg ≡ t.fb_beg) × (s.0.fb_end ≡ t.fb_end) × SameOutside t m s.1
unfolding Stays
stays t m s h = h

-- After the scroll a row of text fits under the cursor.
abbrev Roomy : Terminal → Type 0
Roomy t = InPlace t × (t.y + 16 ≤ t.height)

scroll-Roomy : (t : Terminal) (m : Pixels) → InPlace t → Stays t m Roomy (scroll t m)
unfolding scroll Stays exec_newline
scroll-Roomy t m i =
    let b = i.buffer in
    elim (Bool-cases (ltb t.height ((t.y + 16) % 4294967296))) [
      | inl full ↦
          let y' : ℕ = (t.y + (4294967296 - 16)) % 4294967296 in
          let up : y' ≡ t.y - 16 = ground (arith, b.tall, b.height_small, i.line, i.row) in
          let u : Terminal = record t { y = y' } in
          let b' : Buffer u = record {
            tall = b.tall;
            wide = b.wide;
            height_small = b.height_small;
            pitch_small = b.pitch_small;
            ends = b.ends;
          } in
          let room : y' + 16 ≤ t.height = ground (arith, b.tall, b.height_small, i.line, i.row) in
          let b'' : Buffer (record u { x = 0 }) = record {
            tall = b.tall;
            wide = b.wide;
            height_small = b.height_small;
            pitch_small = b.pitch_small;
            ends = b.ends;
          } in
          let place : InPlace (record u { x = 0 }) = record {
            buffer = b'';
            line = omega (arith, up, i.line);
            row = omega (arith, room);
            column = b.wide;
          } in
          rw (full, scroll) ((place, room), refl, refl, newline-outside u m b' room)
      | inr fits ↦
          let room : t.y + 16 ≤ t.height = ground (arith, b.height_small, i.row) in
          rw (fits, scroll) ((i, room), refl, refl, λ q o. refl)
    ]

-- After the switch: the glyph's column may be used up on a line that fits.
record Middle (t : Terminal) : Type 0 where
  buffer : Buffer t
  line : t.y % 16 ≡ 0
  row : t.y ≤ t.height
  column : t.x < t.pitch
  fits : (t.y + 16 ≤ t.height) ⊎ (t.x + 8 < t.pitch)

switch-Middle :
    (font : ℕ → ℕ) (c : ℕ) (t : Terminal) (m : Pixels)
    → Roomy t
    → Stays t m Middle (put_or_break font c (t, m))
unfolding put_or_break Stays exec_newline
switch-Middle font c t m (i, room) =
    let b = i.buffer in
    elim (Bool-cases (c == 10)) [
      | inl newline ↦
          elim (Bool-cases (leb t.fb_end (t.fb_beg + t.pitch * ((t.y + 16) % 4294967296)))) [
            | inl last ↦
                let b' : Buffer (record t { x = 0 }) = record {
                  tall = b.tall;
                  wide = b.wide;
                  height_small = b.height_small;
                  pitch_small = b.pitch_small;
                  ends = b.ends;
                } in
                let place : Middle (record t { x = 0 }) = record {
                  buffer = b';
                  line = i.line;
                  row = i.row;
                  column = omega (arith, b.wide);
                  fits = inr b.wide;
                } in
                rw (newline, last, put_or_break) (place, refl, refl, newline-outside t m b room)
            | inr more ↦
                let y' : ℕ = (t.y + 16) % 4294967296 in
                let down : y' ≡ t.y + 16 = omega (arith, room, b.height_small) in
                let u : Terminal = record t { y = y'; x = 0 } in
                let b' : Buffer u = record {
                  tall = b.tall;
                  wide = b.wide;
                  height_small = b.height_small;
                  pitch_small = b.pitch_small;
                  ends = b.ends;
                } in
                let place : Middle u = record {
                  buffer = b';
                  line = omega (arith, down, i.line);
                  row = omega (arith, down, room);
                  column = omega (arith, b.wide);
                  fits = inr b.wide;
                } in
                rw (newline, more, put_or_break) (place, refl, refl, λ q o. refl)
          ]
      | inr glyph ↦
          let x' : ℕ = (t.x + 8) % 4294967296 in
          let right : x' ≡ t.x + 8 = omega (arith, i.column, b.pitch_small) in
          let u : Terminal = record t { x = x' } in
          let b' : Buffer u = record {
            tall = b.tall;
            wide = b.wide;
            height_small = b.height_small;
            pitch_small = b.pitch_small;
            ends = b.ends;
          } in
          let place : Middle u = record {
            buffer = b';
            line = i.line;
            row = i.row;
            column = omega (arith, right, i.column);
            fits = inl room;
          } in
          rw (glyph, put_or_break)
            (place, refl, refl, λ q o. char-outside font t c m q b (omega (arith, i.column)) room o)
    ]

wrap_line-InPlace : (t : Terminal) (m : Pixels) → Middle t → Stays t m InPlace (wrap_line (t, m))
unfolding wrap_line Stays
wrap_line-InPlace t m i =
    let b = i.buffer in
    let x' : (t.x + 8) % 4294967296 ≡ t.x + 8 = omega (arith, i.column, b.pitch_small) in
    elim (Bool-cases (leb t.pitch ((t.x + 8) % 4294967296))) [
      | inl wraps ↦
          let room : t.y + 16 ≤ t.height = ground (arith, i.fits) in
          let y' : ℕ = (t.y + 16) % 4294967296 in
          let down : y' ≡ t.y + 16 = omega (arith, room, b.height_small) in
          let u : Terminal = record t { y = y'; x = 0 } in
          let b' : Buffer u = record {
            tall = b.tall;
            wide = b.wide;
            height_small = b.height_small;
            pitch_small = b.pitch_small;
            ends = b.ends;
          } in
          let place : InPlace u = record {
            buffer = b';
            line = omega (arith, down, i.line);
            row = omega (arith, down, room);
            column = b.wide;
          } in
          rw (wraps, wrap_line) (place, refl, refl, λ q o. refl)
      | inr stays ↦
          let room : t.x + 8 < t.pitch = ground arith in
          let place : InPlace t = record {
            buffer = b;
            line = i.line;
            row = i.row;
            column = room;
          } in
          rw (stays, wrap_line) (place, refl, refl, λ q o. refl)
    ]

-- One character, at a cursor in its place.
parse_char-InPlace :
    (font : ℕ → ℕ) (c : ℕ) (t : Terminal) (m : Pixels)
    → InPlace t
    → Stays t m InPlace (parse_char font c (t, m))
unfolding parse_char Stays
parse_char-InPlace font c t m i =
    let s = scroll t m in
    let (r, b1, e1, o1) = scroll-Roomy t m i in
    let p = put_or_break font c s in
    let (i2, b2, e2, o2) = switch-Middle font c s.0 s.1 r in
    let (i3, b3, e3, o3) = wrap_line-InPlace p.0 p.1 i2 in
    (
      i3,
      b3 ∙ b2 ∙ b1,
      e3 ∙ e2 ∙ e1,
      λ q o. o3 q (rw (b2 ∙ b1, e2 ∙ e1) o) ∙ o2 q (rw (b1, e1) o) ∙ o1 q o,
    )

-- Any text written from a cursor in its place, in a frame buffer of at least 16 rows and more than 8
-- columns: no pixel outside the frame buffer changes, and the cursor is in its place again: at the
-- start of a row of text within the height, and left of the last glyph's column.
pub write_str-InPlace :
    (font : ℕ → ℕ) (str : List ℕ) (t : Terminal) (m : Pixels)
    → InPlace t
    → InPlace (write_str font str (t, m)).0 × SameOutside t m (write_str font str (t, m)).1
unfolding write_str
write_str-InPlace font [] t m i = (i, λ q o. refl)
write_str-InPlace font (c ∷ str) t m i =
    let s = parse_char font c (t, m) in
    let (i', b, e, o1) = stays t m s (parse_char-InPlace font c t m i) in
    let (i'', o2) = write_str-InPlace font str s.0 s.1 i' in
    (i'', λ q o. o2 q (rw (b, e) o) ∙ o1 q o)
