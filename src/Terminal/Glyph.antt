-- ===== src/Terminal/Glyph.antt =====
-- write_char and exec_newline of kernel/system/terminal.cpp: what stands at each pixel afterwards.
use gloxor.Base.{
  ℕ, zero, suc, ◌+◌, ◌-◌, ◌*◌, ◌%◌, ◌≤◌, ◌<◌, ◌≡◌, refl, ap, ◌∙◌, true, false, ◌&&◌, ltb, ◌==◌,
  if◌then◌else◌, Bool-cases, inl, inr, arith,
}
use native.Mathlib.Nat.{add-mul, mul-add, mul_comm, mul-le-mul_right}
use mathlib.Core.Path.{subst}
use gloxor.Algorithms.{write, copy_overlapped, set_range}
use gloxor.Algorithms.Copies.{within, copy_overlapped-at, set_range-at}
use gloxor.Terminal.{
  Terminal, Pixels, put_pixel, glyph_color, write_columns, write_rows, write_char, exec_newline,
}

-- Pixel `row`, `col` of the frame buffer.
abbrev pub pixel : Terminal → ℕ → ℕ → ℕ
pixel t row col = t.fb_beg + (row * t.pitch + col)

split_lem : (a b : ℕ) → a < b → b ≡ a + 1 + (b - (a + 1))
split_lem a b h = omega arith

-- Rows of pixels do not meet.
pub row_lem : (a b p col : ℕ) → a < b → col < p → a * p + col < b * p
row_lem a b p col h g =
    omega (
      arith,
      ap (λ (n : ℕ). n * p) (split_lem a b h),
      add-mul (a + 1) (b - (a + 1)) p,
      add-mul a 1 p,
    )

module _ (font : ℕ → ℕ) (t : Terminal) (index : ℕ) where
  pub write_columns-at :
      (i1 i2 n k : ℕ) (m : Pixels) (q : ℕ)
      → let base : ℕ = t.fb_beg + ((t.y + i2) * t.pitch + t.x) in
        write_columns font t index i1 i2 n 0 k k m q
        ≡ (if within q (base + k) n then glyph_color font t index i1 (q - base) else m q)
  unfolding write_columns put_pixel write
  write_columns-at i1 i2 zero k m q =
      let out : within q (t.fb_beg + ((t.y + i2) * t.pitch + t.x) + k) 0 ≡ false = ground arith in
      rw out refl
  write_columns-at i1 i2 (suc n) k m q =
      let ih =
        write_columns-at i1 i2 n (k + 1)
          (put_pixel t (t.x + k) (t.y + i2) (glyph_color font t index i1 k) m) q in
      let base = t.fb_beg + ((t.y + i2) * t.pitch + t.x) in
      elim (Bool-cases (within q (base + (k + 1)) n)) [
        | inl later ↦
            let inside : within q (base + k) (suc n) ≡ true = ground arith in
            rw (ih, later, inside) refl
        | inr rest ↦ elim (Bool-cases (q == t.fb_beg + ((t.y + i2) * t.pitch + (t.x + k)))) [
          | inl here ↦
              let inside : within q (base + k) (suc n) ≡ true = ground arith in
              let this : q - base ≡ k = ground arith in rw (ih, rest, inside, here, this) refl
          | inr off ↦
              let outside : within q (base + k) (suc n) ≡ false = ground arith in
              rw (ih, rest, outside, off) refl
        ]
      ]

  -- The same by row and column, where the glyph lies within the rows of the buffer.
  columns-pixel :
      (i1 i2 row col : ℕ) (m : Pixels)
      → col < t.pitch
      → t.x + 8 ≤ t.pitch
      → write_columns font t index i1 i2 8 0 0 0 m (pixel t row col) ≡ (
          if (row == t.y + i2) && within col t.x 8
          then glyph_color font t index i1 (col - t.x)
          else m (pixel t row col))
  columns-pixel i1 i2 row col m h g =
      let base = t.fb_beg + ((t.y + i2) * t.pitch + t.x) in
      let e = write_columns-at i1 i2 8 0 m (pixel t row col) in
      elim (Bool-cases (row == t.y + i2)) [
        | inl same ↦
            let r : row ≡ t.y + i2 = ground arith in
            let rp : row * t.pitch ≡ (t.y + i2) * t.pitch = ap (λ (n : ℕ). n * t.pitch) r in
            let off : (pixel t row col) - base ≡ col - t.x = omega (arith, rp) in
            let cols : within (pixel t row col) (base + 0) 8 ≡ within col t.x 8 =
              ground (arith, rp) in
            rw (e, cols, off, same) refl
        | inr other ↦
            let outside : within (pixel t row col) (base + 0) 8 ≡ false = ground (
              arith,
              row_lem row (t.y + i2) t.pitch col,
              row_lem (t.y + i2) row t.pitch (t.x + 7),
            ) in
            rw (e, outside, other) refl
      ]

  write_rows-pixel :
      (n k row col : ℕ) (m : Pixels)
      → col < t.pitch
      → t.x + 8 ≤ t.pitch
      → write_rows font t index n 0 k k m (pixel t row col) ≡ (
          if within row (t.y + k) n && within col t.x 8
          then glyph_color font t index (row - t.y) (col - t.x)
          else m (pixel t row col))
  unfolding write_rows
  write_rows-pixel zero k row col m h g =
      let out : within row (t.y + k) 0 ≡ false = ground arith in rw out refl
  write_rows-pixel (suc n) k row col m h g =
      let ih = write_rows-pixel n (k + 1) row col (write_columns font t index k k 8 0 0 0 m) h g in
      let here = columns-pixel k k row col m h g in
      elim (Bool-cases (within row (t.y + (k + 1)) n)) [
        | inl later ↦
            let inside : within row (t.y + k) (suc n) ≡ true = ground arith in
            let other : (row == t.y + k) ≡ false = ground arith in
            ih ∙ rw (here, later, inside, other) refl
        | inr rest ↦ elim (Bool-cases (row == t.y + k)) [
          | inl this ↦
              let inside : within row (t.y + k) (suc n) ≡ true = ground arith in
              let r : row - t.y ≡ k = ground arith in ih ∙ rw (here, rest, inside, this, r) refl
          | inr off ↦
              let outside : within row (t.y + k) (suc n) ≡ false = ground arith in
              ih ∙ rw (here, rest, outside, off) refl
        ]
      ]

-- write_char, where the cursor's column leaves room for a glyph in the rows of the buffer: the pixels
-- of the cell of 16 rows and 8 columns at the cursor take the foreground where the bit of the glyph
-- is set and the background where not; every other pixel is as before.
pub write_char-pixel :
    (font : ℕ → ℕ) (t : Terminal) (ch row col : ℕ) (m : Pixels)
    → col < t.pitch
    → t.x + 8 ≤ t.pitch
    → write_char font t ch m (pixel t row col) ≡ (
        if within row t.y 16 && within col t.x 8
        then glyph_color font t (ch % 256 * 16) (row - t.y) (col - t.x)
        else m (pixel t row col))
unfolding write_char
write_char-pixel font t ch row col m h g =
    let e = write_rows-pixel font t (ch % 256 * 16) 16 0 row col m h g in
    let top : t.y + 0 ≡ t.y = omega arith in
    subst
      (λ (y : ℕ). write_rows font t (ch % 256 * 16) 16 0 0 0 m (pixel t row col) ≡ (
        if within row y 16 && within col t.x 8
        then glyph_color font t (ch % 256 * 16) (row - t.y) (col - t.x)
        else m (pixel t row col)))
      top e

-- A copy within the rows above the cursor.
shifted :
    (t : Terminal) (m : Pixels) (q : ℕ)
    → (if within q (t.fb_beg + t.y * t.pitch) ((t.height - t.y) * t.pitch)
        then t.bg
        else (if within q t.fb_beg (t.y * t.pitch)
            then m (t.fb_beg + t.pitch * 16 + (q - t.fb_beg))
            else m q))
      ≡ (if within q (t.fb_beg + t.y * t.pitch) ((t.height - t.y) * t.pitch)
          then t.bg
          else (if within q t.fb_beg (t.y * t.pitch) then m (q + 16 * t.pitch) else m q))
shifted t m q = elim (Bool-cases (within q t.fb_beg (t.y * t.pitch))) [
  | inl here ↦
      let same : t.fb_beg + t.pitch * 16 + (q - t.fb_beg) ≡ q + 16 * t.pitch =
        ground (arith, mul_comm t.pitch 16) in
      rw (here, same) refl
  | inr off ↦ rw off refl
]

pub newline_at :
    (t : Terminal) (m : Pixels) (q : ℕ)
    → t.y + 16 ≤ t.height
    → t.height + 16 < 4294967296
    → t.fb_end ≡ t.fb_beg + t.height * t.pitch
    → (exec_newline t m).1 q ≡ (
        if within q (t.fb_beg + t.y * t.pitch) ((t.height - t.y) * t.pitch)
        then t.bg
        else (if within q t.fb_beg (t.y * t.pitch) then m (q + 16 * t.pitch) else m q))
unfolding exec_newline
newline_at t m q h w e =
    let split : t.height ≡ t.y + (t.height - t.y) = omega arith in
    let rows : t.height * t.pitch ≡ t.y * t.pitch + (t.height - t.y) * t.pitch =
      ap (λ (n : ℕ). n * t.pitch) split ∙ add-mul t.y (t.height - t.y) t.pitch in
    let n1 : t.fb_end - (t.fb_beg + t.pitch * t.y) ≡ (t.height - t.y) * t.pitch =
      omega (arith, rows, mul_comm t.pitch t.y) in
    let small : (16 + t.y) % 4294967296 ≡ 16 + t.y = omega arith in
    let end_pos : t.pitch * ((16 + t.y) % 4294967296) ≡ t.pitch * 16 + t.y * t.pitch =
      ap (λ (n : ℕ). t.pitch * n) small
      ∙ mul-add t.pitch 16 t.y
      ∙ ap (λ (n : ℕ). t.pitch * 16 + n) (mul_comm t.pitch t.y) in
    let n2 : (t.fb_beg + t.pitch * ((16 + t.y) % 4294967296)) - (t.fb_beg + t.pitch * 16)
        ≡ t.y * t.pitch =
      omega (arith, end_pos) in
    let moved : Pixels = copy_overlapped (t.y * t.pitch) (t.fb_beg + t.pitch * 16) t.fb_beg m in
    let from : ℕ = t.fb_beg + t.pitch * t.y in
    let from_eq : from ≡ t.fb_beg + t.y * t.pitch = omega (arith, mul_comm t.pitch t.y) in
    let at = copy_overlapped-at (t.y * t.pitch) (t.fb_beg + t.pitch * 16) t.fb_beg q m in
    ap
      (λ (n : ℕ).
        set_range n from t.bg
          (copy_overlapped
            ((t.fb_beg + t.pitch * ((16 + t.y) % 4294967296)) - (t.fb_beg + t.pitch * 16))
            (t.fb_beg + t.pitch * 16) t.fb_beg m)
          q)
      n1
    ∙ ap
        (λ (n : ℕ).
          set_range ((t.height - t.y) * t.pitch) from t.bg
            (copy_overlapped n (t.fb_beg + t.pitch * 16) t.fb_beg m) q)
        n2
    ∙ set_range-at ((t.height - t.y) * t.pitch) from q t.bg moved
    ∙ rw (from_eq, at.0) (shifted t m q)

newline_pixel :
    (t : Terminal) (m : Pixels) (row col : ℕ)
    → col < t.pitch
    → t.y + 16 ≤ t.height
    → t.height + 16 < 4294967296
    → t.fb_end ≡ t.fb_beg + t.height * t.pitch
    → (exec_newline t m).1 (pixel t row col) ≡ (
        if ltb row t.y
        then m (pixel t (row + 16) col)
        else (if ltb row t.height then t.bg else m (pixel t row col)))
newline_pixel t m row col c h w e =
    let q = pixel t row col in
    let at = newline_at t m q h w e in
    let split : t.height ≡ t.y + (t.height - t.y) = omega arith in
    let rows : t.height * t.pitch ≡ t.y * t.pitch + (t.height - t.y) * t.pitch =
      ap (λ (n : ℕ). n * t.pitch) split ∙ add-mul t.y (t.height - t.y) t.pitch in
    elim (Bool-cases (ltb row t.y)) [
      | inl above ↦
          let lower : row * t.pitch + col < t.y * t.pitch =
            row_lem row t.y t.pitch col (ground arith) c in
          let out : within q (t.fb_beg + t.y * t.pitch) ((t.height - t.y) * t.pitch) ≡ false =
            ground arith in
          let inside : within q t.fb_beg (t.y * t.pitch) ≡ true = ground arith in
          let target : q + 16 * t.pitch ≡ pixel t (row + 16) col =
            omega (arith, add-mul row 16 t.pitch) in
          at ∙ rw (out, inside, above, target) refl
      | inr below ↦
          let down : t.y * t.pitch ≤ row * t.pitch = mul-le-mul_right t.pitch (ground arith) in
          let off : within q t.fb_beg (t.y * t.pitch) ≡ false = ground arith in
          elim (Bool-cases (ltb row t.height)) [
            | inl last ↦
                let lower : row * t.pitch + col < t.height * t.pitch =
                  row_lem row t.height t.pitch col (ground arith) c in
                let inside : within q (t.fb_beg + t.y * t.pitch) ((t.height - t.y) * t.pitch)
                    ≡ true =
                  ground (arith, rows) in
                at ∙ rw (inside, below, last) refl
            | inr past ↦
                let lower : t.height * t.pitch ≤ row * t.pitch =
                  mul-le-mul_right t.pitch (ground arith) in
                let outside : within q (t.fb_beg + t.y * t.pitch) ((t.height - t.y) * t.pitch)
                    ≡ false =
                  ground (arith, rows) in
                at ∙ rw (outside, off, below, past) refl
          ]
    ]

-- exec_newline, with the cursor in the buffer: every row above the cursor takes the pixels of the row
-- 16 below it, the rows from the cursor down to the end of the buffer turn to the background, what is
-- outside the buffer is as before, and the cursor goes to the left margin.
pub exec_newline-scrolls :
    (t : Terminal) (m : Pixels)
    → t.y + 16 ≤ t.height
    → t.height + 16 < 4294967296
    → t.fb_end ≡ t.fb_beg + t.height * t.pitch
    → ((row col : ℕ)
        → col < t.pitch
        → (exec_newline t m).1 (pixel t row col) ≡ (
            if ltb row t.y
            then m (pixel t (row + 16) col)
            else (if ltb row t.height then t.bg else m (pixel t row col))))
      × ((q : ℕ) → q < t.fb_beg → (exec_newline t m).1 q ≡ m q)
      × ((exec_newline t m).0 ≡ record t { x = 0 })
unfolding exec_newline
exec_newline-scrolls t m h w e = (
  λ row col c. newline_pixel t m row col c h w e,
  λ q l.
      let outside : within q (t.fb_beg + t.y * t.pitch) ((t.height - t.y) * t.pitch) ≡ false =
        ground arith in
      let above : within q t.fb_beg (t.y * t.pitch) ≡ false = ground arith in
      newline_at t m q h w e ∙ rw (outside, above) refl,
  refl,
)
