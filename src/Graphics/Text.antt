-- ===== src/Graphics/Text.antt =====
-- Characters as pixels, and where drawing may write.
use xenon_os.Base.{
  ℕ, zero, suc, ◌+◌, ◌-◌, ◌/◌, ◌^◌, ◌<◌, ◌≤◌, ◌≡◌, refl, ◌==◌, ◌&&◌, if◌then◌else◌, arith, ◌∙◌,
  add32, List, [], ◌∷◌, get_or, bit_and, Bool-cases, inl, inr,
}
use xenon_os.Memory.{Bytes}
use xenon_os.Graphics.{
  FramebufferInfo, fill_row, fill_rows, gfx_fill_rect, draw_sides, draw_edges, gfx_draw_rect,
  glyph_for, draw_bits, draw_glyph, gfx_draw_char, draw_text, gfx_draw_string,
}
use xenon_os.Graphics.Pixels.{IsBuffer, SameOutside, pixel, put-pixel, put-SameOutside}
use xenon_os.Graphics.Rectangles.{between}

-- The colour of one pixel of a glyph: the leftmost one is the highest bit of its row.
abbrev pub ink : List ℕ → ℕ → ℕ → ℕ → ℕ → ℕ
ink glyph col row fg bg = if bit_and (get_or glyph row 0) (0x80 / 2 ^ col) == 0 then bg else fg

module _ (info : FramebufferInfo) (buffer : IsBuffer info) where
  module _ (fg bg : ℕ) (small : fg < 2 ^ 32) (small' : bg < 2 ^ 32) (u v : ℕ) (a : u < info.width)
      (b : v < info.height) where
    draw_bits-pixel :
        (left col x y bits : ℕ) (m : Bytes)
        → x + col + left ≤ 2 ^ 32
        → pixel info u v (draw_bits info left col x y bits fg bg m) ≡ (
            if between (x + col) left u && v == y
            then (if bit_and bits (0x80 / 2 ^ (u - x)) == 0 then bg else fg)
            else pixel info u v m)
    unfolding draw_bits
    draw_bits-pixel zero col x y bits m fits = ground arith
    draw_bits-pixel (suc left) col x y bits m fits =
        let shade : ℕ = if bit_and bits (0x80 / 2 ^ col) == 0 then bg else fg in
        let shade_lt : shade < 2 ^ 32 = ground arith in
        let put = put-pixel info buffer (add32 x col) y shade u v m shade_lt a b in
        draw_bits-pixel left (col + 1) x y bits _ (omega arith) ∙ elim (Bool-cases (u == x + col)) [
          | inl here ↦
              let number : u - x ≡ col = ground (arith, here) in
              rw number (ground (arith, put, here))
          | inr elsewhere ↦ ground (arith, put, elsewhere)
        ]

    draw_glyph-pixel :
        (left row x y : ℕ) (glyph : List ℕ) (m : Bytes)
        → x + 8 ≤ 2 ^ 32
        → y + row + left ≤ 2 ^ 32
        → pixel info u v (draw_glyph info left row x y glyph fg bg m) ≡ (
            if between x 8 u && between (y + row) left v
            then ink glyph (u - x) (v - y) fg bg
            else pixel info u v m)
    unfolding draw_glyph
    draw_glyph-pixel zero row x y glyph m fits fits' = ground arith
    draw_glyph-pixel (suc left) row x y glyph m fits fits' =
        let line = draw_bits-pixel 8 0 x (add32 y row) (get_or glyph row 0) m (omega arith) in
        draw_glyph-pixel left (row + 1) x y glyph _ fits (omega arith)
        ∙ elim (Bool-cases (v == y + row)) [
          | inl here ↦
              let number : v - y ≡ row = ground (arith, here) in
              rw number (ground (arith, line, here))
          | inr elsewhere ↦ ground (arith, line, elsewhere)
        ]

    -- On a buffer whose rows have four bytes for each pixel (IsBuffer), and for `x + 8` and `y + 8` of at most
    -- 2^32, so that no coordinate wraps: of the pixels of the screen, gfx_draw_char paints those of the
    -- 64 of the character, the ones of the glyph in `fg` and the others in `bg`, and no other pixel.
    pub gfx_draw_char-pixel :
        (x y c : ℕ) (m : Bytes)
        → x + 8 ≤ 2 ^ 32
        → y + 8 ≤ 2 ^ 32
        → pixel info u v (gfx_draw_char info x y c fg bg m) ≡ (
            if between x 8 u && between y 8 v
            then ink (glyph_for c) (u - x) (v - y) fg bg
            else pixel info u v m)
    unfolding gfx_draw_char
    gfx_draw_char-pixel x y c m fits fits' =
        draw_glyph-pixel 8 0 x y (glyph_for c) m fits (omega arith) ∙ ground arith

  then_SameOutside :
      (m m' m'' : Bytes) → SameOutside info m m' → SameOutside info m' m'' → SameOutside info m m''
  then_SameOutside m m' m'' p q a h = q a h ∙ p a h

  fill_row-SameOutside :
      (left col x y color : ℕ) (m : Bytes) → SameOutside info m (fill_row info left col x y color m)
  unfolding fill_row
  fill_row-SameOutside zero col x y color m a h = refl
  fill_row-SameOutside (suc left) col x y color m a h =
      fill_row-SameOutside left (col + 1) x y color _ a h
      ∙ put-SameOutside info buffer (add32 x col) y color m a h

  fill_rows-SameOutside :
      (left row x y w color : ℕ) (m : Bytes)
      → SameOutside info m (fill_rows info left row x y w color m)
  unfolding fill_rows
  fill_rows-SameOutside zero row x y w color m a h = refl
  fill_rows-SameOutside (suc left) row x y w color m a h =
      fill_rows-SameOutside left (row + 1) x y w color _ a h
      ∙ fill_row-SameOutside w 0 x (add32 y row) color m a h

  draw_sides-SameOutside :
      (left row x y w color : ℕ) (m : Bytes)
      → SameOutside info m (draw_sides info left row x y w color m)
  unfolding draw_sides
  draw_sides-SameOutside zero row x y w color m a h = refl
  draw_sides-SameOutside (suc left) row x y w color m a h =
      draw_sides-SameOutside left (row + 1) x y w color _ a h
      ∙ put-SameOutside info buffer _ _ color _ a h
      ∙ put-SameOutside info buffer x (add32 y row) color m a h

  draw_edges-SameOutside :
      (left col x y h' color : ℕ) (m : Bytes)
      → SameOutside info m (draw_edges info left col x y h' color m)
  unfolding draw_edges
  draw_edges-SameOutside zero col x y h' color m a h = refl
  draw_edges-SameOutside (suc left) col x y h' color m a h =
      draw_edges-SameOutside left (col + 1) x y h' color _ a h
      ∙ put-SameOutside info buffer _ _ color _ a h
      ∙ put-SameOutside info buffer (add32 x col) y color m a h

  draw_bits-SameOutside :
      (left col x y bits fg bg : ℕ) (m : Bytes)
      → SameOutside info m (draw_bits info left col x y bits fg bg m)
  unfolding draw_bits
  draw_bits-SameOutside zero col x y bits fg bg m a h = refl
  draw_bits-SameOutside (suc left) col x y bits fg bg m a h =
      draw_bits-SameOutside left (col + 1) x y bits fg bg _ a h
      ∙ put-SameOutside info buffer (add32 x col) y _ m a h

  draw_glyph-SameOutside :
      (left row x y : ℕ) (glyph : List ℕ) (fg bg : ℕ) (m : Bytes)
      → SameOutside info m (draw_glyph info left row x y glyph fg bg m)
  unfolding draw_glyph
  draw_glyph-SameOutside zero row x y glyph fg bg m a h = refl
  draw_glyph-SameOutside (suc left) row x y glyph fg bg m a h =
      draw_glyph-SameOutside left (row + 1) x y glyph fg bg _ a h
      ∙ draw_bits-SameOutside 8 0 x (add32 y row) (get_or glyph row 0) fg bg m a h

  draw_text-SameOutside :
      (x cursor_x y : ℕ) (str : List ℕ) (fg bg : ℕ) (m : Bytes)
      → SameOutside info m (draw_text info x cursor_x y str fg bg m)
  unfolding draw_text gfx_draw_char
  draw_text-SameOutside x cursor_x y [] fg bg m a h = refl
  draw_text-SameOutside x cursor_x y (c ∷ str) fg bg m a h = elim (Bool-cases (c == 10)) [
    | inl newline ↦ rw (newline, draw_text) (draw_text-SameOutside x x (add32 y 8) str fg bg m a h)
    | inr other ↦
        rw (other, draw_text)
          (draw_text-SameOutside x (add32 cursor_x 8) y str fg bg _ a h
            ∙ draw_glyph-SameOutside 8 0 cursor_x y (glyph_for c) fg bg m a h)
  ]

  -- On a buffer that does not pass the end of the address space and whose rows have four bytes for each
  -- pixel (IsBuffer), whatever the coordinates, no drawing function writes outside of the buffer.
  pub drawing_SameOutside :
      (x y w h color c fg bg : ℕ) (str : List ℕ) (m : Bytes)
      → SameOutside info m (gfx_fill_rect info x y w h color m)
        × SameOutside info m (gfx_draw_rect info x y w h color m)
        × SameOutside info m (gfx_draw_char info x y c fg bg m)
        × SameOutside info m (gfx_draw_string info x y str fg bg m)
  unfolding gfx_fill_rect gfx_draw_rect gfx_draw_char gfx_draw_string
  drawing_SameOutside x y w h color c fg bg str m = (
    fill_rows-SameOutside h 0 x y w color m,
    λ a o.
        draw_edges-SameOutside w 0 x y h color _ a o ∙ draw_sides-SameOutside h 0 x y w color m a o,
    draw_glyph-SameOutside 8 0 x y (glyph_for c) fg bg m,
    draw_text-SameOutside x x y str fg bg m,
  )
