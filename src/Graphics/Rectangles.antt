-- ===== src/Graphics/Rectangles.antt =====
-- Rectangles as sets of pixels.
use xenon_os.Base.{
  Bool, ℕ, zero, suc, ◌+◌, ◌-◌, ◌^◌, ◌<◌, ◌≤◌, ◌≡◌, ◌==◌, ◌&&◌, ◌||◌, ltb, leb, if◌then◌else◌,
  arith, ◌∙◌, add32, sub32,
}
use xenon_os.Memory.{Bytes}
use xenon_os.Graphics.{
  FramebufferInfo, gfx_put_pixel, fill_row, fill_rows, gfx_fill_rect, draw_sides, draw_edges,
  gfx_draw_rect,
}
use xenon_os.Graphics.Pixels.{IsBuffer, pixel, put-pixel}

-- `n` is one of the `len` numbers from `start` on.
abbrev pub between : ℕ → ℕ → ℕ → Bool
between start len n = leb start n && ltb n (start + len)

module _ (info : FramebufferInfo) (buffer : IsBuffer info) (color : ℕ) (small : color < 2 ^ 32)
    (u v : ℕ) (a : u < info.width) (b : v < info.height) where
  fill_row-pixel :
      (left col x y : ℕ) (m : Bytes)
      → x + col + left ≤ 2 ^ 32
      → pixel info u v (fill_row info left col x y color m)
        ≡ (if between (x + col) left u && v == y then color else pixel info u v m)
  unfolding fill_row
  fill_row-pixel zero col x y m fits = ground arith
  fill_row-pixel (suc left) col x y m fits =
      let put = put-pixel info buffer (add32 x col) y color u v m small a b in
      fill_row-pixel left (col + 1) x y _ (omega arith) ∙ ground (arith, put)

  fill_rows-pixel :
      (left row x y w : ℕ) (m : Bytes)
      → x + w ≤ 2 ^ 32
      → y + row + left ≤ 2 ^ 32
      → pixel info u v (fill_rows info left row x y w color m)
        ≡ (if between x w u && between (y + row) left v then color else pixel info u v m)
  unfolding fill_rows
  fill_rows-pixel zero row x y w m fits fits' = ground arith
  fill_rows-pixel (suc left) row x y w m fits fits' =
      let line = fill_row-pixel w 0 x (add32 y row) m (omega arith) in
      fill_rows-pixel left (row + 1) x y w _ fits (omega arith) ∙ ground (arith, line)

  -- On the screen, gfx_fill_rect paints the pixels of the rectangle and no other, where its sides do
  -- not exceed 2 ^ 32.
  pub gfx_fill_rect-pixel :
      (x y w h : ℕ) (m : Bytes)
      → x + w ≤ 2 ^ 32
      → y + h ≤ 2 ^ 32
      → pixel info u v (gfx_fill_rect info x y w h color m)
        ≡ (if between x w u && between y h v then color else pixel info u v m)
  unfolding gfx_fill_rect
  gfx_fill_rect-pixel x y w h m fits fits' =
      fill_rows-pixel h 0 x y w m fits (omega arith) ∙ ground arith

  draw_sides-pixel :
      (left row x y w : ℕ) (m : Bytes)
      → 0 < w
      → x + w ≤ 2 ^ 32
      → y + row + left ≤ 2 ^ 32
      → pixel info u v (draw_sides info left row x y w color m) ≡ (
          if (u == x || u == x + w - 1) && between (y + row) left v
          then color
          else pixel info u v m)
  unfolding draw_sides
  draw_sides-pixel zero row x y w m some fits fits' = ground arith
  draw_sides-pixel (suc left) row x y w m some fits fits' =
      let right : sub32 (add32 x w) 1 ≡ x + w - 1 = omega arith in
      let first = put-pixel info buffer x (add32 y row) color u v m small a b in
      let second =
        put-pixel info buffer (sub32 (add32 x w) 1) (add32 y row) color u v
          (gfx_put_pixel info x (add32 y row) color m) small a b in
      draw_sides-pixel left (row + 1) x y w _ some fits (omega arith)
      ∙ ground (arith, first, second, right)

  draw_edges-pixel :
      (left col x y h : ℕ) (m : Bytes)
      → 0 < h
      → y + h ≤ 2 ^ 32
      → x + col + left ≤ 2 ^ 32
      → pixel info u v (draw_edges info left col x y h color m) ≡ (
          if between (x + col) left u && (v == y || v == y + h - 1)
          then color
          else pixel info u v m)
  unfolding draw_edges
  draw_edges-pixel zero col x y h m some fits fits' = ground arith
  draw_edges-pixel (suc left) col x y h m some fits fits' =
      let bottom : sub32 (add32 y h) 1 ≡ y + h - 1 = omega arith in
      let first = put-pixel info buffer (add32 x col) y color u v m small a b in
      let second =
        put-pixel info buffer (add32 x col) (sub32 (add32 y h) 1) color u v
          (gfx_put_pixel info (add32 x col) y color m) small a b in
      draw_edges-pixel left (col + 1) x y h _ some fits (omega arith)
      ∙ ground (arith, first, second, bottom)

  -- On a buffer whose rows have four bytes for each pixel (IsBuffer), and for a rectangle that is not empty
  -- and has `x + w` and `y + h` of at most 2^32, so that no coordinate wraps (none is negative): of the pixels
  -- of the screen, gfx_draw_rect paints those on the border of the rectangle, and no other pixel.
  pub gfx_draw_rect-pixel :
      (x y w h : ℕ) (m : Bytes)
      → 0 < w
      → 0 < h
      → x + w ≤ 2 ^ 32
      → y + h ≤ 2 ^ 32
      → pixel info u v (gfx_draw_rect info x y w h color m) ≡ (
          if (between x w u && between y h v)
            && ((u == x || u == x + w - 1) || (v == y || v == y + h - 1))
          then color
          else pixel info u v m)
  unfolding gfx_draw_rect
  gfx_draw_rect-pixel x y w h m some some' fits fits' =
      let sides = draw_sides-pixel h 0 x y w m some fits (omega arith) in
      draw_edges-pixel w 0 x y h _ some' fits' (omega arith) ∙ ground (arith, sides)
