-- ===== src/Graphics.antt =====
-- src/gui/graphics.c: pixels, rectangles and text in the drawing buffer of the framebuffer, which is
-- memory. `info` is the struct framebuffer_info of src/io/framebuffer.h. A character is its byte: the ones
-- from 128 on are negative as `char`, and blank like all that the font does not have.
pub mod Font
pub mod Pixels
pub mod Rectangles
pub mod Text
pub mod Strings
mod Tests
use xenon_os.Base.{
  ℕ, zero, suc, ◌+◌, ◌-◌, ◌*◌, ◌/◌, ◌^◌, ◌==◌, ltb, leb, ◌||◌, if◌then◌else◌, Bool, true, false,
  List, [], ◌∷◌, get_or, bit_and, add32, sub32, mul32,
}
use xenon_os.Memory.{Bytes, store32}
use xenon_os.Graphics.Font.{font, font_first, font_last, font_glyph_size}

pub record FramebufferInfo : Type 0 where
  pub addr : ℕ
  pub pitch : ℕ
  pub width : ℕ
  pub height : ℕ
  pub bpp : ℕ

pub glyph_for : ℕ → List ℕ
glyph_for c =
    let c' = if ltb c font_first || ltb font_last c then font_first else c in
    get_or font (c' - font_first) []

module _ (info : FramebufferInfo) where
  pub gfx_put_pixel : ℕ → ℕ → ℕ → Bytes → Bytes
  gfx_put_pixel x y color m =
      if info.addr == 0 || leb info.width x || leb info.height y
      then m
      else store32 m (add32 (add32 info.addr (mul32 y info.pitch)) (4 * x)) color

  -- The inner loop of gfx_fill_rect, by the rounds left, and the outer one.
  pub fill_row : ℕ → ℕ → ℕ → ℕ → ℕ → Bytes → Bytes
  fill_row zero col x y color m = m
  fill_row (suc left) col x y color m =
      fill_row left (col + 1) x y color (gfx_put_pixel (add32 x col) y color m)

  pub fill_rows : ℕ → ℕ → ℕ → ℕ → ℕ → ℕ → Bytes → Bytes
  fill_rows zero row x y w color m = m
  fill_rows (suc left) row x y w color m =
      fill_rows left (row + 1) x y w color (fill_row w 0 x (add32 y row) color m)

  pub gfx_fill_rect : ℕ → ℕ → ℕ → ℕ → ℕ → Bytes → Bytes
  gfx_fill_rect x y w h color m = fill_rows h 0 x y w color m

  -- The two loops of gfx_draw_rect.
  pub draw_sides : ℕ → ℕ → ℕ → ℕ → ℕ → ℕ → Bytes → Bytes
  draw_sides zero row x y w color m = m
  draw_sides (suc left) row x y w color m = draw_sides left (row + 1) x y w color (
      gfx_put_pixel (sub32 (add32 x w) 1) (add32 y row) color
        (gfx_put_pixel x (add32 y row) color m))

  pub draw_edges : ℕ → ℕ → ℕ → ℕ → ℕ → ℕ → Bytes → Bytes
  draw_edges zero col x y h color m = m
  draw_edges (suc left) col x y h color m = draw_edges left (col + 1) x y h color (
      gfx_put_pixel (add32 x col) (sub32 (add32 y h) 1) color
        (gfx_put_pixel (add32 x col) y color m))

  pub gfx_draw_rect : ℕ → ℕ → ℕ → ℕ → ℕ → Bytes → Bytes
  gfx_draw_rect x y w h color m = draw_edges w 0 x y h color (draw_sides h 0 x y w color m)

  -- The inner loop of gfx_draw_char over the bits of one row of the glyph, and the outer one.
  pub draw_bits : ℕ → ℕ → ℕ → ℕ → ℕ → ℕ → ℕ → Bytes → Bytes
  draw_bits zero col x y bits fg bg m = m
  draw_bits (suc left) col x y bits fg bg m =
      let color = if bit_and bits (0x80 / 2 ^ col) == 0 then bg else fg in
      draw_bits left (col + 1) x y bits fg bg (gfx_put_pixel (add32 x col) y color m)

  pub draw_glyph : ℕ → ℕ → ℕ → ℕ → List ℕ → ℕ → ℕ → Bytes → Bytes
  draw_glyph zero row x y glyph fg bg m = m
  draw_glyph (suc left) row x y glyph fg bg m =
      draw_glyph left (row + 1) x y glyph fg bg
        (draw_bits font_glyph_size 0 x (add32 y row) (get_or glyph row 0) fg bg m)

  pub gfx_draw_char : ℕ → ℕ → ℕ → ℕ → ℕ → Bytes → Bytes
  gfx_draw_char x y c fg bg m = draw_glyph font_glyph_size 0 x y (glyph_for c) fg bg m

  -- The loop of gfx_draw_string; '\n' is 10.
  pub draw_text : ℕ → ℕ → ℕ → List ℕ → ℕ → ℕ → Bytes → Bytes
  draw_text x cursor_x y [] fg bg m = m
  draw_text x cursor_x y (c ∷ str) fg bg m =
      let line = draw_text x x (add32 y font_glyph_size) str fg bg m in
      let next =
        draw_text x (add32 cursor_x font_glyph_size) y str fg bg
          (gfx_draw_char cursor_x y c fg bg m) in
      if c == 10 then line else next

  pub gfx_draw_string : ℕ → ℕ → List ℕ → ℕ → ℕ → Bytes → Bytes
  gfx_draw_string x y str fg bg m = draw_text x x y str fg bg m
