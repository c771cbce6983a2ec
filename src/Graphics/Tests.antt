-- ===== src/Graphics/Tests.antt =====
-- A screen of four by four pixels, and the theorems on it.
use xenon_os.Base.{◌+◌, ◌-◌, ◌≡◌, ◌==◌, ◌&&◌, ◌||◌, if◌then◌else◌, arith, [], ◌∷◌}
use xenon_os.Memory.{Bytes}
use xenon_os.Graphics.{
  FramebufferInfo, gfx_fill_rect, gfx_draw_rect, gfx_draw_char, gfx_draw_string, glyph_for,
}
use xenon_os.Graphics.Pixels.{IsBuffer, SameOutside, pixel}
use xenon_os.Graphics.Rectangles.{between, gfx_draw_rect-pixel}
use xenon_os.Graphics.Text.{ink, gfx_draw_char-pixel, drawing_SameOutside}

abbrev screen : FramebufferInfo
screen = record { addr = 0x1000; pitch = 16; width = 4; height = 4; bpp = 32 }

screen-IsBuffer : IsBuffer screen
screen-IsBuffer = record { proper = λ e. omega (arith, e); rows = omega arith; below = omega arith }

abbrev black : Bytes
black a = 0

gfx_draw_rect-pixel_example : pixel screen 2 1 (gfx_draw_rect screen 0 0 3 3 0xFFFFFF black) ≡ (
    if (between 0 3 2 && between 0 3 1)
      && ((2 == 0 || 2 == 0 + 3 - 1) || (1 == 0 || 1 == 0 + 3 - 1))
    then 0xFFFFFF
    else pixel screen 2 1 black)
gfx_draw_rect-pixel_example =
    gfx_draw_rect-pixel screen screen-IsBuffer 0xFFFFFF (omega arith) 2 1 (omega arith)
      (omega arith) 0 0 3 3 black (omega arith) (omega arith) (omega arith) (omega arith)

gfx_draw_char-pixel_example : pixel screen 3 2 (gfx_draw_char screen 1 0 65 0xFF 0 black) ≡ (
    if between 1 8 3 && between 0 8 2
    then ink (glyph_for 65) (3 - 1) (2 - 0) 0xFF 0
    else pixel screen 3 2 black)
gfx_draw_char-pixel_example =
    gfx_draw_char-pixel screen screen-IsBuffer 0xFF 0 (omega arith) (omega arith) 3 2 (omega arith)
      (omega arith) 1 0 65 black (omega arith) (omega arith)

drawing_SameOutside_example :
    SameOutside screen black (gfx_fill_rect screen 2 2 100 100 7 black)
    × SameOutside screen black (gfx_draw_rect screen 2 2 100 100 7 black)
    × SameOutside screen black (gfx_draw_char screen 2 2 65 1 0 black)
    × SameOutside screen black (gfx_draw_string screen 2 2 (65 ∷ 10 ∷ 66 ∷ []) 1 0 black)
drawing_SameOutside_example =
    drawing_SameOutside screen screen-IsBuffer 2 2 100 100 7 65 1 0 (65 ∷ 10 ∷ 66 ∷ []) black
