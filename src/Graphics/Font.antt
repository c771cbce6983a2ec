-- ===== src/Graphics/Font.antt =====
-- src/gui/graphics.c: the built-in font, from ' ' to 'z'. Characters that the source does not list are blank.
use xenon_os.Base.{ℕ, List, [], ◌∷◌}

abbrev pub font_glyph_size : ℕ
font_glyph_size = 8

abbrev pub font_first : ℕ
font_first = 32

abbrev pub font_last : ℕ
font_last = 122

abbrev blank : List ℕ
blank = 0 ∷ 0 ∷ 0 ∷ 0 ∷ 0 ∷ 0 ∷ 0 ∷ 0 ∷ []

-- Each byte is one row of pixels from top to bottom, the leftmost pixel in the highest bit.
pub font : List (List ℕ)
font =
    blank
    ∷ (0x18 ∷ 0x18 ∷ 0x18 ∷ 0x18 ∷ 0x18 ∷ 0x00 ∷ 0x18 ∷ 0x00 ∷ [])
    ∷ blank
    ∷ blank
    ∷ blank
    ∷ blank
    ∷ blank
    ∷ blank
    ∷ blank
    ∷ blank
    ∷ blank
    ∷ blank
    ∷ (0x00 ∷ 0x00 ∷ 0x00 ∷ 0x00 ∷ 0x00 ∷ 0x18 ∷ 0x18 ∷ 0x30 ∷ [])
    ∷ (0x00 ∷ 0x00 ∷ 0x00 ∷ 0x7E ∷ 0x00 ∷ 0x00 ∷ 0x00 ∷ 0x00 ∷ [])
    ∷ (0x00 ∷ 0x00 ∷ 0x00 ∷ 0x00 ∷ 0x00 ∷ 0x18 ∷ 0x18 ∷ 0x00 ∷ [])
    ∷ blank
    ∷ (0x3C ∷ 0x66 ∷ 0x6E ∷ 0x76 ∷ 0x66 ∷ 0x66 ∷ 0x3C ∷ 0x00 ∷ [])
    ∷ (0x18 ∷ 0x38 ∷ 0x18 ∷ 0x18 ∷ 0x18 ∷ 0x18 ∷ 0x7E ∷ 0x00 ∷ [])
    ∷ (0x3C ∷ 0x66 ∷ 0x06 ∷ 0x0C ∷ 0x30 ∷ 0x60 ∷ 0x7E ∷ 0x00 ∷ [])
    ∷ (0x3C ∷ 0x66 ∷ 0x06 ∷ 0x1C ∷ 0x06 ∷ 0x66 ∷ 0x3C ∷ 0x00 ∷ [])
    ∷ (0x0C ∷ 0x1C ∷ 0x2C ∷ 0x4C ∷ 0x7E ∷ 0x0C ∷ 0x0C ∷ 0x00 ∷ [])
    ∷ (0x7E ∷ 0x60 ∷ 0x7C ∷ 0x06 ∷ 0x06 ∷ 0x66 ∷ 0x3C ∷ 0x00 ∷ [])
    ∷ (0x1C ∷ 0x30 ∷ 0x60 ∷ 0x7C ∷ 0x66 ∷ 0x66 ∷ 0x3C ∷ 0x00 ∷ [])
    ∷ (0x7E ∷ 0x06 ∷ 0x0C ∷ 0x18 ∷ 0x30 ∷ 0x30 ∷ 0x30 ∷ 0x00 ∷ [])
    ∷ (0x3C ∷ 0x66 ∷ 0x66 ∷ 0x3C ∷ 0x66 ∷ 0x66 ∷ 0x3C ∷ 0x00 ∷ [])
    ∷ (0x3C ∷ 0x66 ∷ 0x66 ∷ 0x3E ∷ 0x06 ∷ 0x0C ∷ 0x38 ∷ 0x00 ∷ [])
    ∷ (0x00 ∷ 0x18 ∷ 0x18 ∷ 0x00 ∷ 0x18 ∷ 0x18 ∷ 0x00 ∷ 0x00 ∷ [])
    ∷ blank
    ∷ blank
    ∷ blank
    ∷ blank
    ∷ (0x3C ∷ 0x66 ∷ 0x06 ∷ 0x0C ∷ 0x18 ∷ 0x00 ∷ 0x18 ∷ 0x00 ∷ [])
    ∷ blank
    ∷ (0x18 ∷ 0x3C ∷ 0x66 ∷ 0x66 ∷ 0x7E ∷ 0x66 ∷ 0x66 ∷ 0x00 ∷ [])
    ∷ (0x7C ∷ 0x66 ∷ 0x66 ∷ 0x7C ∷ 0x66 ∷ 0x66 ∷ 0x7C ∷ 0x00 ∷ [])
    ∷ (0x3C ∷ 0x66 ∷ 0x60 ∷ 0x60 ∷ 0x60 ∷ 0x66 ∷ 0x3C ∷ 0x00 ∷ [])
    ∷ (0x78 ∷ 0x6C ∷ 0x66 ∷ 0x66 ∷ 0x66 ∷ 0x6C ∷ 0x78 ∷ 0x00 ∷ [])
    ∷ (0x7E ∷ 0x60 ∷ 0x60 ∷ 0x7C ∷ 0x60 ∷ 0x60 ∷ 0x7E ∷ 0x00 ∷ [])
    ∷ (0x7E ∷ 0x60 ∷ 0x60 ∷ 0x7C ∷ 0x60 ∷ 0x60 ∷ 0x60 ∷ 0x00 ∷ [])
    ∷ (0x3C ∷ 0x66 ∷ 0x60 ∷ 0x6E ∷ 0x66 ∷ 0x66 ∷ 0x3C ∷ 0x00 ∷ [])
    ∷ (0x66 ∷ 0x66 ∷ 0x66 ∷ 0x7E ∷ 0x66 ∷ 0x66 ∷ 0x66 ∷ 0x00 ∷ [])
    ∷ (0x7E ∷ 0x18 ∷ 0x18 ∷ 0x18 ∷ 0x18 ∷ 0x18 ∷ 0x7E ∷ 0x00 ∷ [])
    ∷ (0x06 ∷ 0x06 ∷ 0x06 ∷ 0x06 ∷ 0x66 ∷ 0x66 ∷ 0x3C ∷ 0x00 ∷ [])
    ∷ (0x66 ∷ 0x6C ∷ 0x78 ∷ 0x70 ∷ 0x78 ∷ 0x6C ∷ 0x66 ∷ 0x00 ∷ [])
    ∷ (0x60 ∷ 0x60 ∷ 0x60 ∷ 0x60 ∷ 0x60 ∷ 0x60 ∷ 0x7E ∷ 0x00 ∷ [])
    ∷ (0x42 ∷ 0x66 ∷ 0x7E ∷ 0x7E ∷ 0x66 ∷ 0x66 ∷ 0x66 ∷ 0x00 ∷ [])
    ∷ (0x62 ∷ 0x72 ∷ 0x7A ∷ 0x6E ∷ 0x66 ∷ 0x66 ∷ 0x66 ∷ 0x00 ∷ [])
    ∷ (0x3C ∷ 0x66 ∷ 0x66 ∷ 0x66 ∷ 0x66 ∷ 0x66 ∷ 0x3C ∷ 0x00 ∷ [])
    ∷ (0x7C ∷ 0x66 ∷ 0x66 ∷ 0x7C ∷ 0x60 ∷ 0x60 ∷ 0x60 ∷ 0x00 ∷ [])
    ∷ (0x3C ∷ 0x66 ∷ 0x66 ∷ 0x66 ∷ 0x6E ∷ 0x6C ∷ 0x3A ∷ 0x00 ∷ [])
    ∷ (0x7C ∷ 0x66 ∷ 0x66 ∷ 0x7C ∷ 0x78 ∷ 0x6C ∷ 0x66 ∷ 0x00 ∷ [])
    ∷ (0x3C ∷ 0x66 ∷ 0x60 ∷ 0x3C ∷ 0x06 ∷ 0x66 ∷ 0x3C ∷ 0x00 ∷ [])
    ∷ (0x7E ∷ 0x18 ∷ 0x18 ∷ 0x18 ∷ 0x18 ∷ 0x18 ∷ 0x18 ∷ 0x00 ∷ [])
    ∷ (0x66 ∷ 0x66 ∷ 0x66 ∷ 0x66 ∷ 0x66 ∷ 0x66 ∷ 0x3C ∷ 0x00 ∷ [])
    ∷ (0x66 ∷ 0x66 ∷ 0x66 ∷ 0x66 ∷ 0x66 ∷ 0x3C ∷ 0x18 ∷ 0x00 ∷ [])
    ∷ (0x66 ∷ 0x66 ∷ 0x66 ∷ 0x7E ∷ 0x7E ∷ 0x7E ∷ 0x24 ∷ 0x00 ∷ [])
    ∷ (0x66 ∷ 0x66 ∷ 0x3C ∷ 0x18 ∷ 0x3C ∷ 0x66 ∷ 0x66 ∷ 0x00 ∷ [])
    ∷ (0x66 ∷ 0x66 ∷ 0x3C ∷ 0x18 ∷ 0x18 ∷ 0x18 ∷ 0x18 ∷ 0x00 ∷ [])
    ∷ (0x7E ∷ 0x06 ∷ 0x0C ∷ 0x18 ∷ 0x30 ∷ 0x60 ∷ 0x7E ∷ 0x00 ∷ [])
    ∷ blank
    ∷ blank
    ∷ blank
    ∷ (0x18 ∷ 0x3C ∷ 0x66 ∷ 0x00 ∷ 0x00 ∷ 0x00 ∷ 0x00 ∷ 0x00 ∷ [])
    ∷ (0x00 ∷ 0x00 ∷ 0x00 ∷ 0x00 ∷ 0x00 ∷ 0x00 ∷ 0x00 ∷ 0x7E ∷ [])
    ∷ blank
    ∷ (0x00 ∷ 0x00 ∷ 0x3C ∷ 0x06 ∷ 0x3E ∷ 0x66 ∷ 0x3E ∷ 0x00 ∷ [])
    ∷ (0x60 ∷ 0x60 ∷ 0x7C ∷ 0x66 ∷ 0x66 ∷ 0x66 ∷ 0x7C ∷ 0x00 ∷ [])
    ∷ (0x00 ∷ 0x00 ∷ 0x3C ∷ 0x66 ∷ 0x60 ∷ 0x66 ∷ 0x3C ∷ 0x00 ∷ [])
    ∷ (0x06 ∷ 0x06 ∷ 0x3E ∷ 0x66 ∷ 0x66 ∷ 0x66 ∷ 0x3E ∷ 0x00 ∷ [])
    ∷ (0x00 ∷ 0x00 ∷ 0x3C ∷ 0x66 ∷ 0x7E ∷ 0x60 ∷ 0x3C ∷ 0x00 ∷ [])
    ∷ (0x1C ∷ 0x30 ∷ 0x7C ∷ 0x30 ∷ 0x30 ∷ 0x30 ∷ 0x30 ∷ 0x00 ∷ [])
    ∷ (0x00 ∷ 0x3E ∷ 0x66 ∷ 0x66 ∷ 0x3E ∷ 0x06 ∷ 0x3C ∷ 0x00 ∷ [])
    ∷ (0x60 ∷ 0x60 ∷ 0x7C ∷ 0x66 ∷ 0x66 ∷ 0x66 ∷ 0x66 ∷ 0x00 ∷ [])
    ∷ (0x18 ∷ 0x00 ∷ 0x18 ∷ 0x18 ∷ 0x18 ∷ 0x18 ∷ 0x1C ∷ 0x00 ∷ [])
    ∷ (0x06 ∷ 0x00 ∷ 0x06 ∷ 0x06 ∷ 0x06 ∷ 0x66 ∷ 0x3C ∷ 0x00 ∷ [])
    ∷ (0x60 ∷ 0x60 ∷ 0x66 ∷ 0x6C ∷ 0x78 ∷ 0x6C ∷ 0x66 ∷ 0x00 ∷ [])
    ∷ (0x38 ∷ 0x18 ∷ 0x18 ∷ 0x18 ∷ 0x18 ∷ 0x18 ∷ 0x3C ∷ 0x00 ∷ [])
    ∷ (0x00 ∷ 0x00 ∷ 0x6C ∷ 0x7E ∷ 0x7E ∷ 0x66 ∷ 0x66 ∷ 0x00 ∷ [])
    ∷ (0x00 ∷ 0x00 ∷ 0x7C ∷ 0x66 ∷ 0x66 ∷ 0x66 ∷ 0x66 ∷ 0x00 ∷ [])
    ∷ (0x00 ∷ 0x00 ∷ 0x3C ∷ 0x66 ∷ 0x66 ∷ 0x66 ∷ 0x3C ∷ 0x00 ∷ [])
    ∷ (0x00 ∷ 0x7C ∷ 0x66 ∷ 0x66 ∷ 0x7C ∷ 0x60 ∷ 0x60 ∷ 0x00 ∷ [])
    ∷ (0x00 ∷ 0x3E ∷ 0x66 ∷ 0x66 ∷ 0x3E ∷ 0x06 ∷ 0x06 ∷ 0x00 ∷ [])
    ∷ (0x00 ∷ 0x00 ∷ 0x6C ∷ 0x76 ∷ 0x60 ∷ 0x60 ∷ 0x60 ∷ 0x00 ∷ [])
    ∷ (0x00 ∷ 0x00 ∷ 0x3E ∷ 0x60 ∷ 0x3C ∷ 0x06 ∷ 0x7C ∷ 0x00 ∷ [])
    ∷ (0x30 ∷ 0x30 ∷ 0x7C ∷ 0x30 ∷ 0x30 ∷ 0x36 ∷ 0x1C ∷ 0x00 ∷ [])
    ∷ (0x00 ∷ 0x00 ∷ 0x66 ∷ 0x66 ∷ 0x66 ∷ 0x66 ∷ 0x3E ∷ 0x00 ∷ [])
    ∷ (0x00 ∷ 0x00 ∷ 0x66 ∷ 0x66 ∷ 0x66 ∷ 0x3C ∷ 0x18 ∷ 0x00 ∷ [])
    ∷ (0x00 ∷ 0x00 ∷ 0x66 ∷ 0x66 ∷ 0x7E ∷ 0x7E ∷ 0x24 ∷ 0x00 ∷ [])
    ∷ (0x00 ∷ 0x00 ∷ 0x66 ∷ 0x3C ∷ 0x18 ∷ 0x3C ∷ 0x66 ∷ 0x00 ∷ [])
    ∷ (0x00 ∷ 0x66 ∷ 0x66 ∷ 0x66 ∷ 0x3E ∷ 0x06 ∷ 0x3C ∷ 0x00 ∷ [])
    ∷ (0x00 ∷ 0x00 ∷ 0x7E ∷ 0x0C ∷ 0x18 ∷ 0x30 ∷ 0x7E ∷ 0x00 ∷ [])
    ∷ []
