-- ===== src/Terminal/Colored.antt =====
-- Colours: what an attribute byte and a cell hold, and what the `_colored` functions leave behind.
use xenon_os.Base.{ℕ, ◌/◌, ◌%◌, ◌^◌, ◌<◌, ◌≡◌, refl, arith, List, [], ◌∷◌, bit_and, ◌∙◌}
use xenon_os.Base.Bits.{bit_or-add, bit_and_mask}
use xenon_os.Terminal.{
  Terminal, Color, color_code, entry, attribute, put_string, putchar_nocursor, newline, scroll,
  update_cursor, terminal_set_color, terminal_write, terminal_write_colored,
}

color_code-lt : (c : Color) → color_code c < 16
unfolding color_code
color_code-lt Color.black = omega arith
color_code-lt c = omega arith

-- A cell holds the attribute in its high byte and the character in its low byte.
pub entry_fields :
    (color c : ℕ)
    → color < 2 ^ 8
    → (entry color c / 2 ^ 8 ≡ color) × (entry color c % 2 ^ 8 ≡ c % 2 ^ 8)
unfolding entry
entry_fields color c h =
    let sum = bit_or-add 8 color (c % 2 ^ 8) (omega arith) in
    (omega (arith, sum), omega (arith, sum))

-- An attribute holds the background in its high four bits and the foreground in its low four.
pub attribute_fields :
    (fg bg : Color)
    → (attribute fg bg / 2 ^ 4 ≡ color_code bg) × (attribute fg bg % 2 ^ 4 ≡ color_code fg)
unfolding attribute
attribute_fields fg bg =
    let front = color_code-lt fg in
    let back = color_code-lt bg in
    let masked = bit_and_mask 4 (color_code fg) in
    let low : bit_and (color_code fg) 0x0F ≡ color_code fg = omega (arith, front, masked) in
    let sum = bit_or-add 4 (color_code bg) (color_code fg) front in
    rw low (omega (arith, front, back, sum), omega (arith, front, back, sum))

putchar_nocursor-color :
    (c : ℕ) (t : Terminal) → (putchar_nocursor c t).current_color ≡ t.current_color
unfolding putchar_nocursor newline scroll
putchar_nocursor-color c t = ground arith

put_string-color :
    (str : List ℕ) (t : Terminal) → (put_string str t).current_color ≡ t.current_color
unfolding put_string
put_string-color [] t = refl
put_string-color (c ∷ str) t =
    put_string-color str (putchar_nocursor c t) ∙ putchar_nocursor-color c t

-- terminal_write_colored is terminal_set_color, terminal_write, and setting the colour back to the
-- one before: nothing that is written later shows that it was called with another colour.
pub terminal_write_colored_restores :
    (str : List ℕ) (fg bg : Color) (t : Terminal)
    → (terminal_write_colored str fg bg t
        ≡ record (terminal_write str (terminal_set_color fg bg t)) {
          current_color = t.current_color;
        })
      × ((terminal_write str t).current_color ≡ (terminal_write_colored str fg bg t).current_color)
unfolding terminal_write_colored terminal_write update_cursor
terminal_write_colored_restores str fg bg t = (refl, put_string-color str t)
