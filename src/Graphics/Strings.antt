-- ===== src/Graphics/Strings.antt =====
-- Where the text of a line is drawn.
use xenon_os.Base.{
  ℕ, ◌+◌, ◌*◌, ◌^◌, ◌<◌, ◌≤◌, ◌≡◌, refl, true, false, ◌==◌, ◌&&◌, Bool, if◌then◌else◌, arith, ◌∙◌,
  add32, List, [], ◌∷◌, length, Bool-cases, inl, inr,
}
use xenon_os.Memory.{Bytes}
use xenon_os.Graphics.{FramebufferInfo, gfx_draw_char, draw_text, gfx_draw_string}
use xenon_os.Graphics.Pixels.{IsBuffer, pixel}
use xenon_os.Graphics.Rectangles.{between}
use xenon_os.Graphics.Text.{gfx_draw_char-pixel}

-- A text without a newline.
unfoldable pub one_line : List ℕ → Bool
one_line [] = true
one_line (c ∷ str) = let rest = one_line str in if c == 10 then false else rest

module _ (info : FramebufferInfo) (buffer : IsBuffer info) (fg bg : ℕ) (small : fg < 2 ^ 32)
    (small' : bg < 2 ^ 32) (u v : ℕ) (a : u < info.width) (b : v < info.height) where
  draw_text-outside :
      (str : List ℕ) (x cursor_x y : ℕ) (m : Bytes)
      → one_line str ≡ true
      → cursor_x + 8 * length str < 2 ^ 32
      → y + 8 ≤ 2 ^ 32
      → (between cursor_x (8 * length str) u && between y 8 v) ≡ false
      → pixel info u v (draw_text info x cursor_x y str fg bg m) ≡ pixel info u v m
  unfolding draw_text one_line
  draw_text-outside [] x cursor_x y m line fits fits' out = refl
  draw_text-outside (c ∷ str) x cursor_x y m line fits fits' out = elim (Bool-cases (c == 10)) [
    | inl newline ↦ absurd (ground (arith, line, newline))
    | inr other ↦
        let next : add32 cursor_x 8 ≡ cursor_x + 8 = omega arith in
        let here =
          gfx_draw_char-pixel info buffer fg bg small small' u v a b cursor_x y c m (omega arith)
            fits' in
        rw (other, draw_text)
          (draw_text-outside str x (add32 cursor_x 8) y (gfx_draw_char info cursor_x y c fg bg m)
              (ground (arith, line, other)) (omega (arith, next)) fits' (ground (arith, next, out))
            ∙ ground (arith, here, out))
  ]

  -- gfx_draw_string on a single line paints no pixel outside a box of 8 by 8 pixels for each character.
  pub gfx_draw_string-outside :
      (str : List ℕ) (x y : ℕ) (m : Bytes)
      → one_line str ≡ true
      → x + 8 * length str < 2 ^ 32
      → y + 8 ≤ 2 ^ 32
      → (between x (8 * length str) u && between y 8 v) ≡ false
      → pixel info u v (gfx_draw_string info x y str fg bg m) ≡ pixel info u v m
  unfolding gfx_draw_string
  gfx_draw_string-outside str x y m = draw_text-outside str x x y m
