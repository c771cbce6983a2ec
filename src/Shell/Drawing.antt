-- ===== src/Shell/Drawing.antt =====
-- What the on_draw callbacks of src/shell/commands.c leave alone.
use xenon_os.Base.{
  ℕ, zero, suc, ◌+◌, ◌*◌, ◌/◌, ◌%◌, ◌^◌, ◌<◌, ◌≤◌, ◌≡◌, refl, true, false, ◌==◌, ◌&&◌, Bool, arith,
  ◌∙◌, add32, List, [], ◌∷◌, length, Bool-cases, inl, inr, ap,
}
use xenon_os.Memory.{Bytes}
use xenon_os.Text.{itoa, digit_loop, decimal_digit}
use xenon_os.Text.Digits.{length-itoa}
use xenon_os.Gui.{
  Window, gui_window_content_x, gui_window_content_y, gui_window_content_width,
  gui_window_content_height,
}
use xenon_os.Graphics.{FramebufferInfo}
use xenon_os.Graphics.Pixels.{IsBuffer, pixel}
use xenon_os.Graphics.Rectangles.{between, gfx_fill_rect-pixel}
use xenon_os.Graphics.Strings.{one_line, gfx_draw_string-outside}
use xenon_os.Shell.{Machine, desktop, notes_window, welcome_window, info_window}
use xenon_os.Shell.Notes.{Notes, notes_buffer_size, IsEnded}
use xenon_os.Shell.Windows.{
  c_string, put_text, welcome_window_draw, info_window_draw, notes_window_draw,
}

-- The digits of a number stand on one line.
digit_loop-one_line :
    (fuel value : ℕ) (temp : List ℕ)
    → one_line temp ≡ true
    → one_line (digit_loop 10 decimal_digit fuel value temp) ≡ true
unfolding digit_loop
digit_loop-one_line zero value temp line = line
digit_loop-one_line (suc fuel) value temp line = elim (Bool-cases (value == 0)) [
  | inl z ↦ rw z line
  | inr nz ↦ rw nz (
      digit_loop-one_line fuel (value / 10) (decimal_digit (value % 10) ∷ temp)
        (unfold one_line decimal_digit in ground (arith, line)))
]

one_line-itoa : (value : ℕ) → one_line (itoa value) ≡ true
unfolding itoa
one_line-itoa value = elim (Bool-cases (value == 0)) [
  | inl z ↦ rw z (unfold one_line in refl)
  | inr nz ↦ rw nz (digit_loop-one_line value value [] (unfold one_line in refl))
]

-- A string ends at its NUL.
pub length-c_string :
    (left i used : ℕ) (text : ℕ → ℕ)
    → i ≤ used
    → text used ≡ 0
    → i + length (c_string left i text) ≤ used
unfolding c_string
length-c_string zero i used text h e = omega arith
length-c_string (suc left) i used text h e = elim (Bool-cases (text i == 0)) [
  | inl z ↦ rw z (omega arith)
  | inr nz ↦
      let apart : i < used = elim (Bool-cases (i == used)) [
        | inl same ↦
            absurd (ground (arith, nz, e, ap text {x = i} {y = used} (ground (arith, same))))
        | inr other ↦ ground (arith, other, h)
      ] in
      rw nz (omega (arith, length-c_string left (i + 1) used text (omega arith) e))
]

-- The pixel lies in the content area of the window.
abbrev pub in_content : Window → ℕ → ℕ → Bool
in_content w u v =
    between (gui_window_content_x w) (gui_window_content_width w) u
    && between (gui_window_content_y w) (gui_window_content_height w) v

module _ (framebuffer : FramebufferInfo) (buffer : IsBuffer framebuffer) (u v : ℕ)
    (a : u < framebuffer.width) (b : v < framebuffer.height) where
  -- A text that fits into the content area.
  put_text-outside :
      (w : Window) (dx dy : ℕ) (str : List ℕ) (m : Bytes)
      → w.bg_color < 2 ^ 32
      → gui_window_content_x w + gui_window_content_width w < 2 ^ 32
      → gui_window_content_y w + gui_window_content_height w < 2 ^ 32
      → in_content w u v ≡ false
      → one_line str ≡ true
      → dx + 8 * length str ≤ gui_window_content_width w
      → dy + 8 ≤ gui_window_content_height w
      → pixel framebuffer u v (put_text framebuffer w dx dy str m) ≡ pixel framebuffer u v m
  unfolding put_text
  put_text-outside w dx dy str m small right bottom out line wide high =
      let left : add32 (gui_window_content_x w) dx ≡ gui_window_content_x w + dx = omega arith in
      let top : add32 (gui_window_content_y w) dy ≡ gui_window_content_y w + dy = omega arith in
      gfx_draw_string-outside framebuffer buffer 0x00FFFFFF w.bg_color (omega arith) small u v a b
        str (add32 (gui_window_content_x w) dx) (add32 (gui_window_content_y w) dy) m line
        (omega (arith, left)) (omega (arith, top)) (ground (arith, left, top, out, wide, high))

  -- On a pixel outside its content area, the welcome window changes nothing.
  pub welcome_window_draw-outside :
      (window : ℕ → Window) (m : Bytes)
      → in_content (desktop window welcome_window) u v ≡ false
      → pixel framebuffer u v (welcome_window_draw framebuffer (desktop window welcome_window) m)
        ≡ pixel framebuffer u v m
  unfolding one_line welcome_window_draw desktop gui_window_content_x gui_window_content_y
      gui_window_content_width gui_window_content_height
  welcome_window_draw-outside window m out =
      let w = desktop window welcome_window in
      put_text-outside w 4 16 _ _ (omega arith) (omega arith) (omega arith) out refl (omega arith)
        (omega arith)
      ∙ put_text-outside w 4 4 _ m (omega arith) (omega arith) (omega arith) out refl (omega arith)
          (omega arith)

  -- On a pixel outside its content area, the system window changes nothing, with a vendor name of up to 27
  -- characters on one line.
  pub info_window_draw-outside :
      (machine : Machine) (window : ℕ → Window) (m : Bytes)
      → one_line machine.vendor ≡ true
      → length machine.vendor ≤ 27
      → machine.family < 2 ^ 32
      → machine.model < 2 ^ 32
      → machine.memory_kb < 2 ^ 32
      → in_content (desktop window info_window) u v ≡ false
      → pixel framebuffer u v (info_window_draw framebuffer (desktop window info_window) machine m)
        ≡ pixel framebuffer u v m
  unfolding one_line info_window_draw desktop gui_window_content_x gui_window_content_y
      gui_window_content_width gui_window_content_height
  info_window_draw-outside machine window m line short family model memory out =
      let w = desktop window info_window in
      let label =
        λ (dy : ℕ) (str : List ℕ) (m' : Bytes) (high : dy ≤ 40) (line' : one_line str ≡ true)
            (short' : length str ≤ 39).
          put_text-outside w 4 dy str m' (omega arith) (omega arith) (omega arith) out line'
            (omega arith) (omega arith) in
      let value =
        λ (dy : ℕ) (str : List ℕ) (m' : Bytes) (high : dy ≤ 40) (line' : one_line str ≡ true)
            (short' : length str ≤ 27).
          put_text-outside w 96 dy str m' (omega arith) (omega arith) (omega arith) out line'
            (omega arith) (omega arith) in
      let number = λ (dy : ℕ) (n : ℕ) (m' : Bytes) (high : dy ≤ 40) (lt : n < 2 ^ 32).
        value dy (itoa n) m' high (one_line-itoa n) (omega (arith, (length-itoa n lt).0)) in
      number 40 (machine.memory_kb / 1024) _ (omega arith) (omega arith)
      ∙ label 40 _ _ (omega arith) refl (omega arith)
      ∙ number 28 machine.model _ (omega arith) model
      ∙ label 28 _ _ (omega arith) refl (omega arith)
      ∙ number 16 machine.family _ (omega arith) family
      ∙ label 16 _ _ (omega arith) refl (omega arith)
      ∙ value 4 machine.vendor _ (omega arith) line short
      ∙ label 4 _ m (omega arith) refl (omega arith)

  -- On a pixel outside its content area, the notes window changes nothing while it holds at most 44
  -- characters, on one line.
  pub notes_window_draw-outside :
      (n : Notes) (window : ℕ → Window) (m : Bytes)
      → IsEnded n
      → n.used ≤ 44
      → one_line (c_string notes_buffer_size 0 n.text) ≡ true
      → in_content (desktop window notes_window) u v ≡ false
      → pixel framebuffer u v (notes_window_draw framebuffer (desktop window notes_window) n m)
        ≡ pixel framebuffer u v m
  unfolding one_line notes_window_draw desktop gui_window_content_x gui_window_content_y
      gui_window_content_width gui_window_content_height
  notes_window_draw-outside n window m ended short line out =
      let w = desktop window notes_window in
      let cleared =
        gfx_fill_rect-pixel framebuffer buffer w.bg_color (omega arith) u v a b
          (gui_window_content_x w) (gui_window_content_y w) (gui_window_content_width w)
          (gui_window_content_height w) m (omega arith) (omega arith) in
      let ends = length-c_string notes_buffer_size 0 n.used n.text (omega arith) ended.1 in
      put_text-outside w 4 16 _ _ (omega arith) (omega arith) (omega arith) out line
        (omega (arith, ends)) (omega arith)
      ∙ put_text-outside w 4 4 _ _ (omega arith) (omega arith) (omega arith) out refl (omega arith)
          (omega arith)
      ∙ cleared
      ∙ rw out refl
