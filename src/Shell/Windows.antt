-- ===== src/Shell/Windows.antt =====
-- The on_draw callbacks of src/shell/commands.c, on the drawing buffer.
use xenon_os.Base.{ℕ, zero, suc, ◌+◌, ◌/◌, ◌==◌, if◌then◌else◌, List, [], ◌∷◌, add32, codes}
use xenon_os.Memory.{Bytes}
use xenon_os.Text.{itoa}
use xenon_os.Gui.{
  Window, gui_window_content_x, gui_window_content_y, gui_window_content_width,
  gui_window_content_height,
}
use xenon_os.Graphics.{FramebufferInfo, gfx_fill_rect, gfx_draw_string}
use xenon_os.Shell.{Machine}
use xenon_os.Shell.Notes.{Notes, notes_buffer_size}

-- The C string in a buffer of `left` bytes from the index `i` on.
unfoldable pub c_string : ℕ → ℕ → (ℕ → ℕ) → List ℕ
c_string zero i text = []
c_string (suc left) i text =
    let rest = c_string left (i + 1) text in if text i == 0 then [] else text i ∷ rest

module _ (framebuffer : FramebufferInfo) (w : Window) where
  -- `gfx_draw_string(x + dx, y + dy, str, 0x00FFFFFF, window->bg_color)`
  unfoldable pub put_text : ℕ → ℕ → List ℕ → Bytes → Bytes
  put_text dx dy str m =
      gfx_draw_string framebuffer (add32 (gui_window_content_x w) dx)
        (add32 (gui_window_content_y w) dy) str 0x00FFFFFF w.bg_color m

  unfoldable pub welcome_window_draw : Bytes → Bytes
  welcome_window_draw m =
      put_text 4 16 (codes "Reboot to get back to the shell.")
        (put_text 4 4 (codes "Hello from XenonOS ^_^") m)

  unfoldable pub info_window_draw : Machine → Bytes → Bytes
  info_window_draw machine m = put_text 96 40 (itoa (machine.memory_kb / 1024)) (
      put_text 4 40 (codes "Memory (MB):") (
        put_text 96 28 (itoa machine.model) (
          put_text 4 28 (codes "CPU model:") (
            put_text 96 16 (itoa machine.family) (
              put_text 4 16 (codes "CPU family:")
                (put_text 96 4 machine.vendor (put_text 4 4 (codes "CPU vendor:") m)))))))

  unfoldable pub notes_window_draw : Notes → Bytes → Bytes
  notes_window_draw state m = put_text 4 16 (c_string notes_buffer_size 0 state.text) (
      put_text 4 4 (codes "Focused window - type something:") (
        gfx_fill_rect framebuffer (gui_window_content_x w) (gui_window_content_y w)
          (gui_window_content_width w) (gui_window_content_height w) w.bg_color m))
