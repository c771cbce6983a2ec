-- ===== src/Gui/Geometry.antt =====
-- The content area of a window.
use xenon_os.Base.{◌+◌, ◌≤◌, ◌<◌, ◌^◌, ◌≡◌, arith}
use xenon_os.Gui.{
  Window, title_bar_height, gui_window_content_x, gui_window_content_y, gui_window_content_width,
  gui_window_content_height,
}

-- In a window that lies on the screen and has room for its frame, the content area begins one pixel
-- inside the left border and one below the title bar, and ends one pixel inside the right and the
-- lower border.
pub content_inside :
    (w : Window)
    → 2 ≤ w.width
    → title_bar_height + 3 ≤ w.height
    → w.x + w.width < 2 ^ 32
    → w.y + w.height < 2 ^ 32
    → (gui_window_content_x w ≡ w.x + 1)
      × (gui_window_content_x w + gui_window_content_width w + 1 ≡ w.x + w.width)
      × (gui_window_content_y w ≡ w.y + 1 + title_bar_height + 1)
      × (gui_window_content_y w + gui_window_content_height w + 1 ≡ w.y + w.height)
unfolding gui_window_content_x gui_window_content_y gui_window_content_width
    gui_window_content_height
content_inside w a b c d = omega arith
