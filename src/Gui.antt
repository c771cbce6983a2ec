-- ===== src/Gui.antt =====
-- src/gui/gui.c, gui.h: the windows of graphics mode and their keyboard focus. A window pointer is
-- a number, and `window` is what it points to. Drawing calls, callbacks and the serial message are
-- a list of events, the newest first.
pub mod Focus
pub mod Geometry
mod Tests
use xenon_os.Base.{
  ℕ, zero, suc, ◌+◌, ◌-◌, ◌%◌, ◌^◌, Bool, true, false, not, Option, some, none, List, [], ◌∷◌, ◌==◌,
  ltb, leb, if◌then◌else◌, update, add32, sub32, ℤ, pos, negsuc,
}

-- GUI_MAX_WINDOWS
abbrev pub max_windows : ℕ
max_windows = 8

abbrev pub title_bar_height : ℕ
title_bar_height = 18

abbrev pub border_color : ℕ
border_color = 0x00FFFFFF

abbrev pub title_bg_color : ℕ
title_bg_color = 0x00404040

abbrev pub focused_title_bg_color : ℕ
focused_title_bg_color = 0x00355C8C

abbrev pub title_fg_color : ℕ
title_fg_color = 0x00FFFFFF

abbrev pub desktop_bg_color : ℕ
desktop_bg_color = 0x00202020

-- struct gui_window: of the two callbacks, whether they are there.
pub record Window : Type 0 where
  pub title : Option (List ℕ)
  pub x : ℕ
  pub y : ℕ
  pub width : ℕ
  pub height : ℕ
  pub bg_color : ℕ
  pub has_draw : Bool
  pub has_key : Bool

pub data Event : Type 0 where
  fill_rect : ℕ → ℕ → ℕ → ℕ → ℕ → Event
  draw_rect : ℕ → ℕ → ℕ → ℕ → ℕ → Event
  draw_string : ℕ → ℕ → List ℕ → ℕ → ℕ → Event
  on_draw : ℕ → Event
  on_key : ℕ → ℕ → Event
  present : Event
  entered : Event

-- The static variables of gui.c; `focused_window` is `none` for -1. The last field is the events.
pub record Gui : Type 0 where
  pub windows : ℕ → ℕ
  pub window_count : ℕ
  pub focused_window : Option ℕ
  pub gui_active : Bool
  pub gui_ready : Bool
  pub events : List Event

abbrev pub emit : Event → Gui → Gui
emit e g = record g { events = e ∷ g.events }

-- `focused_window == i`
abbrev pub is_focus : Option ℕ → ℕ → Bool
is_focus none i = false
is_focus (some f) i = i == f

unfoldable pub gui_window_content_x : Window → ℕ
gui_window_content_x w = add32 w.x 1

unfoldable pub gui_window_content_y : Window → ℕ
gui_window_content_y w = add32 w.y (title_bar_height + 2)

unfoldable pub gui_window_content_width : Window → ℕ
gui_window_content_width w = sub32 w.width 2

unfoldable pub gui_window_content_height : Window → ℕ
gui_window_content_height w = sub32 w.height (title_bar_height + 3)

pub gui_is_active : Gui → Bool
gui_is_active g = g.gui_active

-- Returns the index, or -1.
pub gui_add_window : ℕ → Gui → ℤ × Gui
gui_add_window w g = if leb max_windows g.window_count then (negsuc 0, g) else (
  pos g.window_count,
  record g {
    windows = update g.windows g.window_count w;
    focused_window = elim g.focused_window [ none ↦ some g.window_count | some f ↦ some f ];
    window_count = g.window_count + 1;
  },
)

-- The success of framebuffer_initialize is an argument.
unfoldable pub gui_initialize : Bool → Gui → Bool × Gui
gui_initialize framebuffer_ok g =
    if framebuffer_ok then (true, record g { gui_ready = true }) else (false, g)

module _ (window : ℕ → Window) where
  pub draw_title : Window → ℕ → Gui → Gui
  draw_title w title_bg g = elim w.title [
    | none ↦ g
    | some title ↦ emit (draw_string (add32 w.x 6) (add32 w.y 5) title title_fg_color title_bg) g
  ]

  pub draw_window : Window → Bool → Gui → Gui
  draw_window w focused g =
      let title_bg = if focused then focused_title_bg_color else title_bg_color in
      draw_title w title_bg (
        emit (fill_rect (add32 w.x 1) (add32 w.y 1) (sub32 w.width 2) title_bar_height title_bg) (
          emit (draw_rect w.x w.y w.width w.height border_color)
            (emit (fill_rect w.x w.y w.width w.height w.bg_color) g)))

  -- A window's frame, then its content.
  pub draw_whole : ℕ → Bool → Gui → Gui
  draw_whole pointer focused g =
      let g' = draw_window (window pointer) focused g in
      if (window pointer).has_draw then emit (on_draw pointer) g' else g'

  -- The loop of gui_render, by the rounds left.
  pub render_windows : ℕ → ℕ → Gui → Gui
  render_windows zero i g = g
  render_windows (suc left) i g =
      render_windows left (i + 1) (draw_whole (g.windows i) (is_focus g.focused_window i) g)

  -- The framebuffer's width and height are arguments.
  pub gui_render : ℕ → ℕ → Gui → Gui
  gui_render fb_width fb_height g =
      if g.gui_ready
      then emit present (
          render_windows g.window_count 0
            (emit (fill_rect 0 0 fb_width fb_height desktop_bg_color) g))
      else g

  -- `focused_window >= 0 && windows[focused_window] == window`
  pub has_focus : ℕ → Gui → Bool
  has_focus pointer g = elim g.focused_window [ none ↦ false | some f ↦ g.windows f == pointer ]

  pub gui_redraw_window : ℕ → Gui → Gui
  gui_redraw_window pointer g =
      if g.gui_ready then emit present (draw_whole pointer (has_focus pointer g) g) else g

  pub gui_enter : ℕ → ℕ → Gui → Gui
  gui_enter fb_width fb_height g =
      if g.gui_ready
      then emit entered (gui_render fb_width fb_height (record g { gui_active = true }))
      else g

  -- `none` where the source reads windows[-1].
  pub gui_focus_next : Gui → Option Gui
  gui_focus_next g = if leb g.window_count 1 then some g else elim g.focused_window [
    | none ↦ none
    | some previous ↦
        let next = (previous + 1) % g.window_count in
        let g' = record g { focused_window = some next } in
        some (gui_redraw_window (g.windows next) (gui_redraw_window (g.windows previous) g'))
  ]

  -- The on_key callback is an event; what it does is up to the window.
  pub gui_handle_key : ℕ → Gui → Option Gui
  gui_handle_key c g =
      if not g.gui_active
      then some g
      else if c == b'\t'
      then gui_focus_next g
      else elim g.focused_window [
        | none ↦ some g
        | some f ↦
            if (window (g.windows f)).has_key
            then some (emit (on_key (g.windows f) c) g)
            else some g
      ]
