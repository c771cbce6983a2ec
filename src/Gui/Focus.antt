-- ===== src/Gui/Focus.antt =====
-- The focus: which window has it, how it moves, and where keys go.
use xenon_os.Base.{
  ℕ, zero, suc, ◌+◌, ◌%◌, ◌≤◌, ◌<◌, ◌≡◌, ◌≢◌, refl, Bool, true, Option, some, none, ◌==◌, leb,
  if◌then◌else◌, arith, pos, negsuc, Bool-cases, inl, inr, ap, sym, ◌∙◌, not, ◌&&◌,
}
use native.Mathlib.Nat.{mod-lt, mod-eq_of_lt, add-zero, mod-add-mod}
use xenon_os.Gui.{
  Gui, Window, Event, max_windows, emit, draw_title, draw_window, draw_whole, gui_add_window,
  gui_redraw_window, gui_focus_next, gui_handle_key, on_key, has_focus,
}

-- Focus is on a window that is there; only a desktop without windows has none.
abbrev pub FocusIn : Option ℕ → ℕ → Type 0
FocusIn none count = count ≡ 0
FocusIn (some f) count = f < count

pub record IsValid (g : Gui) : Type 0 where
  pub few : g.window_count ≤ max_windows
  pub focus : FocusIn g.focused_window g.window_count

-- Everything but the events is as before.
pub record Keeps (g g' : Gui) : Type 0 where
  pub same_windows : g'.windows ≡ g.windows
  pub same_count : g'.window_count ≡ g.window_count
  pub same_focus : g'.focused_window ≡ g.focused_window
  pub same_active : g'.gui_active ≡ g.gui_active
  pub same_ready : g'.gui_ready ≡ g.gui_ready

pub Keeps-trans : {g h k : Gui} → Keeps g h → Keeps h k → Keeps g k
Keeps-trans p q = record {
  same_windows = q.same_windows ∙ p.same_windows;
  same_count = q.same_count ∙ p.same_count;
  same_focus = q.same_focus ∙ p.same_focus;
  same_active = q.same_active ∙ p.same_active;
  same_ready = q.same_ready ∙ p.same_ready;
}

pub emit-Keeps : (e : Event) (g : Gui) → Keeps g (emit e g)
emit-Keeps e g = record {
  same_windows = refl;
  same_count = refl;
  same_focus = refl;
  same_active = refl;
  same_ready = refl;
}

-- gui_add_window returns -1 and changes nothing when GUI_MAX_WINDOWS windows are there. Otherwise
-- it returns the old count, stores the window there, keeps the windows before it, and counts one
-- more. Either way at most GUI_MAX_WINDOWS are there and the focus is on one of them.
pub gui_add_window_lem :
    (w i : ℕ) {g : Gui}
    → IsValid g
    → ((gui_add_window w g).0
        ≡ (if leb max_windows g.window_count then negsuc 0 else pos g.window_count))
      × ((gui_add_window w g).1.window_count
          ≡ (if leb max_windows g.window_count then g.window_count else g.window_count + 1))
      × ((gui_add_window w g).1.windows i ≡ (
          if not (leb max_windows g.window_count) && g.window_count == i then w else g.windows i))
      × IsValid (gui_add_window w g).1
unfolding gui_add_window
gui_add_window_lem w i {g} v =
    (ground arith, ground arith, ground arith, record { few = ground arith; focus = ground arith })

module _ (window : ℕ → Window) where
  pub draw_whole-Keeps :
      (pointer : ℕ) (b : Bool) (g : Gui) → Keeps g (draw_whole window pointer b g)
  unfolding draw_whole draw_window draw_title
  draw_whole-Keeps pointer b g = ground arith

  pub gui_redraw_window-Keeps :
      (pointer : ℕ) (g : Gui) → Keeps g (gui_redraw_window window pointer g)
  unfolding gui_redraw_window
  gui_redraw_window-Keeps pointer g =
      ground (arith, draw_whole-Keeps pointer (has_focus window pointer g) g)

  -- The state after Tab, but for the events.
  record Moved (g g' : Gui) (f : ℕ) : Type 0 where
    pub windows_kept : g'.windows ≡ g.windows
    pub count_kept : g'.window_count ≡ g.window_count
    pub active_kept : g'.gui_active ≡ g.gui_active
    pub moved : g'.focused_window ≡ some ((f + 1) % g.window_count)

  -- One window: the focus stays, which is also what the step comes to.
  single-Moved :
      (g : Gui) (f : ℕ)
      → g.focused_window ≡ some f
      → f < g.window_count
      → g.window_count ≤ 1
      → Moved g g f
  single-Moved g f e lt few =
      let one : g.window_count ≡ 1 = omega arith in
      let stays : f ≡ (f + 1) % g.window_count = rw one (omega arith) in
      record {
        windows_kept = refl;
        count_kept = refl;
        active_kept = refl;
        moved = e ∙ ap some stays;
      }

  abbrev refocused : Gui → ℕ → Gui
  refocused g f = record g { focused_window = some ((f + 1) % g.window_count) }

  abbrev redrawn : Gui → ℕ → Gui
  redrawn g f =
      gui_redraw_window window (g.windows ((f + 1) % g.window_count))
        (gui_redraw_window window (g.windows f) (refocused g f))

  redrawn-Moved : (g : Gui) (f : ℕ) → Moved g (redrawn g f) f
  redrawn-Moved g f =
      let first = gui_redraw_window-Keeps (g.windows f) (refocused g f) in
      let second =
        gui_redraw_window-Keeps (g.windows ((f + 1) % g.window_count))
          (gui_redraw_window window (g.windows f) (refocused g f)) in
      let both = Keeps-trans first second in
      record {
        windows_kept = both.same_windows;
        count_kept = both.same_count;
        active_kept = both.same_active;
        moved = both.same_focus;
      }

  gui_focus_next-Moved :
      (g : Gui) (f : ℕ)
      → g.focused_window ≡ some f
      → f < g.window_count
      → (g' : Gui) × (gui_focus_next window g ≡ some g') × Moved g g' f
  unfolding gui_focus_next
  gui_focus_next-Moved g f e lt = elim (Bool-cases (leb g.window_count 1)) [
    | inl single ↦ (g, rw single, single-Moved g f e lt (ground arith))
    | inr several ↦ (redrawn g f, rw (several, e), redrawn-Moved g f)
  ]

  -- Pressing Tab `n` times.
  pub tabs : ℕ → Gui → Option Gui
  tabs zero g = some g
  tabs (suc n) g = elim (gui_handle_key window b'\t' g) [ none ↦ none | some g' ↦ tabs n g' ]

  tab-Moved :
      (g : Gui) (f : ℕ)
      → g.gui_active ≡ true
      → g.focused_window ≡ some f
      → f < g.window_count
      → (g' : Gui) × (gui_handle_key window b'\t' g ≡ some g') × Moved g g' f
  unfolding gui_handle_key
  tab-Moved g f on e lt =
      let (g', ok, step) = gui_focus_next-Moved g f e lt in (g', ground (arith, ok), step)

  -- In graphics mode, `n` presses of Tab never fail, and move the focus `n` windows on, around the
  -- end: as many presses as there are windows bring it back. Windows and their number stay.
  pub tabs_lem :
      (n : ℕ) (g : Gui) (f : ℕ)
      → g.gui_active ≡ true
      → g.focused_window ≡ some f
      → f < g.window_count
      → (g' : Gui) × (tabs n g ≡ some g')
        × (g'.focused_window ≡ some ((f + n) % g.window_count))
        × (g'.windows ≡ g.windows)
        × (g'.window_count ≡ g.window_count)
  unfolding tabs
  tabs_lem zero g f on e lt =
      let stays : f ≡ (f + 0) % g.window_count = rw (add-zero f) (sym (mod-eq_of_lt lt)) in
      (g, refl, e ∙ ap some stays, refl, refl)
  tabs_lem (suc n) g f on e lt =
      let count : ℕ = g.window_count in
      let (g', ok, step) = tab-Moved g f on e lt in
      let in_range : (f + 1) % count < g'.window_count =
        omega (arith, step.count_kept, mod-lt (f + 1) {m = count} (omega arith)) in
      let (g'', rest, focus, kept, same) =
        tabs_lem n g' ((f + 1) % count) (step.active_kept ∙ on) step.moved in_range in
      let total : ((f + 1) % count + n) % g'.window_count ≡ (f + suc n) % count =
        ap (λ (k : ℕ). ((f + 1) % count + n) % k) step.count_kept
        ∙ mod-add-mod (f + 1) count n
        ∙ ap (λ (k : ℕ). k % count) (omega arith) in
      (
        g'',
        rw (ok, tabs) rest,
        focus ∙ ap some total,
        kept ∙ step.windows_kept,
        same ∙ step.count_kept,
      )

  -- A key that is not Tab goes to the on_key of the focused window, if it has one, and to no other
  -- window; nothing but that event happens.
  pub gui_handle_key-focused :
      (c : ℕ) (g : Gui) (f : ℕ)
      → g.gui_active ≡ true
      → g.focused_window ≡ some f
      → c ≢ b'\t'
      → gui_handle_key window c g
        ≡ some (if (window (g.windows f)).has_key then emit (on_key (g.windows f) c) g else g)
  unfolding gui_handle_key
  gui_handle_key-focused c g f on e ne = ground arith
