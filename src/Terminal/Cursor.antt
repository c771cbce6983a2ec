-- ===== src/Terminal/Cursor.antt =====
-- The hardware cursor: what the port writes leave in the VGA controller.
use mathlib.Core.Option
use mathlib.Core.Option.{some-injective}
use xenon_os.Base.{
  ℕ, ◌+◌, ◌*◌, ◌%◌, ◌^◌, ◌≡◌, refl, ◌==◌, if◌then◌else◌, arith, List, [], ◌∷◌, Option, some, none,
  ◌&&◌, ltb, subst, Bool-cases, Option-cases, inl, inr,
}
use xenon_os.Base.Bits.{bit_and_mask}
use xenon_os.Terminal.{
  Terminal, Color, Arg, cell_index, update_cursor, terminal_initialize, terminal_putchar,
  terminal_backspace, terminal_write, terminal_set_color, terminal_write_colored, terminal_writef,
  terminal_writef_colored, putchar_nocursor, clear, erase, write_formatted, attribute, convert,
  directive,
}
use xenon_os.Text.{itoa, itoa_hex}
use xenon_os.Terminal.Screen.{
  OnScreen, cursor-OnScreen, putchar_nocursor-OnScreen, put_string-OnScreen,
}

-- The controller's index register and its registers 0x0E and 0x0F.
pub record Crtc : Type 0 where
  pub index : ℕ
  pub high : ℕ
  pub low : ℕ

pub receive : ℕ → ℕ → Crtc → Crtc
receive port value s =
    if port == 0x3D4
    then record s { index = value }
    else if port == 0x3D5
    then if s.index == 0x0E
      then record s { high = value }
      else if s.index == 0x0F
      then record s { low = value }
      else s
    else s

-- The writes are the newest first.
pub registers : List (ℕ × ℕ) → Crtc
registers [] = record { index = 0; high = 0; low = 0 }
registers ((port, value) ∷ older) = receive port value (registers older)

pub hardware_cursor : Terminal → ℕ
hardware_cursor t = let s = registers t.ports in s.high * 2 ^ 8 + s.low

-- On the screen, with the hardware cursor at the cell where the next character goes.
pub record IsSynced (t : Terminal) : Type 0 where
  pub on_screen : OnScreen t
  pub in_step : hardware_cursor t ≡ cell_index t.row t.column

pub update_cursor-IsSynced : (t : Terminal) → OnScreen t → IsSynced (update_cursor t)
update_cursor-IsSynced t s = record {
  on_screen = cursor-OnScreen s;
  in_step =
      unfold hardware_cursor update_cursor registers receive in
      omega (arith, s.row_in, s.column_in, bit_and_mask 8 (cell_index t.row t.column % 2 ^ 16));
}

pub data Call : Type 0 where
  putchar : ℕ → Call
  backspace : Call
  write : List ℕ → Call
  set_color : Color → Color → Call
  write_colored : List ℕ → Color → Color → Call
  writef : List ℕ → List Arg → Call
  writef_colored : Color → Color → List ℕ → List Arg → Call

-- One call of the interface. `none` is a formatted write on which the source has no meaning.
unfoldable pub call : Call → Terminal → Option Terminal
call (putchar c) t = some (terminal_putchar c t)
call backspace t = some (terminal_backspace t)
call (write str) t = some (terminal_write str t)
call (set_color fg bg) t = some (terminal_set_color fg bg t)
call (write_colored str fg bg) t = some (terminal_write_colored str fg bg t)
call (writef format args) t = terminal_writef format args t
call (writef_colored fg bg format args) t = terminal_writef_colored fg bg format args t

unfoldable pub calls : List Call → Terminal → Option Terminal
calls [] t = some t
calls (c ∷ cs) t = elim (call c t) [ none ↦ none | some t' ↦ calls cs t' ]

convert-OnScreen :
    (c : ℕ) (args : List Arg) (t : Terminal) (r : List Arg × Terminal)
    → OnScreen t
    → convert c args t ≡ some r
    → OnScreen r.1
unfolding convert
convert-OnScreen c [] t r s e = cc
convert-OnScreen c (Arg.uint value ∷ args) t r s e =
    ground (arith, put_string-OnScreen (itoa value) s, put_string-OnScreen (itoa_hex value) s)
convert-OnScreen c (Arg.str str ∷ args) t r s e = ground (arith, put_string-OnScreen str s)
convert-OnScreen c (Arg.char a ∷ args) t r s e =
    ground (arith, putchar_nocursor-OnScreen (a % 2 ^ 8) s)

directive-OnScreen :
    (c : ℕ) (args : List Arg) (t : Terminal) (r : List Arg × Terminal)
    → OnScreen t
    → directive c args t ≡ some r
    → OnScreen r.1
unfolding directive
directive-OnScreen c args t r s e =
    let percent = putchar_nocursor-OnScreen b'%' s in
    ground (arith, convert-OnScreen c args t r s, percent, putchar_nocursor-OnScreen c percent)

write_formatted-OnScreen :
    (format : List ℕ) (args : List Arg) (t t' : Terminal)
    → OnScreen t
    → write_formatted format args t ≡ some t'
    → OnScreen t'
unfolding write_formatted
write_formatted-OnScreen [] args t t' s e = ground arith
write_formatted-OnScreen (c ∷ []) args t t' s e = ground (arith, putchar_nocursor-OnScreen c s)
write_formatted-OnScreen (c ∷ d ∷ format) args t t' s e = elim (Bool-cases (c == b'%')) [
  | inl p ↦ elim (Option-cases (directive d args t)) [
    | inl bad ↦ ground arith
    | inr (r, ok) ↦
        let s' = directive-OnScreen d args t r s ok in
        ground (arith, write_formatted-OnScreen format r.0 r.1 t' s')
  ]
  | inr p ↦
      let s' = putchar_nocursor-OnScreen c s in
      ground (arith, write_formatted-OnScreen (d ∷ format) args (putchar_nocursor c t) t' s')
]

-- Only the cursor and the ports matter.
recolored-IsSynced :
    (color : ℕ) {t : Terminal} → IsSynced t → IsSynced (record t { current_color = color })
unfolding hardware_cursor
recolored-IsSynced color s = record {
  on_screen = record { row_in = s.on_screen.row_in; column_in = s.on_screen.column_in };
  in_step = s.in_step;
}

recolored-OnScreen :
    (color : ℕ) {t : Terminal} → OnScreen t → OnScreen (record t { current_color = color })
recolored-OnScreen color s = record { row_in = s.row_in; column_in = s.column_in }

erase-IsSynced : {t : Terminal} → OnScreen t → IsSynced (erase t)
unfolding erase
erase-IsSynced s = update_cursor-IsSynced _ (record { row_in = s.row_in; column_in = s.column_in })

backspace-IsSynced : {t : Terminal} → IsSynced t → IsSynced (terminal_backspace t)
unfolding terminal_backspace
backspace-IsSynced {t} s = elim (Bool-cases (t.column == 0 && t.row == 0)) [
  | inl home ↦ rw home s
  | inr away ↦ elim (Bool-cases (ltb 0 t.column)) [
    | inl inner ↦
        rw (away, inner)
          (erase-IsSynced (record {
            row_in = s.on_screen.row_in;
            column_in = omega (arith, s.on_screen.column_in);
          }))
    | inr edge ↦
        rw (away, edge)
          (erase-IsSynced
            (record { row_in = omega (arith, s.on_screen.row_in); column_in = omega arith }))
  ]
]

map-eq-some :
    {A B : Type 0} (f : A → B) (o : Option A) {y : B}
    → Option.map f o ≡ some y
    → (x : A) × (o ≡ some x) × (f x ≡ y)
map-eq-some f none e = cc
map-eq-some f (some x) e = (x, refl, some-injective _ _ e)

abbrev restored : Terminal → Terminal → Terminal
restored t t' = record (update_cursor t') { current_color = t.current_color }

-- Each call of the interface that has a meaning leaves the cursor on the screen and the hardware
-- cursor in step with it.
pub call-IsSynced : (c : Call) {t t' : Terminal} → IsSynced t → call c t ≡ some t' → IsSynced t'
unfolding call terminal_writef terminal_writef_colored terminal_set_color
call-IsSynced (putchar c) s e =
    subst IsSynced (some-injective _ _ e) (
      unfold terminal_putchar in update_cursor-IsSynced _ (putchar_nocursor-OnScreen c s.on_screen))
call-IsSynced backspace s e = subst IsSynced (some-injective _ _ e) (backspace-IsSynced s)
call-IsSynced (write str) s e =
    subst IsSynced (some-injective _ _ e)
      (unfold terminal_write in update_cursor-IsSynced _ (put_string-OnScreen str s.on_screen))
call-IsSynced (set_color fg bg) s e = subst IsSynced (some-injective _ _ e) (recolored-IsSynced _ s)
call-IsSynced (write_colored str fg bg) s e = subst IsSynced (some-injective _ _ e) (
    unfold terminal_write_colored in
    recolored-IsSynced _
      (update_cursor-IsSynced _ (put_string-OnScreen str (recolored-OnScreen _ s.on_screen))))
call-IsSynced (writef format args) {t} s e =
    let (reached, ok, last) = map-eq-some update_cursor (write_formatted format args t) e in
    subst IsSynced last (
      update_cursor-IsSynced reached
        (write_formatted-OnScreen format args t reached s.on_screen ok))
call-IsSynced (writef_colored fg bg format args) {t} s e =
    let start : Terminal = terminal_set_color fg bg t in
    let (reached, ok, last) = map-eq-some (restored t) (write_formatted format args start) e in
    let kept = recolored-OnScreen (attribute fg bg) s.on_screen in
    subst IsSynced last (
      recolored-IsSynced _ (
        update_cursor-IsSynced reached
          (write_formatted-OnScreen format args start reached kept ok)))

pub calls-IsSynced :
    (cs : List Call) {t t' : Terminal} → IsSynced t → calls cs t ≡ some t' → IsSynced t'
unfolding calls
calls-IsSynced [] s e = subst IsSynced (some-injective _ _ e) s
calls-IsSynced (c ∷ cs) {t} s e = elim (Option-cases (call c t)) [
  | inl bad ↦ ground (arith, bad)
  | inr (reached, ok) ↦ calls-IsSynced cs (call-IsSynced c s ok) (rw (ok, calls) at e)
]

initialize-IsSynced : (t : Terminal) → IsSynced (terminal_initialize t)
unfolding terminal_initialize
initialize-IsSynced t =
    let home : Terminal = record t { row = 0; column = 0 } in
    update_cursor-IsSynced (clear home) (unfold clear update_cursor in omega arith)

-- After terminal_initialize, whatever calls follow, the cursor is on the screen and the hardware
-- cursor is at the cell where the next character goes, in every state that is reached.
pub initialized-IsSynced :
    (cs : List Call) (t : Terminal) {t' : Terminal}
    → calls cs (terminal_initialize t) ≡ some t'
    → IsSynced t'
initialized-IsSynced cs t e = calls-IsSynced cs (initialize-IsSynced t) e
