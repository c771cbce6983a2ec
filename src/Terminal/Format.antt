-- ===== src/Terminal/Format.antt =====
-- Formatted writes print what the format and its arguments expand to.
use mathlib.Core.Option
use xenon_os.Base.{
  ◌%◌, ◌^◌, ℕ, ◌≡◌, refl, ◌==◌, ◌||◌, if◌then◌else◌, arith, List, [], ◌∷◌, ◌++◌, Option, some, none,
  ap, ◌∙◌, sym, Bool-cases, Option-cases, inl, inr, true, false,
}
use xenon_os.Text.{itoa, itoa_hex}
use xenon_os.Terminal.{
  Terminal, Arg, put_string, putchar_nocursor, convert, directive, write_formatted, terminal_write,
  terminal_writef, terminal_writef_colored, terminal_write_colored, terminal_set_color, Color,
}

-- What the specifiers documented in terminal.h stand for, each with its kind of argument.
unfoldable pub spell : ℕ → List Arg → Option (List ℕ × List Arg)
spell c (Arg.uint value ∷ args) =
    if c == b'u'
    then some (itoa value, args)
    else if c == b'x'
    then some (itoa_hex value, args)
    else none
spell c (Arg.str s ∷ args) = if c == b's' then some (s, args) else none
spell c (Arg.char a ∷ args) = if c == b'c' then some (a % 2 ^ 8 ∷ [], args) else none
spell c [] = none

-- The text of one directive: a specifier's, "%" for "%%", and any other one as it is written.
unfoldable pub directive_text : ℕ → List Arg → Option (List ℕ × List Arg)
directive_text c args =
    if c == b'u' || c == b'x' || c == b's' || c == b'c'
    then spell c args
    else if c == b'%'
    then some (b'%' ∷ [], args)
    else some (b'%' ∷ c ∷ [], args)

-- The whole text, with no terminal in sight.
unfoldable pub expand : List ℕ → List Arg → Option (List ℕ)
expand [] args = some []
expand (c ∷ []) args = if c == b'%' then none else some (c ∷ [])
expand (c ∷ d ∷ format) args = elim (c == b'%') [
  | true ↦ elim (directive_text d args) [
    | none ↦ none
    | some (text, args') ↦ Option.map (λ rest. text ++ rest) (expand format args')
  ]
  | false ↦ Option.map (λ rest. c ∷ rest) (expand (d ∷ format) args)
]

pub put_string-append :
    (xs ys : List ℕ) (t : Terminal) → put_string (xs ++ ys) t ≡ put_string ys (put_string xs t)
unfolding put_string
put_string-append [] ys t = refl
put_string-append (x ∷ xs) ys t = put_string-append xs ys (putchar_nocursor x t)

-- Print the text of a directive, and keep the other arguments.
abbrev print_text : Terminal → List ℕ × List Arg → List Arg × Terminal
print_text t (text, args) = (args, put_string text t)

convert-spell :
    (c : ℕ) (args : List Arg) (t : Terminal)
    → convert c args t ≡ Option.map (print_text t) (spell c args)
unfolding convert spell
convert-spell c [] t = refl
convert-spell c (Arg.uint value ∷ args) t = ground arith
convert-spell c (Arg.str s ∷ args) t = ground arith
convert-spell c (Arg.char a ∷ args) t = unfold put_string in ground arith

directive-text :
    (c : ℕ) (args : List Arg) (t : Terminal)
    → directive c args t ≡ Option.map (print_text t) (directive_text c args)
unfolding directive directive_text put_string
directive-text c args t = ground (arith, convert-spell c args t)

-- Text printed first is a prefix of the whole.
print-prefix :
    (text : List ℕ) (t : Terminal) (o : Option (List ℕ))
    → Option.map (λ s. put_string s (put_string text t)) o
      ≡ Option.map (λ s. put_string s t) (Option.map (λ rest. text ++ rest) o)
print-prefix text t none = refl
print-prefix text t (some s) = ap some (sym (put_string-append text s t))

print-char :
    (c : ℕ) (t : Terminal) (o : Option (List ℕ))
    → Option.map (λ s. put_string s (putchar_nocursor c t)) o
      ≡ Option.map (λ s. put_string s t) (Option.map (λ rest. c ∷ rest) o)
unfolding put_string
print-char c t none = refl
print-char c t (some s) = refl

write_formatted-expand :
    (format : List ℕ) (args : List Arg) (t : Terminal)
    → write_formatted format args t ≡ Option.map (λ s. put_string s t) (expand format args)
unfolding write_formatted expand
write_formatted-expand [] args t = unfold put_string in refl
write_formatted-expand (c ∷ []) args t = unfold put_string in ground arith
write_formatted-expand (c ∷ d ∷ format) args t = elim (Bool-cases (c == b'%')) [
  | inl percent ↦ elim (Option-cases (directive_text d args)) [
    | inl bad ↦ rw (percent, write_formatted, expand) (rw (directive-text d args t, bad))
    | inr ((text, rest), ok) ↦
        rw (percent, write_formatted, expand)
          (rw (directive-text d args t, ok)
            (write_formatted-expand format rest (put_string text t)
              ∙ print-prefix text t (expand format rest)))
  ]
  | inr plain ↦
      rw (plain, write_formatted, expand)
        (write_formatted-expand (d ∷ format) args (putchar_nocursor c t)
          ∙ print-char c t (expand (d ∷ format) args))
]

-- terminal_writef prints the expansion of its format by one terminal_write, and has no meaning
-- exactly where the expansion has none: a missing or mistyped argument, or a '%' at the end.
pub terminal_writef-expand :
    (format : List ℕ) (args : List Arg) (t : Terminal)
    → terminal_writef format args t ≡ Option.map (λ s. terminal_write s t) (expand format args)
unfolding terminal_writef terminal_write
terminal_writef-expand format args t = elim (Option-cases (expand format args)) [
  | inl bad ↦ rw (write_formatted-expand format args t, bad)
  | inr (s, ok) ↦ rw (write_formatted-expand format args t, ok)
]

-- terminal_writef_colored prints the expansion in its colour, and restores the previous one.
pub terminal_writef_colored-some :
    (fg bg : Color) (format : List ℕ) (args : List Arg) (text : List ℕ) (t : Terminal)
    → expand format args ≡ some text
    → terminal_writef_colored fg bg format args t ≡ some (terminal_write_colored text fg bg t)
unfolding terminal_writef_colored terminal_write_colored
terminal_writef_colored-some fg bg format args text t e =
    rw (write_formatted-expand format args (terminal_set_color fg bg t), e)
