-- ===== src/Serial.antt =====
-- src/io/serial.c: the first serial port. `statuses` are the answers of the line status register to
-- the reads to come, and `sent` the bytes written to the ports, with their port, the newest first.
pub mod Transmit
use xenon_os.Base.{
  ◌%◌, ◌^◌, ℕ, ◌+◌, ◌==◌, ◌||◌, if◌then◌else◌, Option, none, some, true, false, List, [], ◌∷◌,
  bit_and,
}
use xenon_os.Text.{itoa, itoa_hex}
use xenon_os.Terminal.{Arg}
use mathlib.Core.Option

abbrev pub com1 : ℕ
com1 = 0x3F8

pub record Serial : Type 0 where
  pub statuses : List ℕ
  pub sent : List (ℕ × ℕ)

abbrev pub outb : ℕ → ℕ → Serial → Serial
outb port value s = record s { sent = (port, value) ∷ s.sent }

pub serial_initialize : Serial → Serial
serial_initialize s = outb (com1 + 4) 0x0B (
    outb (com1 + 2) 0xC7 (
      outb (com1 + 3) 0x03 (
        outb (com1 + 1) 0x00
          (outb (com1 + 0) 0x03 (outb (com1 + 3) 0x80 (outb (com1 + 1) 0x00 s))))))

-- The loop `while (!transmit_empty())`: the answers that are left. `none` is a loop that still waits
-- at the last answer.
pub wait : List ℕ → Option (List ℕ)
wait [] = none
wait (status ∷ statuses) =
    let rest = wait statuses in if bit_and status 0x20 == 0 then rest else some statuses

pub serial_putc : ℕ → Serial → Option Serial
serial_putc c s =
    Option.map (λ statuses. outb com1 c (record s { statuses = statuses })) (wait s.statuses)

-- The carriage return before a newline.
pub put_return : ℕ → Serial → Option Serial
put_return c s = if c == b'\n' then serial_putc b'\r' s else some s

pub serial_write : List ℕ → Serial → Option Serial
serial_write [] s = some s
serial_write (c ∷ str) s =
    Option.bind (put_return c s) λ s1. Option.bind (serial_putc c s1) λ s2. serial_write str s2

-- What one conversion writes, and the arguments that are left: `none` is an argument that is missing
-- or of another type, on which va_arg is undefined.
pub convert : ℕ → List Arg → Option (List ℕ × List Arg)
convert c (Arg.uint value ∷ args) =
    if c == b'u'
    then some (itoa value, args)
    else if c == b'x'
    then some (itoa_hex value, args)
    else none
convert c (Arg.str s ∷ args) = if c == b's' then some (s, args) else none
convert c (Arg.char a ∷ args) = if c == b'c' then some (a % 2 ^ 8 ∷ [], args) else none
convert c [] = none

-- The `switch` on the character after a '%'.
pub directive : ℕ → List Arg → Option (List ℕ × List Arg)
directive c args =
    if c == b'u' || c == b'x' || c == b's' || c == b'c'
    then convert c args
    else if c == b'%'
    then some (b'%' ∷ [], args)
    else some (b'%' ∷ c ∷ [], args)

-- A format that ends in '%' makes the source read on beyond the string, which is `none` here.
pub serial_writef : List ℕ → List Arg → Serial → Option Serial
serial_writef [] args s = some s
serial_writef (c ∷ []) args s = if c == b'%' then none else serial_write (c ∷ []) s
serial_writef (c ∷ d ∷ format) args s = elim (c == b'%') [
  | true ↦
      Option.bind (directive d args)
        λ r. Option.bind (serial_write r.0 s) λ s'. serial_writef format r.1 s'
  | false ↦ Option.bind (serial_write (c ∷ []) s) λ s'. serial_writef (d ∷ format) args s'
]
