-- ===== src/Serial/Transmit.antt =====
-- What goes over the line.
use xenon_os.Base.{
  ℕ, suc, ◌≤◌, ◌<◌, ◌≡◌, refl, ◌==◌, if◌then◌else◌, some, List, [], ◌∷◌, bit_and, length, arith,
  Bool-cases, inl, inr,
}
use xenon_os.Serial.{Serial, com1, wait, serial_putc, put_return, serial_write}
use mathlib.Core.Option

-- The bytes of a text, with a carriage return before each newline.
abbrev pub with_returns : List ℕ → List ℕ
with_returns [] = []
with_returns (c ∷ str) =
    let rest = with_returns str in if c == b'\n' then b'\r' ∷ c ∷ rest else c ∷ rest

-- How many of the answers say that the port can take a byte.
abbrev pub ready_answers : List ℕ → ℕ
ready_answers [] = 0
ready_answers (status ∷ statuses) =
    let rest = ready_answers statuses in if bit_and status 0x20 == 0 then rest else suc rest

-- The bytes after the others, in the log, which has the newest first.
abbrev pub logged : List ℕ → List (ℕ × ℕ) → List (ℕ × ℕ)
logged [] sent = sent
logged (c ∷ str) sent = logged str ((com1, c) ∷ sent)

wait-ready :
    (statuses : List ℕ) (n : ℕ)
    → n < ready_answers statuses
    → (left : List ℕ) × (wait statuses ≡ some left) × (n ≤ ready_answers left)
unfolding wait
wait-ready [] n h = absurd (omega arith)
wait-ready (status ∷ statuses) n h = elim (Bool-cases (bit_and status 0x20 == 0)) [
  | inl busy ↦
      let (left, done, rest) = wait-ready statuses n (ground (arith, h, busy)) in
      (left, rw (busy, wait) done, rest)
  | inr free ↦ (statuses, rw (free, wait) refl, ground (arith, h, free))
]

-- serial_putc ends if the port is ready once more.
putc-sent :
    (c n : ℕ) (s : Serial)
    → n < ready_answers s.statuses
    → (s' : Serial) × (serial_putc c s ≡ some s')
      × (s'.sent ≡ (com1, c) ∷ s.sent)
      × (n ≤ ready_answers s'.statuses)
unfolding serial_putc
putc-sent c n s h =
    let (left, done, rest) = wait-ready s.statuses n h in
    (record { statuses = left; sent = (com1, c) ∷ s.sent }, rw done refl, refl, rest)

-- serial_write ends if the port is ready for each byte, and has then sent the text, with a carriage
-- return before each newline, and nothing else.
pub serial_write_lem :
    (str : List ℕ) (s : Serial)
    → length (with_returns str) ≤ ready_answers s.statuses
    → (s' : Serial) × (serial_write str s ≡ some s') × (s'.sent ≡ logged (with_returns str) s.sent)
unfolding serial_write put_return Option.bind
serial_write_lem [] s h = (s, refl, refl)
serial_write_lem (c ∷ str) s h = elim (Bool-cases (c == b'\n')) [
  | inl newline ↦
      let (s1, returned, log1, ready1) =
        putc-sent b'\r' (suc (length (with_returns str))) s (ground (arith, h, newline)) in
      let (s2, put, log2, ready2) = putc-sent c (length (with_returns str)) s1 ready1 in
      let (s', written, log) = serial_write_lem str s2 ready2 in
      (s', rw (newline, returned, put, written) refl, rw (newline, log, log2, log1) refl)
  | inr other ↦
      let (s2, put, log2, ready2) =
        putc-sent c (length (with_returns str)) s (ground (arith, h, other)) in
      let (s', written, log) = serial_write_lem str s2 ready2 in
      (s', rw (other, put, written) refl, rw (other, log, log2) refl)
]
