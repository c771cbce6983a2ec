-- ===== src/Keyboard/Editing.antt =====
-- The input buffer refines a line of at most 127 bytes.
use xenon_os.Base.{
  ℕ, zero, suc, ◌+◌, ◌-◌, ◌≤◌, ◌<◌, ◌≡◌, refl, Bool, true, not, ◌&&◌, ◌||◌, List, [], ◌∷◌, ◌++◌,
  ◌==◌, ltb, leb, if◌then◌else◌, update, arith, length, length-append, ap, ap₂, ◌∙◌, bit_and,
}
use xenon_os.Keyboard.Layout.{all_below, all_below-at}
use xenon_os.Keyboard.{
  Keyboard, input_size, translate, edit, type_key, keyboard_handler, is_shift_key,
}

-- The first `n` cells of an array.
pub prefix : (ℕ → ℕ) → ℕ → List ℕ
prefix a zero = []
prefix a (suc n) = prefix a n ++ (a n ∷ [])

prefix-zero : (a : ℕ → ℕ) → prefix a 0 ≡ []
unfolding prefix
prefix-zero a = refl

-- The line that has been typed.
abbrev pub line : Keyboard → List ℕ
line k = prefix k.input k.input_length

pub length-prefix : (a : ℕ → ℕ) (n : ℕ) → length (prefix a n) ≡ n
unfolding prefix
length-prefix a zero = refl
length-prefix a (suc n) = omega (arith, length-append (prefix a n) (a n ∷ []), length-prefix a n)

pub prefix-update : (a : ℕ → ℕ) (i v n : ℕ) → n ≤ i → prefix (update a i v) n ≡ prefix a n
unfolding prefix
prefix-update a i v zero h = refl
prefix-update a i v (suc n) h =
    ap₂ (λ (xs : List ℕ) (x : ℕ). xs ++ (x ∷ [])) (prefix-update a i v n (omega arith))
      (ground arith)

pub drop_last : List ℕ → List ℕ
drop_last [] = []
drop_last (x ∷ []) = []
drop_last (x ∷ y ∷ xs) = x ∷ drop_last (y ∷ xs)

drop_last-append : (xs : List ℕ) (x : ℕ) → drop_last (xs ++ (x ∷ [])) ≡ xs
unfolding drop_last
drop_last-append [] x = refl
drop_last-append (y ∷ []) x = refl
drop_last-append (y ∷ z ∷ xs) x = ap (λ (t : List ℕ). y ∷ t) (drop_last-append (z ∷ xs) x)

-- The specification: one character typed at the end of a line.
pub edit_line : ℕ → List ℕ → List ℕ
edit_line c xs =
    if c == 8
    then drop_last xs
    else if c == b'\n'
    then []
    else if not (c == 0) && ltb (length xs) (input_size - 1)
    then xs ++ (c ∷ [])
    else xs

-- The buffer has room for the line and its NUL.
abbrev pub HasRoom : Keyboard → Type 0
HasRoom k = k.input_length < input_size

pub drop_last-prefix : (a : ℕ → ℕ) (n : ℕ) → drop_last (prefix a n) ≡ prefix a (n - 1)
drop_last-prefix a zero = unfold drop_last prefix in refl
drop_last-prefix a (suc n) =
    let less : n ≡ suc n - 1 = omega arith in
    unfold prefix in drop_last-append (prefix a n) (a n) ∙ ap (prefix a) less

pub prefix-push : (a : ℕ → ℕ) (n c : ℕ) → prefix (update a n c) (n + 1) ≡ prefix a n ++ (c ∷ [])
prefix-push a n c =
    let more : n + 1 ≡ suc n = omega arith in
    rw more (
      unfold prefix in
      ap₂ (λ (xs : List ℕ) (x : ℕ). xs ++ (x ∷ [])) (prefix-update a n c n (omega arith))
        (ground arith))

line_edited : (c : ℕ) (k : Keyboard) → line (edit c k).0 ≡ edit_line c (line k)
unfolding edit edit_line
line_edited c k =
    let n : ℕ = k.input_length in
    ground (
      arith,
      drop_last-prefix k.input n,
      prefix-update k.input (n - 1) 0 (n - 1),
      prefix-update k.input n 0 n,
      prefix-push k.input n c,
      length-prefix k.input n,
      prefix-zero (update k.input n 0),
    )

-- Typing a character edits the line as the specification does, keeps room for the NUL, and writes
-- nothing beyond the buffer.
pub edit_refines :
    (c j : ℕ) (k : Keyboard)
    → HasRoom k
    → input_size ≤ j
    → (line (edit c k).0 ≡ edit_line c (line k))
      × HasRoom (edit c k).0
      × ((edit c k).0.input j ≡ k.input j)
unfolding edit edit_line
edit_refines c j k room out = (line_edited c k, ground arith, ground arith)

-- What a key does to the line, shifting keys and releases included.
pub key_line : Bool → ℕ → Keyboard → List ℕ
key_line gui_active scancode k =
    if leb 128 scancode || is_shift_key scancode || scancode == 58 || gui_active
    then line k
    else edit_line (translate k.shift k.caps_lock scancode) (line k)

agree : Bool → Bool → Bool
agree a b = if a then b else not b

agree_eq : (a b : Bool) → agree a b ≡ true → a ≡ b
unfolding agree
agree_eq a b h = ground arith

abbrev releases_agree : ℕ → Bool
releases_agree scancode = agree (bit_and scancode 0x80 == 0) (ltb scancode 128)

releases_table : all_below 256 releases_agree ≡ true
unfolding all_below agree
releases_table = refl

release_bit : (scancode : ℕ) → scancode < 256 → (bit_and scancode 0x80 == 0) ≡ ltb scancode 128
release_bit scancode h = agree_eq _ _ (all_below-at 256 releases_agree scancode releases_table h)

-- For every scan code, the handler leaves in the buffer the line that the specification gives:
-- unchanged by a release, Shift, Caps Lock, and while the GUI has the keyboard, and otherwise
-- edited by the translated character. The line stays below 128 bytes, and no write goes beyond the
-- buffer.
pub keyboard_handler_refines :
    (gui_active : Bool) (scancode j : ℕ) (k : Keyboard)
    → scancode < 256
    → HasRoom k
    → input_size ≤ j
    → (line (keyboard_handler gui_active scancode k).0 ≡ key_line gui_active scancode k)
      × HasRoom (keyboard_handler gui_active scancode k).0
      × ((keyboard_handler gui_active scancode k).0.input j ≡ k.input j)
unfolding keyboard_handler key_line type_key
keyboard_handler_refines gui_active scancode j k h room out =
    let edited = edit_refines (translate k.shift k.caps_lock scancode) j k room out in
    (
      ground (arith, edited, release_bit scancode h),
      ground (arith, edited, release_bit scancode h),
      ground (arith, edited, release_bit scancode h),
    )
