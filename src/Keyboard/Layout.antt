-- ===== src/Keyboard/Layout.antt =====
-- The characters of the scan codes.
use xenon_os.Base.{ℕ, zero, suc, ◌<◌, ◌≡◌, refl, Bool, true, false, ◌&&◌, ◌==◌, arith}
use xenon_os.Keyboard.{normal_table, shift_table, raise, lower, translate}

unfoldable pub all_below : ℕ → (ℕ → Bool) → Bool
all_below zero p = true
all_below (suc n) p = p n && all_below n p

pub all_below-at : (n : ℕ) (p : ℕ → Bool) (x : ℕ) → all_below n p ≡ true → x < n → p x ≡ true
unfolding all_below
all_below-at zero p x h lt = elim lt [ ]
all_below-at (suc n) p x h lt = ground (arith, all_below-at n p x)

-- Caps Lock changes no character.
same_with_caps : Bool → ℕ → Bool
same_with_caps shift scancode = translate shift true scancode == translate shift false scancode

same_table : (shift : Bool) → all_below 128 (same_with_caps shift) ≡ true
unfolding all_below same_with_caps translate raise lower normal_table shift_table
same_table true = refl
same_table false = refl

-- Caps Lock has no effect: with it and without it, with Shift and without, every scan code below
-- 128 gives the same character. The second test of the handler undoes what the first one did.
pub caps_lock_inert :
    (shift caps : Bool) (scancode : ℕ)
    → scancode < 128
    → translate shift caps scancode ≡ translate shift false scancode
caps_lock_inert shift false scancode h = refl
caps_lock_inert shift true scancode h =
    let same = all_below-at 128 (same_with_caps shift) scancode (same_table shift) h in
    unfold same_with_caps in ground (arith, same)
