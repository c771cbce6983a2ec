-- ===== src/Shell/Echo.antt =====
-- The echo command.
use xenon_os.Base.{ℕ, ◌≡◌, refl, List, [], ◌∷◌, ◌++◌, arith, codes, true, leb}
use xenon_os.Text.{strcmp, strlen}
use xenon_os.Text.Order.{strlen-eq-length}
use xenon_os.Terminal.Cursor.{write, putchar, call, calls}
use xenon_os.Shell.{Shell, Machine, print, is_command, is_echo, dispatch, execute_command}

echo-is_echo : (rest : List ℕ) → is_echo (codes "echo " ++ rest) ≡ true
unfolding is_echo
echo-is_echo rest =
    let long : leb 5 (strlen (codes "echo " ++ rest)) ≡ true =
      ground (arith, strlen-eq-length (codes "echo " ++ rest)) in
    rw long refl

dispatch-echo :
    (m : Machine) (rest : List ℕ) (s : Shell)
    → dispatch m (codes "echo " ++ rest) s ≡ print (write rest ∷ write (codes "\n> ") ∷ []) s
unfolding dispatch is_command strcmp
dispatch-echo m rest s = rw (echo-is_echo rest) refl

-- A line that starts with "echo " is answered by a new line, the rest of the line, whatever it is,
-- and the prompt.
pub execute_command-echo :
    (m : Machine) (rest : List ℕ) (s : Shell)
    → execute_command m (codes "echo " ++ rest) s
      ≡ print (putchar b'\n' ∷ write rest ∷ write (codes "\n> ") ∷ []) s
unfolding execute_command print calls call
execute_command-echo m rest s = dispatch-echo m rest _
