-- ===== src/Shell/Round/Session.antt =====
-- The loop of `main` over a whole session (Assignment1/mysh.c).
pub mod Complete
use cs.Prelude.{ℕ, Option, none, some, List, [], ◌∷◌, ◌++◌}
use cs.Shell.Text.{Text}
use cs.Shell.Round.{
  Results, Next, go_on, exit_with, leave_loop, be_child, Shell, Round, eof_round, shell_round,
}

-- A later round follows only where the loop goes on.
unfoldable pub after : Round → Option Round → Option Round
after q none = none
after q (some later) = some (record later { events = q.events ++ later.events })

unfoldable pub continue_with : Round → Option Round → Option Round
unfolding after
continue_with q later = elim q.next [
  | go_on ↦ after q later
  | exit_with n ↦ some q
  | leave_loop ↦ some q
  | be_child p ↦ some q
]

-- The lines that `fgets` reads, each with what the system returns in its round, and then the end
-- of the input.
unfoldable pub main_loop : List (Results × Text) → Shell → Option Round
unfolding continue_with
main_loop [] s = some (eof_round s)
main_loop ((r, line) ∷ rest) s = elim (shell_round r (some line) s) [
  | none ↦ none
  | some q ↦ continue_with q (main_loop rest q.shell)
]
