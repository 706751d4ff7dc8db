-- ===== src/Shell/Typed.antt =====
-- From the line that is typed to the commands that run: a round of the shell in the child that it
-- forks (`main` of Assignment1/mysh.c).
pub mod Forked
pub mod Pipeline
pub mod Redirected
pub mod History
pub mod NotFound
pub mod Session
use cs.Prelude.{Option, some, List, []}
use cs.Shell.Text.{Text}
use cs.Shell.Cells.{Cells, cells}
use cs.Shell.Redirect.Files.{Table}
use cs.Shell.Spawn.{Exec}
use cs.Shell.Child.{Kernel, child_part}
use cs.Shell.Round.{go_on, exit_with, leave_loop, be_child, Round}

-- What earlier commands have left: `tempargs` up to NULL and behind it, and `args` behind NULL.
pub record Leftover : Type 0 where
  pub old : List Text
  pub behind : Cells
  pub junk : Cells

-- The child goes on where `fork` has returned 0, with the shell's variables. The shell's own
-- process runs no command.
unfoldable pub child_round : Kernel → Leftover → Table → Round → Option (List Exec)
unfolding child_part
child_round k o t q = elim q.next [
  | be_child p ↦
      child_part k (record { cell = q.shell.history.cell; old = o.old; behind = o.behind })
        (cells p.args o.junk) t
  | go_on ↦ some []
  | exit_with n ↦ some []
  | leave_loop ↦ some []
]
