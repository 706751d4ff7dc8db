-- ===== src/Shell/Tests/Memory.antt =====
-- The memory, the signals and the printed lists of the shell at concrete commands
-- (Assignment1/mysh.c).
use cs.Prelude.{ℕ, ◌≡◌, refl, true, false, none, some, [], ◌∷◌, arith, if◌then◌else◌}
use cs.Shell.Text.{codes}
use cs.Shell.Cells.{Cells, cells}
use cs.Shell.Parse.{size, Parsed, parse_arguments}
use cs.Shell.Parse.Result.{parse_arguments-Line}
use cs.Shell.Tests.{line, line_of, line-Line, no_junk, copy, session}
use cs.Shell.Arguments.{
  Pointer, null, block, start_shell, started, store_args, end_shell, released, invalid_free,
  print_args,
}
use cs.Shell.Arguments.Freed.{end_shell-invalid, start_shell-released}
use cs.Shell.Arguments.Printed.{placed, print_args_lem}
use cs.Shell.History.{no_history, remember_all}
use cs.Shell.Round.{Results, Shell, Round, in_parent, shell_round}
use cs.Shell.Round.Behaviour.{is_external}
use cs.Shell.Handlers.{in_loop, deliver}
use cs.Shell.Handlers.Sent.{sent, signal-sent}
use cs.Shell.Redirect.{create}
use cs.Shell.Redirect.Files.{inherited, opened, Table}
use cs.Shell.ShowHistory.{Where, line_buffered, show_history}
use cs.Shell.ShowHistory.Restored.{show_history-restored}

end_shell-invalid_example :
    (args' : ℕ → Pointer) × (store_args line (λ i. block i) ≡ some args')
    × (end_shell args' (λ i. block i) ≡ invalid_free)
end_shell-invalid_example =
    end_shell-invalid line (λ i. block i) (λ i. block i)
      (record { args = codes "ls" ∷ codes "-al" ∷ []; time_flag = true; ampersand = true })
      (codes "ls") (codes "-al" ∷ [])
      (parse_arguments-Line line line_of line-Line (omega arith, omega arith)) refl

start_shell_run :
    (args history : ℕ → Pointer) × (start_shell (λ i. null) (some 8) none
      ≡ started args history (some 8) none)
    × (end_shell args history ≡ released)
start_shell_run = start_shell-released (λ i. null) 8 none

print_args_lem_example : print_args size 0 (cells copy no_junk) ≡ placed 0 copy
print_args_lem_example = print_args_lem copy no_junk (omega arith)

abbrev pub results : Results
results = record { chdir_ok = true; forked = in_parent 7; wait_ok = true }

abbrev pub new_shell : Shell
new_shell = record { history = no_history; global_pid = none; name = none }

signal-sent_example :
    (p : Parsed) × (q : Round) × (parse_arguments line ≡ some p)
    × (shell_round results (some line) new_shell ≡ some q)
    × (sent (deliver in_loop.on_int 2 q.shell)
        ≡ (if is_external p.args then (7, 2) ∷ [] else sent (deliver in_loop.on_int 2 new_shell)))
    × (sent (deliver in_loop.on_term 2 q.shell)
        ≡ (if is_external p.args then (7, 2) ∷ [] else sent (deliver in_loop.on_term 2 new_shell)))
signal-sent_example =
    signal-sent 2 7 results line new_shell (omega arith, omega arith) (omega arith) refl

-- `history > f`.
abbrev to_file : Where
to_file = record { output = true; output_redir = 1; append_flag = false; append_redir = 0 }

abbrev to_file_args : Cells
to_file_args = cells (codes "history" ∷ codes ">" ∷ codes "f" ∷ []) no_junk

abbrev own_files : Table
own_files k = some (inherited k)

show_history-restored_example :
    let h =
      show_history line_buffered to_file to_file_args
        (some 3)
        (some 4)
        (some 5)
        (remember_all session no_history).cell
        own_files in
    (h.output 1 ≡ some (opened create (some (codes "f")))) × (h.after 1 ≡ some (inherited 1))
show_history-restored_example =
    show_history-restored to_file to_file_args 3 4 5 own_files
      (record {
        new_saved = omega arith;
        new1 = omega arith;
        new2 = omega arith;
        apart1 = omega arith;
        apart2 = omega arith;
      })
      line_buffered (remember_all session no_history).cell
