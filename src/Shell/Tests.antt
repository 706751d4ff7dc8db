-- ===== src/Shell/Tests.antt =====
-- Command lines, and the theorems of the shell at them (Assignment1/mysh.c).
mod Processes
mod Typed
mod Times
mod Memory
use cs.Prelude.{
  ℕ, zero, suc, ◌+◌, ◌*◌, ◌≤◌, ◌<◌, ◌≡◌, ◌⊎◌, ◌≢◌, refl, true, false, List, [], ◌∷◌, ◌++◌, Option,
  none, some, arith, All, length, replicate,
}
use cs.Shell.Text.{Text, codes}
use cs.Shell.Cells.{Cells, cells}
use cs.Shell.Parse.{size, Parsed, parse_arguments}
use cs.Shell.Parse.Words.{delims, Line, IsWord, end, word}
use cs.Shell.Parse.Result.{Fits, parse_arguments-Line, parse_arguments-total}
use cs.Shell.Search.{Redirections}
use cs.Shell.Redirect.{stripped, strip_args, redirect_calls, read, create}
use cs.Shell.Redirect.Files.{End, inherited, opened, Table, run_calls, redirect_calls-Table}
use cs.Shell.Redirect.Command as Command
use cs.Shell.Redirect.Command.{Item, redir, strip_args-words, strip_args-overrun}
use cs.Shell.Pipe.{stages}
use cs.Shell.Pipe.Stages.{IsStage, joined, bar, stages_lem, stages-repeat}
use cs.Shell.Spawn.{Exec, program}
use cs.Shell.Spawn.Wired.{IsFresh, Wired}
use cs.Shell.Child.{Kernel, child_part}
use cs.Shell.Child.Piped.{IsOperand, child_part-Wired}
use cs.Shell.Child.Redirected.{child_part-redirected}
use cs.Shell.Round.{Results, Shell, Round, in_parent, shell_round}
use cs.Shell.Round.Session.{main_loop}
use cs.Shell.Round.Session.Complete.{
  IsCalm, Complete, until_exit, externals, all_awaited, main_loop-Complete,
}
use cs.Shell.Round.Behaviour.{Behaves, shell_round-Behaves}
use cs.Shell.History.{remember_all, no_history, print_history}
use cs.Shell.History.Full.{print_history-full}
use cs.Shell.History.Printed.{Holds, HasByte, numbered, remember_all-Holds, print_history-commands}

abbrev line : Text
line = codes "mytime ls -al &\n"

abbrev line_of : List Text
line_of = codes "mytime" ∷ codes "ls" ∷ codes "-al" ∷ codes "&" ∷ []

line-Line : Line line line_of
line-Line =
    word (codes "mytime") 32 (refl, refl) refl
      (word (codes "ls") 32 (refl, refl) refl
        (word (codes "-al") 32 (refl, refl) refl (word (codes "&") 10 (refl, refl) refl end refl)
          refl)
        refl)
      refl

parse_arguments-Line_example :
    parse_arguments line
    ≡ some (record { args = codes "ls" ∷ codes "-al" ∷ []; time_flag = true; ampersand = true })
parse_arguments-Line_example =
    parse_arguments-Line line line_of line-Line (omega arith, omega arith)

parse_runs :
    parse_arguments line
    ≡ some (record { args = codes "ls" ∷ codes "-al" ∷ []; time_flag = true; ampersand = true })
unfolding parse_arguments
parse_runs = refl

parse_arguments-total_example :
    (Fits line
      × ((p : Parsed) × (parse_arguments line ≡ some p)
          × (2 * length p.args ≤ size)
          × All IsWord p.args))
    ⊎ ((delims line + 1 ≡ size) × (length line + 1 ≡ size) × (parse_arguments line ≡ none))
parse_arguments-total_example = parse_arguments-total line (omega arith)

-- Nothing behind NULL.
abbrev no_junk : Cells
no_junk i = none

abbrev copy : List Text
copy = codes "cat" ∷ codes "<" ∷ codes "a" ∷ codes ">" ∷ codes "b" ∷ []

abbrev copy_items : List Item
copy_items = redir (codes "<") (codes "a") ∷ redir (codes ">") (codes "b") ∷ []

strip_args-words_example : strip_args (cells copy no_junk) ≡ stripped (codes "cat" ∷ [])
strip_args-words_example =
    strip_args-words (Item.word (codes "cat")) copy_items no_junk (refl, (refl, (refl, tt)))
      (omega arith)

strip_args-overrun_example :
    strip_args (
      cells
        (codes "ls" ∷ codes "<" ∷ codes "a" ∷ codes ">" ∷ [])
        (cells (codes "-al" ∷ codes "b" ∷ []) no_junk))
    ≡ stripped (codes "ls" ∷ codes "-al" ∷ codes "b" ∷ [])
strip_args-overrun_example =
    strip_args-overrun (Command.word (codes "ls") ∷ redir (codes "<") (codes "a") ∷ []) (codes ">")
      (Command.word (codes "-al")) (Command.word (codes "b") ∷ []) no_junk (refl, (refl, tt)) refl
      (refl, (refl, tt)) (omega arith)

abbrev copy_redirections : Redirections
copy_redirections = record {
  input = true;
  input_redir = 1;
  output = true;
  output_redir = 3;
  append_flag = false;
  append_redir = 0;
}

abbrev terminal : Table
terminal k = none

redirect_calls_run :
    let t' =
      run_calls
        (redirect_calls copy_redirections (cells copy no_junk) (some 3) (some 3) (some 3))
        terminal in
    (t' 0 ≡ some (opened read (some (codes "a"))))
    × (t' 1 ≡ some (opened create (some (codes "b"))))
    × ((k : ℕ) → 1 < k → k ≢ 3 → k ≢ 3 → k ≢ 3 → t' k ≡ none)
redirect_calls_run =
    redirect_calls-Table copy_redirections (cells copy no_junk) 3 3 3 terminal (omega arith)
      (omega arith) (omega arith)

abbrev first : List Text
first = codes "ls" ∷ codes "-al" ∷ []

abbrev others : List (List Text)
others = (codes "sort" ∷ []) ∷ (codes "head" ∷ codes "-n" ∷ codes "2" ∷ []) ∷ []

others-IsStage : All IsStage (first ∷ others)
others-IsStage = (
  record { some_arg = omega arith; no_bar = (refl, (refl, tt)) },
  (
    record { some_arg = omega arith; no_bar = (refl, tt) },
    (record { some_arg = omega arith; no_bar = (refl, (refl, (refl, tt))) }, tt),
  ),
)

stages_lem_example :
    stages 3 (cells (joined first others) no_junk) (record { temp = []; next_pipe = 0 })
    ≡ some (first ∷ others)
stages_lem_example = stages_lem first others [] no_junk others-IsStage (omega arith)

-- `ls | | sort`, after the first call: the second bar stands at place 2.
stages-repeat_example :
    stages 3
      (cells (codes "ls" ∷ bar ∷ bar ∷ codes "sort" ∷ []) no_junk)
      (record { temp = []; next_pipe = 0 })
    ≡ some ((codes "ls" ∷ []) ∷ (codes "ls" ∷ []) ∷ (codes "ls" ∷ []) ∷ [])
stages-repeat_example =
    stages-repeat (codes "ls" ∷ []) [] (bar ∷ codes "sort" ∷ []) [] no_junk
      (record { some_arg = omega arith; no_bar = (refl, tt) }, tt) refl (omega arith)

abbrev session : List Text
session = codes "ls\n" ∷ codes "\n" ∷ codes "cd ..\n" ∷ []

print_history-commands_example :
    print_history size 0 (remember_all session no_history).cell
    ≡ (1, codes "ls\n") ∷ (2, codes "cd ..\n") ∷ []
print_history-commands_example =
    print_history-commands session (refl, (refl, (refl, tt))) (omega arith)

remember_all-Holds_example :
    Holds (codes "ls\n" ∷ codes "cd ..\n" ∷ []) (remember_all session no_history)
remember_all-Holds_example = remember_all-Holds session (refl, (refl, (refl, tt)))

-- One command more than there are cells.
abbrev copies : ℕ → List Text
copies n = replicate n (codes "ls\n")

copies-HasByte : (n : ℕ) (l : List Text) → All HasByte l → All HasByte (copies n ++ l)
copies-HasByte zero l ok = ok
copies-HasByte (suc n) l ok = (refl, copies-HasByte n l ok)

abbrev last_line : List Text
last_line = codes "cd ..\n" ∷ []

abbrev long_session : List Text
long_session = codes "pwd\n" ∷ (copies 1023 ++ last_line)

print_history-full_example :
    print_history size 0 (remember_all long_session no_history).cell
    ≡ numbered 0 (last_line ++ copies 1023)
print_history-full_example =
    print_history-full long_session (codes "pwd\n" ∷ []) (copies 1023) last_line 1
      (refl, copies-HasByte 1023 last_line (refl, tt)) refl refl refl
