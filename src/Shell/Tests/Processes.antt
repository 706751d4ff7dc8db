-- ===== src/Shell/Tests/Processes.antt =====
-- The shell's processes and rounds at concrete commands (Assignment1/mysh.c).
use mathlib.Core.Option.{some-injective}
use cs.Prelude.{
  ℕ, ◌+◌, ◌*◌, ◌≡◌, refl, true, false, not, ◌==◌, take, List, [], ◌∷◌, Option, none, some, arith,
  All,
}
use cs.Shell.Text.{Text, codes}
use cs.Shell.Cells.{cells}
use cs.Shell.Parse.{Parsed, parse_arguments}
use cs.Shell.Redirect.Files.{End, inherited}
use cs.Shell.Pipe.Stages.{joined}
use cs.Shell.ShowHistory.{line_buffered}
use cs.Shell.Spawn.{Exec, Processes, Lookup, Printing, run_pipeline}
use cs.Shell.Spawn.Asked.{IsPlainPrinting}
use cs.Shell.Spawn.Wired.{IsFresh, NoFailure, Wired, first_child, pipeline-Wired}
use cs.Shell.Spawn.Stopped.{run_pipeline-stopped}
use cs.Shell.Child.{Kernel}
use cs.Shell.Round.{Results, Shell, Round, in_parent, shell_round}
use cs.Shell.Round.Session.{main_loop}
use cs.Shell.Round.Session.Complete.{
  IsCalm, Complete, until_exit, externals, all_awaited, main_loop-Complete,
}
use cs.Shell.Round.Behaviour.{Behaves, shell_round-Behaves}
use cs.Shell.History.{no_history}
use cs.Shell.Tests.{line, no_junk, first, others, others-IsStage}

-- Three files of the shell's own, and a system whose pipes take new descriptors.
abbrev pub own_files : ℕ → Option End
own_files k = some (inherited k)

abbrev pub fresh : ℕ → ℕ × ℕ
fresh i = (3 + i * 2, 4 + i * 2)

pub fresh-IsFresh : (i : ℕ) → IsFresh fresh i
fresh-IsFresh i = record {
  read_end = omega arith;
  write_end = omega arith;
  differ = omega arith;
  next_read = omega arith;
  next_write = omega arith;
}

-- A system in which every program can be run and no call fails.
abbrev pub processes : Processes
processes = record { fresh = fresh; forked = λ i. true; waited = λ i. true }

pub processes-NoFailure : NoFailure processes
processes-NoFailure = record { forked = λ i. refl; waited = λ i. refl }

abbrev pub kernel : Kernel
kernel = record {
  fd0 = some 3;
  fd1 = some 3;
  fd2 = some 3;
  processes = processes;
  exec_ok = λ temp. true;
  buffering = line_buffered;
  saved = some 3;
  history_fd1 = some 4;
  history_fd2 = some 5;
}

abbrev look : Lookup
look = record { cell = no_history.cell; exec_ok = λ temp. true }

-- `history` with no redirection, in a shell without commands.
abbrev printing : Printing
printing = record {
  look = look;
  flags = record { output = false; output_redir = 0; append_flag = false; append_redir = 0 };
  behind = no_junk;
  buffering = line_buffered;
  saved = some 3;
  fd1 = none;
  fd2 = none;
}

printing-IsPlain : IsPlainPrinting printing
printing-IsPlain = record {
  no_output = refl;
  no_append = refl;
  new_saved = λ fd e. omega (arith, some-injective 3 fd e);
}

-- The same pipeline where the second command cannot be forked.
abbrev unforked : Processes
unforked = record processes { forked = λ i. not (i == 1); waited = λ i. not (i == 1) }

full_run :
    (l : List Exec) × (run_pipeline processes printing 2 0
        (cells (joined first others) no_junk)
        (first_child own_files [])
      ≡ some l)
    × Wired look 0 (some (inherited 0)) (some (inherited 1)) first others l
full_run =
    pipeline-Wired processes own_files first others [] no_junk fresh-IsFresh processes-NoFailure
      printing printing-IsPlain others-IsStage (omega arith)

run_pipeline-stopped_example :
    run_pipeline unforked printing 2 0
      (cells (joined first others) no_junk)
      (first_child own_files [])
    ≡ some (take 1 full_run.0)
run_pipeline-stopped_example =
    run_pipeline-stopped (cells (joined first others) no_junk) printing processes unforked 1 2 0
      (first_child own_files []) full_run.0 processes-NoFailure (λ k. refl)
      (λ k b. (ground arith, ground arith)) refl (omega arith) full_run.1

abbrev results : Results
results = record { chdir_ok = true; forked = in_parent 7; wait_ok = true }

abbrev pub new_shell : Shell
new_shell = record { history = no_history; global_pid = none; name = none }

shell_round-Behaves_example :
    (p : Parsed) × (q : Round) × (parse_arguments line ≡ some p)
    × (shell_round results (some line) new_shell ≡ some q)
    × Behaves results line new_shell p q
shell_round-Behaves_example = shell_round-Behaves results line new_shell (omega arith, omega arith)

-- The lines behind `exit` are not read.
abbrev day : List (Results × Text)
day =
    (results, line)
    ∷ (results, codes "sleep 5\n")
    ∷ (results, codes "exit\n")
    ∷ (results, codes "ls\n")
    ∷ []

day-IsCalm : All IsCalm day
day-IsCalm = (
  ((omega arith, omega arith), (7, refl), refl),
  (
    ((omega arith, omega arith), (7, refl), refl),
    (
      ((omega arith, omega arith), (7, refl), refl),
      (((omega arith, omega arith), (7, refl), refl), tt),
    ),
  ),
)

main_loop-Complete_example :
    (q : Round) × (main_loop day new_shell ≡ some q) × Complete (until_exit day) new_shell q
main_loop-Complete_example = main_loop-Complete day new_shell day-IsCalm

-- One child is awaited in that session, although two were made.
day_runs : (externals (until_exit day) ≡ 2) × (all_awaited (until_exit day) ≡ 7 ∷ [])
unfolding parse_arguments
day_runs = (refl, refl)
