-- ===== src/Shell/Child.antt =====
-- The child of the loop of `main` (Assignment1/mysh.c): redirections, then the pipeline.
pub mod LastFile
pub mod Piped
pub mod Redirected
pub mod Alone
pub mod History
use cs.Prelude.{ℕ, Bool, false, ◌||◌, Option, none, some, List, [], ◌∷◌, if◌then◌else◌}
use cs.Shell.Text.{Text}
use cs.Shell.Cells.{Cells}
use cs.Shell.Parse.{size}
use cs.Shell.Search.{Redirections, search_for_redirection, search_for_pipe}
use cs.Shell.Search.Found.{no_redirections}
use cs.Shell.Redirect.{Strip, stripped, null_read, no_fuel, redirect_calls, strip_args}
use cs.Shell.Redirect.Files.{Table, run_calls}
use cs.Shell.ShowHistory.{Buffering}
use cs.Shell.Spawn.{Exec, Lookup, Processes, Printing, program, run_pipeline}

-- What the system returns: to `open` and `creat` in `redirections`, in a pipeline, whether a
-- program can be run, how standard output is buffered, and to `dup`, `creat` and `open` in
-- `printHistory`.
pub record Kernel : Type 0 where
  pub fd0 : Option ℕ
  pub fd1 : Option ℕ
  pub fd2 : Option ℕ
  pub processes : Processes
  pub exec_ok : List Text → Bool
  pub buffering : Buffering
  pub saved : Option ℕ
  pub history_fd1 : Option ℕ
  pub history_fd2 : Option ℕ

-- What the child has from the shell: the commands of the history, and the contents of `tempargs`,
-- up to NULL and behind it.
pub record Variables : Type 0 where
  pub cell : ℕ → Text
  pub old : List Text
  pub behind : Cells

unfoldable pub is_redirected : Redirections → Bool
is_redirected r = r.input || r.output || r.append_flag

abbrev pub look_up : Kernel → Variables → Lookup
look_up k v = record { cell = v.cell; exec_ok = k.exec_ok }

unfoldable pub printing : Kernel → Variables → Redirections → Printing
printing k v r = record {
  look = look_up k v;
  flags = record {
    output = r.output;
    output_redir = r.output_redir;
    append_flag = r.append_flag;
    append_redir = r.append_redir;
  };
  buffering = k.buffering;
  behind = v.behind;
  saved = k.saved;
  fd1 = k.history_fd1;
  fd2 = k.history_fd2;
}

-- The loop over the pipes and the command behind them.
unfoldable pub pipeline :
    Kernel → Variables → Redirections → Cells → List Text → Table → Option (List Exec)
unfolding printing
pipeline k v r args temp t =
    run_pipeline k.processes (printing k v r)
      (search_for_pipe size 0 args (record { pipeflag = false; pipe_counter = 0 })).pipe_counter 0
      args (record { in_fd = 0; table = t; state = record { temp = temp; next_pipe = 0 } })

-- `execvpe` behind `redirections` returns only where it fails.
unfoldable pub try_program :
    Kernel → Variables → Redirections → Cells → Strip → Table → Option (List Exec)
unfolding pipeline
try_program k v r args (stripped temp) t =
    if k.exec_ok temp
    then some (record { runs = program temp; table = t } ∷ [])
    else pipeline k v r args temp t
try_program k v r args null_read t = none
try_program k v r args no_fuel t = none

unfoldable pub redirected_part :
    Kernel → Variables → Cells → Redirections → Table → Option (List Exec)
unfolding try_program
redirected_part k v args r t =
    try_program k v r args (strip_args args) (run_calls (redirect_calls r args k.fd0 k.fd1 k.fd2) t)

unfoldable pub child_part : Kernel → Variables → Cells → Table → Option (List Exec)
unfolding redirected_part is_redirected pipeline
child_part k v args t =
    let r = search_for_redirection size 0 args no_redirections in
    if is_redirected r then redirected_part k v args r t else pipeline k v r args v.old t
