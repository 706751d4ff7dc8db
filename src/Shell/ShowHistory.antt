-- ===== src/Shell/ShowHistory.antt =====
-- `printHistory` with its redirections (Assignment1/mysh.c): where the history is written, and
-- what is open behind it.
pub mod Restored
use cs.Prelude.{ℕ, Bool, Option, none, some, List, [], ◌∷◌, ◌++◌, if◌then◌else◌, ◌==◌}
use cs.Shell.Text.{Text}
use cs.Shell.Cells.{Cells}
use cs.Shell.Parse.{size}
use cs.Shell.History.{print_history}
use cs.Shell.Redirect.{Call, dup2, redirect, create, append_or_create}
use cs.Shell.Redirect.Files.{End, Table, assign, run_calls}

-- The flags and positions that the function is given.
pub record Where : Type 0 where
  pub output : Bool
  pub output_redir : ℕ
  pub append_flag : Bool
  pub append_redir : ℕ

-- `args[outputRedir] = NULL`.
unfoldable pub cut_args : Where → Cells → Cells
cut_args w args i = if w.output then if i == w.output_redir then none else args i else args i

-- `dup(STDOUT_FILENO)`, with what it returns.
unfoldable pub save : Option ℕ → Table → Table
save none t = t
save (some fd) t = assign t fd (t 1)

-- The calls before the loop, and those behind it.
unfoldable pub open_calls : Where → Cells → (fd1 fd2 : Option ℕ) → List Call
unfolding redirect cut_args
open_calls w args fd1 fd2 =
    redirect w.output create args w.output_redir 1 fd1
    ++ redirect w.append_flag append_or_create (cut_args w args) w.append_redir 1 fd2

unfoldable pub restore : Bool → Option ℕ → List Call
restore flag saved = if flag then dup2 saved 1 ∷ [] else []

-- When `printf` writes: at the end of each line, or, where standard output is no terminal and its
-- buffer has room, only when the process ends.
pub data Buffering : Type 0 where
  line_buffered : Buffering
  fully_buffered : Buffering

-- The open files when the text is written, of those while the function prints and those behind it.
unfoldable pub written : Buffering → (during after : Table) → Table
written line_buffered during after = during
written fully_buffered during after = after

pub record Shown : Type 0 where
  pub lines : List (ℕ × Text)
  pub output : Table
  pub after : Table

unfoldable pub show_history :
    Buffering → Where → Cells → (saved fd1 fd2 : Option ℕ) → (cell : ℕ → Text) → Table → Shown
unfolding open_calls restore save written
show_history b w args saved fd1 fd2 cell t =
    let t' = run_calls (open_calls w args fd1 fd2) (save saved t) in
    let t'' = run_calls (restore w.output saved ++ restore w.append_flag saved) t' in
    record { lines = print_history size 0 cell; output = written b t' t''; after = t'' }
