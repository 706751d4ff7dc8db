-- ===== src/Shell/Spawn.antt =====
-- A pipeline in the child of `main`, and `spawn_proc` (Assignment1/mysh.c): which command is run
-- with which open files.
pub mod Asked
pub mod Wired
pub mod Stopped
use cs.Prelude.{ℕ, zero, suc, ◌+◌, Bool, Option, none, some, List, [], ◌∷◌, if◌then◌else◌, ◌==◌}
use cs.Shell.Text.{Text, codes, text_eq, is_empty}
use cs.Shell.Cells.{Cells, cells}
use cs.Shell.Parse.{size}
use cs.Shell.ShowHistory.{Where, Buffering, show_history}
use cs.Shell.Redirect.Files.{Table, assign, reads, writes}
use cs.Shell.Pipe.{PipeState, next_arg}

-- What runs in a process: the shell's own list of commands, printed line by line, a program with
-- its arguments, or the message that a command was not found. `no_command` is the comparison of
-- NULL with a string.
pub data Action : Type 0 where
  prints : List (ℕ × Text) → Action
  program : List Text → Action
  not_found : Text → Action
  no_command : Action

-- What a command is looked up in: the commands of the history, and whether `execvpe` can run a
-- program with these arguments.
pub record Lookup : Type 0 where
  pub cell : ℕ → Text
  pub exec_ok : List Text → Bool

-- `execvpe` returns only where it fails, and then the message is printed.
unfoldable pub run_program : Lookup → Text → List Text → Action
run_program h t l = if h.exec_ok (t ∷ l) then program (t ∷ l) else not_found t

-- The loop over the commands in `spawn_proc`.
unfoldable pub spawn_history : (rounds i : ℕ) → (ℕ → Text) → List (ℕ × Text)
spawn_history zero i cell = []
spawn_history (suc rounds) i cell =
    let rest = spawn_history rounds (i + 1) cell in
    if is_empty (cell i) then [] else (i + 1, cell i) ∷ rest

unfoldable pub action : Lookup → List Text → Action
unfolding spawn_history run_program
action h [] = no_command
action h (t ∷ l) =
    if text_eq t (codes "history") then prints (spawn_history size 0 h.cell) else run_program h t l

-- What the child has for its commands and for `history`: the commands, the flags for
-- `printHistory`, how standard output is buffered, what stands behind NULL in `tempargs`, and
-- what `dup` and the two calls that open a file return there.
pub record Printing : Type 0 where
  pub look : Lookup
  pub flags : Where
  pub buffering : Buffering
  pub behind : Cells
  pub saved : Option ℕ
  pub fd1 : Option ℕ
  pub fd2 : Option ℕ

pub record Exec : Type 0 where
  pub runs : Action
  pub table : Table

-- The descriptors of the child that `spawn_proc` makes.
unfoldable pub spawn_input : ℕ → Table → Table
spawn_input in_fd t = if in_fd == 0 then t else assign (assign t 0 (t in_fd)) in_fd none

unfoldable pub spawn_output : ℕ → Table → Table
spawn_output out t = if out == 1 then t else assign (assign t 1 (t out)) out none

unfoldable pub spawn_proc : Lookup → (in_fd out : ℕ) → List Text → Table → Exec
unfolding spawn_input spawn_output action
spawn_proc h in_fd out temp t = record {
  runs = action h temp;
  table = spawn_output out (spawn_input in_fd t);
}

-- The variables of the loop over the bars: `in`, the open files, `tempargs` and `nextPipe`.
pub record Child : Type 0 where
  pub in_fd : ℕ
  pub table : Table
  pub state : PipeState

unfoldable pub add_exec : Exec → Option (List Exec) → Option (List Exec)
add_exec x none = none
add_exec x (some l) = some (x ∷ l)

-- The end of the child: the last command runs in the child itself.
unfoldable pub print_last : Printing → List Text → Table → Exec
unfolding show_history
print_last h temp t =
    let s =
      show_history h.buffering h.flags (cells temp h.behind) h.saved h.fd1 h.fd2 h.look.cell t in
    record { runs = prints s.lines; table = s.output }

unfoldable pub last_command : Printing → List Text → Table → Exec
unfolding print_last run_program
last_command h [] t = record { runs = no_command; table = t }
last_command h (w ∷ l) t =
    if text_eq w (codes "history")
    then print_last h (w ∷ l) t
    else record { runs = run_program h.look w l; table = t }

unfoldable pub last_exec : Printing → Child → List Text → Exec
unfolding last_command
last_exec h c temp =
    last_command h temp (if c.in_fd == 0 then c.table else assign c.table 0 (c.table c.in_fd))

unfoldable pub run_last : Printing → Cells → Child → Option (List Exec)
unfolding last_exec
run_last h args c = elim (next_arg args c.state) [
  | none ↦ none
  | some s ↦ some (last_exec h c s.temp ∷ [])
]

-- The parent in `spawn_proc`: where `fork` fails there is no command, and where `waitpid` fails
-- the process exits, so that the rounds behind it are not run. They are not run either where
-- `waitpid` does not return, since the stage waits for room in the pipe, which no process reads
-- yet.
unfoldable pub after_fork : (forked waited : Bool) → Exec → Option (List Exec) → Option (List Exec)
unfolding add_exec
after_fork forked waited x rest =
    let rest' = if waited then rest else some [] in if forked then add_exec x rest' else rest'

-- What the system returns in round `i`: the descriptors of `pipe`, and whether `fork` and
-- `waitpid` succeed. Where `fork` fails the call of `waitpid` is for any child. A call of
-- `waitpid` that never returns, for a stage that has filled its pipe and waits, stands among
-- those that do not succeed.
pub record Processes : Type 0 where
  pub fresh : ℕ → ℕ × ℕ
  pub forked : ℕ → Bool
  pub waited : ℕ → Bool

-- The loop, with `count` rounds left.
unfoldable pub run_pipeline :
    Processes → Printing → (count i : ℕ) → Cells → Child → Option (List Exec)
unfolding run_last spawn_proc after_fork
run_pipeline p h zero i args c = run_last h args c
run_pipeline p h (suc count) i args c =
    let (r, w) = p.fresh i in
    let t = assign (assign c.table r (some (reads i))) w (some (writes i)) in
    elim (next_arg args c.state) [
      | none ↦ none
      | some s ↦ after_fork (p.forked i) (p.waited i) (spawn_proc h.look c.in_fd w s.temp t) (
          run_pipeline p h count (i + 1) args
            (record { in_fd = r; table = assign t w none; state = s }))
    ]
