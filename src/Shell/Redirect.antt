-- ===== src/Shell/Redirect.antt =====
-- `redirections` (Assignment1/mysh.c): the files that are opened, and the arguments that are left
-- for the command.
pub mod Files
pub mod Command
use cs.Prelude.{
  ℕ, zero, suc, ◌+◌, Bool, true, false, ◌||◌, Option, none, some, List, [], ◌∷◌, ◌++◌, ltb,
  if◌then◌else◌,
}
use cs.Shell.Text.{Text, codes, text_eq}
use cs.Shell.Cells.{Cells}
use cs.Shell.Search.{Redirections}
use cs.Shell.Parse.{size}

-- How a file is opened: `O_RDONLY`, `creat` (made anew, for writing), `O_WRONLY|O_APPEND` (an
-- existing file), and the same with `O_CREAT`.
pub data Mode : Type 0 where
  read : Mode
  create : Mode
  append : Mode
  append_or_create : Mode

-- The system calls on files. The descriptor is what `open` or `creat` has returned, with `none`
-- for -1; a path is `none` for NULL.
pub data Call : Type 0 where
  open_file : Mode → (path : Option Text) → (fd : Option ℕ) → Call
  dup2 : (fd : Option ℕ) → (target : ℕ) → Call
  close : (fd : Option ℕ) → Call

-- One of the three blocks: the file named behind the operator at `at` takes the place of `target`.
unfoldable pub redirect : Bool → Mode → Cells → (at target : ℕ) → Option ℕ → List Call
redirect flag mode args at target fd =
    if flag then open_file mode (args (at + 1)) fd ∷ dup2 fd target ∷ close fd ∷ [] else []

-- `fd0`, `fd1` and `fd2` are what the system returns for the files.
unfoldable pub redirect_calls : Redirections → Cells → (fd0 fd1 fd2 : Option ℕ) → List Call
unfolding redirect
redirect_calls r args fd0 fd1 fd2 =
    redirect r.input read args r.input_redir 0 fd0
    ++ (redirect r.output create args r.output_redir 1 fd1
        ++ redirect r.append_flag append args r.append_redir 1 fd2)

abbrev pub is_operator : Text → Bool
is_operator t = text_eq t (codes ">") || text_eq t (codes "<") || text_eq t (codes ">>")

-- The loop that copies the arguments without the operators and their files: `stripped` with what
-- it has written to `tempargs`, or `null_read` where it would compare a string with NULL.
pub data Strip : Type 0 where
  stripped : List Text → Strip
  null_read : Strip
  no_fuel : Strip

unfoldable pub keep_arg : Text → Strip → Strip
keep_arg t (stripped l) = stripped (t ∷ l)
keep_arg t null_read = null_read
keep_arg t no_fuel = no_fuel

-- The test at the end of a round: NULL ends the loop.
unfoldable pub or_end : Option Text → Strip → Strip
or_end none next = stripped []
or_end (some t) next = next

unfoldable pub strip_loop : (fuel i : ℕ) → Cells → Strip
unfolding keep_arg or_end
strip_loop zero i args = no_fuel
strip_loop (suc fuel) i args = elim (ltb i size) [
  | false ↦ stripped []
  | true ↦ elim (args i) [
    | none ↦ null_read
    | some t ↦ elim (is_operator t) [
      | true ↦ or_end (args (i + 2)) (strip_loop fuel (i + 2) args)
      | false ↦ keep_arg t (or_end (args (i + 1)) (strip_loop fuel (i + 1) args))
    ]
  ]
]

unfoldable pub strip_args : Cells → Strip
unfolding strip_loop
strip_args args = strip_loop (suc size) 0 args
