-- ===== src/Shell/Round.antt =====
-- One round of the loop of `main`, as the shell's own process makes it (Assignment1/mysh.c).
pub mod Behaviour
pub mod Session
use cs.Prelude.{
  ℕ, zero, suc, ◌+◌, ◌≡◌, Bool, true, false, not, Option, none, some, List, [], ◌∷◌, ◌++◌,
  if◌then◌else◌,
}
use cs.Shell.Text.{Text, codes, text_eq}
use cs.Shell.Parse.{Parsed, parse_arguments}
use cs.Shell.History.{History, remember}

-- What the round does, in order. The path of `cd` is NULL where there is no argument.
pub data Event : Type 0 where
  prompt : Event
  change_dir : Option Text → Event
  error_message : Text → Event
  fork_child : Event
  wait_for : (pid : ℕ) → Event
  print_time : Event
  print_newline : Event

-- What `fork` returns: -1, 0, or in the parent the pid of the child.
pub data Fork : Type 0 where
  failed : Fork
  in_child : Fork
  in_parent : (pid : ℕ) → Fork

-- What the system returns to the calls of this round.
pub record Results : Type 0 where
  pub chdir_ok : Bool
  pub forked : Fork
  pub wait_ok : Bool

-- How the round ends: the next one, an end of the shell by `exit`, the `break` at the end of the
-- input, behind which `main` frees the arrays (`end_shell`), or the part of the child.
pub data Next : Type 0 where
  go_on : Next
  leave_loop : Next
  exit_with : ℕ → Next
  be_child : Parsed → Next

-- The variables that outlive the round: the history, and `globalPid` and `name` for the handlers
-- of signals. `name` is the text that it leads to when it is set; the next line read overwrites
-- it.
pub record Shell : Type 0 where
  pub history : History
  pub global_pid : Option ℕ
  pub name : Option Text

pub record Round : Type 0 where
  pub events : List Event
  pub next : Next
  pub shell : Shell

-- `printTime`, after `timeCounter`.
unfoldable pub time_event : Bool → List Event
time_event flag = if flag then print_time ∷ [] else []

-- The parent's part behind `fork`.
unfoldable pub parent_part : Results → Parsed → ℕ → List Event × Next
unfolding time_event
parent_part r p pid =
    if p.ampersand
    then ([], go_on)
    else if r.wait_ok
    then (wait_for pid ∷ (time_event p.time_flag ++ (print_newline ∷ [])), go_on)
    else (wait_for pid ∷ error_message (codes "waitpid") ∷ [], exit_with 1)

unfoldable pub fork_part : Results → Parsed → List Event × Next
unfolding parent_part
fork_part r p = elim r.forked [
  | failed ↦ (error_message (codes "fork()") ∷ [], exit_with 1)
  | in_child ↦ ([], be_child p)
  | in_parent pid ↦ parent_part r p pid
]

-- `globalPid` after `fork`: 0 in the child. After a `fork` that fails it is -1 and the shell ends,
-- for which `none` stands.
unfoldable pub pid_after : Fork → Option ℕ
pid_after failed = none
pid_after in_child = some 0
pid_after (in_parent pid) = some pid

-- `args[1]`, and the test of `numArgs` that keeps `cd` with no argument silent.
unfoldable pub cd_part : Results → Parsed → List Text → List Event
unfolding time_event
cd_part r p [] = change_dir none ∷ time_event p.time_flag
cd_part r p (d ∷ rest) =
    change_dir (some d)
    ∷ (time_event p.time_flag ++ (if r.chdir_ok then [] else error_message (codes "chdir") ∷ []))

-- From the test of `numArgs` on.
unfoldable pub command_part : Results → Parsed → Shell → Round
unfolding fork_part pid_after cd_part time_event
command_part r p s = elim p.args [
  | [] ↦ record { events = time_event p.time_flag; next = go_on; shell = s }
  | t ∷ rest ↦
      let named : Shell = record s { name = some t } in
      if text_eq t (codes "exit")
      then record { events = []; next = exit_with 0; shell = named }
      else if text_eq t (codes "cd")
      then record { events = cd_part r p rest; next = go_on; shell = named }
      else record {
        events = fork_child ∷ (fork_part r p).0;
        next = (fork_part r p).1;
        shell = record named { global_pid = pid_after r.forked };
      }
]

unfoldable pub with_prompt : Round → Round
with_prompt r = record r { events = prompt ∷ r.events }

-- The round in which `fgets` finds the end of the input: the loop is left.
unfoldable pub eof_round : Shell → Round
eof_round s = record { events = prompt ∷ []; next = leave_loop; shell = s }

-- One round, with what `fgets` has read. `none` stands for a run beyond the arrays of
-- `parseArguments`.
unfoldable pub shell_round : Results → Option Text → Shell → Option Round
unfolding command_part with_prompt eof_round
shell_round r none s = some (eof_round s)
shell_round r (some line) s = elim (parse_arguments line) [
  | none ↦ none
  | some p ↦ some (with_prompt (command_part r p (record s { history = remember line s.history })))
]
