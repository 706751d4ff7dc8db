-- ===== src/Shell/Handlers.antt =====
-- The handlers of signals (`signalIntHandler` and `signalTermHandler` of Assignment1/mysh.c).
pub mod Sent
use cs.Prelude.{ℕ, Option, none, some, List, [], ◌∷◌, if◌then◌else◌, ◌==◌}
use cs.Shell.Text.{Text}
use cs.Shell.Round.{Shell}

-- What a handler does: it prints the signal, then `globalPid` and `name`, and sends the signal on.
pub data Reaction : Type 0 where
  received : (signal : ℕ) → Reaction
  command_is : Option ℕ → Option Text → Reaction
  send : (pid signal : ℕ) → Reaction

-- `globalPid` is 0 at first.
unfoldable pub pass_on : Option ℕ → (signal : ℕ) → List Reaction
pass_on none signal = []
pass_on (some pid) signal = if pid == 0 then [] else send pid signal ∷ []

unfoldable pub signal_int_handler : ℕ → Shell → List Reaction
unfolding pass_on
signal_int_handler signal s =
    received signal ∷ command_is s.global_pid s.name ∷ pass_on s.global_pid signal

unfoldable pub signal_term_handler : ℕ → Shell → List Reaction
unfolding pass_on
signal_term_handler signal s =
    received signal ∷ command_is s.global_pid s.name ∷ pass_on s.global_pid signal

-- What a signal does to the shell.
pub data Disposition : Type 0 where
  ignored : Disposition
  int_handler : Disposition
  term_handler : Disposition

-- The dispositions of SIGINT and SIGTERM.
pub record Dispositions : Type 0 where
  pub on_int : Disposition
  pub on_term : Disposition

-- From the start of `main` on, and in its loop.
abbrev pub at_start : Dispositions
at_start = record { on_int = ignored; on_term = ignored }

abbrev pub in_loop : Dispositions
in_loop = record { on_int = int_handler; on_term = term_handler }

unfoldable pub deliver : Disposition → ℕ → Shell → List Reaction
unfolding signal_int_handler signal_term_handler
deliver ignored signal s = []
deliver int_handler signal s = signal_int_handler signal s
deliver term_handler signal s = signal_term_handler signal s
