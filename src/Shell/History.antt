-- ===== src/Shell/History.antt =====
-- The history of commands: the store in `main` and `printHistory` (Assignment1/mysh.c).
pub mod Printed
pub mod Full
use cs.Prelude.{ℕ, zero, suc, ◌+◌, ◌%◌, ◌≡◌, Bool, true, false, List, [], ◌∷◌, if◌then◌else◌, ◌==◌}
use cs.Shell.Text.{Text, text_eq, is_empty}
use cs.Shell.Parse.{size}

-- `commandHistory`, whose `SIZE` cells are empty at first, and `historyArg`.
pub record History : Type 0 where
  pub cell : ℕ → Text
  pub history_arg : ℕ

abbrev pub no_history : History
no_history = record { cell = λ _. []; history_arg = 0 }

-- The line that holds a newline and nothing else.
abbrev pub blank_line : Text
blank_line = 10 ∷ []

-- Every other line goes into the next cell.
unfoldable pub remember : Text → History → History
remember command h = if text_eq command blank_line then h else record {
  cell = λ i. if i == h.history_arg % size then command else h.cell i;
  history_arg = h.history_arg + 1;
}

unfoldable pub remember_all : List Text → History → History
remember_all [] h = h
remember_all (c ∷ rest) h = remember_all rest (remember c h)

-- The loop that prints: number and text of each cell, up to the first empty one. `rounds` is what
-- is left of the `SIZE` rounds.
unfoldable pub print_history : (rounds i : ℕ) → (ℕ → Text) → List (ℕ × Text)
print_history zero i cell = []
print_history (suc rounds) i cell =
    let rest = print_history rounds (i + 1) cell in
    if is_empty (cell i) then [] else (i + 1, cell i) ∷ rest
