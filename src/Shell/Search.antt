-- ===== src/Shell/Search.antt =====
-- `searchForRedirection` and `searchForPipe` (Assignment1/mysh.c).
pub mod Found
use cs.Prelude.{
  ℕ, zero, suc, ◌+◌, Bool, true, false, Option, none, some, List, [], ◌∷◌, if◌then◌else◌,
}
use cs.Shell.Text.{Text, codes, text_eq}
use cs.Shell.Cells.{Cells}

-- The flags and positions that the function writes through its pointers.
pub record Redirections : Type 0 where
  pub input : Bool
  pub input_redir : ℕ
  pub output : Bool
  pub output_redir : ℕ
  pub append_flag : Bool
  pub append_redir : ℕ

-- The three tests of one round.
unfoldable pub note_input : Text → ℕ → Redirections → Redirections
note_input t i r = if text_eq t (codes "<") then record r { input = true; input_redir = i } else r

unfoldable pub note_output : Text → ℕ → Redirections → Redirections
note_output t i r =
    if text_eq t (codes ">") then record r { output = true; output_redir = i } else r

unfoldable pub note_append : Text → ℕ → Redirections → Redirections
note_append t i r =
    if text_eq t (codes ">>") then record r { append_flag = true; append_redir = i } else r

-- `rounds` is what is left of the `SIZE` rounds of the loop.
unfoldable pub search_for_redirection : (rounds i : ℕ) → Cells → Redirections → Redirections
unfolding note_input note_output note_append
search_for_redirection zero i args r = r
search_for_redirection (suc rounds) i args r = elim (args i) [
  | none ↦ r
  | some t ↦
      search_for_redirection rounds (i + 1) args
        (note_append t i (note_output t i (note_input t i r)))
]

pub record Pipes : Type 0 where
  pub pipeflag : Bool
  pub pipe_counter : ℕ

unfoldable pub search_for_pipe : (rounds i : ℕ) → Cells → Pipes → Pipes
search_for_pipe zero i args p = p
search_for_pipe (suc rounds) i args p = elim (args i) [
  | none ↦ p
  | some t ↦ search_for_pipe rounds (i + 1) args (
      if text_eq t (codes "|")
      then record { pipeflag = true; pipe_counter = p.pipe_counter + 1 }
      else p)
]
