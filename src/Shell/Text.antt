-- ===== src/Shell/Text.antt =====
-- The strings of the shell (Assignment1/mysh.c).
pub use cs.Prelude.Text.{Text, codes, text_eq, text_eq_iff}
use cs.Prelude.{ℕ, Bool, true, false, not, ◌&&◌, ◌||◌, [], ◌∷◌, ◌==◌}

-- `DELIMS`: space, tab, carriage return, newline.
abbrev pub is_delim : ℕ → Bool
is_delim c = c == b' ' || c == 9 || c == 13 || c == 10

-- A word has a byte and no delimiter.
abbrev pub no_delim : Text → Bool
no_delim [] = true
no_delim (c ∷ s) = not (is_delim c) && no_delim s

abbrev pub is_empty : Text → Bool
is_empty [] = true
is_empty (c ∷ s) = false
