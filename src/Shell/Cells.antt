-- ===== src/Shell/Cells.antt =====
-- The array `args` of the shell (Assignment1/mysh.c): the arguments, NULL, and behind it what
-- earlier commands have left.
use cs.Prelude.{
  ℕ, zero, suc, ◌+◌, ◌<◌, ◌≡◌, refl, ap, Option, none, some, List, [], ◌∷◌, ◌++◌, length, get_elem?,
  arith,
}
use cs.Shell.Text.{Text}

abbrev pub Cells : Type 0
Cells = ℕ → Option Text

-- `junk` is what stands behind NULL.
abbrev pub cells : List Text → Cells → Cells
cells [] junk zero = none
cells [] junk (suc i) = junk i
cells (t ∷ rest) junk zero = some t
cells (t ∷ rest) junk (suc i) = cells rest junk i

-- Behind a part of the arguments stand the others.
pub cells-append :
    (l r : List Text) (junk : Cells) (i : ℕ) → cells (l ++ r) junk (length l + i) ≡ cells r junk i
cells-append [] r junk i = ap (cells r junk) (omega arith)
cells-append (t ∷ l) r junk i =
    let e : suc (length l) + i ≡ suc (length l + i) = omega arith in rw e (cells-append l r junk i)

pub cells-get :
    (l : List Text) (junk : Cells) (i : ℕ) → i < length l → cells l junk i ≡ get_elem? l i
cells-get [] junk i h = absurd (omega arith)
cells-get (t ∷ l) junk zero h = refl
cells-get (t ∷ l) junk (suc i) h = cells-get l junk i (omega arith)
