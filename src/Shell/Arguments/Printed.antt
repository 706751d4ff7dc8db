-- ===== src/Shell/Arguments/Printed.antt =====
-- What `printArgs` prints (Assignment1/mysh.c).
use cs.Prelude.{ℕ, zero, suc, ◌+◌, ◌<◌, ◌≡◌, ap, ◌∙◌, none, some, List, [], ◌∷◌, length, arith}
use cs.Shell.Text.{Text}
use cs.Shell.Cells.{Cells, cells}
use cs.Shell.Parse.{size}
use cs.Shell.Arguments.{print_args}

-- The arguments with their places, from `i` on.
abbrev pub placed : ℕ → List Text → List (ℕ × Text)
placed i [] = []
placed i (t ∷ l) = (i, t) ∷ placed (i + 1) l

print_args-placed :
    (rounds i : ℕ) (args : Cells) (l : List Text) (junk : Cells)
    → ((j : ℕ) → args (i + j) ≡ cells l junk j)
    → length l < rounds
    → print_args rounds i args ≡ placed i l
unfolding print_args
print_args-placed zero i args l junk same h = absurd (omega arith)
print_args-placed (suc rounds) i args [] junk same h =
    let e : args i ≡ none = ap args (omega arith) ∙ same 0 in rw (e, print_args)
print_args-placed (suc rounds) i args (t ∷ l) junk same h =
    let e : args i ≡ some t = ap args (omega arith) ∙ same 0 in
    rw (e, print_args)
      (ap (λ x. (i, t) ∷ x)
        (print_args-placed rounds (i + 1) args l junk (λ j. ap args (omega arith) ∙ same (suc j))
          (omega arith)))

-- All arguments, each with its place.
pub print_args_lem :
    (l : List Text) (junk : Cells) → length l < size → print_args size 0 (cells l junk) ≡ placed 0 l
print_args_lem l junk h =
    print_args-placed size 0 (cells l junk) l junk (λ j. ap (cells l junk) (omega arith)) h
