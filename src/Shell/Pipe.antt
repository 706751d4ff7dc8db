-- ===== src/Shell/Pipe.antt =====
-- `nextArg` (Assignment1/mysh.c), and its calls for the stages of a pipeline.
pub mod Stages
use cs.Prelude.{
  ℕ, zero, suc, ◌+◌, Bool, true, false, Option, none, some, List, [], ◌∷◌, if◌then◌else◌, ltb,
  length,
}
use cs.Shell.Text.{Text, codes, text_eq}
use cs.Shell.Cells.{Cells}
use cs.Shell.Parse.{size}

abbrev pub is_bar : Text → Bool
is_bar t = text_eq t (codes "|")

-- The arguments from place `i` up to a bar or NULL; the outer `none` means that the fuel ran out.
unfoldable pub collect : (fuel i : ℕ) → Cells → Option (List Text)
collect zero i args = none
collect (suc fuel) i args = elim (args i) [
  | none ↦ some []
  | some t ↦ elim (is_bar t) [
    | true ↦ some []
    | false ↦ elim (collect fuel (i + 1) args) [ none ↦ none | some l ↦ some (t ∷ l) ]
  ]
]

-- `tempargs` up to NULL, and the counter `nextPipe`.
pub record PipeState : Type 0 where
  pub temp : List Text
  pub next_pipe : ℕ

-- The test at the head of the loop: is there an argument at the place?
abbrev pub has_arg : Option Text → Bool
has_arg none = false
has_arg (some t) = if is_bar t then false else true

-- The stage from `nextPipe` on. An empty stage changes nothing. After one stage the loop ends,
-- since a bar or NULL follows.
unfoldable pub next_arg : Cells → PipeState → Option PipeState
unfolding collect
next_arg args s = elim (ltb s.next_pipe size) [
  | false ↦ some s
  | true ↦ elim (has_arg (args s.next_pipe)) [
    | false ↦ some s
    | true ↦ elim (collect size s.next_pipe args) [
      | none ↦ none
      | some l ↦ some (record { temp = l; next_pipe = s.next_pipe + length l + 1 })
    ]
  ]
]

-- The calls of `nextArg` in the child of `main`, one for each of `count` stages: what each leaves
-- in `tempargs`.
unfoldable pub stages : (count : ℕ) → Cells → PipeState → Option (List (List Text))
unfolding next_arg
stages zero args s = some []
stages (suc count) args s = elim (next_arg args s) [
  | none ↦ none
  | some s' ↦ elim (stages count args s') [ none ↦ none | some l ↦ some (s'.temp ∷ l) ]
]
