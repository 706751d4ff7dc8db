-- ===== src/Shell/Spawn/Asked.antt =====
-- What the stages of a pipeline ask for, and that `history` prints the same commands in each of
-- them (`spawn_proc` and the end of the child in Assignment1/mysh.c).
use cs.Prelude.{
  ℕ, zero, suc, ◌+◌, ◌<◌, ◌≡◌, refl, ap, ◌∙◌, false, Option, none, some, List, [], ◌∷◌, arith,
  if◌then◌else◌, Bool-cases, inl, inr,
}
use cs.Shell.Text.{Text, codes, text_eq}
use cs.Shell.Parse.{size}
use cs.Shell.History.{print_history}
use cs.Shell.Redirect.{redirect}
use cs.Shell.Redirect.Files.{Table, run_calls}
use cs.Shell.ShowHistory.{
  Buffering, line_buffered, fully_buffered, written, show_history, open_calls, restore, save,
}
use cs.Shell.Spawn.{
  Lookup, run_program, not_found, Action, prints, program, no_command, spawn_history, action,
  spawn_proc, Printing, print_last, last_command,
}

-- What a stage asks for: the commands of the history, its program, or the message that there is
-- none.
abbrev pub asked : Lookup → List Text → Action
asked h [] = no_command
asked h (t ∷ l) =
    if text_eq t (codes "history")
    then prints (print_history size 0 h.cell)
    else if h.exec_ok (t ∷ l)
    then program (t ∷ l)
    else not_found t

spawn_history-print_history :
    (rounds i : ℕ) (cell : ℕ → Text) → spawn_history rounds i cell ≡ print_history rounds i cell
unfolding spawn_history print_history
spawn_history-print_history zero i cell = refl
spawn_history-print_history (suc rounds) i cell =
    rw (spawn_history-print_history rounds (i + 1) cell)

action-asked : (h : Lookup) (s : List Text) → action h s ≡ asked h s
unfolding action run_program
action-asked h [] = refl
action-asked h (t ∷ l) = rw (spawn_history-print_history size 0 h.cell)

pub spawn_proc-runs :
    (h : Lookup) (in_fd out : ℕ) (temp : List Text) (t : Table)
    → (spawn_proc h in_fd out temp t).runs ≡ asked h temp
unfolding spawn_proc
spawn_proc-runs h in_fd out temp t = action-asked h temp

-- `printHistory` has no redirection of its own, and the copy of standard output is a new
-- descriptor.
pub record IsPlainPrinting (h : Printing) : Type 0 where
  pub no_output : h.flags.output ≡ false
  pub no_append : h.flags.append_flag ≡ false
  pub new_saved : (fd : ℕ) → h.saved ≡ some fd → 2 < fd

written-same : (b : Buffering) (t : Table) → written b t t ≡ t
unfolding written
written-same line_buffered t = refl
written-same fully_buffered t = refl

pub last_command-asked :
    (h : Printing) (s : List Text) (t : Table)
    → IsPlainPrinting h
    → ((last_command h s t).runs ≡ asked h.look s)
      × ((last_command h s t).table 0 ≡ t 0)
      × ((last_command h s t).table 1 ≡ t 1)
unfolding last_command run_program print_last show_history open_calls restore redirect run_calls
    save
last_command-asked h [] t q = (refl, refl, refl)
last_command-asked h (w ∷ l) t q = elim (Bool-cases (text_eq w (codes "history"))) [
  | inr f ↦ rw f (refl, refl, refl)
  | inl e ↦
      let (t0, t1) = kept h.saved q.new_saved in
      let same = written-same h.buffering (save h.saved t) in
      rw (e, q.no_output, q.no_append) (refl, ap (λ x. x 0) same ∙ t0, ap (λ x. x 1) same ∙ t1)
]
  where
    kept :
        (saved : Option ℕ)
        → ((fd : ℕ) → saved ≡ some fd → 2 < fd)
        → (save saved t 0 ≡ t 0) × (save saved t 1 ≡ t 1)
    kept none new = (refl, refl)
    kept (some fd) new = let above : 2 < fd = new fd refl in (ground arith, ground arith)
