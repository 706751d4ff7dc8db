-- ===== src/Shell/ShowHistory/Restored.antt =====
-- Where the history goes, and that standard output is as before (Assignment1/mysh.c).
use cs.Prelude.{
  ℕ, ◌+◌, ◌<◌, ◌≡◌, ◌≢◌, refl, ap, ◌∙◌, Bool, true, false, Option, none, some, ◌++◌, if◌then◌else◌,
  ◌==◌, ◌&&◌, arith,
}
use cs.Shell.Text.{Text}
use cs.Shell.Cells.{Cells}
use cs.Shell.Redirect.{redirect, create, append_or_create}
use cs.Shell.Redirect.Files.{
  End, opened, Table, run_call, run_calls, run_calls-append, redirect-Table,
}
use cs.Shell.ShowHistory.{
  Where, Buffering, line_buffered, fully_buffered, written, cut_args, save, open_calls, restore,
  show_history,
}

-- Three new descriptors, of which the saved one stays open.
pub record AreNew (saved fd1 fd2 : ℕ) : Type 0 where
  pub new_saved : 2 < saved
  pub new1 : 2 < fd1
  pub new2 : 2 < fd2
  pub apart1 : saved ≢ fd1
  pub apart2 : saved ≢ fd2

-- Where the text of a function goes that restores standard output behind it.
abbrev pub destination : Buffering → (during after : Option End) → Option End
destination line_buffered during after = during
destination fully_buffered during after = after

written-destination :
    (b : Buffering) (during after : Table) (fd : ℕ)
    → written b during after fd ≡ destination b (during fd) (after fd)
unfolding written
written-destination line_buffered during after fd = refl
written-destination fully_buffered during after fd = refl

module _ (w : Where) (args : Cells) (saved fd1 fd2 : ℕ) (t : Table)
    (new : AreNew saved fd1 fd2) where
  opened-at :
      (k : ℕ)
      → k ≢ fd1
      → k ≢ fd2
      → run_calls (open_calls w args (some fd1) (some fd2)) (save (some saved) t) k ≡ (
          if k == 1
          then if w.append_flag
            then some (opened append_or_create (cut_args w args (w.append_redir + 1)))
            else if w.output
            then some (opened create (args (w.output_redir + 1)))
            else t 1
          else save (some saved) t k)
  unfolding open_calls save
  opened-at k n1 n2 =
      let s = save (some saved) t in
      let b1 = redirect w.output create args w.output_redir 1 (some fd1) in
      let b2 =
        redirect w.append_flag append_or_create (cut_args w args) w.append_redir 1 (some fd2) in
      ground (
        arith,
        ap (λ f. f k) (run_calls-append b1 b2 s),
        redirect-Table w.output create args w.output_redir 1 fd1 s k,
        redirect-Table w.append_flag append_or_create (cut_args w args) w.append_redir 1 fd2
            (run_calls b1 s) k,
        new.new_saved,
        new.new1,
        new.new2,
      )

  restored :
      (o a : Bool) (t' : Table)
      → t' saved ≡ t 1
      → (o ≡ false → a ≡ false → t' 1 ≡ t 1)
      → run_calls (restore o (some saved) ++ restore a (some saved)) t' 1 ≡ t 1
  unfolding restore run_calls run_call
  restored false false t' kept same = same refl refl
  restored false true t' kept same = kept
  restored true false t' kept same = kept
  restored true true t' kept same =
      let apart : (saved == 1) ≡ false = ground (arith, new.new_saved) in rw apart kept

  -- With new descriptors, behind the function standard output leads where it led before. With a
  -- buffer for each line the history goes to the file behind `>>`, or else to the one behind `>`,
  -- or else to where standard output led; where the file of `>>` stands at the place of `>`, it
  -- is NULL. With a buffer that is written at the end of the process, it goes to where standard
  -- output led, whatever file is named: the function does not flush the buffer before it
  -- restores.
  pub show_history-restored :
      (b : Buffering) (cell : ℕ → Text)
      → let h = show_history b w args (some saved) (some fd1) (some fd2) cell t in
        (h.output 1
          ≡ destination b
              (if w.append_flag
                then some (
                    opened append_or_create (
                      if w.output && (w.append_redir + 1 == w.output_redir)
                      then none
                      else args (w.append_redir + 1)))
                else if w.output
                then some (opened create (args (w.output_redir + 1)))
                else t 1)
              (t 1))
        × (h.after 1 ≡ t 1)
  unfolding show_history
  show_history-restored b cell =
      let t' = run_calls (open_calls w args (some fd1) (some fd2)) (save (some saved) t) in
      let one = opened-at 1 (omega (arith, new.new1)) (omega (arith, new.new2)) in
      let kept : t' saved ≡ t 1 =
        opened-at saved new.apart1 new.apart2 ∙ unfold save in ground (arith, new.new_saved) in
      let t'' =
        run_calls (restore w.output (some saved) ++ restore w.append_flag (some saved)) t' in
      let again : t'' 1 ≡ t 1 =
        restored w.output w.append_flag t' kept (λ p q. one ∙ ground (arith, p, q)) in
      (
        written-destination b t' t'' 1
            ∙ ap (λ x. destination b (t' 1) x) again
            ∙ ap (λ x. destination b x (t 1)) (one ∙ unfold cut_args in ground arith),
        again,
      )
