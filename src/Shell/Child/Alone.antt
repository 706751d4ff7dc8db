-- ===== src/Shell/Child/Alone.antt =====
-- A command with redirections and without bars whose program cannot be run with its words: the
-- child of the shell goes on to the end of the pipeline (Assignment1/mysh.c).
use cs.Prelude.{◌<◌, ◌≡◌, ap, ◌∙◌, true, false, some, List, [], ◌∷◌, All, length, arith}
use cs.Shell.Text.{Text, codes, text_eq}
use cs.Shell.Cells.{Cells, cells}
use cs.Shell.Parse.{size}
use cs.Shell.Search.Found.{search_for_pipe_lem, count_text}
use cs.Shell.Pipe.Stages.{NoBar, IsStage, bar, next_arg-stage, count-joined}
use cs.Shell.Redirect.{create, append}
use cs.Shell.Redirect.Files.{Table}
use cs.Shell.Redirect.Command.{Item, word, flat, words}
use cs.Shell.Spawn.{Exec, not_found, last_exec, last_command, run_program, run_last, run_pipeline}
use cs.Shell.Child.{Kernel, Variables, printing, pipeline, try_program, child_part}
use cs.Shell.Child.LastFile.{IsPlain, last_file}
use cs.Shell.Child.Redirected.{
  target, opened_file, AreBeyond, has_redirection, found, files, child_part-tried, files-targets,
}

module _ (k : Kernel) (w : Text) (l : List Item) (junk : Cells) (v : Variables) (t : Table) where
  abbrev line : List Text
  line = flat (word w ∷ l)

  abbrev pub alone : Exec
  alone =
      last_command (printing k v (found k (word w) l junk v t)) line (files k (word w) l junk v t)

  pipeline-alone :
      IsStage line
      → length line < size
      → pipeline k v
          (found k (word w) l junk v t)
          (cells line junk)
          (words (word w ∷ l))
          (files k (word w) l junk v t)
        ≡ some (alone ∷ [])
  unfolding pipeline run_pipeline run_last last_exec
  pipeline-alone stage h =
      let count = search_for_pipe_lem line junk h in
      let none_left : count_text bar line ≡ 0 = count-joined line [] (stage, tt) in
      let s =
        next_arg-stage (cells line junk) 0 (words (word w ∷ l)) line [] junk
          (λ j. ap (cells line junk) (omega arith)) stage (omega arith) in
      rw (count, none_left) (rw (s, run_pipeline, run_last))

  -- The child runs the line as one command, with the operators and the files among its arguments.
  pub child_part-alone :
      All IsPlain (word w ∷ l)
      → All NoBar line
      → length line < size
      → has_redirection l ≡ true
      → k.exec_ok (words (word w ∷ l)) ≡ false
      → child_part k v (cells line junk) t ≡ some (alone ∷ [])
  unfolding try_program
  child_part-alone plain bars h some_redir fails =
      let stage : IsStage line = record { some_arg = omega arith; no_bar = bars } in
      child_part-tried k (word w) l junk v t plain h some_redir ∙ rw fails (pipeline-alone stage h)

-- Where no program can be run by the name `w`, a command with redirections and without bars prints
-- its message to the last file behind `>>`, or else to the last one behind `>`, or else to the
-- standard output. An operator whose file is not opened has no effect.
pub child_part-not_found :
    (k : Kernel) (w : Text) (l : List Item) (junk : Cells) (v : Variables) (t : Table)
    → AreBeyond k
    → All IsPlain (word w ∷ l)
    → All NoBar (flat (word w ∷ l))
    → length (flat (word w ∷ l)) < size
    → has_redirection l ≡ true
    → text_eq w (codes "history") ≡ false
    → ((args : List Text) → k.exec_ok (w ∷ args) ≡ false)
    → (x : Exec) × (child_part k v (cells (flat (word w ∷ l)) junk) t ≡ some (x ∷ []))
      × (x.runs ≡ not_found w)
      × (x.table 1
          ≡ target append
              (opened_file k.fd2 (last_file (codes ">>") l))
              (target create (opened_file k.fd1 (last_file (codes ">") l)) (t 1)))
unfolding last_command run_program printing
child_part-not_found k w l junk v t beyond plain bars h some_redir other fails =
    let (_, t1) = files-targets k (word w) l junk v t beyond plain h in
    (
      alone k w l junk v t,
      child_part-alone k w l junk v t plain bars h some_redir (fails (words l)),
      rw (other, fails (flat l)),
      rw other t1,
    )
