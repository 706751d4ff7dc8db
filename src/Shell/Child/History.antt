-- ===== src/Shell/Child/History.antt =====
-- The command `history` with redirections in the child of the shell (Assignment1/mysh.c).
use cs.Prelude.{
  ℕ, suc, ◌+◌, ◌<◌, ◌≡◌, refl, ap, sym, ◌∙◌, Bool, true, false, Option, none, some, List, [], ◌∷◌,
  All, length, get_elem?, ◌==◌, ◌&&◌, arith, if◌then◌else◌, Bool-cases, inl, inr,
}
use cs.Shell.Text.{Text, codes}
use cs.Shell.Cells.{Cells, cells}
use cs.Shell.Parse.{size}
use cs.Shell.History.{print_history}
use cs.Shell.Search.{Redirections}
use cs.Shell.Search.Found.{Located, search_for_redirection-Located}
use cs.Shell.Pipe.Stages.{NoBar}
use cs.Shell.Redirect.{create, append, append_or_create}
use cs.Shell.Redirect.Files.{End, opened, Table}
use cs.Shell.Redirect.Command.{Item, word, flat, words}
use cs.Shell.ShowHistory.Restored.{AreNew, destination, show_history-restored}
use cs.Shell.Spawn.{Exec, prints, last_command, print_last}
use cs.Shell.Child.{Kernel, Variables, printing, child_part}
use cs.Shell.Child.LastFile.{IsPlain, last_file, not_operator, Located-last_file, last_file-plain}
use cs.Shell.Child.Alone.{alone, child_part-alone}
use cs.Shell.Child.Redirected.{
  target, AreBeyond, has_redirection, Located-target, found, files, files-targets,
}

-- The file behind `>>` does not stand at the place of `>`.
apart :
    (l : List Item) (o a : Bool) (out app : ℕ)
    → All IsPlain l
    → Located (codes ">") (flat l) o out
    → Located (codes ">>") (flat l) a app
    → a ≡ true
    → (o && (app + 1 == out)) ≡ false
apart l false a out app ok lo la e = refl
apart l true a out app ok lo la e = elim (Bool-cases (app + 1 == out)) [
  | inr n ↦ n
  | inl y ↦
      let (f, b, c) = Located-last_file (codes ">>") l app ok refl (la.stands e) (la.is_last e) in
      let at : suc app ≡ out = ground (arith, y) in
      absurd (
        not_operator f (codes ">") (last_file-plain (codes ">>") l f ok b) refl
          (sym c ∙ ap (get_elem? (flat l)) at ∙ lo.stands refl))
]

uncut :
    (a cut : Bool) (file : Option Text) (e : Option End)
    → (a ≡ true → cut ≡ false)
    → (if a then some (opened append_or_create (if cut then none else file)) else e)
      ≡ (if a then some (opened append_or_create file) else e)
uncut false cut file e h = refl
uncut true cut file e h = rw (h refl)

-- The files that `redirections` has opened are opened again.
target-again :
    (a o : Option Text) (e : Option End)
    → target append_or_create a (target create o (target append a (target create o e)))
      ≡ target append_or_create a (target create o e)
target-again (some f) o e = refl
target-again none none e = refl
target-again none (some f) e = refl

abbrev pub history : Item
history = word (codes "history")

module _ (k : Kernel) (l : List Item) (junk : Cells) (v : Variables) (t : Table) where
  abbrev line : List Text
  line = flat (history ∷ l)

  abbrev given : Redirections
  given = found k history l junk v t

  abbrev opened_files : Table
  opened_files = files k history l junk v t

  -- Where the history is printed, once `redirections` has opened its files.
  printed :
      (saved fd1 fd2 : ℕ)
      → AreNew saved fd1 fd2
      → k.saved ≡ some saved
      → k.history_fd1 ≡ some fd1
      → k.history_fd2 ≡ some fd2
      → All IsPlain (history ∷ l)
      → length line < size
      → let x = print_last (printing k v given) line opened_files in
        (x.runs ≡ prints (print_history size 0 v.cell))
        × (x.table 1
            ≡ destination k.buffering
                (target append_or_create
                  (last_file (codes ">>") (history ∷ l))
                  (target create (last_file (codes ">") (history ∷ l)) (opened_files 1)))
                (opened_files 1))
  unfolding print_last printing
  printed saved fd1 fd2 new es e1 e2 ok h =
      let (i, o, a) = search_for_redirection-Located line junk h in
      let r = given in
      let w = (printing k v r).flags in
      let (output, _) =
        show_history-restored w (cells line v.behind) saved fd1 fd2 opened_files new k.buffering
          v.cell in
      let out =
        Located-target (codes ">") (history ∷ l) v.behind create (opened_files 1) r.output
          r.output_redir ok refl o in
      let app =
        Located-target (codes ">>") (history ∷ l) v.behind append_or_create
          (target create (last_file (codes ">") (history ∷ l)) (opened_files 1)) r.append_flag
          r.append_redir ok refl a in
      let no_cut : r.append_flag ≡ true
          → (r.output && (r.append_redir + 1 == r.output_redir)) ≡ false =
        apart (history ∷ l) r.output r.append_flag r.output_redir r.append_redir ok o a in
      let cut = r.output && (r.append_redir + 1 == r.output_redir) in
      let file = cells line v.behind (r.append_redir + 1) in
      let file_end = uncut r.append_flag cut file _ no_cut ∙ rw out app in
      rw (es, e1, e2) (refl, output ∙ ap (λ x. destination k.buffering x (opened_files 1)) file_end)

-- Where no program can be run as `history`, the command `history` with redirections and without
-- bars prints the commands of the shell: to the last file behind `>>`, or else to the last one
-- behind `>`, or else to the standard output. With a buffer that is written at the end, this is
-- where `redirections` has opened the file, and not `printHistory`.
pub child_part-history :
    (k : Kernel) (l : List Item) (junk : Cells) (v : Variables) (t : Table)
    (fd1 fd2 saved history_fd1 history_fd2 : ℕ)
    → AreBeyond k
    → k.fd1 ≡ some fd1
    → k.fd2 ≡ some fd2
    → AreNew saved history_fd1 history_fd2
    → k.saved ≡ some saved
    → k.history_fd1 ≡ some history_fd1
    → k.history_fd2 ≡ some history_fd2
    → All IsPlain l
    → All NoBar (flat l)
    → length (flat (history ∷ l)) < size
    → has_redirection l ≡ true
    → k.exec_ok (words (history ∷ l)) ≡ false
    → (x : Exec) × (child_part k v (cells (flat (history ∷ l)) junk) t ≡ some (x ∷ []))
      × (x.runs ≡ prints (print_history size 0 v.cell))
      × (x.table 1
          ≡ destination k.buffering
              (target append_or_create
                (last_file (codes ">>") l)
                (target create (last_file (codes ">") l) (t 1)))
              (target append
                (last_file (codes ">>") l)
                (target create (last_file (codes ">") l) (t 1))))
unfolding last_command
child_part-history k l junk v t fd1 fd2 saved h1 h2 beyond o1 o2 new es e1 e2 ok bars h some_redir
      fails =
    let plain : All IsPlain (history ∷ l) = (refl, ok) in
    let bars' : All NoBar (flat (history ∷ l)) = (refl, bars) in
    let (runs, out) = printed k l junk v t saved h1 h2 new es e1 e2 plain h in
    let (_, t1) = files-targets k history l junk v t beyond plain h in
    (
      alone k (codes "history") l junk v t,
      child_part-alone k (codes "history") l junk v t plain bars' h some_redir fails,
      runs,
      out
          ∙ rw (t1, o1, o2)
              (ap
                (λ x. destination k.buffering x (
                  target append (last_file (codes ">>") l)
                    (target create (last_file (codes ">") l) (t 1))))
                (target-again (last_file (codes ">>") l) (last_file (codes ">") l) (t 1))),
    )
