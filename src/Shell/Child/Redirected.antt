-- ===== src/Shell/Child/Redirected.antt =====
-- A command with redirections in the child of the shell (Assignment1/mysh.c).
use cs.Prelude.{
  ℕ, zero, suc, ◌+◌, ◌<◌, ◌≡◌, ◌≢◌, refl, ap, ◌∙◌, ◌&&◌, ◌⊎◌, inl, inr, Bool, true, false, Option,
  none, some, List, [], ◌∷◌, All, length, get_elem?, arith, if◌then◌else◌, Bool-cases,
}
use cs.Shell.Text.{Text, codes, text_eq, text_eq_iff}
use cs.Shell.Cells.{Cells, cells}
use cs.Shell.Parse.{size}
use cs.Shell.Search.{Redirections, search_for_redirection}
use cs.Shell.Search.Found.{Located, no_redirections, search_for_redirection-Located}
use cs.Shell.Redirect.{stripped, Mode, read, create, append, is_operator, redirect_calls}
use cs.Shell.Redirect.Files.{
  End, opened, Table, run_calls, IsBeyond, is_some, redirect_calls-targets,
}
use cs.Shell.Redirect.Command.{Item, word, redir, flat, words, IsItem, strip_args-words}
use cs.Shell.Spawn.{program}
use cs.Shell.Child.{Kernel, Variables, is_redirected, redirected_part, try_program, child_part}
use cs.Shell.Child.LastFile.{IsPlain, last_file, Located-last_file, absent-last_file}

-- A descriptor that is redirected to a file where there is one.
abbrev pub target : Mode → Option Text → Option End → Option End
target m none e = e
target m (some f) e = some (opened m (some f))

abbrev pub has_redirection : List Item → Bool
has_redirection [] = false
has_redirection (word t ∷ l) = has_redirection l
has_redirection (redir op file ∷ l) = true

pub plain-IsItem : (l : List Item) → All IsPlain l → All IsItem l
plain-IsItem [] ok = tt
plain-IsItem (word t ∷ l) ok = (ok.0, plain-IsItem l ok.1)
plain-IsItem (redir op file ∷ l) ok = (ok.0.0, plain-IsItem l ok.1)

cells-some :
    (l : List Text) (junk : Cells) (i : ℕ) (t : Text)
    → get_elem? l i ≡ some t
    → cells l junk i ≡ some t
cells-some [] junk i t e = absurd (cc e)
cells-some (x ∷ l) junk zero t e = e
cells-some (x ∷ l) junk (suc i) t e = cells-some l junk i t e

pub Located-target :
    (op : Text) (l : List Item) (junk : Cells) (m : Mode) (e : Option End) (flag : Bool) (at : ℕ)
    → All IsPlain l
    → is_operator op ≡ true
    → Located op (flat l) flag at
    → (if flag then some (opened m (cells (flat l) junk (at + 1))) else e)
      ≡ target m (last_file op l) e
Located-target op l junk m e true at ok g loc =
    let (f, a, b) = Located-last_file op l at ok g (loc.stands refl) (loc.is_last refl) in
    let next : at + 1 ≡ suc at = omega arith in
    let c : cells (flat l) junk (at + 1) ≡ some f =
      ap (cells (flat l) junk) next ∙ cells-some (flat l) junk (suc at) f b in
    rw (a, c)
Located-target op l junk m e false at ok g loc = rw (absent-last_file op l (loc.absent refl))

-- The file behind an operator, where it is opened.
abbrev pub opened_file : Option ℕ → Option Text → Option Text
opened_file none f = none
opened_file (some fd) f = f

Located-opened :
    (op : Text) (l : List Item) (junk : Cells) (m : Mode) (e : Option End) (flag : Bool) (at : ℕ)
    (o : Option ℕ)
    → All IsPlain l
    → is_operator op ≡ true
    → Located op (flat l) flag at
    → (if flag && is_some o then some (opened m (cells (flat l) junk (at + 1))) else e)
      ≡ target m (opened_file o (last_file op l)) e
Located-opened op l junk m e flag at none ok g loc = ground arith
Located-opened op l junk m e flag at (some fd) ok g loc =
    ground (arith, Located-target op l junk m e flag at ok g loc)

operator-cases :
    (op : Text) → is_operator op ≡ true → (op ≡ codes ">") ⊎ ((op ≡ codes "<") ⊎ (op ≡ codes ">>"))
operator-cases op h = elim (Bool-cases (text_eq op (codes ">"))) [
  | inl a ↦ inl ((text_eq_iff op (codes ">")).0 a)
  | inr a ↦ elim (Bool-cases (text_eq op (codes "<"))) [
    | inl b ↦ inr (inl ((text_eq_iff op (codes "<")).0 b))
    | inr b ↦ inr (inr ((text_eq_iff op (codes ">>")).0 (ground (arith, h))))
  ]
]

-- The search finds a redirection where there is one.
searched :
    (l : List Item) (r : Redirections)
    → All IsPlain l
    → has_redirection l ≡ true
    → ((op : Text)
        → is_operator op ≡ true
        → is_redirected r ≡ false
        → (j : ℕ) → get_elem? (flat l) j ≢ some op)
    → is_redirected r ≡ true
searched [] r ok h absent = absurd (cc h)
searched (word t ∷ l) r ok h absent = searched l r ok.1 h (λ op g f j. absent op g f (suc j))
searched (redir op file ∷ l) r ok h absent = elim (Bool-cases (is_redirected r)) [
  | inl e ↦ e
  | inr f ↦ absurd (absent op ok.0.0 f 0 refl)
]

none-found :
    (l : List Item) (r : Redirections)
    → Located (codes "<") (flat l) r.input r.input_redir
      × Located (codes ">") (flat l) r.output r.output_redir
      × Located (codes ">>") (flat l) r.append_flag r.append_redir
    → (op : Text) → is_operator op ≡ true
    → is_redirected r ≡ false
    → (j : ℕ) → get_elem? (flat l) j ≢ some op
unfolding is_redirected
none-found l r (i, o, a) op g f j = elim (operator-cases op g) [
  | inl e ↦ rw e (o.absent (ground (arith, f)) j)
  | inr (inl e) ↦ rw e (i.absent (ground (arith, f)) j)
  | inr (inr e) ↦ rw e (a.absent (ground (arith, f)) j)
]

-- What `open` and `creat` return in `redirections` is beyond standard error.
pub record AreBeyond (k : Kernel) : Type 0 where
  pub input : IsBeyond k.fd0
  pub output : IsBeyond k.fd1
  pub append : IsBeyond k.fd2

module _ (k : Kernel) (x : Item) (l : List Item) (junk : Cells) (v : Variables) (t : Table) where
  abbrev pub args : Cells
  args = cells (flat (x ∷ l)) junk

  abbrev pub found : Redirections
  found = search_for_redirection size 0 args no_redirections

  abbrev pub files : Table
  files = run_calls (redirect_calls found args k.fd0 k.fd1 k.fd2) t

  -- The child tries the program with the words, behind the calls on the files.
  pub child_part-tried :
      All IsPlain (x ∷ l)
      → length (flat (x ∷ l)) < size
      → has_redirection (x ∷ l) ≡ true
      → child_part k v args t ≡ try_program k v found args (stripped (words (x ∷ l))) files
  unfolding child_part redirected_part
  child_part-tried ok h some_redir =
      let loc = search_for_redirection-Located (flat (x ∷ l)) junk h in
      let flag : is_redirected found ≡ true =
        searched (x ∷ l) found ok some_redir (none-found (x ∷ l) found loc) in
      let left = strip_args-words x l junk (plain-IsItem (x ∷ l) ok) h in rw flag (rw left)

  child_part-program :
      All IsPlain (x ∷ l)
      → length (flat (x ∷ l)) < size
      → has_redirection (x ∷ l) ≡ true
      → k.exec_ok (words (x ∷ l)) ≡ true
      → child_part k v args t ≡ some (record { runs = program (words (x ∷ l)); table = files } ∷ [])
  unfolding try_program
  child_part-program ok h some_redir runs = child_part-tried ok h some_redir ∙ rw runs

  -- Standard input and output behind the calls on the files.
  pub files-targets :
      AreBeyond k
      → All IsPlain (x ∷ l)
      → length (flat (x ∷ l)) < size
      → (files 0 ≡ target read (opened_file k.fd0 (last_file (codes "<") (x ∷ l))) (t 0))
        × (files 1
            ≡ target append
                (opened_file k.fd2 (last_file (codes ">>") (x ∷ l)))
                (target create (opened_file k.fd1 (last_file (codes ">") (x ∷ l))) (t 1)))
  files-targets beyond ok h =
      let (i, o, a) = search_for_redirection-Located (flat (x ∷ l)) junk h in
      let r = found in
      let (t0, t1) =
        redirect_calls-targets r args k.fd0 k.fd1 k.fd2 t beyond.input beyond.output
          beyond.append in
      let out =
        Located-opened (codes ">") (x ∷ l) junk create (t 1) r.output r.output_redir k.fd1 ok refl
          o in
      (
        t0
            ∙ Located-opened (codes "<") (x ∷ l) junk read (t 0) r.input r.input_redir k.fd0 ok refl
                i,
        t1
            ∙ rw out (
                Located-opened (codes ">>") (x ∷ l) junk append _ r.append_flag r.append_redir k.fd2
                  ok refl a),
      )

-- A command with redirections whose program can be run is run once, with its words as arguments.
-- Standard input leads to the last file behind `<`, standard output to the last one behind `>>`,
-- or else to the last one behind `>`; where there is none they are as before. An operator whose
-- file is not opened has no effect.
pub child_part-redirected :
    (k : Kernel) (x : Item) (l : List Item) (junk : Cells) (v : Variables) (t : Table)
    → AreBeyond k
    → All IsPlain (x ∷ l)
    → length (flat (x ∷ l)) < size
    → has_redirection (x ∷ l) ≡ true
    → k.exec_ok (words (x ∷ l)) ≡ true
    → (files : Table) × (child_part k v (cells (flat (x ∷ l)) junk) t
        ≡ some (record { runs = program (words (x ∷ l)); table = files } ∷ []))
      × (files 0 ≡ target read (opened_file k.fd0 (last_file (codes "<") (x ∷ l))) (t 0))
      × (files 1
          ≡ target append
              (opened_file k.fd2 (last_file (codes ">>") (x ∷ l)))
              (target create (opened_file k.fd1 (last_file (codes ">") (x ∷ l))) (t 1)))
child_part-redirected k x l junk v t beyond ok h some_redir runs =
    let (t0, t1) = files-targets k x l junk v t beyond ok h in
    (files k x l junk v t, child_part-program k x l junk v t ok h some_redir runs, t0, t1)
