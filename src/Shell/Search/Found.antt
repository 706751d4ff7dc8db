-- ===== src/Shell/Search/Found.antt =====
-- What the two searches find (Assignment1/mysh.c).
use cs.Prelude.{
  ℕ, zero, suc, ◌+◌, ◌<◌, ◌≡◌, ◌≢◌, refl, sym, ap, ◌∙◌, Bool, true, false, none, some, List, [],
  ◌∷◌, length, get_elem?, arith, Bool-cases, inl, inr, if◌then◌else◌,
}
use mathlib.Core.Path.{subst}
use mathlib.Core.Option.{some-injective}
use cs.Shell.Text.{Text, codes, text_eq, text_eq_iff}
use cs.Shell.Cells.{Cells, cells}
use cs.Shell.Parse.{size}
use cs.Shell.Search.{
  Redirections, note_input, note_output, note_append, search_for_redirection, Pipes,
  search_for_pipe,
}

-- The flag and the position say where `op` last stands in `l`.
pub record Located (op : Text) (l : List Text) (flag : Bool) (at : ℕ) : Type 0 where
  pub stands : flag ≡ true → get_elem? l at ≡ some op
  pub is_last : flag ≡ true → (j : ℕ) → at < j → get_elem? l j ≢ some op
  pub absent : flag ≡ false → (j : ℕ) → get_elem? l j ≢ some op

-- The loop over the arguments, as a loop over the list.
abbrev note : Text → ℕ → Redirections → Redirections
note t i r = note_append t i (note_output t i (note_input t i r))

note_all : ℕ → List Text → Redirections → Redirections
note_all i [] r = r
note_all i (t ∷ l) r = note_all (i + 1) l (note t i r)

search-note_all :
    (rounds i : ℕ) (args : Cells) (l : List Text) (junk : Cells) (r : Redirections)
    → ((j : ℕ) → args (i + j) ≡ cells l junk j)
    → length l < rounds
    → search_for_redirection rounds i args r ≡ note_all i l r
unfolding search_for_redirection note_all
search-note_all zero i args l junk r same h = absurd (omega arith)
search-note_all (suc rounds) i args [] junk r same h =
    let e : args i ≡ none = ap args (omega arith) ∙ same 0 in rw (e, search_for_redirection)
search-note_all (suc rounds) i args (t ∷ l) junk r same h =
    let e : args i ≡ some t = ap args (omega arith) ∙ same 0 in
    rw (e, search_for_redirection)
      (search-note_all rounds (i + 1) args l junk (note t i r)
        (λ j. ap args (omega arith) ∙ same (suc j)) (omega arith))

-- The two variables of one operator, on their own.
track : Text → ℕ → List Text → Bool × ℕ → Bool × ℕ
track op i [] s = s
track op i (t ∷ l) s = track op (i + 1) l (if text_eq t op then (true, i) else s)

-- Either the operator is not there and the variables stay, or they end at its last place.
data Tracked (op : Text) (i : ℕ) (l : List Text) (s r : Bool × ℕ) : Type 0 where
  kept : r ≡ s → ((j : ℕ) → get_elem? l j ≢ some op) → Tracked op i l s r
  found :
      (k : ℕ)
      → r ≡ (true, i + k)
      → get_elem? l k ≡ some op
      → ((j : ℕ) → k < j → get_elem? l j ≢ some op)
      → Tracked op i l s r

not_there :
    (t op : Text) (l : List Text)
    → text_eq t op ≡ false
    → ((j : ℕ) → get_elem? l j ≢ some op)
    → (j : ℕ) → get_elem? (t ∷ l) j ≢ some op
not_there t op l f h zero = λ e. cc ((text_eq_iff t op).1 (some-injective t op e), f)
not_there t op l f h (suc j) = h j

later_not :
    (t : Text) {op : Text} (l : List Text) (k : ℕ)
    → ((j : ℕ) → k < j → get_elem? l j ≢ some op)
    → (j : ℕ) → suc k < j
    → get_elem? (t ∷ l) j ≢ some op
later_not t l k h zero lt = absurd (omega arith)
later_not t l k h (suc j) lt = h j (omega arith)

first_only :
    (t : Text) {op : Text} (l : List Text)
    → ((j : ℕ) → get_elem? l j ≢ some op)
    → (j : ℕ) → 0 < j
    → get_elem? (t ∷ l) j ≢ some op
first_only t l h zero lt = absurd (omega arith)
first_only t l h (suc j) lt = h j

track-Tracked :
    (op : Text) (i : ℕ) (l : List Text) (s : Bool × ℕ) → Tracked op i l s (track op i l s)
unfolding track
track-Tracked op i [] s = kept refl (λ j. cc)
track-Tracked op i (t ∷ l) s = elim (Bool-cases (text_eq t op)) [
  | inl e ↦
      let same = (text_eq_iff t op).0 e in
      rw e (elim (track-Tracked op (i + 1) l (true, i)) [
        | kept q h ↦
            found 0 (q ∙ ap (λ x. (true, x)) (omega arith)) (ap some same) (first_only t l h)
        | found k q g h ↦
            found (suc k) (q ∙ ap (λ x. (true, x)) (omega arith)) g (later_not t l k h)
      ])
  | inr f ↦ rw f (elim (track-Tracked op (i + 1) l s) [
    | kept q h ↦ kept q (not_there t op l f h)
    | found k q g h ↦ found (suc k) (q ∙ ap (λ x. (true, x)) (omega arith)) g (later_not t l k h)
  ])
]

Tracked-Located :
    (op : Text) (l : List Text) (a : ℕ) (r : Bool × ℕ)
    → Tracked op 0 l (false, a) r
    → Located op l r.0 r.1
Tracked-Located op l a r (kept q h) = record {
  stands = λ e. cc (ap (λ x. x.0) q);
  is_last = λ e. cc (ap (λ x. x.0) q);
  absent = λ e. h;
}
Tracked-Located op l a r (found k q g h) =
    let at : r.1 ≡ k = ap (λ x. x.1) q ∙ omega arith in
    record {
      stands = λ e. rw at g;
      is_last = λ e j lt. h j (omega arith);
      absent = λ e. cc (ap (λ x. x.0) q);
    }

-- The three operators differ, so each round concerns the variables of one of them.
note_all-input :
    (i : ℕ) (l : List Text) (r : Redirections)
    → ((note_all i l r).input, (note_all i l r).input_redir)
      ≡ track (codes "<") i l (r.input, r.input_redir)
unfolding note_all track note_input note_output note_append
note_all-input i [] r = refl
note_all-input i (t ∷ l) r =
    note_all-input (i + 1) l (note t i r) ∙ ap (track (codes "<") (i + 1) l) (ground arith)

note_all-output :
    (i : ℕ) (l : List Text) (r : Redirections)
    → ((note_all i l r).output, (note_all i l r).output_redir)
      ≡ track (codes ">") i l (r.output, r.output_redir)
unfolding note_all track note_input note_output note_append
note_all-output i [] r = refl
note_all-output i (t ∷ l) r =
    note_all-output (i + 1) l (note t i r) ∙ ap (track (codes ">") (i + 1) l) (ground arith)

note_all-append :
    (i : ℕ) (l : List Text) (r : Redirections)
    → ((note_all i l r).append_flag, (note_all i l r).append_redir)
      ≡ track (codes ">>") i l (r.append_flag, r.append_redir)
unfolding note_all track note_input note_output note_append
note_all-append i [] r = refl
note_all-append i (t ∷ l) r =
    note_all-append (i + 1) l (note t i r) ∙ ap (track (codes ">>") (i + 1) l) (ground arith)

-- What `main` sets before each command.
abbrev pub no_redirections : Redirections
no_redirections = record {
  input = false;
  input_redir = 0;
  output = false;
  output_redir = 0;
  append_flag = false;
  append_redir = 0;
}

-- For fewer than `SIZE` arguments the function finds, for each of `<`, `>` and `>>`, whether it is
-- an argument, and the last place where it stands, whatever is left behind NULL.
pub search_for_redirection-Located :
    (l : List Text) (junk : Cells)
    → length l < size
    → let r = search_for_redirection size 0 (cells l junk) no_redirections in
      Located (codes "<") l r.input r.input_redir
      × Located (codes ">") l r.output r.output_redir
      × Located (codes ">>") l r.append_flag r.append_redir
search_for_redirection-Located l junk h =
    rw
      (search-note_all size 0 (cells l junk) l junk no_redirections
        (λ j. ap (cells l junk) (omega arith)) h)
      (
        Tracked-Located _ l 0 _ (
            subst (Tracked (codes "<") 0 l (false, 0)) (sym (note_all-input 0 l no_redirections))
              (track-Tracked _ 0 l _)),
        Tracked-Located _ l 0 _ (
            subst (Tracked (codes ">") 0 l (false, 0)) (sym (note_all-output 0 l no_redirections))
              (track-Tracked _ 0 l _)),
        Tracked-Located _ l 0 _ (
            subst (Tracked (codes ">>") 0 l (false, 0)) (sym (note_all-append 0 l no_redirections))
              (track-Tracked _ 0 l _)),
      )

-- How often `op` is an argument.
abbrev pub count_text : Text → List Text → ℕ
count_text op [] = 0
count_text op (t ∷ l) = (if text_eq t op then 1 else 0) + count_text op l

search_for_pipe-count :
    (rounds i : ℕ) (args : Cells) (l : List Text) (junk : Cells) (p : Pipes)
    → ((j : ℕ) → args (i + j) ≡ cells l junk j)
    → length l < rounds
    → (search_for_pipe rounds i args p).pipe_counter ≡ p.pipe_counter + count_text (codes "|") l
unfolding search_for_pipe
search_for_pipe-count zero i args l junk p same h = absurd (omega arith)
search_for_pipe-count (suc rounds) i args [] junk p same h =
    let e : args i ≡ none = ap args (omega arith) ∙ same 0 in rw (e, search_for_pipe) (omega arith)
search_for_pipe-count (suc rounds) i args (t ∷ l) junk p same h =
    let e : args i ≡ some t = ap args (omega arith) ∙ same 0 in
    rw (e, search_for_pipe)
      (search_for_pipe-count rounds (i + 1) args l junk _
          (λ j. ap args (omega arith) ∙ same (suc j)) (omega arith)
        ∙ ground arith)

-- For fewer than `SIZE` arguments, whatever is left behind NULL, `searchForPipe` counts the bars.
pub search_for_pipe_lem :
    (l : List Text) (junk : Cells)
    → length l < size
    → (search_for_pipe size 0
        (cells l junk)
        (record { pipeflag = false; pipe_counter = 0 })).pipe_counter
      ≡ count_text (codes "|") l
search_for_pipe_lem l junk h =
    search_for_pipe-count size 0 (cells l junk) l junk _ (λ j. ap (cells l junk) (omega arith)) h
    ∙ omega arith
