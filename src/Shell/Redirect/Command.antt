-- ===== src/Shell/Redirect/Command.antt =====
-- The arguments that `redirections` leaves for the command (Assignment1/mysh.c).
use cs.Prelude.{
  ℕ, zero, suc, ◌+◌, ◌<◌, ◌≡◌, ap, ◌∙◌, true, false, Option, some, List, [], ◌∷◌, ◌++◌, length,
  arith, ltb, All,
}
use cs.Shell.Text.{Text}
use cs.Shell.Cells.{Cells, cells}
use cs.Shell.Parse.{size}
use cs.Shell.Redirect.{is_operator, Strip, stripped, keep_arg, or_end, strip_loop, strip_args}

-- A command with redirections: words, and operators that have their file behind them.
pub data Item : Type 0 where
  word : Text → Item
  redir : (op file : Text) → Item

abbrev pub IsItem : Item → Type 0
IsItem (word t) = is_operator t ≡ false
IsItem (redir op file) = is_operator op ≡ true

-- The arguments that the items stand for, and the words among the items.
abbrev pub flat : List Item → List Text
flat [] = []
flat (word t ∷ l) = t ∷ flat l
flat (redir op file ∷ l) = op ∷ file ∷ flat l

abbrev pub words : List Item → List Text
words [] = []
words (word t ∷ l) = t ∷ words l
words (redir op file ∷ l) = words l

-- One round at a word, and one at an operator.
strip_loop-word :
    (fuel i : ℕ) (args : Cells) (t : Text)
    → i < size
    → args i ≡ some t
    → is_operator t ≡ false
    → strip_loop (suc fuel) i args
      ≡ keep_arg t (or_end (args (i + 1)) (strip_loop fuel (i + 1) args))
unfolding strip_loop
strip_loop-word fuel i args t h e f =
    let in_range : ltb i size ≡ true = ground arith in
    rw (in_range, strip_loop) (rw (e, strip_loop) (rw (f, strip_loop)))

strip_loop-operator :
    (fuel i : ℕ) (args : Cells) (t : Text)
    → i < size
    → args i ≡ some t
    → is_operator t ≡ true
    → strip_loop (suc fuel) i args ≡ or_end (args (i + 2)) (strip_loop fuel (i + 2) args)
unfolding strip_loop
strip_loop-operator fuel i args t h e f = ground arith

-- Where items are left the loop goes on.
or_end-items :
    (o : Option Text) (y : Item) (l : List Item) (junk : Cells) (next : Strip)
    → o ≡ cells (flat (y ∷ l)) junk 0
    → or_end o next ≡ next
unfolding or_end
or_end-items o (word t) l junk next e = rw e
or_end-items o (redir op file) l junk next e = rw e

-- The loop from place `i` on, where the items `x ∷ l` stand.
strip_loop-words :
    (fuel i : ℕ) (args : Cells) (x : Item) (l : List Item) (junk : Cells)
    → ((j : ℕ) → args (i + j) ≡ cells (flat (x ∷ l)) junk j)
    → All IsItem (x ∷ l)
    → i + length (flat (x ∷ l)) < size
    → size < fuel + i
    → strip_loop fuel i args ≡ stripped (words (x ∷ l))
unfolding keep_arg or_end
strip_loop-words zero i args x l junk same ok h f = absurd (omega arith)
strip_loop-words (suc fuel) i args (word t) [] junk same ok h f =
    strip_loop-word fuel i args t (omega arith) (ap args (omega arith) ∙ same 0) ok.0
    ∙ rw (same 1, or_end)
strip_loop-words (suc fuel) i args (word t) (y ∷ l) junk same ok h f =
    strip_loop-word fuel i args t (omega arith) (ap args (omega arith) ∙ same 0) ok.0
    ∙ ap (keep_arg t) (or_end-items _ y l junk _ (same 1))
    ∙ ap (keep_arg t) (
        strip_loop-words fuel (i + 1) args y l junk (λ j. ap args (omega arith) ∙ same (suc j)) ok.1
          (omega arith) (omega arith))
strip_loop-words (suc fuel) i args (redir op file) [] junk same ok h f =
    strip_loop-operator fuel i args op (omega arith) (ap args (omega arith) ∙ same 0) ok.0
    ∙ rw (same 2, or_end)
strip_loop-words (suc fuel) i args (redir op file) (y ∷ l) junk same ok h f =
    strip_loop-operator fuel i args op (omega arith) (ap args (omega arith) ∙ same 0) ok.0
    ∙ or_end-items _ y l junk _ (same 2)
    ∙ strip_loop-words fuel (i + 2) args y l junk (λ j. ap args (omega arith) ∙ same (suc (suc j)))
        ok.1 (omega arith) (omega arith)

-- For fewer than `SIZE` arguments in which every operator has its file behind it, the command is
-- left with exactly the other words, in order, whatever stands behind NULL.
pub strip_args-words :
    (x : Item) (l : List Item) (junk : Cells)
    → All IsItem (x ∷ l)
    → length (flat (x ∷ l)) < size
    → strip_args (cells (flat (x ∷ l)) junk) ≡ stripped (words (x ∷ l))
unfolding strip_args
strip_args-words x l junk ok h =
    strip_loop-words (suc size) 0 (cells (flat (x ∷ l)) junk) x l junk
      (λ j. ap (cells (flat (x ∷ l)) junk) (omega arith)) ok (omega arith) (omega arith)

-- Before the last operator the loop goes on.
or_end-last :
    (o : Option Text) (l : List Item) (op : Text) (junk : Cells) (next : Strip)
    → o ≡ cells (flat l ++ (op ∷ [])) junk 0
    → or_end o next ≡ next
unfolding or_end
or_end-last o [] op junk next e = rw e
or_end-last o (word t ∷ l) op junk next e = rw e
or_end-last o (redir op' file ∷ l) op junk next e = rw e

-- The loop from place `i` on, where items and then an operator without a file stand, and behind
-- NULL the items `x ∷ r` of an earlier command.
module _ (op : Text) (x : Item) (r : List Item) (more : Cells) (args : Cells) where
  abbrev left : Cells
  left = cells (flat (x ∷ r)) more

  strip_loop-overrun :
      (fuel i : ℕ) (l : List Item)
      → ((j : ℕ) → args (i + j) ≡ cells (flat l ++ (op ∷ [])) left j)
      → All IsItem l
      → is_operator op ≡ true
      → All IsItem (x ∷ r)
      → i + length (flat l ++ (op ∷ [])) + length (flat (x ∷ r)) + 1 < size
      → size < fuel + i
      → strip_loop fuel i args ≡ stripped (words l ++ words (x ∷ r))
  unfolding keep_arg
  strip_loop-overrun zero i l same ok ho old h f = absurd (omega arith)
  strip_loop-overrun (suc fuel) i [] same ok ho old h f =
      strip_loop-operator fuel i args op (omega arith) (ap args (omega arith) ∙ same 0) ho
      ∙ or_end-items _ x r more _ (same 2)
      ∙ strip_loop-words fuel (i + 2) args x r more
          (λ j. ap args (omega arith) ∙ same (suc (suc j))) old (omega arith) (omega arith)
  strip_loop-overrun (suc fuel) i (word t ∷ l) same ok ho old h f =
      strip_loop-word fuel i args t (omega arith) (ap args (omega arith) ∙ same 0) ok.0
      ∙ ap (keep_arg t) (or_end-last _ l op left _ (same 1))
      ∙ ap (keep_arg t) (
          strip_loop-overrun fuel (i + 1) l (λ j. ap args (omega arith) ∙ same (suc j)) ok.1 ho old
            (omega arith) (omega arith))
  strip_loop-overrun (suc fuel) i (redir op' file ∷ l) same ok ho old h f =
      strip_loop-operator fuel i args op' (omega arith) (ap args (omega arith) ∙ same 0) ok.0
      ∙ or_end-last _ l op left _ (same 2)
      ∙ strip_loop-overrun fuel (i + 2) l (λ j. ap args (omega arith) ∙ same (suc (suc j))) ok.1 ho
          old (omega arith) (omega arith)

-- Let the last argument be an operator, which takes NULL for its file, and let an earlier command
-- have left behind NULL the items `x ∷ r`, and NULL behind them, with room for all within `SIZE`.
-- Then the loop steps over NULL, and the words of the earlier command become arguments of this
-- one.
pub strip_args-overrun :
    (l : List Item) (op : Text) (x : Item) (r : List Item) (more : Cells)
    → All IsItem l
    → is_operator op ≡ true
    → All IsItem (x ∷ r)
    → length (flat l ++ (op ∷ [])) + length (flat (x ∷ r)) + 1 < size
    → strip_args (cells (flat l ++ (op ∷ [])) (cells (flat (x ∷ r)) more))
      ≡ stripped (words l ++ words (x ∷ r))
unfolding strip_args
strip_args-overrun l op x r more ok ho old h =
    let args : Cells = cells (flat l ++ (op ∷ [])) (cells (flat (x ∷ r)) more) in
    strip_loop-overrun op x r more args (suc size) 0 l (λ j. ap args (omega arith)) ok ho old
      (omega arith) (omega arith)
