-- ===== src/Shell/Child/LastFile.antt =====
-- The file that an operator leads to: the one behind its last place (Assignment1/mysh.c).
use cs.Prelude.{
  ℕ, zero, suc, ◌<◌, ◌≡◌, ◌≢◌, refl, sym, ap, Bool, true, false, Option, none, some, List, [], ◌∷◌,
  All, get_elem?, arith, if◌then◌else◌, Bool-cases, inl, inr,
}
use mathlib.Core.Option.{some-injective}
use cs.Shell.Text.{Text, text_eq, text_eq_iff}
use cs.Shell.Redirect.{is_operator}
use cs.Shell.Redirect.Command.{Item, word, redir, flat}

-- A command whose words and files are no operators.
abbrev pub IsPlain : Item → Type 0
IsPlain (word t) = is_operator t ≡ false
IsPlain (redir op file) = (is_operator op ≡ true) × (is_operator file ≡ false)

abbrev or_here : Bool → Text → Option Text → Option Text
or_here here file (some f) = some f
or_here here file none = if here then some file else none

-- The file of the last redirection with this operator.
abbrev pub last_file : Text → List Item → Option Text
last_file op [] = none
last_file op (word t ∷ l) = last_file op l
last_file op (redir o file ∷ l) = or_here (text_eq o op) file (last_file op l)

pub not_operator :
    (t op : Text) → is_operator t ≡ false → is_operator op ≡ true → some t ≡ some op → ⊥
not_operator t op f g e = cc (ap is_operator (some-injective t op e))

pub absent-last_file :
    (op : Text) (l : List Item) → ((j : ℕ) → get_elem? (flat l) j ≢ some op) → last_file op l ≡ none
absent-last_file op [] h = refl
absent-last_file op (word t ∷ l) h = absent-last_file op l (λ j. h (suc j))
absent-last_file op (redir o file ∷ l) h =
    let e = absent-last_file op l (λ j. h (suc (suc j))) in
    elim (Bool-cases (text_eq o op)) [
      | inl x ↦ absurd (h 0 (ap some ((text_eq_iff o op).0 x)))
      | inr x ↦ rw (e, x)
    ]

pub Located-last_file :
    (op : Text) (l : List Item) (at : ℕ)
    → All IsPlain l
    → is_operator op ≡ true
    → get_elem? (flat l) at ≡ some op
    → ((j : ℕ) → at < j → get_elem? (flat l) j ≢ some op)
    → (f : Text) × (last_file op l ≡ some f) × (get_elem? (flat l) (suc at) ≡ some f)
Located-last_file op [] at ok g e h = absurd (cc e)
Located-last_file op (word t ∷ l) zero ok g e h = absurd (not_operator t op ok.0 g e)
Located-last_file op (word t ∷ l) (suc at) ok g e h =
    Located-last_file op l at ok.1 g e (λ j lt. h (suc j) (omega arith))
Located-last_file op (redir o file ∷ l) zero ok g e h =
    let n = absent-last_file op l (λ j. h (suc (suc j)) (omega arith)) in
    let x : text_eq o op ≡ true = (text_eq_iff o op).1 (some-injective o op e) in
    (file, rw (n, x), refl)
Located-last_file op (redir o file ∷ l) (suc zero) ok g e h =
    absurd (not_operator file op ok.0.1 g e)
Located-last_file op (redir o file ∷ l) (suc (suc at)) ok g e h =
    let (f, a, b) = Located-last_file op l at ok.1 g e (λ j lt. h (suc (suc j)) (omega arith)) in
    (f, rw a, b)

or_here-plain :
    (here : Bool) (file : Text) (rest : Option Text) (f : Text)
    → is_operator file ≡ false
    → (rest ≡ some f → is_operator f ≡ false)
    → or_here here file rest ≡ some f
    → is_operator f ≡ false
or_here-plain here file (some g) f ok later e = later e
or_here-plain true file none f ok later e = rw (sym (some-injective file f e)) ok
or_here-plain false file none f ok later e = absurd (cc e)

pub last_file-plain :
    (op : Text) (l : List Item) (f : Text)
    → All IsPlain l
    → last_file op l ≡ some f
    → is_operator f ≡ false
last_file-plain op [] f ok e = absurd (cc e)
last_file-plain op (word t ∷ l) f ok e = last_file-plain op l f ok.1 e
last_file-plain op (redir o file ∷ l) f ok e =
    or_here-plain (text_eq o op) file (last_file op l) f ok.0.1 (last_file-plain op l f ok.1) e
