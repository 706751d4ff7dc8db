-- ===== src/Shell/History/Printed.antt =====
-- What `printHistory` shows of the commands read so far (Assignment1/mysh.c).
use cs.Prelude.{
  ℕ, zero, suc, ◌+◌, ◌%◌, ◌≤◌, ◌<◌, ◌≡◌, refl, sym, ap, ◌∙◌, true, false, some, List, [], ◌∷◌, ◌++◌,
  All, length, get_elem?, length-append, arith, if◌then◌else◌, inl, inr, Bool-cases,
}
use mathlib.Core.Path.{subst}
use mathlib.Core.Option.{some-injective}
use mathlib.Core.List.{append-nil, append_assoc}
use native.Mathlib.Decide.{dec_lt}
use cs.Shell.Text.{Text, text_eq, is_empty}
use cs.Shell.Parse.{size}
use cs.Shell.History.{History, no_history, blank_line, remember, remember_all, print_history}

-- A line that `fgets` returns and that is not a single newline.
abbrev pub IsCommand : Text → Type 0
IsCommand c = (is_empty c ≡ false) × (text_eq c blank_line ≡ false)

-- The cells hold the last `SIZE` of the lines `l`, each in the cell of its number modulo `SIZE`,
-- and are empty where no line has come.
pub record Holds (l : List Text) (h : History) : Type 0 where
  pub counted : h.history_arg ≡ length l
  pub recent :
      (k : ℕ) → k < length l → length l ≤ k + size → get_elem? l k ≡ some (h.cell (k % size))
  pub unused : (i : ℕ) → length l ≤ i → i < size → h.cell i ≡ []

get-append :
    (l : List Text) (c : Text) (k : ℕ) → k < length l → get_elem? (l ++ (c ∷ [])) k ≡ get_elem? l k
get-append [] c k h = absurd (omega arith)
get-append (t ∷ l) c zero h = refl
get-append (t ∷ l) c (suc k) h = get-append l c k (omega arith)

get-last : (l : List Text) (c : Text) → get_elem? (l ++ (c ∷ [])) (length l) ≡ some c
get-last [] c = refl
get-last (t ∷ l) c = get-last l c

remember-Holds :
    (l : List Text) (c : Text) (h : History)
    → IsCommand c
    → Holds l h
    → Holds (l ++ (c ∷ [])) (remember c h)
unfolding remember
remember-Holds l c h ok inv = rw ok.1 (record {
  counted = omega (arith, inv.counted, length-append l (c ∷ []));
  recent = λ k lt near. elim (dec_lt k (length l)) [
    | yes old ↦
        get-append l c k old
        ∙ inv.recent k old (omega (arith, length-append l (c ∷ [])))
        ∙ ap some (ground (arith, inv.counted, length-append l (c ∷ [])))
    | no new ↦
        let e : k ≡ length l = omega (arith, length-append l (c ∷ [])) in
        rw e (get-last l c ∙ ap some (ground (arith, inv.counted)))
  ];
  unused = λ i ge lt. ground (arith, inv.counted, length-append l (c ∷ []), inv.unused i);
})

-- The lines that are remembered.
abbrev pub commands : List Text → List Text
commands [] = []
commands (c ∷ l) = let rest = commands l in if text_eq c blank_line then rest else c ∷ rest

-- A line that `fgets` returns has a byte.
abbrev pub HasByte : Text → Type 0
HasByte c = is_empty c ≡ false

remember-blank : (c : Text) (h : History) → text_eq c blank_line ≡ true → remember c h ≡ h
unfolding remember
remember-blank c h blank = rw blank

remember_all-append :
    (p l : List Text) (h : History)
    → All HasByte l
    → Holds p h
    → Holds (p ++ commands l) (remember_all l h)
unfolding remember_all
remember_all-append p [] h ok inv = rw (append-nil p) inv
remember_all-append p (c ∷ l) h ok inv = elim (Bool-cases (text_eq c blank_line)) [
  | inl blank ↦ rw (blank, remember-blank c h blank) (remember_all-append p l h ok.1 inv)
  | inr plain ↦ rw plain (
      subst (λ x. Holds x (remember_all l (remember c h))) (append_assoc p (c ∷ []) (commands l))
        (remember_all-append (p ++ (c ∷ [])) l (remember c h) ok.1
          (remember-Holds p c h (ok.0, plain) inv)))
]

-- After any lines, the cells hold the last `SIZE` of those that are not blank.
pub remember_all-Holds :
    (l : List Text) → All HasByte l → Holds (commands l) (remember_all l no_history)
remember_all-Holds l ok =
    remember_all-append [] l no_history ok
      (record { counted = refl; recent = λ k lt. absurd (omega arith); unused = λ i ge lt. refl })

-- The lines with their numbers, from `i + 1` on.
abbrev pub numbered : ℕ → List Text → List (ℕ × Text)
numbered i [] = []
numbered i (c ∷ l) = (i + 1, c) ∷ numbered (i + 1) l

pub commands-HasByte : (l : List Text) → All HasByte l → All HasByte (commands l)
commands-HasByte [] ok = tt
commands-HasByte (c ∷ l) ok = elim (Bool-cases (text_eq c blank_line)) [
  | inl blank ↦ rw blank (commands-HasByte l ok.1)
  | inr plain ↦ rw plain (ok.0, commands-HasByte l ok.1)
]

pub print_history-numbered :
    (rounds i : ℕ) (cell : ℕ → Text) (r : List Text)
    → ((j : ℕ) → j < length r → get_elem? r j ≡ some (cell (i + j)))
    → All HasByte r
    → length r ≤ rounds
    → (length r < rounds → cell (i + length r) ≡ [])
    → print_history rounds i cell ≡ numbered i r
unfolding print_history
print_history-numbered zero i cell [] same ok fits stop = refl
print_history-numbered zero i cell (c ∷ r) same ok fits stop = absurd (omega arith)
print_history-numbered (suc rounds) i cell [] same ok fits stop =
    let e : cell i ≡ [] = ap cell (omega arith) ∙ stop (omega arith) in rw e
print_history-numbered (suc rounds) i cell (c ∷ r) same ok fits stop =
    let e : cell i ≡ c =
      ap cell (omega arith) ∙ sym (some-injective c (cell (i + 0)) (same 0 (omega arith))) in
    rw (e, ok.0)
      (ap (λ x. (i + 1, c) ∷ x)
        (print_history-numbered rounds (i + 1) cell r
          (λ j h. same (suc j) (omega arith) ∙ ap (λ x. some (cell x)) (omega arith)) ok.1
          (omega arith) (λ h. ap cell (omega arith) ∙ stop (omega arith))))

-- Up to `SIZE` commands, `printHistory` shows exactly the lines read so far that are not blank,
-- in order and numbered from 1.
pub print_history-commands :
    (l : List Text)
    → All HasByte l
    → length (commands l) ≤ size
    → print_history size 0 (remember_all l no_history).cell ≡ numbered 0 (commands l)
print_history-commands l ok h =
    let inv = remember_all-Holds l ok in
    print_history-numbered size 0 (remember_all l no_history).cell (commands l)
      (λ j lt.
        inv.recent j lt (omega arith)
        ∙ ap (λ x. some ((remember_all l no_history).cell x)) (omega arith))
      (commands-HasByte l ok) h
      (λ lt.
        ap (remember_all l no_history).cell (omega arith)
        ∙ inv.unused (length (commands l)) (omega arith) lt)
