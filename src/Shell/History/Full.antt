-- ===== src/Shell/History/Full.antt =====
-- What `printHistory` shows when all cells are in use (Assignment1/mysh.c).
use cs.Prelude.{
  ℕ, zero, suc, ◌+◌, ◌*◌, ◌≤◌, ◌<◌, ◌≡◌, refl, sym, ap, ◌∙◌, some, List, [], ◌∷◌, ◌++◌, All, length,
  get_elem?, length-append, arith,
}
use mathlib.Core.Path.{subst}
use native.Mathlib.Decide.{dec_lt}
use cs.Shell.Text.{Text}
use cs.Shell.Parse.{size}
use cs.Shell.History.{History, no_history, remember_all, print_history}
use cs.Shell.History.Printed.{
  HasByte, Holds, commands, numbered, commands-HasByte, print_history-numbered, remember_all-Holds,
}

get-left : (xs ys : List Text) (k : ℕ) → k < length xs → get_elem? (xs ++ ys) k ≡ get_elem? xs k
get-left [] ys k h = absurd (omega arith)
get-left (x ∷ xs) ys zero h = refl
get-left (x ∷ xs) ys (suc k) h = get-left xs ys k (omega arith)

get-right : (xs ys : List Text) (k : ℕ) → get_elem? (xs ++ ys) (length xs + k) ≡ get_elem? ys k
get-right [] ys k = ap (get_elem? ys) (omega arith)
get-right (x ∷ xs) ys k =
    let e : suc (length xs) + k ≡ suc (length xs + k) = omega arith in
    ap (get_elem? (x ∷ (xs ++ ys))) e ∙ get-right xs ys k

difference : (a b : ℕ) → a ≤ b → (i : ℕ) × (b ≡ a + i)
difference zero b h = (b, omega arith)
difference (suc a) zero h = absurd (omega arith)
difference (suc a) (suc b) h = let (i, e) = difference a b (omega arith) in (i, omega (arith, e))

All-right : (xs ys : List Text) → All HasByte (xs ++ ys) → All HasByte ys
All-right [] ys ok = ok
All-right (x ∷ xs) ys ok = All-right xs ys ok.1

All-left : (xs ys : List Text) → All HasByte (xs ++ ys) → All HasByte xs
All-left [] ys ok = tt
All-left (x ∷ xs) ys ok = (ok.0, All-left xs ys ok.1)

All-join : (xs ys : List Text) → All HasByte xs → All HasByte ys → All HasByte (xs ++ ys)
All-join [] ys p q = q
All-join (x ∷ xs) ys p q = (p.0, All-join xs ys p.1 q)

All-swap : (xs ys : List Text) → All HasByte (xs ++ ys) → All HasByte (ys ++ xs)
All-swap xs ys ok = All-join ys xs (All-right xs ys ok) (All-left xs ys ok)

module _ (old mid new : List Text) (k : ℕ) (h : History) (inv : Holds (old ++ (mid ++ new)) h)
    (full : length mid + length new ≡ size) (turn : length old + length mid ≡ k * size) where
  counts : length (old ++ (mid ++ new)) ≡ length old + size
  counts = omega (arith, length-append old (mid ++ new), length-append mid new, full)

  cell-new : (j : ℕ) → j < length new → get_elem? new j ≡ some (h.cell j)
  cell-new j lt =
      sym (get-right mid new j)
      ∙ sym (get-right old (mid ++ new) (length mid + j))
      ∙ inv.recent (length old + (length mid + j)) (omega (arith, counts, full))
          (omega (arith, counts))
      ∙ ap (λ x. some (h.cell x)) (omega (arith, full, turn))

  cell-mid : (j : ℕ) → j < length mid → get_elem? mid j ≡ some (h.cell (length new + j))
  cell-mid j lt =
      sym (get-left mid new j lt)
      ∙ sym (get-right old (mid ++ new) j)
      ∙ inv.recent (length old + j) (omega (arith, counts, full)) (omega (arith, counts))
      ∙ ap (λ x. some (h.cell x)) (omega (arith, full, turn))

  cells-turned : (j : ℕ) → j < size → get_elem? (new ++ mid) j ≡ some (h.cell j)
  cells-turned j lt = elim (dec_lt j (length new)) [
    | yes early ↦ get-left new mid j early ∙ cell-new j early
    | no late ↦
        let (i, e) = difference (length new) j (omega arith) in
        rw e (get-right new mid i ∙ cell-mid i (omega (arith, full)))
  ]

-- From `SIZE` commands on, `printHistory` shows the last `SIZE` of them, numbered from 1, but
-- first those written since the store last came to its first cell, and behind them the older
-- ones.
pub print_history-full :
    (l old mid new : List Text) (k : ℕ)
    → All HasByte l
    → commands l ≡ old ++ (mid ++ new)
    → length mid + length new ≡ size
    → length old + length mid ≡ k * size
    → print_history size 0 (remember_all l no_history).cell ≡ numbered 0 (new ++ mid)
print_history-full l old mid new k ok e full turn =
    let h = remember_all l no_history in
    let inv : Holds (old ++ (mid ++ new)) h = subst (λ x. Holds x h) e (remember_all-Holds l ok) in
    let bytes : All HasByte (old ++ (mid ++ new)) =
      subst (λ x. All HasByte x) e (commands-HasByte l ok) in
    let same = length-append new mid in
    print_history-numbered size 0 h.cell (new ++ mid)
      (λ j lt.
        cells-turned old mid new k h inv full turn j (omega (arith, same, full))
        ∙ ap (λ x. some (h.cell x)) (omega arith))
      (All-swap mid new (All-right old (mid ++ new) bytes)) (omega (arith, same, full))
      (λ lt. absurd (omega (arith, same, full)))
