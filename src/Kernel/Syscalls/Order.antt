-- ===== src/Kernel/Syscalls/Order.antt =====
-- The numbers of the header in their order
-- (Assignment3/linux-2.6.38.1/arch/x86/include/asm/unistd_32.h).
use cs.Prelude.{
  ℕ, zero, suc, ◌<◌, ◌≡◌, refl, Bool, true, ◌&&◌, ◌||◌, ◌⊎◌, inl, inr, some, List, [], ◌∷◌,
  get_elem?, ◌==◌, ltb, arith, Bool-cases, sym, ◌∙◌, dec_lt,
}
use mathlib.Core.Option.{some-injective}
use cs.Kernel.Numbers.{numbers}
use cs.Kernel.Numbers.Format.{CallNumber}

-- The numbers in the order of the header grow, but for the two names of number 219.
abbrev Before : ℕ → ℕ → Type 0
Before a b = (a < b) ⊎ ((a ≡ 219) × (b ≡ 219))

before : ℕ → ℕ → Bool
before a b = ltb a b || (a == 219) && (b == 219)

grows : ℕ → List CallNumber → Bool
grows a [] = true
grows a (l ∷ rest) = before a l.number && grows l.number rest

before-Before : (a b : ℕ) → before a b ≡ true → Before a b
unfolding before
before-Before a b h = elim (Bool-cases (ltb a b)) [
  | inl t ↦ inl (ground arith)
  | inr f ↦ inr (ground arith, ground arith)
]

Before-trans : (a b c : ℕ) → Before a b → Before b c → Before a c
Before-trans a b c (inl p) (inl q) = inl (omega arith)
Before-trans a b c (inl p) (inr q) = inl (omega arith)
Before-trans a b c (inr p) (inl q) = inl (omega arith)
Before-trans a b c (inr p) (inr q) = inr (p.0, q.1)

grows-Before :
    (a : ℕ) (ls : List CallNumber) (i : ℕ) (l : CallNumber)
    → grows a ls ≡ true
    → get_elem? ls i ≡ some l
    → Before a l.number
unfolding grows
grows-Before a [] i l h e = absurd (cc e)
grows-Before a (x ∷ rest) zero l h e =
    let same : x ≡ l = some-injective x l e in rw (← same) (before-Before a x.number (ground arith))
grows-Before a (x ∷ rest) (suc i) l h e =
    Before-trans a x.number l.number (before-Before a x.number (ground arith))
      (grows-Before x.number rest i l (ground arith) e)

grows-later :
    (a : ℕ) (ls : List CallNumber) (i j : ℕ) (l m : CallNumber)
    → grows a ls ≡ true
    → i < j
    → get_elem? ls i ≡ some l
    → get_elem? ls j ≡ some m
    → Before l.number m.number
unfolding grows
grows-later a [] i j l m h lt e f = absurd (cc e)
grows-later a (x ∷ rest) i zero l m h lt e f = absurd (omega arith)
grows-later a (x ∷ rest) zero (suc j) l m h lt e f =
    let same : x ≡ l = some-injective x l e in
    rw (← same) (grows-Before x.number rest j m (ground arith) f)
grows-later a (x ∷ rest) (suc i) (suc j) l m h lt e f =
    grows-later x.number rest i j l m (ground arith) (omega arith) e f

in_order : List CallNumber → Bool
in_order [] = true
in_order (x ∷ rest) = grows x.number rest

in_order-Before :
    (ls : List CallNumber) (i j : ℕ) (l m : CallNumber)
    → in_order ls ≡ true
    → i < j
    → get_elem? ls i ≡ some l
    → get_elem? ls j ≡ some m
    → Before l.number m.number
unfolding in_order
in_order-Before [] i j l m h lt e f = absurd (cc e)
in_order-Before (x ∷ rest) i zero l m h lt e f = absurd (omega arith)
in_order-Before (x ∷ rest) zero (suc j) l m h lt e f =
    let same : x ≡ l = some-injective x l e in rw (← same) (grows-Before x.number rest j m h f)
in_order-Before (x ∷ rest) (suc i) (suc j) l m h lt e f =
    grows-later x.number rest i j l m h (omega arith) e f

numbers-in_order : in_order numbers ≡ true
unfolding in_order grows numbers before
numbers-in_order = refl

same_number :
    (i j : ℕ) (l m : CallNumber)
    → i < j
    → get_elem? numbers i ≡ some l
    → get_elem? numbers j ≡ some m
    → l.number ≡ m.number
    → l.number ≡ 219
same_number i j l m lt e f same = elim (in_order-Before numbers i j l m numbers-in_order lt e f) [
  | inl less ↦ absurd (omega (arith, same, less))
  | inr at ↦ at.0
]

-- Two lines of the header with the same number are one line, but for number 219, which has the two
-- names `madvise` and `madvise1`.
pub numbers_unique :
    (i j : ℕ) (l m : CallNumber)
    → get_elem? numbers i ≡ some l
    → get_elem? numbers j ≡ some m
    → l.number ≡ m.number
    → (i ≡ j) ⊎ (l.number ≡ 219)
numbers_unique i j l m e f same = elim (dec_lt i j) [
  | yes p ↦ inr (same_number i j l m p e f same)
  | no p' ↦ elim (dec_lt j i) [
    | yes p ↦ inr (same ∙ same_number j i m l p f e (sym same))
    | no q' ↦ inl (omega arith)
  ]
]
