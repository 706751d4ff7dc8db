-- ===== src/Kernel/SetLimit/Family.antt =====
-- The process family of a task: its descendants, as a relation and as a list.
use cs.Prelude.{
  ℕ, zero, suc, ◌≡◌, true, inl, inr, List, [], ◌∷◌, ◌++◌, All, has, has-append, ◌==◌, ==_iff, sym,
  arith, Bool-cases,
}
use mathlib.Core.Path.{subst}

-- `Descends ch a b`: going down the lists of children from `a` one comes to `b`.
pub data Descends (ch : ℕ → List ℕ) (a : ℕ) : ℕ → Type 0 where
  self : Descends ch a a
  child : {b c : ℕ} → Descends ch a b → has c (ch b) ≡ true → Descends ch a c

-- Below `a` the tree of children is less than `n` levels deep.
abbrev pub Height : (ℕ → List ℕ) → ℕ → ℕ → Type 0
Height ch zero a = ⊥
Height ch (suc n) a = All (Height ch n) (ch a)

unfoldable pub families : (ℕ → List ℕ) → List ℕ → List ℕ
families f [] = []
families f (c ∷ l) = f c ++ families f l

-- The family of `a` in the order of the recursion.
unfoldable pub family : (ℕ → List ℕ) → ℕ → ℕ → List ℕ
unfolding families
family ch zero a = []
family ch (suc n) a = a ∷ families (family ch n) (ch a)

module _ (ch : ℕ → List ℕ) where
  Descends-cons : (a c : ℕ) {b : ℕ} → has c (ch a) ≡ true → Descends ch c b → Descends ch a b
  Descends-cons a c h self = child self h
  Descends-cons a c h (child d e) = child (Descends-cons a c h d) e

  -- A member of the families of a list is a member of one of them.
  families-has :
      (f : ℕ → List ℕ) (b : ℕ) (l : List ℕ)
      → has b (families f l) ≡ true
      → (c : ℕ) × (has c l ≡ true) × (has b (f c) ≡ true)
  unfolding families
  families-has f b [] h = cc
  families-has f b (c ∷ l) h = elim (Bool-cases (has b (f c))) [
    | inl here ↦ (c, ground arith, here)
    | inr there ↦
        let (c', m, e) = families-has f b l (ground (arith, has-append b (f c) (families f l))) in
        (c', ground arith, e)
  ]

  has-families :
      (f : ℕ → List ℕ) (b c : ℕ) (l : List ℕ)
      → has c l ≡ true
      → has b (f c) ≡ true
      → has b (families f l) ≡ true
  unfolding families
  has-families f b c [] m h = cc
  has-families f b c (d ∷ l) m h =
      ground (arith, has-append b (f d) (families f l), has-families f b c l)

  -- The list holds descendants only.
  pub family-Descends : (n a b : ℕ) → has b (family ch n a) ≡ true → Descends ch a b
  unfolding family
  family-Descends zero a b h = cc
  family-Descends (suc n) a b h = elim (Bool-cases (b == a)) [
    | inl e ↦ subst (Descends ch a) (sym ((==_iff b a).0 e)) self
    | inr e ↦
        let (c, m, k) = families-has (family ch n) b (ch a) (ground arith) in
        Descends-cons a c m (family-Descends n c b k)
  ]

  Height-child : (n c : ℕ) (l : List ℕ) → All (Height ch n) l → has c l ≡ true → Height ch n c
  Height-child n c [] hs m = cc
  Height-child n c (d ∷ l) hs m = elim (Bool-cases (c == d)) [
    | inl e ↦ subst (Height ch n) (sym ((==_iff c d).0 e)) hs.0
    | inr e ↦ Height-child n c l hs.1 (ground arith)
  ]

  has-family_self : (n a : ℕ) → Height ch n a → has a (family ch n a) ≡ true
  unfolding family
  has-family_self zero a h = absurd h
  has-family_self (suc n) a h = ground arith

  -- With the children of a member its list holds the children's families.
  has-family_child :
      (n a b c : ℕ)
      → Height ch n a
      → has b (family ch n a) ≡ true
      → has c (ch b) ≡ true
      → has c (family ch n a) ≡ true
  unfolding family
  has-family_child zero a b c h m e = absurd h
  has-family_child (suc n) a b c h m e = elim (Bool-cases (b == a)) [
    | inl i ↦
        let m' = subst (λ x. has c (ch x) ≡ true) ((==_iff b a).0 i) e in
        let own = has-family_self n c (Height-child n c (ch a) h m') in
        ground (arith, has-families (family ch n) c c (ch a) m' own)
    | inr i ↦
        let (d, md, k) = families-has (family ch n) b (ch a) (ground arith) in
        let sub = has-family_child n d b c (Height-child n d (ch a) h md) k e in
        ground (arith, has-families (family ch n) c d (ch a) md sub)
  ]

  -- Every descendant is in the list.
  pub Descends-family :
      (n a : ℕ) {b : ℕ} → Height ch n a → Descends ch a b → has b (family ch n a) ≡ true
  Descends-family n a h self = has-family_self n a h
  Descends-family n a h (child {b} {c} d e) = has-family_child n a b c h (Descends-family n a h d) e
