-- ===== src/Kernel/SetLimit/Dump.antt =====
-- What the recursion `setproclimit_dump` does to the store.
use cs.Prelude.{
  ℕ, zero, suc, ◌≡◌, refl, sym, ap, ◌∙◌, fun_ext, Option, some, List, [], ◌∷◌, ◌++◌, All, has,
  has-append, arith, if◌then◌else◌,
}
use cs.Prelude.Int.{ℤ}
use cs.Kernel.Task.{Kernel, write_task}
use cs.Kernel.SetLimit.{relabel, for_each_child, setproclimit_dump}
use cs.Kernel.SetLimit.Family.{Height, family, families}

abbrev pub children_of : Kernel → ℕ → List ℕ
children_of k a = (k.task a).children

module _ (root limit interval : ℤ) where
  -- The store with the tasks at the addresses of `l` relabelled.
  unfoldable pub mark : List ℕ → Kernel → Kernel
  mark l k = record k {
    task = λ b. if has b l then relabel root limit interval (k.task b) else k.task b;
  }

  pub children_of-mark : (l : List ℕ) (k : Kernel) → children_of (mark l k) ≡ children_of k
  unfolding mark
  children_of-mark l k = fun_ext λ b. ground arith

  mark-append : (l m : List ℕ) (k : Kernel) → mark (l ++ m) k ≡ mark m (mark l k)
  unfolding mark
  mark-append l m k =
      ap (λ t. record k { task = t }) (fun_ext λ b. ground (arith, has-append b l m))

  -- The store after the three assignments at the head of the recursion.
  abbrev written : ℕ → Kernel → Kernel
  written a k = record k { task = write_task k.task a (relabel root limit interval (k.task a)) }

  mark-cons : (a : ℕ) (l : List ℕ) (k : Kernel) → mark (a ∷ l) k ≡ mark l (written a k)
  unfolding mark
  mark-cons a l k = ap (λ t. record k { task = t }) (fun_ext λ b. ground arith)

  mark-nil : (k : Kernel) → mark [] k ≡ k
  unfolding mark
  mark-nil k = refl

  children_of-written : (a : ℕ) (k : Kernel) → children_of (written a k) ≡ children_of k
  children_of-written a k = fun_ext λ b. ground arith

  -- The loop over the children, given what one recursive call does.
  for_each_child-mark :
      (ch f : ℕ → List ℕ) (P : ℕ → Type 0) (visit : ℕ → Kernel → Option Kernel)
      → ((c : ℕ) (k : Kernel) → children_of k ≡ ch → P c → visit c k ≡ some (mark (f c) k))
      → (l : List ℕ) (k : Kernel) → children_of k ≡ ch
      → All P l
      → for_each_child visit l k ≡ some (mark (families f l) k)
  unfolding for_each_child families
  for_each_child-mark ch f P visit one [] k e h = rw mark-nil
  for_each_child-mark ch f P visit one (c ∷ l) k e h =
      rw (mark-append (f c) (families f l) k, one c k e h.0, for_each_child)
        (for_each_child-mark ch f P visit one l (mark (f c) k) (children_of-mark (f c) k ∙ e) h.1)

  -- With fuel above the depth of the tree the recursion relabels exactly the family.
  pub setproclimit_dump-mark :
      (ch : ℕ → List ℕ) (n a : ℕ) (k : Kernel)
      → children_of k ≡ ch
      → Height ch n a
      → setproclimit_dump n root limit interval a k ≡ some (mark (family ch n a) k)
  unfolding setproclimit_dump family
  setproclimit_dump-mark ch zero a k e h = absurd h
  setproclimit_dump-mark ch (suc n) a k e h =
      ap (λ l. for_each_child (setproclimit_dump n root limit interval) l (written a k))
        (ap (λ g. g a) e)
      ∙ for_each_child-mark ch (family ch n) (Height ch n) (setproclimit_dump n root limit interval)
          (setproclimit_dump-mark ch n) (ch a) (written a k) (children_of-written a k ∙ e) h
      ∙ ap some (sym (mark-cons a (families (family ch n) (ch a)) k))
