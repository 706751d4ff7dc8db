-- ===== src/Kernel/Lifetime/Touched.antt =====
-- What `sys_setproclimit` can do to a task, whatever tree of children it meets.
use cs.Prelude.{
  ℕ, zero, suc, ◌≡◌, refl, sym, ◌∙◌, ◌⊎◌, inl, inr, Option, none, some, List, [], ◌∷◌, arith,
  Bool-cases, ◌==◌, ==_iff, ap,
}
use mathlib.Core.Path.{subst}
use mathlib.Core.Option.{some-injective}
use cs.Prelude.Int.{ℤ, ltb_ℤ, ◌<ℤ◌, ◌==ℤ◌, minus_one}
use cs.Kernel.Task.{Kernel, Status}
use cs.Kernel.Task.Find.{find_task-cases}
use cs.Kernel.SetLimit.{
  relabel, for_each_child, setproclimit_dump, finish, make_family, sys_setproclimit,
}
use cs.Kernel.Lifetime.{Live}

module _ (root limit interval : ℤ) where
  -- Every task is as before or has the new fields.
  pub record Touched (k k' : Kernel) : Type 0 where
    pub tasks :
        (b : ℕ) → (k'.task b ≡ k.task b) ⊎ (k'.task b ≡ relabel root limit interval (k.task b))
    pub same_list : k'.tasks ≡ k.tasks
    pub same_caller : k'.current ≡ k.current

  Touched-self : (k : Kernel) → Touched k k
  Touched-self k = record { tasks = λ b. inl refl; same_list = refl; same_caller = refl }

  Touched-then : {k k' l : Kernel} → Touched k k' → Touched k' l → Touched k l
  Touched-then {k} {k'} {l} v w = record {
    tasks = λ b. elim (w.tasks b) [
      | inl same ↦ elim (v.tasks b) [ inl e ↦ inl (same ∙ e) | inr e ↦ inr (same ∙ e) ]
      | inr new ↦ elim (v.tasks b) [
        | inl e ↦ inr (rw new (rw e refl))
        | inr e ↦ inr (rw new (rw e refl))
      ]
    ];
    same_list = w.same_list ∙ v.same_list;
    same_caller = w.same_caller ∙ v.same_caller;
  }

  for_each_child-Touched :
      (visit : ℕ → Kernel → Option Kernel)
      → ((c : ℕ) (k k' : Kernel) → visit c k ≡ some k' → Touched k k')
      → (l : List ℕ) (k k' : Kernel) → for_each_child visit l k ≡ some k'
      → Touched k k'
  unfolding for_each_child
  for_each_child-Touched visit one [] k k' e =
      subst (Touched k) (some-injective k k' e) (Touched-self k)
  for_each_child-Touched visit one (c ∷ l) k k' e =
      go (for_each_child-Touched visit one l) (visit c k) refl e
    where
      go :
          ((k1 k' : Kernel) → for_each_child visit l k1 ≡ some k' → Touched k1 k')
          → (o : Option Kernel) → visit c k ≡ o
          → elim o [ none ↦ none | some k1 ↦ for_each_child visit l k1 ] ≡ some k'
          → Touched k k'
      go rest none q e = cc
      go rest (some k1) q e = Touched-then (one c k k1 q) (rest k1 k' e)

  setproclimit_dump-Touched :
      (fuel a : ℕ) (k k' : Kernel)
      → setproclimit_dump fuel root limit interval a k ≡ some k'
      → Touched k k'
  unfolding setproclimit_dump
  setproclimit_dump-Touched zero a k k' e = cc
  setproclimit_dump-Touched (suc fuel) a k k' e =
      Touched-then
        (record {
          tasks = λ b. elim (Bool-cases (b == a)) [
            | inl t ↦
                rw t
                  (inr (ap (λ x. relabel root limit interval (k.task x)) (sym ((==_iff b a).0 t))))
            | inr f ↦ rw f (inl refl)
          ];
          same_list = refl;
          same_caller = refl;
        })
        (for_each_child-Touched (setproclimit_dump fuel root limit interval)
          (setproclimit_dump-Touched fuel) (k.task a).children _ k' e)

-- The call returns the state it was given, or it relabels from a live process that has the new
-- root's pid, with a limit that is no greater than the interval.
pub data Effect (limit interval : ℤ) (k : Kernel) : Kernel → Type 0 where
  nothing : Effect limit interval k k
  family_of :
      (a : ℕ) {k' : Kernel}
      → Live k a
      → ¬ (interval <ℤ limit)
      → Touched (k.task a).pid limit interval k k'
      → Effect limit interval k k'

module _ (fuel : ℕ) (limit interval : ℤ) (k : Kernel) where
  finish-some :
      (o : Option Kernel) {status : Status} {k' : Kernel}
      → finish o ≡ some (status, k')
      → o ≡ some k'
  unfolding finish
  finish-some none e = cc
  finish-some (some k1) e = cc

  make_family-Effect :
      (a : ℕ) {status : Status} {k' : Kernel}
      → Live k a
      → ¬ (interval <ℤ limit)
      → make_family fuel limit interval a k ≡ some (status, k')
      → Effect limit interval k k'
  unfolding make_family
  make_family-Effect a {status} {k'} live valid e =
      family_of a live valid
        (setproclimit_dump-Touched (k.task a).pid limit interval fuel a k k' (finish-some _ e))

  returned :
      {status status' : Status} {k' : Kernel}
      → ◌≡◌ {A = Option (Status × Kernel)} (some (status, k)) (some (status', k'))
      → Effect limit interval k k'
  returned e = subst (Effect limit interval k) (ap (λ x. x.1) (some-injective _ _ e)) nothing

  pub sys_setproclimit-Effect :
      (pid : ℤ) {status : Status} {k' : Kernel}
      → Live k k.current
      → sys_setproclimit fuel pid limit interval k ≡ some (status, k')
      → Effect limit interval k k'
  unfolding sys_setproclimit
  sys_setproclimit-Effect pid live q = elim (Bool-cases (ltb_ℤ interval limit)) [
    | inl t ↦ returned (rw t at q)
    | inr f ↦
        let valid : ¬ (interval <ℤ limit) = ground arith in
        elim (Bool-cases (pid ==ℤ minus_one)) [
          | inl t ↦ make_family-Effect k.current live valid (rw (f, t) at q)
          | inr n ↦ elim (Bool-cases (ltb_ℤ minus_one pid)) [
            | inl t ↦ elim (find_task-cases pid k.task k.tasks) [
              | inl (g, _) ↦ returned (rw (f, n, t, g) at q)
              | inr (a, g, w) ↦ make_family-Effect a (inr w.in_list) valid (rw (f, n, t, g) at q)
            ]
            | inr g ↦ elim (Bool-cases (ltb_ℤ pid minus_one)) [
              | inl b ↦ returned (rw (f, n, g, b) at q)
              | inr b ↦ returned (rw (f, n, g, b) at q)
            ]
          ]
        ]
  ]
