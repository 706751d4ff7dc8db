-- ===== src/Kernel/Task/Find.antt =====
-- The walk over the process list (Assignment3/linux-2.6.38.1/kernel/setproclimit.c,
-- kernel/getproclimit.c).
use mathlib.Core.Path.{subst}
use cs.Prelude.{
  ℕ, ◌≡◌, ◌≢◌, refl, sym, ◌∙◌, true, ◌⊎◌, inl, inr, none, some, List, [], ◌∷◌, has, ◌==◌, ==_iff,
  arith, Bool-cases,
}
use cs.Prelude.Int.{ℤ, ◌==ℤ◌, ==ℤ_iff}
use cs.Kernel.Task.{Task, find_task}

-- No process of the list has this pid.
abbrev pub Absent : ℤ → (ℕ → Task) → List ℕ → Type 0
Absent pid task l = (a : ℕ) → has a l ≡ true → (task a).pid ≢ pid

-- The process at `a` is in the list and has this pid.
pub record Listed (pid : ℤ) (task : ℕ → Task) (l : List ℕ) (a : ℕ) : Type 0 where
  pub in_list : has a l ≡ true
  pub same_pid : (task a).pid ≡ pid

-- Different processes of the list have different pids.
abbrev pub UniquePids : (ℕ → Task) → List ℕ → Type 0
UniquePids task l =
    (a b : ℕ) → has a l ≡ true → has b l ≡ true → (task a).pid ≡ (task b).pid → a ≡ b

module _ (pid : ℤ) (task : ℕ → Task) where
  -- The walk ends at a process with the pid, or there is none.
  pub find_task-cases :
      (l : List ℕ)
      → ((find_task pid task l ≡ none) × Absent pid task l)
        ⊎ ((a : ℕ) × (find_task pid task l ≡ some a) × Listed pid task l a)
  unfolding find_task
  find_task-cases [] = inl (refl, λ a h. cc)
  find_task-cases (b ∷ l) = elim (Bool-cases ((task b).pid ==ℤ pid)) [
    | inl e ↦ inr (b, ground arith, record { in_list = ground arith; same_pid = (==ℤ_iff _ _).0 e })
    | inr e ↦ elim (find_task-cases l) [
      | inl (n, h) ↦ inl (
        ground arith,
        λ a m q. elim (Bool-cases (a == b)) [
          | inl i ↦
              let q' = subst (λ x. (task x).pid ≡ pid) ((==_iff a b).0 i) q in
              cc (e, (==ℤ_iff (task b).pid pid).1 q')
          | inr i ↦ h a (ground arith) q
        ],
      )
      | inr (a, f, w) ↦
          inr
            (a, ground arith, record { in_list = ground (arith, w.in_list); same_pid = w.same_pid })
    ]
  ]

  pub find_task-Listed :
      (l : List ℕ) (a : ℕ) → UniquePids task l → Listed pid task l a → find_task pid task l ≡ some a
  find_task-Listed l a u w = elim (find_task-cases l) [
    | inl (n, h) ↦ absurd (h a w.in_list w.same_pid)
    | inr (b, f, v) ↦
        subst (λ x. find_task pid task l ≡ some x)
          (u b a v.in_list w.in_list (v.same_pid ∙ sym w.same_pid)) f
  ]
