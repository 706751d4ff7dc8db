-- ===== src/Kernel/Calls/Latest.antt =====
-- After calls of `sys_setproclimit` by several processes every process has the fields of the last
-- one about a family of its own (Assignment3/linux-2.6.38.1/kernel).
use cs.Prelude.{
  ℕ, ◌≡◌, refl, sym, ap, ◌∙◌, true, false, Option, none, some, List, [], ◌∷◌, All, arith,
  Bool-cases, inl, inr,
}
use cs.Prelude.Int.{ℤ, pos, negsuc, ltb_ℤ, ◌==ℤ◌, minus_one}
use cs.Kernel.Task.{Task, Kernel, einval, Status, success, failure, find_task}
use cs.Kernel.SetLimit.{make_family, finish, sys_setproclimit}
use cs.Kernel.SetLimit.Family.{Height, family}
use cs.Kernel.SetLimit.Dump.{children_of, mark, children_of-mark, setproclimit_dump-mark}
use cs.Kernel.Calls.{
  SetCall, called_by, and_status, set_limits, target, status_of, statuses, Label, given, or_before,
  last_label, labelled,
}

is_below :
    (p : ℤ) → (p ==ℤ minus_one) ≡ false → ltb_ℤ minus_one p ≡ false → ltb_ℤ p minus_one ≡ true
is_below (pos n) e f = ground arith
is_below (negsuc n) e f = ground arith

-- The processes, their pids and their children are the same.
pub record SameTree (k0 k : Kernel) : Type 0 where
  pub pids : (b : ℕ) → (k.task b).pid ≡ (k0.task b).pid
  pub children : children_of k ≡ children_of k0
  pub tasks : k.tasks ≡ k0.tasks

find_task-same :
    (pid : ℤ) (task task' : ℕ → Task) (l : List ℕ)
    → ((b : ℕ) → (task' b).pid ≡ (task b).pid)
    → find_task pid task' l ≡ find_task pid task l
unfolding find_task
find_task-same pid task task' [] h = refl
find_task-same pid task task' (a ∷ l) h = rw (h a, find_task-same pid task task' l h)

target-same : (k0 k : Kernel) (c : SetCall) → SameTree k0 k → target k c ≡ target k0 c
target-same k0 k c w = rw (w.tasks, find_task-same c.pid k0.task k.task k0.tasks w.pids)

module _ (fuel : ℕ) where
  -- What one call leaves.
  abbrev moved : Kernel → SetCall → Option ℕ → Kernel
  moved k c none = called_by c.made_by k
  moved k c (some a) =
      mark (k.task a).pid c.limit c.interval (family (children_of k) fuel a) (called_by c.made_by k)

  make_family-moved :
      (k : Kernel) (c : SetCall) (a : ℕ)
      → Height (children_of k) fuel a
      → make_family fuel c.limit c.interval a (called_by c.made_by k)
        ≡ some (success, moved k c (some a))
  unfolding make_family
  make_family-moved k c a h =
      ap finish (
        setproclimit_dump-mark (k.task a).pid c.limit c.interval (children_of k) fuel a
          (called_by c.made_by k) refl h)
      ∙ unfold finish in refl

  sys_setproclimit-moved :
      (k : Kernel) (c : SetCall)
      → ((a : ℕ) → target k c ≡ some a → Height (children_of k) fuel a)
      → sys_setproclimit fuel c.pid c.limit c.interval (called_by c.made_by k)
        ≡ some (status_of (target k c), moved k c (target k c))
  unfolding sys_setproclimit
  sys_setproclimit-moved k c h = elim (Bool-cases (ltb_ℤ c.interval c.limit)) [
    | inl e ↦ rw e refl
    | inr e ↦ elim (Bool-cases (c.pid ==ℤ minus_one)) [
      | inl f ↦ rw (e, f) (make_family-moved k c c.made_by (h c.made_by (rw (e, f) refl)))
      | inr f ↦ elim (Bool-cases (ltb_ℤ minus_one c.pid)) [
        | inl g ↦
            rw (e, f, g) (found (find_task c.pid k.task k.tasks) (λ a q. h a (rw (e, f, g) q)))
        | inr g ↦ rw (e, f, g) (rw (is_below c.pid f g) refl)
      ]
    ]
  ]
    where
      found :
          (o : Option ℕ)
          → ((a : ℕ) → o ≡ some a → Height (children_of k) fuel a)
          → ◌≡◌ {A = Option (Status × Kernel)}
              (elim o [
                | none ↦ some (failure einval, called_by c.made_by k)
                | some a ↦ make_family fuel c.limit c.interval a (called_by c.made_by k)
              ])
              (some (status_of o, moved k c o))
      found none h = refl
      found (some a) h = make_family-moved k c a (h a refl)

  moved-SameTree :
      (k0 k : Kernel) (c : SetCall) (o : Option ℕ) → SameTree k0 k → SameTree k0 (moved k c o)
  unfolding mark
  moved-SameTree k0 k c none w = record { pids = w.pids; children = w.children; tasks = w.tasks }
  moved-SameTree k0 k c (some a) w = record {
    pids = λ b. ground (arith, w.pids b);
    children =
        children_of-mark (k.task a).pid c.limit c.interval (family (children_of k) fuel a)
          (called_by c.made_by k)
        ∙ w.children;
    tasks = w.tasks;
  }

  moved-task :
      (k0 k : Kernel) (c : SetCall) (o : Option ℕ) (b : ℕ)
      → SameTree k0 k
      → (moved k c o).task b ≡ labelled (given fuel k0 b c o) (k.task b)
  unfolding mark
  moved-task k0 k c none b w = refl
  moved-task k0 k c (some a) b w = rw (w.children, w.pids a) (ground arith)

  labelled-or_before :
      (later before : Option Label) (t : Task)
      → labelled later (labelled before t) ≡ labelled (or_before later before) t
  labelled-or_before none before t = refl
  labelled-or_before (some x) none t = refl
  labelled-or_before (some x) (some y) t = refl

  -- The trees that the calls go down are less than `fuel` levels deep.
  abbrev pub Shallow : Kernel → SetCall → Type 0
  Shallow k c = (a : ℕ) → target k c ≡ some a → Height (children_of k) fuel a

  pub record Labelled (k0 k : Kernel) (l : List SetCall) (k' : Kernel) : Type 0 where
    pub tree : SameTree k0 k'
    pub tasks : (b : ℕ) → k'.task b ≡ labelled (last_label fuel k0 b l) (k.task b)

  pub set_limits-Labelled :
      (k0 k : Kernel) (l : List SetCall)
      → SameTree k0 k
      → All (Shallow k0) l
      → (k' : Kernel) × (set_limits fuel l k ≡ some (statuses k0 l, k')) × Labelled k0 k l k'
  unfolding set_limits
  set_limits-Labelled k0 k [] w h = (k, refl, record { tree = w; tasks = λ b. refl })
  set_limits-Labelled k0 k (c ∷ l) w h =
      let same = target-same k0 k c w in
      let one = sys_setproclimit-moved k c (λ a e. rw (w.children) (h.0 a (sym same ∙ e))) in
      let k1 = moved k c (target k c) in
      let w1 = moved-SameTree k0 k c (target k c) w in
      let (k', rest, r) = set_limits-Labelled k0 k1 l w1 h.1 in
      (
        k',
        rw (one, set_limits) (ap (and_status (status_of (target k c))) rest ∙ rw same refl),
        record {
          tree = r.tree;
          tasks = λ b.
              r.tasks b
              ∙ ap (labelled (last_label fuel k0 b l)) (moved-task k0 k c (target k c) b w)
              ∙ labelled-or_before (last_label fuel k0 b l) (given fuel k0 b c (target k c))
                  (k.task b)
              ∙ ap
                  (λ o.
                    labelled (or_before (last_label fuel k0 b l) (given fuel k0 b c o)) (k.task b))
                  same;
        },
      )
