-- ===== src/Kernel/GetLimit/Spread.antt =====
-- The loop over a process family: what ends in `min_cpu_time`, `max_cpu_time` and
-- `total_cpu_time`.
use cs.Prelude.{
  ℕ, ◌+◌, ◌%◌, ◌^◌, ◌≤◌, ◌<◌, ◌≡◌, refl, sym, ◌∙◌, true, ◌⊎◌, inl, inr, List, [], ◌∷◌, has, ◌==◌,
  ==_iff, arith, Bool-cases, if◌then◌else◌, ltb,
}
use cs.Prelude.Int.{ℤ, ◌==ℤ◌, ==ℤ_iff}
use cs.Kernel.Task.{Task}
use cs.Kernel.GetLimit.{UserAccess, Totals, tally, tally_family, cpu_time}

module _ (u : UserAccess) (root : ℤ) (task : ℕ → Task) where
  -- The process at `a` is in the list and in the family.
  pub record Member (l : List ℕ) (a : ℕ) : Type 0 where
    pub in_list : has a l ≡ true
    pub in_family : (task a).root_pid ≡ root

  -- The sum of the times of the family, with no wrap-around.
  pub family_time : List ℕ → ℕ
  family_time [] = 0
  family_time (a ∷ l) =
      (if (task a).root_pid ==ℤ root then cpu_time u (task a) else 0) + family_time l

  -- A value is `start` or the time of a member.
  abbrev pub Attained : List ℕ → ℕ → ℕ → Type 0
  Attained l start v = (v ≡ start) ⊎ ((a : ℕ) × Member l a × (cpu_time u (task a) ≡ v))

  abbrev one : ℕ → Totals → Totals
  one a t = if (task a).root_pid ==ℤ root then tally (cpu_time u (task a)) t else t

  -- The field `min` only grows along the loop, and `max` only falls.
  tally_family-grows :
      (l : List ℕ) (t : Totals)
      → (t.min ≤ (tally_family u root task l t).min) × ((tally_family u root task l t).max ≤ t.max)
  unfolding tally_family
  tally_family-grows [] t = omega arith
  tally_family-grows (a ∷ l) t = ground (arith, tally_family-grows l (one a t))

  tally_family-bounds :
      (l : List ℕ) (t : Totals) (a : ℕ)
      → Member l a
      → (cpu_time u (task a) ≤ (tally_family u root task l t).min)
        × ((tally_family u root task l t).max ≤ cpu_time u (task a))
  unfolding tally_family
  tally_family-bounds [] t a m = cc (m.in_list)
  tally_family-bounds (b ∷ l) t a m = elim (Bool-cases (a == b)) [
    | inl e ↦
        let same = (==_iff a b).0 e in
        let inside = (==ℤ_iff (task b).root_pid root).1 (rw (← same) m.in_family) in
        rw same (ground (arith, tally_family-grows l (one b t)))
    | inr e ↦
        tally_family-bounds l (one b t) a
          (record { in_list = ground (arith, m.in_list); in_family = m.in_family })
  ]

  Member-cons : (b : ℕ) (l : List ℕ) {a : ℕ} → Member l a → Member (b ∷ l) a
  Member-cons b l {a} m = record { in_list = ground (arith, m.in_list); in_family = m.in_family }

  Attained-cons :
      (b : ℕ) (l : List ℕ) (s s' v : ℕ)
      → Attained l s' v
      → (s' ≡ s) ⊎ ((cpu_time u (task b) ≡ s') × ((task b).root_pid ≡ root))
      → Attained (b ∷ l) s v
  Attained-cons b l s s' v (inr (a, m, e)) from = inr (a, Member-cons b l m, e)
  Attained-cons b l s s' v (inl e) (inl f) = inl (e ∙ f)
  Attained-cons b l s s' v (inl e) (inr (f, g)) =
      inr (b, record { in_list = ground arith; in_family = g }, f ∙ sym e)

  one-from :
      (b : ℕ) (t : Totals)
      → (((one b t).min ≡ t.min)
          ⊎ ((cpu_time u (task b) ≡ (one b t).min) × ((task b).root_pid ≡ root)))
        × (((one b t).max ≡ t.max)
            ⊎ ((cpu_time u (task b) ≡ (one b t).max) × ((task b).root_pid ≡ root)))
  unfolding tally
  one-from b t = elim (Bool-cases ((task b).root_pid ==ℤ root)) [
    | inl e ↦
        let same = (==ℤ_iff (task b).root_pid root).0 e in
        (
          elim (Bool-cases (ltb t.min (cpu_time u (task b)))) [
            | inl lt ↦ inr (ground arith, same)
            | inr ge ↦ inl (ground arith)
          ],
          elim (Bool-cases (ltb (cpu_time u (task b)) t.max)) [
            | inl lt ↦ inr (ground arith, same)
            | inr ge ↦ inl (ground arith)
          ],
        )
    | inr e ↦ (inl (ground arith), inl (ground arith))
  ]

  tally_family-Attained :
      (l : List ℕ) (t : Totals)
      → Attained l t.min (tally_family u root task l t).min
        × Attained l t.max (tally_family u root task l t).max
  unfolding tally_family
  tally_family-Attained [] t = (inl refl, inl refl)
  tally_family-Attained (b ∷ l) t =
      let (lo, hi) = tally_family-Attained l (one b t) in
      let (from_lo, from_hi) = one-from b t in
      (Attained-cons b l _ _ _ lo from_lo, Attained-cons b l _ _ _ hi from_hi)

  tally_family-sum :
      (l : List ℕ) (t : Totals)
      → t.sum < 2 ^ 32
      → (tally_family u root task l t).sum ≡ (t.sum + family_time l) % 2 ^ 32
  unfolding tally_family family_time
  tally_family-sum [] t h = omega arith
  tally_family-sum (a ∷ l) t h = ground (arith, tally_family-sum l (one a t))

  -- `v` is the time of a member, and no member has a greater one (a smaller one).
  pub record IsGreatest (l : List ℕ) (v : ℕ) : Type 0 where
    pub member : ℕ
    pub is_member : Member l member
    pub attained : cpu_time u (task member) ≡ v
    pub bound : (b : ℕ) → Member l b → cpu_time u (task b) ≤ v

  pub record IsLeast (l : List ℕ) (v : ℕ) : Type 0 where
    pub member : ℕ
    pub is_member : Member l member
    pub attained : cpu_time u (task member) ≡ v
    pub bound : (b : ℕ) → Member l b → v ≤ cpu_time u (task b)

  own :
      (l : List ℕ) (a v : ℕ)
      → Member l a
      → Attained l (cpu_time u (task a)) v
      → (b : ℕ) × Member l b × (cpu_time u (task b) ≡ v)
  own l a v m (inl e) = (a, m, sym e)
  own l a v m (inr w) = w

  -- The loop over a family, started with the time of the member `a`.
  abbrev pub from_member : List ℕ → ℕ → Totals
  from_member l a =
      tally_family u root task l
        (record { min = cpu_time u (task a); max = cpu_time u (task a); sum = 0 })

  pub tally_family-IsGreatest :
      (l : List ℕ) (a : ℕ) → Member l a → IsGreatest l (from_member l a).min
  tally_family-IsGreatest l a m =
      let (b, mb, e) = own l a _ m (tally_family-Attained l _).0 in
      record {
        member = b;
        is_member = mb;
        attained = e;
        bound = λ c mc. (tally_family-bounds l _ c mc).0;
      }

  pub tally_family-IsLeast : (l : List ℕ) (a : ℕ) → Member l a → IsLeast l (from_member l a).max
  tally_family-IsLeast l a m =
      let (b, mb, e) = own l a _ m (tally_family-Attained l _).1 in
      record {
        member = b;
        is_member = mb;
        attained = e;
        bound = λ c mc. (tally_family-bounds l _ c mc).1;
      }

  pub tally_family-total : (l : List ℕ) (a : ℕ) → (from_member l a).sum ≡ family_time l % 2 ^ 32
  tally_family-total l a =
      let start : Totals = record {
        min = cpu_time u (task a);
        max = cpu_time u (task a);
        sum = 0;
      } in
      omega (arith, tally_family-sum l start (omega arith))
