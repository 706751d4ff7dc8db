-- ===== src/Kernel/Syscalls/Named.antt =====
-- The numbers of the table, with and without a line in the header
-- (Assignment3/linux-2.6.38.1/arch/x86/include/asm/unistd_32.h).
use cs.Prelude.{
  ℕ, zero, suc, ◌≤◌, ◌<◌, ◌≡◌, ◌≢◌, refl, Bool, true, false, ◌&&◌, ◌⊎◌, inl, inr, Option, none,
  some, List, [], ◌∷◌, get_elem?, ◌==◌, arith, Bool-cases, Option-cases, ap, sym, ◌∙◌, dec_lt,
  if◌then◌else◌,
}
use mathlib.Core.Option.{some-injective}
use mathlib.Core.Option
use cs.Prelude.Text.{Text, text_eq, text_eq_iff}
use cs.Kernel.Numbers.{numbers, nr_syscalls}
use cs.Kernel.Numbers.Format.{CallNumber}
use cs.Kernel.Table.{sys_call_table}
use cs.Kernel.Syscalls.{ni_syscall, handles}
use cs.Kernel.Syscalls.Entries.{numbers_handled, table_length, get-beyond}

-- The place of the first line with this number.
index_of : ℕ → List CallNumber → Option ℕ
index_of n [] = none
index_of n (l ∷ rest) = if l.number == n then some 0 else Option.map suc (index_of n rest)

index_of-some :
    (n : ℕ) (ls : List CallNumber) (i : ℕ)
    → index_of n ls ≡ some i
    → (l : CallNumber) × (get_elem? ls i ≡ some l) × (l.number ≡ n)
unfolding index_of
index_of-some n [] i h = absurd (cc h)
index_of-some n (x ∷ rest) i h = elim (Bool-cases (x.number == n)) [
  | inl t ↦ let first : i ≡ 0 = ground (arith, h) in (x, rw first, ground arith)
  | inr f ↦ elim (Option-cases (index_of n rest)) [
    | inl none_left ↦ absurd (ground (arith, h))
    | inr (j, e) ↦
        let next : i ≡ suc j = ground (arith, h) in
        let (l, g, s) = index_of-some n rest j e in (l, rw next g, s)
  ]
]

index_of-none :
    (n : ℕ) (ls : List CallNumber) (i : ℕ) (l : CallNumber)
    → index_of n ls ≡ none
    → get_elem? ls i ≡ some l
    → l.number ≢ n
unfolding index_of
index_of-none n [] i l h at = absurd (cc at)
index_of-none n (x ∷ rest) zero l h at = λ same.
    let first : x ≡ l = some-injective _ _ at in
    let num : x.number ≡ n = ap (λ (y : CallNumber). y.number) first ∙ same in
    ground (arith, h, num)
index_of-none n (x ∷ rest) (suc i) l h at = elim (Option-cases (index_of n rest)) [
  | inl empty ↦ index_of-none n rest i l empty at
  | inr (j, e) ↦ absurd (ground (arith, h))
]

test_number : Option ℕ → Option Text → Bool
test_number p none = false
test_number (some i) (some e) = true
test_number none (some e) = text_eq e ni_syscall

all_numbers : ℕ → Bool
all_numbers zero = true
all_numbers (suc n) = test_number (index_of n numbers) (get_elem? sys_call_table n) && all_numbers n

all_numbers_sound :
    (bound n : ℕ)
    → all_numbers bound ≡ true
    → n < bound
    → test_number (index_of n numbers) (get_elem? sys_call_table n) ≡ true
unfolding all_numbers
all_numbers_sound zero n h lt = absurd (omega arith)
all_numbers_sound (suc b) n h lt = ground (arith, all_numbers_sound b n)

numbers_tested : all_numbers nr_syscalls ≡ true
unfolding all_numbers test_number index_of numbers sys_call_table
numbers_tested = refl

tested-number :
    (p : Option ℕ) (o : Option Text)
    → test_number p o ≡ true
    → (e : Text) × (o ≡ some e) × (((i : ℕ) × (p ≡ some i)) ⊎ ((p ≡ none) × (e ≡ ni_syscall)))
unfolding test_number
tested-number (some i) none h = absurd (cc h)
tested-number none none h = absurd (cc h)
tested-number (some i) (some e) h = (e, refl, inl (i, refl))
tested-number none (some e) h = (e, refl, inr (refl, (text_eq_iff e ni_syscall).0 h))

-- The entry at the number of a line of the header handles its call.
handled_at :
    (n i : ℕ) (l : CallNumber) (e : Text)
    → get_elem? numbers i ≡ some l
    → l.number ≡ n
    → get_elem? sys_call_table n ≡ some e
    → handles l.call e ≡ true
handled_at n i l e g s at =
    let (e', at', h) = numbers_handled i l g in
    let same : e' ≡ e = some-injective _ _ (sym at' ∙ ap (get_elem? sys_call_table) s ∙ at) in
    ap (handles l.call) (sym same) ∙ h

-- Below `NR_syscalls` every number has an entry in the table. This entry handles the call of a
-- line of the header with this number; or no line has the number, and the entry is
-- `sys_ni_syscall`. From `NR_syscalls` on the table has no entry.
pub table_named :
    (n : ℕ)
    → ((n < nr_syscalls)
        × ((e : Text) × (get_elem? sys_call_table n ≡ some e)
            × (((i : ℕ) × (l : CallNumber) × (get_elem? numbers i ≡ some l)
                  × (l.number ≡ n)
                  × (handles l.call e ≡ true))
                ⊎ ((e ≡ ni_syscall)
                    × ((i : ℕ) (l : CallNumber) → get_elem? numbers i ≡ some l → l.number ≢ n)))))
      ⊎ ((nr_syscalls ≤ n) × (get_elem? sys_call_table n ≡ none))
table_named n = elim (dec_lt n nr_syscalls) [
  | yes p ↦ inl (
    p,
    let (e, at, named) = tested-number _ _ (all_numbers_sound nr_syscalls n numbers_tested p) in
        (
          e,
          at,
          elim named [
            | inl (i, f) ↦
                let (l, g, s) = index_of-some n numbers i f in
                inl (i, l, g, s, handled_at n i l e g s at)
            | inr (empty, same) ↦ inr (same, λ i l. index_of-none n numbers i l empty)
          ],
        ),
  )
  | no q ↦ inr (omega arith, get-beyond sys_call_table n (omega (arith, table_length)))
]
