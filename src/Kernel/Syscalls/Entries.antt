-- ===== src/Kernel/Syscalls/Entries.antt =====
-- What stands in the table of the system calls at the numbers of the header
-- (Assignment3/linux-2.6.38.1/arch/x86/kernel/syscall_table_32.S).
use cs.Prelude.{
  ℕ, zero, suc, ◌≤◌, ◌≡◌, refl, Bool, true, false, ◌&&◌, Option, none, some, List, [], ◌∷◌, length,
  get_elem?, arith,
}
use cs.Prelude.Text.{Text}
use cs.Kernel.Numbers.{numbers, nr_syscalls}
use cs.Kernel.Numbers.Format.{CallNumber}
use cs.Kernel.Table.{sys_call_table}
use cs.Kernel.Syscalls.{handles}

-- The entry at the number of this line, tested.
test_entry : Text → Option Text → Bool
test_entry call none = false
test_entry call (some e) = handles call e

all_lines : (CallNumber → Bool) → List CallNumber → Bool
all_lines p [] = true
all_lines p (l ∷ rest) = p l && all_lines p rest

all_lines_sound :
    (p : CallNumber → Bool) (ls : List CallNumber) (i : ℕ) (l : CallNumber)
    → all_lines p ls ≡ true
    → get_elem? ls i ≡ some l
    → p l ≡ true
unfolding all_lines
all_lines_sound p [] i l h e = absurd (cc e)
all_lines_sound p (x ∷ rest) zero l h e = ground (arith, e)
all_lines_sound p (x ∷ rest) (suc i) l h e = all_lines_sound p rest i l (ground arith) e

entries_tested :
    all_lines (λ l. test_entry l.call (get_elem? sys_call_table l.number)) numbers ≡ true
unfolding all_lines test_entry numbers sys_call_table
entries_tested = refl

pub table_length : length sys_call_table ≡ nr_syscalls
unfolding sys_call_table
table_length = refl

pub get-beyond : (l : List Text) (n : ℕ) → length l ≤ n → get_elem? l n ≡ none
get-beyond [] n h = refl
get-beyond (x ∷ l) zero h = absurd (omega arith)
get-beyond (x ∷ l) (suc n) h = get-beyond l n (omega arith)

tested-entry :
    (call : Text) (o : Option Text)
    → test_entry call o ≡ true
    → (e : Text) × (o ≡ some e) × (handles call e ≡ true)
unfolding test_entry
tested-entry call none h = absurd (cc h)
tested-entry call (some e) h = (e, refl, h)

-- Every number of the header has an entry in the table, and the entry handles the call that the
-- header names there: its function has the call's name with the marks of its form, or it is one
-- of the removed calls of `is_removed` and the entry is `sys_ni_syscall`.
pub numbers_handled :
    (i : ℕ) (l : CallNumber)
    → get_elem? numbers i ≡ some l
    → (e : Text) × (get_elem? sys_call_table l.number ≡ some e) × (handles l.call e ≡ true)
numbers_handled i l h = tested-entry l.call (get_elem? sys_call_table l.number) (
    all_lines_sound (λ x. test_entry x.call (get_elem? sys_call_table x.number)) numbers i l
      entries_tested h)
