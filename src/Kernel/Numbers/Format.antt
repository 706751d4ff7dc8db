-- ===== src/Kernel/Numbers/Format.antt =====
-- A line of the header (Assignment3/linux-2.6.38.1/arch/x86/include/asm/unistd_32.h).
use Prim.Native.String.{String}
use cs.Prelude.{ℕ}
use cs.Prelude.Text.{Text, codes}

-- `#define __NR_name number`.
pub record CallNumber : Type 0 where
  pub call : Text
  pub number : ℕ

abbrev pub nr : String → ℕ → CallNumber
nr name n = record { call = codes name; number = n }
