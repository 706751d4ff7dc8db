-- ===== src/Guess/Ends/Deficit.antt =====
-- The distance of the guesses from their letters.
use cs.Prelude.{ℕ, zero, suc, ◌+◌, ◌*◌, ◌%◌, ◌≤◌, ◌<◌, ◌≡◌, refl, arith, dec_lt}
use cs.Guess.Memory.{update}
use cs.Guess.Ends.{deficit}

pub deficit-same :
    (secret f g : ℕ → ℕ) (i len : ℕ)
    → ((j : ℕ) → i ≤ j → j < i + len → g j ≡ f j)
    → deficit secret g i len ≡ deficit secret f i len
unfolding deficit
deficit-same secret f g i zero h = refl
deficit-same secret f g i (suc len) h = omega (
  arith,
  h i (omega arith) (omega arith),
  deficit-same secret f g (i + 1) len (λ j a b. h j (omega arith) (omega arith)),
)

pub deficit-le :
    (secret f : ℕ → ℕ) (i len : ℕ) → deficit secret f i len ≤ deficit secret (λ _. 0) i len
unfolding deficit
deficit-le secret f i zero = omega arith
deficit-le secret f i (suc len) = omega (arith, deficit-le secret f (i + 1) len)

-- A guess that is below its letter comes one nearer.
pub deficit-bump :
    (secret f : ℕ → ℕ) (i len k : ℕ)
    → i ≤ k
    → k < i + len
    → f k < secret k
    → secret k < 256
    → deficit secret (update f k ((f k + 1) % 256)) i len + 1 ≡ deficit secret f i len
unfolding deficit
deficit-bump secret f i zero k a b lt byte = absurd (omega arith)
deficit-bump secret f i (suc len) k a b lt byte = elim (dec_lt i k) [
  | yes before ↦
      let rest = deficit-bump secret f (i + 1) len k (omega arith) (omega arith) lt byte in
      ground (arith, rest)
  | no at ↦
      let v = (f k + 1) % 256 in
      let rest : deficit secret (update f k v) (i + 1) len ≡ deficit secret f (i + 1) len =
        deficit-same secret f (update f k v) (i + 1) len (λ j x y. ground arith) in
      ground (arith, rest)
]

pub deficit-bound :
    (secret f : ℕ → ℕ) (i len : ℕ)
    → ((j : ℕ) → i ≤ j → j < i + len → secret j < 256)
    → deficit secret f i len ≤ 256 * len
unfolding deficit
deficit-bound secret f i zero h = omega arith
deficit-bound secret f i (suc len) h = omega (
  arith,
  h i (omega arith) (omega arith),
  deficit-bound secret f (i + 1) len (λ j a b. h j (omega arith) (omega arith)),
)
