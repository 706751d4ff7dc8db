-- ===== src/Shell/Parse/Words.antt =====
-- The words of a command line, as a relation, and the first loop of `parseArguments`
-- (Assignment1/mysh.c) against it.
use cs.Prelude.{
  ℕ, zero, suc, ◌+◌, ◌-◌, ◌*◌, ◌≤◌, ◌<◌, ◌≡◌, refl, ap, ◌∙◌, true, false, none, some, List, [], ◌∷◌,
  ◌++◌, length, length-append, leb, if◌then◌else◌, arith, Bool-cases, inl, inr,
}
use cs.Shell.Text.{Text, is_delim, no_delim, is_empty}
use cs.Shell.Parse.{strsep, split_loop, add_token, keep_loop}

-- A word: at least one byte, none of them a delimiter.
abbrev pub IsWord : Text → Type 0
IsWord w = (is_empty w ≡ false) × (no_delim w ≡ true)

-- `Line b ws`: the bytes `b` hold the words `ws` in this order, set apart by delimiters.
pub data Line : Text → List Text → Type 0 where
  end : Line [] []
  blank : (c : ℕ) {s : Text} {ws : List Text} → is_delim c ≡ true → Line s ws → Line (c ∷ s) ws
  last : (w : Text) → IsWord w → Line w (w ∷ [])
  word :
      (w : Text) (c : ℕ) {s b : Text} {ws : List Text}
      → IsWord w
      → is_delim c ≡ true
      → Line s ws
      → b ≡ w ++ (c ∷ s)
      → Line b (w ∷ ws)

strsep-delim :
    (w : Text) (c : ℕ) (s : Text)
    → no_delim w ≡ true
    → is_delim c ≡ true
    → strsep (w ++ (c ∷ s)) ≡ (w, some s)
unfolding strsep
strsep-delim [] c s h d = rw d
strsep-delim (x ∷ w) c s h d = ground (arith, strsep-delim w c s)

strsep-last : (w : Text) → no_delim w ≡ true → strsep w ≡ (w, none)
unfolding strsep
strsep-last [] h = refl
strsep-last (x ∷ w) h = ground (arith, strsep-last w)

strsep-blank : (c : ℕ) (s : Text) → is_delim c ≡ true → strsep (c ∷ s) ≡ ([], some s)
strsep-blank c s d = strsep-delim [] c s refl d

IsWord-cons : (c : ℕ) (w : Text) → is_delim c ≡ false → no_delim w ≡ true → IsWord (c ∷ w)
IsWord-cons c w h n = (refl, ground arith)

-- A byte that is no delimiter goes to the first word.
Line-cons :
    (c : ℕ) {s : Text} {ws : List Text}
    → is_delim c ≡ false
    → Line s ws
    → (ws' : List Text) × Line (c ∷ s) ws'
Line-cons c h end = (_, last (c ∷ []) (IsWord-cons c [] h refl))
Line-cons c h (blank d e l) = (_, word (c ∷ []) d (IsWord-cons c [] h refl) e l refl)
Line-cons c h (last w q) = (_, last (c ∷ w) (IsWord-cons c w h q.1))
Line-cons c h (word w d q e l p) =
    (_, word (c ∷ w) d (IsWord-cons c w h q.1) e l (ap (λ t. c ∷ t) p))

-- Every line has its words.
pub line_words : (b : Text) → (ws : List Text) × Line b ws
line_words [] = ([], end)
line_words (c ∷ s) =
    let (ws, l) = line_words s in
    elim (Bool-cases (is_delim c)) [ inl d ↦ (ws, blank c d l) | inr h ↦ Line-cons c h l ]

word_length : (w : Text) → is_empty w ≡ false → 1 ≤ length w
word_length [] h = cc
word_length (c ∷ w) h = omega arith

-- A line of `k` words has at least `2 * k - 1` bytes.
pub length-Line : (b : Text) (ws : List Text) → Line b ws → 2 * length ws ≤ length b + 1
length-Line b ws end = omega arith
length-Line b ws (blank c {s} h l) = omega (arith, length-Line s ws l)
length-Line b ws (last w h) = omega (arith, word_length w h.0)
length-Line b ws (word w c {s} {ws = ws'} h d l e) =
    omega
      (arith, word_length w h.0, length-Line s ws' l, length-append w (c ∷ s), ap {B = ℕ} length e)

-- How many delimiters a line has: one less than it has tokens.
abbrev pub delims : Text → ℕ
delims [] = 0
delims (c ∷ s) = (if is_delim c then 1 else 0) + delims s

pub delims-le-length : (s : Text) → delims s ≤ length s
delims-le-length [] = omega arith
delims-le-length (c ∷ s) = ground (arith, delims-le-length s)

delims-no_delim : (w : Text) → no_delim w ≡ true → delims w ≡ 0
delims-no_delim [] h = refl
delims-no_delim (c ∷ w) h = ground (arith, delims-no_delim w)

-- A word and its delimiter.
delims-word :
    (w : Text) (c : ℕ) (s : Text)
    → no_delim w ≡ true
    → is_delim c ≡ true
    → delims (w ++ (c ∷ s)) ≡ suc (delims s)
delims-word [] c s h d = rw d (omega arith)
delims-word (x ∷ w) c s h d = ground (arith, delims-word w c s)

-- With enough fuel and room for one cell more than there are tokens, the first loop closes the
-- array; the second loop takes the same from it as from the words.
pub split_loop-Line :
    (fuel room : ℕ) (b : Text) (ws : List Text)
    → Line b ws
    → length b + 2 ≤ fuel
    → delims b + 1 < room
    → (ts : List Text) × (split_loop fuel room (some b)
        ≡ some (record { items = ts; closed = true }))
      × (keep_loop ts ≡ keep_loop ws)
unfolding split_loop add_token keep_loop
split_loop-Line zero room b ws l f r = absurd (omega arith)
split_loop-Line (suc zero) room b ws l f r = absurd (omega arith)
split_loop-Line (suc (suc fuel)) room b ws end f r =
    let more : leb room 1 ≡ false = ground arith in
    ([] ∷ [], rw (strsep-last [] refl, more) refl, refl)
split_loop-Line (suc (suc fuel)) room b ws (blank c {s} h l) f r =
    let count = delims-word [] c s refl h in
    let more : leb room 1 ≡ false = ground (arith, count) in
    let (ts, e, k) =
      split_loop-Line (suc fuel) (room - 1) s ws l (omega arith) (omega (arith, count)) in
    ([] ∷ ts, rw (strsep-blank c s h, more) (ap (add_token []) e), k)
split_loop-Line (suc (suc fuel)) room b ws (last w h) f r =
    let more : leb room 1 ≡ false = ground arith in
    (w ∷ [], rw (strsep-last w h.1, more) refl, refl)
split_loop-Line (suc (suc fuel)) room b ws (word w c {s} {ws = ws'} h d l e) f r =
    let count = ap delims e ∙ delims-word w c s h.1 d in
    let more : leb room 1 ≡ false = ground (arith, count) in
    let (ts, q, k) =
      split_loop-Line (suc fuel) (room - 1) s ws' l
        (omega (arith, word_length w h.0, length-append w (c ∷ s), ap {B = ℕ} length e))
        (omega (arith, count)) in
    let sp : strsep b ≡ (w, some s) = rw e (strsep-delim w c s h.1 d) in
    (w ∷ ts, rw (sp, more) (ap (add_token w) q), rw k refl)

-- With less room the loop breaks at the end of the array, which has no NULL.
pub split_loop-full :
    (fuel room : ℕ) (b : Text) (ws : List Text)
    → Line b ws
    → length b + 2 ≤ fuel
    → room ≤ delims b + 1
    → (ts : List Text) × (split_loop fuel room (some b)
        ≡ some (record { items = ts; closed = false }))
unfolding split_loop add_token
split_loop-full zero room b ws l f r = absurd (omega arith)
split_loop-full (suc zero) room b ws l f r = absurd (omega arith)
split_loop-full (suc (suc fuel)) room b ws end f r =
    let full : leb room 1 ≡ true = ground arith in ([] ∷ [], rw (strsep-last [] refl, full) refl)
split_loop-full (suc (suc fuel)) room b ws (last w h) f r =
    let count = delims-no_delim w h.1 in
    let full : leb room 1 ≡ true = ground (arith, count) in
    (w ∷ [], rw (strsep-last w h.1, full) refl)
split_loop-full (suc (suc fuel)) room b ws (blank c {s} h l) f r =
    let count = delims-word [] c s refl h in
    elim (Bool-cases (leb room 1)) [
      | inl full ↦ ([] ∷ [], rw (strsep-blank c s h, full) refl)
      | inr more ↦
          let (ts, e) =
            split_loop-full (suc fuel) (room - 1) s ws l (omega arith) (omega (arith, count)) in
          ([] ∷ ts, rw (strsep-blank c s h, more) (ap (add_token []) e))
    ]
split_loop-full (suc (suc fuel)) room b ws (word w c {s} {ws = ws'} h d l e) f r =
    let count = ap delims e ∙ delims-word w c s h.1 d in
    let sp : strsep b ≡ (w, some s) = rw e (strsep-delim w c s h.1 d) in
    elim (Bool-cases (leb room 1)) [
      | inl full ↦ (w ∷ [], rw (sp, full) refl)
      | inr more ↦
          let (ts, q) =
            split_loop-full (suc fuel) (room - 1) s ws' l
              (omega (arith, word_length w h.0, length-append w (c ∷ s), ap {B = ℕ} length e))
              (omega (arith, count)) in
          (w ∷ ts, rw (sp, more) (ap (add_token w) q))
    ]
