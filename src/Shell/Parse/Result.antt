-- ===== src/Shell/Parse/Result.antt =====
-- What `parseArguments` returns (Assignment1/mysh.c).
use cs.Prelude.{
  ◌+◌, ◌*◌, ◌≤◌, ◌<◌, ◌≡◌, refl, ap, ◌∙◌, Bool, true, false, ◌||◌, ◌⊎◌, none, dec_lt, some, List,
  [], ◌∷◌, All, length, arith, Bool-cases, inl, inr, if◌then◌else◌,
}
use cs.Shell.Text.{Text, codes, text_eq, text_eq_iff}
use cs.Shell.Parse.{size, keep_loop, finish_parse, parse_arguments, Parsed}
use cs.Shell.Parse.Words.{
  Line, IsWord, end, blank, last, word, line_words, length-Line, split_loop-Line, split_loop-full,
  delims, delims-le-length,
}

abbrev pub is_mytime : Text → Bool
is_mytime w = text_eq w (codes "mytime")

abbrev pub is_ampersand : Text → Bool
is_ampersand w = text_eq w (codes "&")

abbrev pub any_word : (Text → Bool) → List Text → Bool
any_word p [] = false
any_word p (w ∷ ws) = p w || any_word p ws

-- The words that are arguments.
abbrev pub plain_words : List Text → List Text
plain_words [] = []
plain_words (w ∷ ws) =
    let rest = plain_words ws in if is_mytime w || is_ampersand w then rest else w ∷ rest

Line-words : (b : Text) (ws : List Text) → Line b ws → All IsWord ws
Line-words b ws end = tt
Line-words b ws (blank c {s} h l) = Line-words s ws l
Line-words b ws (last w h) = (h, tt)
Line-words b ws (word w c {s} {ws = ws'} h d l e) = (h, Line-words s ws' l)

not_both : (w : Text) → is_mytime w ≡ true → is_ampersand w ≡ false
not_both w t = rw ((text_eq_iff w (codes "mytime")).0 t)

-- The second loop drops `mytime` and `&`, and sets a flag for each.
keep_loop_lem :
    (ws : List Text)
    → All IsWord ws
    → keep_loop ws ≡ record {
      args = plain_words ws;
      time_flag = any_word is_mytime ws;
      ampersand = any_word is_ampersand ws;
    }
unfolding keep_loop
keep_loop_lem [] h = refl
keep_loop_lem (w ∷ ws) h = elim (Bool-cases (is_mytime w)) [
  | inl t ↦ rw (t, not_both w t, keep_loop_lem ws h.1)
  | inr f ↦ elim (Bool-cases (is_ampersand w)) [
    | inl t ↦ rw (f, t, keep_loop_lem ws h.1)
    | inr g ↦ rw (f, g, h.0.0, keep_loop_lem ws h.1)
  ]
]

-- The line is one that `fgets` can read, and has not `SIZE - 1` delimiters.
abbrev pub Fits : Text → Type 0
Fits b = (length b < size) × (delims b + 1 < size)

-- For a command line that `fgets` can read, other than `SIZE - 1` delimiters, the arguments are
-- its words without `mytime` and `&`, in order, and the flags say whether these words occur.
pub parse_arguments-Line :
    (b : Text) (ws : List Text)
    → Line b ws
    → Fits b
    → parse_arguments b
      ≡ some (record {
        args = plain_words ws;
        time_flag = any_word is_mytime ws;
        ampersand = any_word is_ampersand ws;
      })
unfolding parse_arguments
parse_arguments-Line b ws l (h, few) =
    let (ts, e, k) = split_loop-Line (length b + 2) size b ws l (omega arith) few in
    ap finish_parse e ∙ ap some (k ∙ keep_loop_lem ws (Line-words b ws l))

plain_words-All : (ws : List Text) → All IsWord ws → All IsWord (plain_words ws)
plain_words-All [] h = tt
plain_words-All (w ∷ ws) h = elim (Bool-cases (is_mytime w || is_ampersand w)) [
  | inl t ↦ rw t (plain_words-All ws h.1)
  | inr f ↦ rw f (h.0, plain_words-All ws h.1)
]

length-plain_words : (ws : List Text) → length (plain_words ws) ≤ length ws
length-plain_words [] = omega arith
length-plain_words (w ∷ ws) = ground (arith, length-plain_words ws)

pub parse_arguments-parsed :
    (b : Text)
    → Fits b
    → (p : Parsed) × (parse_arguments b ≡ some p) × (2 * length p.args ≤ size) × All IsWord p.args
parse_arguments-parsed b h =
    let (ws, l) = line_words b in
    (
      _,
      parse_arguments-Line b ws l h,
      omega (arith, h.0, length-plain_words ws, length-Line b ws l),
      plain_words-All ws (Line-words b ws l),
    )

-- A line that `fgets` can read is parsed, or it is `SIZE - 1` delimiters. In the one case there
-- are at most half as many arguments as cells, so that NULL is written within `args`, and each
-- argument is a word; in the other the first loop fills `buf_args` and leaves no NULL there for
-- the second one.
pub parse_arguments-total :
    (b : Text)
    → length b < size
    → (Fits b
        × ((p : Parsed) × (parse_arguments b ≡ some p)
            × (2 * length p.args ≤ size)
            × All IsWord p.args))
      ⊎ ((delims b + 1 ≡ size) × (length b + 1 ≡ size) × (parse_arguments b ≡ none))
unfolding parse_arguments
parse_arguments-total b h = elim (dec_lt (delims b + 1) size) [
  | yes few ↦ inl ((h, few), parse_arguments-parsed b (h, few))
  | no many ↦
      let (ws, l) = line_words b in
      let (ts, e) = split_loop-full (length b + 2) size b ws l (omega arith) (omega arith) in
      inr (omega (arith, delims-le-length b), omega (arith, delims-le-length b), ap finish_parse e)
]
