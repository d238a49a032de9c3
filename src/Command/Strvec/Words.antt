-- ===== src/Command/Strvec/Words.antt =====
-- `cmd_make_strvec_old` against a one-pass definition of the words of a line.
use mksh.Prelude.{
  ℕ, zero, suc, ◌+◌, ◌≤◌, ◌<◌, ◌^◌, ◌≡◌, refl, ap, inl, inr, Bool, true, false, ◌||◌, Option, none,
  some, List, [], ◌∷◌, ◌++◌, append_assoc, append-nil, arith, ◌==◌, if◌then◌else◌, length,
  Bool-cases, ◌>>=◌, length-append,
}
use mksh.Cstr.{Bytes, byte, is_space}
use mksh.Vector.{Vector, vector_init, vector_set}
use mksh.Vector.Dense.{Holds, vector_init-Holds, vector_set-Holds}
use mksh.Command.Strvec.{
  is_break, skip_space, skip_break, token, after_token, split_loop, split_line, cmd_make_strvec_old,
}

-- `c` goes in front of the first word.
unfoldable pub cons_first : ℕ → List Bytes → List Bytes
cons_first c [] = (c ∷ []) ∷ []
cons_first c (w ∷ ws) = (c ∷ w) ∷ ws

-- The words of `c ∷ s`, from those of `s`.
unfoldable pub glue : ℕ → Bytes → List Bytes → List Bytes
unfolding cons_first
glue c [] ws = (c ∷ []) ∷ ws
glue c (d ∷ s) ws = if is_break d then (c ∷ []) ∷ ws else cons_first c ws

-- The words of a line: the longest stretches with no white space in them.
unfoldable pub words : Bytes → List Bytes
unfolding glue
words [] = []
words (c ∷ s) = if is_break c then words s else glue c s (words s)

unfoldable pub as_line : List Bytes → Option (List Bytes)
as_line [] = none
as_line (w ∷ ws) = if byte w == b'!' || byte w == b'#' then none else some (w ∷ ws)

-- What a line is to the interpreter: NULL if it is blank or a comment, its words otherwise.
unfoldable pub line_words : Bytes → Option (List Bytes)
unfolding as_line words
line_words s = as_line (words s)

words-skip_break : (s : Bytes) → words (skip_break s) ≡ words s
unfolding words skip_break
words-skip_break [] = refl
words-skip_break (c ∷ s) = elim (Bool-cases (is_break c)) [
  | inl b ↦ rw b (words-skip_break s)
  | inr n ↦ rw n (rw n refl)
]

-- A line that starts with no blank: its first word, and the words of the rest.
words-token :
    (c : ℕ) (s : Bytes)
    → is_break c ≡ false
    → words (c ∷ s) ≡ token (c ∷ s) ∷ words (skip_break (after_token (c ∷ s)))
unfolding words token after_token skip_break
words-token c [] h = rw h refl
words-token c (d ∷ s) h = elim (Bool-cases (is_break d)) [
  | inl b ↦ simp (h, b, words-skip_break s)
  | inr n ↦ simp (h, n) (ap (cons_first c) (simp n at (words-token d s n)))
]

length-skip_break : (s : Bytes) → length (skip_break s) ≤ length s
unfolding skip_break
length-skip_break [] = omega arith
length-skip_break (c ∷ s) = ground (arith, length-skip_break s)

length-after_token : (s : Bytes) → length (after_token s) ≤ length s
unfolding after_token
length-after_token [] = omega arith
length-after_token (c ∷ s) = ground (arith, length-after_token s)

-- What the loop meets: the empty string, or one with no blank in front.
abbrev StartsWord : Bytes → Type 0
StartsWord [] = Unit {0}
StartsWord (c ∷ s) = is_break c ≡ false

skip_break-StartsWord : (s : Bytes) → StartsWord (skip_break s)
unfolding skip_break
skip_break-StartsWord [] = tt
skip_break-StartsWord (c ∷ s) = elim (Bool-cases (is_break c)) [
  | inl b ↦ rw b (skip_break-StartsWord s)
  | inr n ↦ rw n n
]

abbrev continue : ℕ → Bytes → Vector Bytes → Option (Vector Bytes)
continue fuel rest w = elim rest [ [] ↦ some w | c ∷ r ↦ split_loop fuel (c ∷ r) w ]

-- The loop returns, and has appended the words of what it was given.
abbrev Splits : ℕ → Bytes → Vector Bytes → List Bytes → Type 0
Splits fuel cp v ws =
    (w : Vector Bytes) × (split_loop fuel cp v ≡ some w) × Holds w (ws ++ words cp)

continue-Holds :
    (fuel : ℕ) (rest : Bytes) (w : Vector Bytes) (ws : List Bytes)
    → StartsWord rest
    → length rest ≤ fuel
    → ((c : ℕ) (s : Bytes) → is_break c ≡ false → length s < fuel → Splits fuel (c ∷ s) w ws)
    → Holds w ws
    → (x : Vector Bytes) × (continue fuel rest w ≡ some x) × Holds x (ws ++ words rest)
continue-Holds fuel [] w ws h f ih d = (w, refl, unfold words in rw append-nil d)
continue-Holds fuel (c ∷ s) w ws h f ih d = ih c s h f

rest-shorter :
    (c : ℕ) (s : Bytes) → is_break c ≡ false → length (skip_break (after_token (c ∷ s))) ≤ length s
unfolding after_token
rest-shorter c s n = rw n (omega (arith, length-skip_break (after_token s), length-after_token s))

split_loop-suc :
    (fuel : ℕ) (c : ℕ) (s : Bytes) (v w : Vector Bytes) (ws : List Bytes)
    → is_break c ≡ false
    → length s ≤ fuel
    → vector_set v (some (token (c ∷ s))) ≡ some (w, length ws)
    → Holds w (ws ++ token (c ∷ s) ∷ [])
    → ((c' : ℕ) (s' : Bytes)
        → is_break c' ≡ false
        → length s' < fuel
        → Splits fuel (c' ∷ s') w (ws ++ token (c ∷ s) ∷ []))
    → Splits (suc fuel) (c ∷ s) v ws
unfolding split_loop
split_loop-suc fuel c s v w ws n f e dw ih =
    let rest = skip_break (after_token (c ∷ s)) in
    let (x, r, dx) =
      continue-Holds fuel rest w (ws ++ token (c ∷ s) ∷ [])
        (skip_break-StartsWord (after_token (c ∷ s))) (omega (arith, rest-shorter c s n)) ih dw in
    (x, rw e r, rw (words-token c s n) (rw append_assoc at dx))

split_loop-Splits :
    (fuel : ℕ) (c : ℕ) (s : Bytes) (v : Vector Bytes) (ws : List Bytes)
    → is_break c ≡ false
    → length s < fuel
    → length ws + fuel ≤ 2 ^ 31
    → Holds v ws
    → Splits fuel (c ∷ s) v ws
split_loop-Splits zero c s v ws n f h d = absurd (omega arith)
split_loop-Splits (suc fuel) c s v ws n f h d =
    let (w, e, dw) = vector_set-Holds v ws d (token (c ∷ s)) (omega arith) in
    split_loop-suc fuel c s v w ws n (omega arith) e dw λ c' s' n' f'.
      split_loop-Splits fuel c' s' w (ws ++ token (c ∷ s) ∷ []) n' f'
        (omega (arith, length-append ws (token (c ∷ s) ∷ []))) dw

-- A split string holds the words `ws`; NULL stands for no words to run.
abbrev pub Answer : Option (List Bytes) → Option (Option (Vector Bytes)) → Type 0
Answer none r = r ≡ some none
Answer (some ws) r = (v : Vector Bytes) × (r ≡ some (some v)) × Holds v ws

line_words-token :
    (c : ℕ) (s : Bytes)
    → is_break c ≡ false
    → line_words (c ∷ s) ≡ (if c == b'!' || c == b'#' then none else some (words (c ∷ s)))
unfolding line_words token
line_words-token c s n = rw (words-token c s n) (simp n)

split_line-some :
    (string : Bytes) (c : ℕ) (s : Bytes)
    → is_break c ≡ false
    → length s ≤ length string
    → length string < 2 ^ 30
    → (b : Bool)
    → Answer (if b then none else some (words (c ∷ s))) (
        if b
        then some none
        else (split_loop (suc (length string)) (c ∷ s) (vector_init 1) >>= λ (v : Vector Bytes).
            some (some v)))
split_line-some string c s n f h true = refl
split_line-some string c s n f h false =
    let (w, e, d) =
      split_loop-Splits (suc (length string)) c s (vector_init 1) [] n (omega arith) (omega arith)
        (vector_init-Holds 1 (omega arith)) in
    (w, rw e refl, d)

split_line-Answer :
    (string : Bytes) (s : Bytes)
    → StartsWord s
    → length s ≤ length string
    → length string < 2 ^ 30
    → Answer (line_words s) (split_line string s)
unfolding split_line
split_line-Answer string [] n f h = unfold line_words in refl
split_line-Answer string (c ∷ s) n f h =
    rw (line_words-token c s n)
      (split_line-some string c s n (omega arith) h (c == b'!' || c == b'#'))

-- `skip_space` tests fewer characters than the loop does, and stops at the same place.
is_break-is_space : (c : ℕ) → is_break c ≡ is_space c
unfolding is_break is_space
is_break-is_space c = ground arith

skip_space-eq : (s : Bytes) → skip_space s ≡ skip_break s
unfolding skip_space skip_break
skip_space-eq [] = refl
skip_space-eq (c ∷ s) = rw (is_break-is_space c) (rw (skip_space-eq s) refl)

line_words-skip_space : (s : Bytes) → line_words (skip_space s) ≡ line_words s
unfolding line_words
line_words-skip_space s = rw (skip_space-eq s) (rw (words-skip_break s) refl)

pub skip-Answer :
    (s : Bytes) → length s < 2 ^ 30 → Answer (line_words s) (split_line s (skip_space s))
skip-Answer s h = rw (← line_words-skip_space s) (
    split_line-Answer s (skip_space s) (rw (skip_space-eq s) (skip_break-StartsWord s))
      (rw (skip_space-eq s) (length-skip_break s)) h)

-- For a line shorter than 2 ^ 30, `cmd_make_strvec_old` returns: NULL if the line is blank or its
-- first word starts with `!` or `#`, and otherwise a vector that holds exactly the line's words.
pub cmd_make_strvec_old-Answer :
    (s : Bytes) → length s < 2 ^ 30 → Answer (line_words s) (cmd_make_strvec_old (some s))
unfolding cmd_make_strvec_old
cmd_make_strvec_old-Answer s h = skip-Answer s h
