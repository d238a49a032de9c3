-- ===== src/Command/Strvec/Join.antt =====
-- Words printed with a blank between each two, and read back by `cmd_make_strvec_old`.
use mksh.Prelude.{
  ℕ, ◌<◌, ◌^◌, ◌≡◌, ◌≢◌, refl, ap, ◌∙◌, true, false, some, List, [], ◌∷◌, ◌++◌, arith, length,
}
use mathlib.Core.Path.{subst}
use mksh.Cstr.{Bytes, byte, is_space}
use mksh.Vector.{Vector}
use mksh.Vector.Dense.{Holds}
use mksh.Command.Strvec.{is_break, cmd_make_strvec_old}
use mksh.Command.Strvec.Words.{
  cons_first, glue, words, as_line, line_words, Answer, cmd_make_strvec_old-Answer,
}

-- A word has characters, and no white space among them.
abbrev pub Plain : Bytes → Type 0
Plain [] = Unit {0}
Plain (c ∷ w) = (is_break c ≡ false) × Plain w

abbrev pub AllWords : List Bytes → Type 0
AllWords [] = Unit {0}
AllWords (w ∷ ws) = (w ≢ []) × Plain w × AllWords ws

abbrev pub join : List Bytes → Bytes
join [] = []
join (w ∷ []) = w
join (w ∷ u ∷ ws) = w ++ b' ' ∷ join (u ∷ ws)

blank-break : is_break b' ' ≡ true
unfolding is_break is_space
blank-break = refl

words-blank : (s : Bytes) → words (b' ' ∷ s) ≡ words s
unfolding words
words-blank s = rw blank-break refl

words-step :
    (c d : ℕ) (s : Bytes)
    → is_break c ≡ false
    → is_break d ≡ false
    → words (c ∷ d ∷ s) ≡ cons_first c (words (d ∷ s))
unfolding words glue
words-step c d s h k = rw (h, k) refl

words-single : (c : ℕ) (s : Bytes) → is_break c ≡ false → words (c ∷ b' ' ∷ s) ≡ (c ∷ []) ∷ words s
unfolding words glue
words-single c s h = rw (h, blank-break) refl

words-word : (c : ℕ) (w s : Bytes) → Plain (c ∷ w) → words ((c ∷ w) ++ b' ' ∷ s) ≡ (c ∷ w) ∷ words s
unfolding cons_first
words-word c [] s p = words-single c s p.0
words-word c (d ∷ w) s p =
    words-step c d (w ++ b' ' ∷ s) p.0 p.1.0 ∙ ap (cons_first c) (words-word d w s p.1)

words-one : (c : ℕ) → is_break c ≡ false → words (c ∷ []) ≡ (c ∷ []) ∷ []
unfolding words glue
words-one c h = rw h refl

words-last : (c : ℕ) (w : Bytes) → Plain (c ∷ w) → words (c ∷ w) ≡ (c ∷ w) ∷ []
unfolding cons_first
words-last c [] p = words-one c p.0
words-last c (d ∷ w) p = words-step c d w p.0 p.1.0 ∙ ap (cons_first c) (words-last d w p.1)

words-join : (ws : List Bytes) → AllWords ws → words (join ws) ≡ ws
words-join [] a = unfold words in refl
words-join ([] ∷ ws) a = absurd (a.0 refl)
words-join ((c ∷ w) ∷ []) a = words-last c w a.1
words-join ((c ∷ w) ∷ u ∷ ws) a =
    words-word c w (join (u ∷ ws)) a.1 ∙ ap (λ t. (c ∷ w) ∷ t) (words-join (u ∷ ws) a.2)

-- A line that is no comment is its words.
line_words-join :
    (w : Bytes) (ws : List Bytes)
    → AllWords (w ∷ ws)
    → byte w ≢ b'!'
    → byte w ≢ b'#'
    → line_words (join (w ∷ ws)) ≡ some (w ∷ ws)
unfolding line_words as_line
line_words-join w ws a ne nh = rw (words-join (w ∷ ws) a) (ground arith)

-- Words with no white space in them, of which the first starts with neither `!` nor `#`, written with a
-- blank between each two into a line shorter than 2 ^ 30, are what `cmd_make_strvec_old` splits the
-- line into.
pub cmd_make_strvec_old-join :
    (w : Bytes) (ws : List Bytes)
    → AllWords (w ∷ ws)
    → byte w ≢ b'!'
    → byte w ≢ b'#'
    → length (join (w ∷ ws)) < 2 ^ 30
    → (v : Vector Bytes) × (cmd_make_strvec_old (some (join (w ∷ ws))) ≡ some (some v))
      × Holds v (w ∷ ws)
cmd_make_strvec_old-join w ws a ne nh short =
    subst (λ o. Answer o (cmd_make_strvec_old (some (join (w ∷ ws)))))
      (line_words-join w ws a ne nh) (cmd_make_strvec_old-Answer (join (w ∷ ws)) short)
