-- ===== src/Command/Descvec/Ends.antt =====
-- The end of the reader of specifications.
use mksh.Prelude.{
  ℕ, zero, suc, ◌≤◌, ◌<◌, ◌≡◌, ◌≢◌, refl, ap, inl, inr, ◌⊎◌, true, false, Option, List, [], ◌∷◌,
  arith, ◌==◌, length, Bool-cases, ==→eq,
}
use mksh.Cstr.{Bytes, is_space}
use mksh.Command.Element.{Desc}
use mksh.Command.Descvec.{
  skip_space, ends_word, after_word, eat, Cursor, open_group, close_group, blanks, pass_bar,
  bar_outside, to_bar, to_word, parsed, parse_error, out_of_fuel, word, after_add, add_word,
  cmd_desc_str, descvec_loop, cmd_make_descvec,
}

length-skip_space : (s : Bytes) → length (skip_space s) ≤ length s
unfolding skip_space
length-skip_space [] = omega arith
length-skip_space (c ∷ s) = ground (arith, length-skip_space s)

length-eat : (c : ℕ) (s : Bytes) → length (eat c s) ≤ length s
unfolding eat
length-eat c [] = ground arith
length-eat c (d ∷ s) = ground arith

length-after_word : (s : Bytes) → length (after_word s) ≤ length s
unfolding after_word
length-after_word [] = omega arith
length-after_word (c ∷ s) = ground (arith, length-after_word s)

abbrev bar_on : Bytes → Bytes
bar_on t = after_word (eat b'(' (skip_space (eat b'|' t)))

bar_on-le : (t : Bytes) → length (bar_on t) ≤ length t
bar_on-le t = omega (
  arith,
  length-after_word (eat b'(' (skip_space (eat b'|' t))),
  length-eat b'(' (skip_space (eat b'|' t)),
  length-skip_space (eat b'|' t),
  length-eat b'|' t,
)

eat-hit : (c : ℕ) (s : Bytes) → eat c (c ∷ s) ≡ s
unfolding eat
eat-hit c s = ground arith

eat-miss : (c d : ℕ) (s : Bytes) → (d == c) ≡ false → eat c (d ∷ s) ≡ d ∷ s
unfolding eat
eat-miss c d s h = rw h refl

skip_space-hit : (c : ℕ) (s : Bytes) → is_space c ≡ true → skip_space (c ∷ s) ≡ skip_space s
unfolding skip_space
skip_space-hit c s h = rw h refl

skip_space-miss : (c : ℕ) (s : Bytes) → is_space c ≡ false → skip_space (c ∷ s) ≡ c ∷ s
unfolding skip_space
skip_space-miss c s h = rw h refl

after_word-miss :
    (c : ℕ) (s : Bytes)
    → is_space c ≡ false
    → (c == b')') ≡ false
    → (c == b'|') ≡ false
    → after_word (c ∷ s) ≡ after_word s
unfolding after_word ends_word is_space
after_word-miss c s h p q = ground arith

abbrev round_on : Bytes → Bytes
round_on s = bar_on (eat b')' (eat b'(' (skip_space s)))

from_open : (t : Bytes) → length (bar_on (eat b')' t)) ≤ length t
from_open t = omega (arith, bar_on-le (eat b')' t), length-eat b')' t)

plain-shorter :
    (c : ℕ) (s : Bytes)
    → is_space c ≡ false
    → (c == b'(') ≡ false
    → (c == b')') ≡ false
    → (c == b'|') ≡ false
    → length (round_on (c ∷ s)) ≤ length s
plain-shorter c s h o p q =
    simp
      (
        skip_space-miss c s h,
        eat-miss b'(' c s o,
        eat-miss b')' c s p,
        eat-miss b'|' c s q,
        after_word-miss c s h p q,
      )
      (length-after_word s)

round_on-shorter : (c : ℕ) (s : Bytes) → length (round_on (c ∷ s)) ≤ length s
round_on-shorter c s = elim (Bool-cases (is_space c)) [
  | inl h ↦ simp (skip_space-hit c s h) (
      omega (
        arith,
        from_open (eat b'(' (skip_space s)),
        length-eat b'(' (skip_space s),
        length-skip_space s,
      ))
  | inr h ↦ elim (Bool-cases (c == b'(')) [
    | inl o ↦
        rw (==→eq c b'(' o)
          (simp (skip_space-miss b'(' s (unfold is_space in refl), eat-hit b'(' s) (from_open s))
    | inr o ↦ elim (Bool-cases (c == b')')) [
      | inl p ↦ rw (==→eq c b')' p) (
          simp
            (
              skip_space-miss b')' s (unfold is_space in refl),
              eat-miss b'(' b')' s refl,
              eat-hit b')' s,
            )
            (bar_on-le s))
      | inr p ↦ elim (Bool-cases (c == b'|')) [
        | inl q ↦ rw (==→eq c b'|' q) (
            simp
              (
                skip_space-miss b'|' s (unfold is_space in refl),
                eat-miss b'(' b'|' s refl,
                eat-miss b')' b'|' s refl,
                eat-hit b'|' s,
              )
              (omega (
                arith,
                length-after_word (eat b'(' (skip_space s)),
                length-eat b'(' (skip_space s),
                length-skip_space s,
              )))
        | inr q ↦ plain-shorter c s h o p q
      ]
    ]
  ]
]

-- One round on a text that is not empty leaves less.
word-shorter :
    (t : Cursor) (d : ℕ) (r : Bytes)
    → t.cp ≡ d ∷ r
    → length (after_word (to_word (to_bar t)).cp) ≤ length r
unfolding to_word to_bar open_group close_group blanks pass_bar
word-shorter t d r h = rw h (round_on-shorter d r)

round_on-nil : (t : Cursor) → t.cp ≡ [] → (to_word (to_bar t)).cp ≡ []
unfolding to_word to_bar open_group close_group blanks pass_bar skip_space eat
round_on-nil t h = rw h refl

module _ (fuel : ℕ) (dp : Option Bytes) (allvec : List (List Desc)) where
  loop-error :
      (t : Cursor)
      → bar_outside (to_bar t) ≡ true
      → descvec_loop (suc fuel) t dp allvec ≡ parse_error
  unfolding descvec_loop
  loop-error t h = rw (h, descvec_loop) refl

  loop-end :
      (t : Cursor)
      → bar_outside (to_bar t) ≡ false
      → (to_word (to_bar t)).cp ≡ []
      → descvec_loop (suc fuel) t dp allvec ≡ parsed allvec
  unfolding descvec_loop
  loop-end t h e = rw (h, descvec_loop) (rw (e, descvec_loop) refl)

  abbrev new_desc : ℕ → Bytes → Desc
  new_desc c s = record { cmd = word (c ∷ s); str = (cmd_desc_str dp).0 }

  loop-word :
      (t : Cursor) (c : ℕ) (s : Bytes)
      → bar_outside (to_bar t) ≡ false
      → (to_word (to_bar t)).cp ≡ c ∷ s
      → descvec_loop (suc fuel) t dp allvec
        ≡ descvec_loop fuel
            (record { cp = after_word (c ∷ s); multiple = after_add (to_word (to_bar t)).multiple })
            (cmd_desc_str dp).1
            (add_word (to_word (to_bar t)).multiple allvec (new_desc c s))
  unfolding descvec_loop
  loop-word t c s h e = rw (h, descvec_loop) (rw (e, descvec_loop) refl)

List-cases : (s : Bytes) → (s ≡ []) ⊎ ((c : ℕ) × (r : Bytes) × (s ≡ c ∷ r))
List-cases [] = inl refl
List-cases (c ∷ r) = inr (c, r, refl)

cursor-shorter :
    (t : Cursor) (c : ℕ) (s : Bytes)
    → (to_word (to_bar t)).cp ≡ c ∷ s
    → length (after_word (c ∷ s)) < length t.cp
cursor-shorter t c s e = elim (List-cases t.cp) [
  | inl n ↦ cc (round_on-nil t n)
  | inr (d, r, n) ↦ omega (arith, ap length n, (rw e at (word-shorter t d r n)))
]

descvec_loop-ends :
    (fuel : ℕ) (t : Cursor) (dp : Option Bytes) (allvec : List (List Desc))
    → length t.cp < fuel
    → descvec_loop fuel t dp allvec ≢ out_of_fuel
descvec_loop-ends zero t dp allvec h = absurd (omega arith)
descvec_loop-ends (suc fuel) t dp allvec h = elim (Bool-cases (bar_outside (to_bar t))) [
  | inl b ↦ rw (loop-error fuel dp allvec t b) (λ e. cc)
  | inr b ↦ elim (List-cases (to_word (to_bar t)).cp) [
    | inl e ↦ rw (loop-end fuel dp allvec t b e) (λ e. cc)
    | inr (c, s, e) ↦ rw (loop-word fuel dp allvec t c s b e) (
        descvec_loop-ends fuel
          (record { cp = after_word (c ∷ s); multiple = after_add (to_word (to_bar t)).multiple })
          (cmd_desc_str dp).1
          (add_word (to_word (to_bar t)).multiple allvec (new_desc fuel dp allvec c s))
          (omega (arith, cursor-shorter t c s e)))
  ]
]

-- `cmd_make_descvec` ends on every specification: it gives the vectors, or ends the program at a
-- bar outside a group.
pub cmd_make_descvec-ends :
    (string : Bytes) (descstr : Option Bytes) → cmd_make_descvec string descstr ≢ out_of_fuel
unfolding cmd_make_descvec
cmd_make_descvec-ends string descstr =
    descvec_loop-ends (suc (length string)) (record { cp = string; multiple = 0 }) descstr []
      (omega arith)
