-- ===== src/Cstr.antt =====
-- C strings, and what the program uses of <string.h>, <ctype.h> and <stdlib.h>. A string is the list
-- of its bytes in front of the NUL, so `*p != '\0'` is a test for the empty list. The locale is "C".
use mksh.Prelude.{
  ℕ, ◌+◌, ◌-◌, ◌*◌, ◌≡◌, ◌≢◌, refl, sym, ap, ◌∙◌, Bool, true, false, ◌&&◌, ◌||◌, Option, none, some,
  List, [], ◌∷◌, inl, inr, ◌++◌, ==→eq, Bool-cases, arith, leb, ◌==◌, if◌then◌else◌,
}

abbrev pub Bytes : Type 0
Bytes = List ℕ

-- `*p`.
abbrev pub byte : Bytes → ℕ
byte [] = 0
byte (c ∷ s) = c

-- `p + 1`, where `*p` is not the NUL.
abbrev pub next : Bytes → Bytes
next [] = []
next (c ∷ s) = s

unfoldable pub is_space : ℕ → Bool
is_space c = c == b' ' || (leb 9 c && leb c 13)

unfoldable pub is_digit : ℕ → Bool
is_digit c = leb b'0' c && leb c b'9'

unfoldable pub is_upper : ℕ → Bool
is_upper c = leb b'A' c && leb c b'Z'

unfoldable pub is_lower : ℕ → Bool
is_lower c = leb b'a' c && leb c b'z'

unfoldable pub is_alpha : ℕ → Bool
unfolding is_upper is_lower
is_alpha c = is_upper c || is_lower c

unfoldable pub to_upper : ℕ → ℕ
unfolding is_lower
to_upper c = if is_lower c then c - 32 else c

unfoldable pub to_lower : ℕ → ℕ
unfolding is_upper
to_lower c = if is_upper c then c + 32 else c

-- `strcmp (s, t) == 0`.
unfoldable pub str_eq : Bytes → Bytes → Bool
str_eq [] [] = true
str_eq [] (d ∷ t) = false
str_eq (c ∷ s) [] = false
str_eq (c ∷ s) (d ∷ t) = c == d && str_eq s t

-- `strncmp (s, t, strlen (s)) == 0`.
unfoldable pub is_prefix : Bytes → Bytes → Bool
is_prefix [] t = true
is_prefix (c ∷ s) [] = false
is_prefix (c ∷ s) (d ∷ t) = c == d && is_prefix s t

-- `strchr (s, c)`: what stands in front of the first `c`, and what behind it.
unfoldable pub str_chr : ℕ → Bytes → Option (Bytes × Bytes)
str_chr c [] = none
str_chr c (d ∷ s) =
    if d == c
    then some ([], s)
    else elim (str_chr c s) [ none ↦ none | some (a, b) ↦ some (d ∷ a, b) ]

-- The longest prefix of digits, and its value in base 10 on top of `n`.
unfoldable pub digits : Bytes → Bytes
unfolding is_digit
digits [] = []
digits (c ∷ s) = if is_digit c then c ∷ digits s else []

unfoldable pub after_digits : Bytes → Bytes
unfolding is_digit
after_digits [] = []
after_digits (c ∷ s) = if is_digit c then after_digits s else c ∷ s

unfoldable pub value_from : ℕ → Bytes → ℕ
value_from n [] = n
value_from n (c ∷ s) = value_from (n * 10 + (c - b'0')) s

-- `atoi (s)` on a string of digits.
abbrev pub value : Bytes → ℕ
value s = value_from 0 s

pub str_eq_refl : (s : Bytes) → str_eq s s ≡ true
unfolding str_eq
str_eq_refl [] = refl
str_eq_refl (c ∷ s) = ground (arith, str_eq_refl s)

pub str_eq→eq : (s t : Bytes) → str_eq s t ≡ true → s ≡ t
unfolding str_eq
str_eq→eq [] [] h = refl
str_eq→eq [] (d ∷ t) h = cc
str_eq→eq (c ∷ s) [] h = cc
str_eq→eq (c ∷ s) (d ∷ t) h = ground (arith, str_eq→eq s t)

-- Texts that `strcmp` tells apart are not the same.
pub str_eq-ne : (s t : Bytes) → str_eq s t ≡ false → s ≢ t
str_eq-ne s t h e = let g : str_eq s t ≡ true = ap (str_eq s) (sym e) ∙ str_eq_refl s in cc

pub str_eq-sym : (s t : Bytes) → str_eq s t ≡ str_eq t s
unfolding str_eq
str_eq-sym [] [] = refl
str_eq-sym [] (d ∷ t) = refl
str_eq-sym (c ∷ s) [] = refl
str_eq-sym (c ∷ s) (d ∷ t) = rw (str_eq-sym s t) (ground arith)

-- A text that starts with another one is that text and a rest.
pub is_prefix-rest : (s t : Bytes) → is_prefix s t ≡ true → (rest : Bytes) × (t ≡ s ++ rest)
unfolding is_prefix
is_prefix-rest [] t h = (t, refl)
is_prefix-rest (c ∷ s) [] h = cc
is_prefix-rest (c ∷ s) (d ∷ t) h = elim (Bool-cases (c == d)) [
  | inl e ↦
      let g : is_prefix (c ∷ s) (d ∷ t) ≡ is_prefix s t = rw e refl in
      let (rest, q) = is_prefix-rest s t (sym g ∙ h) in
      (rest, ap (λ x. x ∷ t) (sym (==→eq c d e)) ∙ ap (λ x. c ∷ x) q)
  | inr ne ↦ let g : is_prefix (c ∷ s) (d ∷ t) ≡ false = rw ne refl in absurd cc
]
