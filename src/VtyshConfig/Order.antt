-- ===== src/VtyshConfig/Order.antt =====
-- The order of `strcmp`.
use mksh.Prelude.{
  ℕ, ◌≡◌, refl, true, false, [], ◌∷◌, ltb, ◌==◌, Bool-cases, inl, inr, ◌∙◌, sym, arith,
}
use mksh.Cstr.{Bytes}
use mksh.VtyshConfig.{str_lt}

pub str_lt_asym : (s t : Bytes) → str_lt s t ≡ true → str_lt t s ≡ false
unfolding str_lt
str_lt_asym [] [] h = refl
str_lt_asym [] (d ∷ t) h = refl
str_lt_asym (c ∷ s) [] h = absurd (never h)
  where
    never : false ≡ true → ⊥
    never e = cc
str_lt_asym (c ∷ s) (d ∷ t) h = elim (Bool-cases (c == d)) [
  | inl e ↦
      let g : str_lt (c ∷ s) (d ∷ t) ≡ str_lt s t = rw e refl in
      rw (flip c d e) (str_lt_asym s t (sym g ∙ h))
  | inr e ↦
      let g : str_lt (c ∷ s) (d ∷ t) ≡ ltb c d = rw e refl in
      let l : ltb c d ≡ true = sym g ∙ h in rw (flip_ne c d e) (above c d l)
]
  where
    flip : (c d : ℕ) → (c == d) ≡ true → (d == c) ≡ true
    flip c d e = ground arith

    flip_ne : (c d : ℕ) → (c == d) ≡ false → (d == c) ≡ false
    flip_ne c d e = ground arith

    above : (c d : ℕ) → ltb c d ≡ true → ltb d c ≡ false
    above c d e = ground arith

equal : (b c d : ℕ) → (c == b) ≡ true → (d == c) ≡ true → (d == b) ≡ true
equal b c d e f = ground arith

above_left :
    (b c d : ℕ)
    → (c == b) ≡ true
    → (d == c) ≡ false
    → ltb d c ≡ false
    → ((d == b) ≡ false) × (ltb d b ≡ false)
above_left b c d e f g = (ground arith, ground arith)

above_right :
    (b c d : ℕ)
    → (c == b) ≡ false
    → ltb c b ≡ false
    → ltb d c ≡ false
    → ((d == b) ≡ false) × (ltb d b ≡ false)
above_right b c d e f g = (ground arith, ground arith)

-- The first byte of a string that is not below another.
not_below : (s t : Bytes) (c d : ℕ) → str_lt (d ∷ t) (c ∷ s) ≡ false → ltb d c ≡ false
unfolding str_lt
not_below s t c d k = elim (Bool-cases (d == c)) [
  | inl e ↦ ground arith
  | inr e ↦ let g : str_lt (d ∷ t) (c ∷ s) ≡ ltb d c = rw e refl in sym g ∙ k
]

-- A string is not below another if it is not below one that is not below the other.
pub str_lt_trans : (r s t : Bytes) → str_lt s r ≡ false → str_lt t s ≡ false → str_lt t r ≡ false
unfolding str_lt
str_lt_trans [] [] [] h k = refl
str_lt_trans [] [] (d ∷ t) h k = refl
str_lt_trans [] (c ∷ s) [] h k = refl
str_lt_trans [] (c ∷ s) (d ∷ t) h k = refl
str_lt_trans (b ∷ r) [] t h k = absurd (never h)
  where
    never : true ≡ false → ⊥
    never e = cc
str_lt_trans (b ∷ r) (c ∷ s) [] h k = absurd (never k)
  where
    never : true ≡ false → ⊥
    never e = cc
str_lt_trans (b ∷ r) (c ∷ s) (d ∷ t) h k = elim (Bool-cases (c == b)) [
  | inl e ↦ elim (Bool-cases (d == c)) [
    | inl f ↦
        let g : str_lt (c ∷ s) (b ∷ r) ≡ str_lt s r = rw e refl in
        let i : str_lt (d ∷ t) (c ∷ s) ≡ str_lt t s = rw f refl in
        rw (equal b c d e f) (str_lt_trans r s t (sym g ∙ h) (sym i ∙ k))
    | inr f ↦
        let i : str_lt (d ∷ t) (c ∷ s) ≡ ltb d c = rw f refl in
        let (x, y) = above_left b c d e f (sym i ∙ k) in rw x y
  ]
  | inr e ↦
      let g : str_lt (c ∷ s) (b ∷ r) ≡ ltb c b = rw e refl in
      let (x, y) = above_right b c d e (sym g ∙ h) (not_below s t c d k) in rw x y
]
