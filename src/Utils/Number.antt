-- ===== src/Utils/Number.antt =====
-- utils.c: `is_number`.
use mksh.Prelude.{ℕ, ◌≡◌, ◌≢◌, refl, ◌↔◌, true, [], ◌∷◌, arith}
use mksh.Cstr.{Bytes, is_digit}
use mksh.Match.Ipv4.Quad.{AllDigits}
use mksh.Utils.{is_number}

number-AllDigits : (s : Bytes) → is_number s ≡ true → AllDigits s
unfolding is_number
number-AllDigits [] h = tt
number-AllDigits (c ∷ []) h = ground arith
number-AllDigits (c ∷ d ∷ s) h = ground (arith, number-AllDigits (d ∷ s))

AllDigits-number : (c : ℕ) (s : Bytes) → AllDigits (c ∷ s) → is_number (c ∷ s) ≡ true
unfolding is_number
AllDigits-number c [] h = ground arith
AllDigits-number c (d ∷ s) h = ground (arith, AllDigits-number d s)

is_number-not-empty : (s : Bytes) → is_number s ≡ true → s ≢ []
unfolding is_number is_digit
is_number-not-empty [] h = cc
is_number-not-empty (c ∷ s) h = λ e. cc

-- `is_number` takes exactly the texts of digits that are not empty.
pub is_number-AllDigits : (s : Bytes) → (is_number s ≡ true) ↔ ((s ≢ []) × AllDigits s)
is_number-AllDigits [] = (λ h. (is_number-not-empty [] h, tt), λ k. absurd (k.0 refl))
is_number-AllDigits (c ∷ s) = (
  λ h. (is_number-not-empty (c ∷ s) h, number-AllDigits (c ∷ s) h),
  λ k. AllDigits-number c s k.1,
)
