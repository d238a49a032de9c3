-- ===== src/Utils/Mac.antt =====
-- utils.c: `is_mac_valid`.
use mksh.Prelude.{
  ℕ, zero, suc, ◌+◌, ◌*◌, ◌≤◌, ◌≡◌, refl, inr, ◌⊎◌, ◌↔◌, Bool, true, false, not, [], ◌∷◌, ◌++◌,
  arith, ◌==◌, if◌then◌else◌, length, ==→eq,
}
use mksh.Cstr.{Bytes, is_digit, to_upper, is_lower}
use mksh.Utils.{is_hex, is_sep, mac_rounds, is_mac_valid}

abbrev pub Between : ℕ → ℕ → ℕ → Type 0
Between a c b = (a ≤ c) × (c ≤ b)

abbrev pub IsHex : ℕ → Type 0
IsHex c = Between b'0' c b'9' ⊎ (Between b'A' c b'F' ⊎ Between b'a' c b'f')

abbrev pub IsSep : ℕ → Type 0
IsSep c = (c ≡ b'-') ⊎ (c ≡ b':')

-- `n` pairs of hexadecimal digits, with a separator between each two.
pub data Pairs : ℕ → Bytes → Type 0 where
  pair : {a b : ℕ} → IsHex a → IsHex b → Pairs 1 (a ∷ b ∷ [])
  more :
      {n a b c : ℕ} {s : Bytes}
      → IsHex a
      → IsHex b
      → IsSep c
      → Pairs n s
      → Pairs (suc n) (a ∷ b ∷ c ∷ s)

is_hex-IsHex : (c : ℕ) → is_hex c ≡ true → IsHex c
unfolding is_hex is_digit to_upper is_lower
is_hex-IsHex c h = ground arith

IsHex-is_hex : (c : ℕ) → IsHex c → is_hex c ≡ true
unfolding is_hex is_digit to_upper is_lower
IsHex-is_hex c h = ground arith

is_sep-IsSep : (c : ℕ) → is_sep c ≡ true → IsSep c
unfolding is_sep
is_sep-IsSep c h = ground arith

IsSep-is_sep : (c : ℕ) → IsSep c → is_sep c ≡ true
unfolding is_sep
IsSep-is_sep c h = ground arith

Rounds : ℕ → ℕ → ℕ → ℕ → Bytes → Type 0
Rounds n a b c s =
    (is_hex a ≡ true) × (is_hex b ≡ true) × (is_sep c ≡ true) × (mac_rounds n s ≡ true)

mac_rounds-Rounds :
    (n a b c : ℕ) (s : Bytes) → mac_rounds (suc n) (a ∷ b ∷ c ∷ s) ≡ true → Rounds n a b c s
unfolding mac_rounds Rounds
mac_rounds-Rounds n a b c s h = (ground arith, ground arith, ground arith, ground arith)

Rounds-mac_rounds :
    (n a b c : ℕ) (s : Bytes) → Rounds n a b c s → mac_rounds (suc n) (a ∷ b ∷ c ∷ s) ≡ true
unfolding mac_rounds Rounds
Rounds-mac_rounds n a b c s (h, k, l, m) = rw (h, k, l, m) refl

rounds-Pairs :
    (n : ℕ) (s : Bytes)
    → length s ≡ 3 * n + 2
    → mac_rounds (suc n) (s ++ b':' ∷ []) ≡ true
    → Pairs (suc n) s
unfolding Rounds
rounds-Pairs n [] l h = absurd (omega arith)
rounds-Pairs n (a ∷ []) l h = absurd (omega arith)
rounds-Pairs zero (a ∷ b ∷ []) l h =
    let (p, q, r, t) = mac_rounds-Rounds 0 a b b':' [] h in
    pair (is_hex-IsHex a p) (is_hex-IsHex b q)
rounds-Pairs (suc n) (a ∷ b ∷ []) l h = absurd (omega arith)
rounds-Pairs zero (a ∷ b ∷ c ∷ s) l h = absurd (omega arith)
rounds-Pairs (suc n) (a ∷ b ∷ c ∷ s) l h =
    let (p, q, r, t) = mac_rounds-Rounds (suc n) a b c (s ++ b':' ∷ []) h in
    more (is_hex-IsHex a p) (is_hex-IsHex b q) (is_sep-IsSep c r) (rounds-Pairs n s (omega arith) t)

Pairs-rounds :
    (n : ℕ) (s : Bytes)
    → Pairs n s
    → (mac_rounds n (s ++ b':' ∷ []) ≡ true) × (length s + 1 ≡ 3 * n)
unfolding Rounds mac_rounds
Pairs-rounds n s (pair {a = a} {b = b} p q) = (
  Rounds-mac_rounds 0 a b b':' []
      (IsHex-is_hex a p, IsHex-is_hex b q, IsSep-is_sep b':' (inr refl), refl),
  refl,
)
Pairs-rounds n s (more {n = k} {a = a} {b = b} {c = c} {s = t} p q r m) =
    let (e, l) = Pairs-rounds k t m in
    (
      Rounds-mac_rounds k a b c (t ++ b':' ∷ [])
          (IsHex-is_hex a p, IsHex-is_hex b q, IsSep-is_sep c r, e),
      omega (arith, l),
    )

length-test : (s : Bytes) → length s ≡ 17 → (length s == 17) ≡ true
length-test s e = rw e refl

guarded : (b r : Bool) → (if not b then false else r) ≡ true → (b ≡ true) × (r ≡ true)
guarded true r h = (refl, h)
guarded false r h = cc

guard : (b r : Bool) → b ≡ true → r ≡ true → (if not b then false else r) ≡ true
guard b r h k = rw (h, k) refl

-- `is_mac_valid` takes exactly the texts of six pairs of hexadecimal digits with a `-` or a `:`
-- between each two. The separators of one text may differ.
pub is_mac_valid-Pairs : (s : Bytes) → (is_mac_valid s ≡ true) ↔ Pairs 6 s
unfolding is_mac_valid
is_mac_valid-Pairs s =
    let long = length s == 17 in
    let rounds = mac_rounds 6 (s ++ b':' ∷ []) in
    (
      λ h. let (l, r) = guarded long rounds h in rounds-Pairs 5 s (==→eq (length s) 17 l) r,
      λ m.
          let (r, l) = Pairs-rounds 6 s m in guard long rounds (length-test s (omega (arith, l))) r,
    )
