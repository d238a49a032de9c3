-- ===== src/Match/Range/Decimal.antt =====
-- `cmd_range_match` on decimal numbers.
use native.Mathlib.Nat.{pow-suc, one-le-pow}
use mksh.Prelude.{
  ℕ, zero, suc, ◌+◌, ◌-◌, ◌*◌, ◌%◌, ◌^◌, ◌≤◌, ◌<◌, ◌≡◌, ◌≢◌, refl, ap, ◌∙◌, inl, inr, Bool,
  Bool-cases, true, false, ◌&&◌, ltb, some, [], ◌∷◌, ◌++◌, arith, leb, ◌==◌, length, le→ltb,
}
use mksh.Cstr.{Bytes, is_space, is_digit, str_chr, digits, after_digits, value, value_from}
use mksh.Match.Ipv4.Quad.{AllDigits}
use mksh.Match.Range.{
  skip_space, to_ulong, number, strtoul, decimal_strlen_max, bound, in_range, cmd_range_match,
}

-- A decimal number without sign or blanks.
pub record IsDecimal (s : Bytes) : Type 0 where
  pub digits : AllDigits s
  pub some_digit : s ≢ []

digits-all : (s : Bytes) → AllDigits s → digits s ≡ s
unfolding digits
digits-all [] d = refl
digits-all (c ∷ s) d = rw d.0 (ap (λ t. c ∷ t) (digits-all s d.1))

after_digits-all : (s : Bytes) → AllDigits s → after_digits s ≡ []
unfolding after_digits
after_digits-all [] d = refl
after_digits-all (c ∷ s) d = rw d.0 (after_digits-all s d.1)

number-all :
    (whole : Bytes) (negative : Bool) (s : Bytes)
    → IsDecimal s
    → number whole negative s ≡ (to_ulong negative (value s), [])
unfolding number
number-all whole negative [] i = absurd (i.some_digit refl)
number-all whole negative (c ∷ s) i =
    rw (digits-all (c ∷ s) i.digits) (rw (after_digits-all (c ∷ s) i.digits) refl)

digit-no-space : (c : ℕ) → is_digit c ≡ true → is_space c ≡ false
unfolding is_digit is_space
digit-no-space c h = ground arith

digit-no-sign : (c : ℕ) → is_digit c ≡ true → ((c == b'-') ≡ false) × ((c == b'+') ≡ false)
unfolding is_digit
digit-no-sign c h = (ground arith, ground arith)

-- `strtoul` reads a decimal number to its end.
pub strtoul-decimal : (s : Bytes) → IsDecimal s → strtoul s ≡ (to_ulong false (value s), [])
unfolding strtoul skip_space
strtoul-decimal [] i = absurd (i.some_digit refl)
strtoul-decimal (c ∷ s) i =
    let (minus, plus) = digit-no-sign c i.digits.0 in
    rw (digit-no-space c i.digits.0) (rw minus (rw plus (number-all (c ∷ s) false (c ∷ s) i)))

strtoul-negative : (s : Bytes) → IsDecimal s → strtoul (b'-' ∷ s) ≡ (to_ulong true (value s), [])
unfolding strtoul skip_space is_space
strtoul-negative s i = number-all (b'-' ∷ s) true s i

digit-not : (c sep : ℕ) → is_digit c ≡ true → is_digit sep ≡ false → (c == sep) ≡ false
unfolding is_digit
digit-not c sep d h = ground arith

str_chr-append :
    (sep : ℕ) (s t : Bytes)
    → AllDigits s
    → is_digit sep ≡ false
    → str_chr sep (s ++ sep ∷ t) ≡ some (s, t)
unfolding str_chr
str_chr-append sep [] t d h = ground arith
str_chr-append sep (c ∷ s) t d h =
    rw (digit-not c sep d.0 h) (rw (str_chr-append sep s t d.1 h) refl)

bound-decimal :
    (sep : ℕ) (s t : Bytes)
    → is_digit sep ≡ false
    → IsDecimal s
    → length s ≤ decimal_strlen_max
    → bound sep (s ++ sep ∷ t) ≡ some (to_ulong false (value s), t)
unfolding bound
bound-decimal sep s t h i l =
    rw (str_chr-append sep s t i.digits h, bound)
      (rw (le→ltb decimal_strlen_max (length s) l) (rw (strtoul-decimal s i) refl))

digit-value : (c : ℕ) → is_digit c ≡ true → c - b'0' ≤ 9
unfolding is_digit
digit-value c h = ground arith

-- At most `k` digits have a value below the `k`th power of ten.
value_from-lt :
    (n : ℕ) (s : Bytes) (b k : ℕ) → AllDigits s → length s ≤ k → n < b → value_from n s < b * 10 ^ k
unfolding value_from
value_from-lt n [] b k d l h = let p : 1 ≤ 10 ^ k = one-le-pow k 10 (omega arith) in grind arith
value_from-lt n (c ∷ s) b zero d l h = absurd (omega arith)
value_from-lt n (c ∷ s) b (suc k) d l h = omega (
  arith,
  value_from-lt (n * 10 + (c - b'0')) s (b * 10) k d.1 (omega arith)
      (omega (arith, digit-value c d.0)),
  ap (λ (t : ℕ). b * t) (pow-suc 10 k),
)

to_ulong-small : (n : ℕ) → n < 2 ^ 64 → to_ulong false n ≡ n
unfolding to_ulong
to_ulong-small n h = ground arith

bound-value :
    (sep : ℕ) (s t : Bytes)
    → is_digit sep ≡ false
    → IsDecimal s
    → length s ≤ decimal_strlen_max
    → bound sep (s ++ sep ∷ t) ≡ some (value s, t)
bound-value sep s t h i l =
    bound-decimal sep s t h i l
    ∙ ap (λ n. some (n, t))
        (to_ulong-small (value s) (omega (arith, value_from-lt 0 s 1 10 i.digits l (omega arith))))

-- A negation lies between bounds of ten digits exactly when nothing is cut off.
wraps :
    (v lo hi : ℕ)
    → hi < 1 * 10 ^ 10
    → (leb lo (to_ulong true v) && leb (to_ulong true v) hi)
      ≡ (ltb v (2 ^ 64) && (leb lo ((2 ^ 64 - v) % 2 ^ 64) && leb ((2 ^ 64 - v) % 2 ^ 64) hi))
unfolding to_ulong
wraps v lo hi b = elim (Bool-cases (leb (2 ^ 64) v)) [
  | inl out ↦
      let low : ltb v (2 ^ 64) ≡ false = ground arith in
      let above : leb (2 ^ 64 - 1) hi ≡ false = ground arith in
      rw out (rw low (rw above (and-false _)))
  | inr fits ↦ let low : ltb v (2 ^ 64) ≡ true = ground arith in rw fits (rw low refl)
]
  where
    and-false : (c : Bool) → (c && false) ≡ false
    and-false true = refl
    and-false false = refl

module _ (lo hi rest : Bytes) (l : IsDecimal lo) (h : IsDecimal hi) where
  module _ (ll : length lo ≤ 10) (lh : length hi ≤ 10) where
    in_range-decimal :
        (val : ℕ)
        → in_range val (lo ++ b'-' ∷ (hi ++ b'>' ∷ rest))
          ≡ (leb (value lo) val && leb val (value hi))
    unfolding in_range
    in_range-decimal val =
        rw (bound-value b'-' lo (hi ++ b'>' ∷ rest) (unfold is_digit in refl) l ll, in_range)
          (rw (bound-value b'>' hi rest (unfold is_digit in refl) h lh) (ground arith))

    -- Against the range of two decimal numbers of at most ten digits, a decimal number that fits an
    -- `unsigned long` matches exactly when its value lies between theirs.
    pub cmd_range_match-decimal :
        (w : Bytes)
        → IsDecimal w
        → value w < 2 ^ 64
        → cmd_range_match (b'<' ∷ (lo ++ b'-' ∷ (hi ++ b'>' ∷ rest))) (some w)
          ≡ (leb (value lo) (value w) && leb (value w) (value hi))
    unfolding cmd_range_match
    cmd_range_match-decimal w i f =
        rw (strtoul-decimal w i, cmd_range_match)
          (rw (to_ulong-small (value w) f) (in_range-decimal (value w)))

    -- Against the range of two decimal numbers of at most ten digits, the negation of a decimal number
    -- matches exactly when the number is below 2 ^ 64 and its negation modulo 2 ^ 64 lies in the range.
    pub cmd_range_match-negative :
        (w : Bytes)
        → IsDecimal w
        → cmd_range_match (b'<' ∷ (lo ++ b'-' ∷ (hi ++ b'>' ∷ rest))) (some (b'-' ∷ w)) ≡ (
            ltb (value w) (2 ^ 64)
            && (leb (value lo) ((2 ^ 64 - value w) % 2 ^ 64)
                && leb ((2 ^ 64 - value w) % 2 ^ 64) (value hi)))
    unfolding cmd_range_match
    cmd_range_match-negative w i =
        rw (strtoul-negative w i, cmd_range_match)
          (rw (in_range-decimal (to_ulong true (value w))) (
            wraps (value w) (value lo) (value hi)
              (value_from-lt 0 hi 1 10 h.digits lh (omega arith))))
