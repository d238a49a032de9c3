-- ===== src/Match/Ipv4/Slash.antt =====
-- `cmd_ipv4_prefix_match` on addresses with a mask, and on a slash that comes too early.
use mksh.Prelude.{
  ℕ, ◌+◌, ◌-◌, ◌%◌, ◌^◌, ◌≡◌, ◌≢◌, refl, ap, ◌∙◌, inl, inr, Bool, Bool-cases, true, false, not,
  ◌||◌, none, some, [], ◌∷◌, ◌++◌, append_assoc, append-nil, arith, leb, if◌then◌else◌,
}
use mksh.Cstr.{Bytes, byte, is_digit, value}
use mksh.Match.{no_match, exact_match}
use mksh.Match.Ipv4.{
  bad_octet, all_digits, atoi_gt, prefix_mask, prefix_at_dot, prefix_walk, cmd_ipv4_prefix_match,
}
use mksh.Match.Ipv4.Quad.{AllDigits, IsOctet, Octets, one, more, octet_good, Octets-pos}

prefix_digits :
    (a s seg : Bytes) (dots : ℕ)
    → AllDigits a
    → prefix_walk (a ++ s) seg dots ≡ prefix_walk s (seg ++ a) dots
prefix_digits [] s seg dots d = rw (append-nil seg) refl
prefix_digits (c ∷ a) s seg dots d =
    step c (a ++ s) seg dots d.0
    ∙ prefix_digits a s (seg ++ c ∷ []) dots d.1
    ∙ ap (λ t. prefix_walk s t dots) (append_assoc seg (c ∷ []) a)
  where
    step :
        (c : ℕ) (s seg : Bytes) (dots : ℕ)
        → is_digit c ≡ true
        → prefix_walk (c ∷ s) seg dots ≡ prefix_walk s (seg ++ c ∷ []) dots
    step c s seg dots h = unfold prefix_walk in ground arith

prefix_slash :
    (s seg : Bytes) (dots : ℕ)
    → bad_octet seg ≡ false
    → dots ≢ 3
    → prefix_walk (b'/' ∷ s) seg dots ≡ prefix_walk s [] dots
unfolding prefix_walk
prefix_slash s seg dots g n = ground arith

prefix_end :
    (c : ℕ) (s seg : Bytes)
    → bad_octet seg ≡ false
    → prefix_walk (b'/' ∷ c ∷ s) seg 3 ≡ prefix_mask (c ∷ s)
unfolding prefix_walk
prefix_end c s seg g = ground arith

prefix_dot :
    (s seg : Bytes) (dots : ℕ)
    → bad_octet seg ≡ false
    → prefix_at_dot s dots ≡ none
    → prefix_walk (b'.' ∷ s) seg dots ≡ prefix_walk s [] (dots + 1)
unfolding prefix_walk
prefix_dot s seg dots g h = ground arith

prefix_dot_pass :
    (s : Bytes) (dots : ℕ)
    → dots ≢ 3
    → byte s ≢ b'.'
    → byte s ≢ b'/'
    → s ≢ []
    → prefix_at_dot s dots ≡ none
unfolding prefix_at_dot
prefix_dot_pass [] dots h n m k = absurd (k refl)
prefix_dot_pass (c ∷ s) dots h n m k = ground arith

byte-append : (s t : Bytes) → s ≢ [] → byte (s ++ t) ≡ byte s
byte-append [] t h = absurd (h refl)
byte-append (c ∷ s) t h = refl

append-ne-nil : (s t : Bytes) → s ≢ [] → s ++ t ≢ []
append-ne-nil [] t h = absurd (h refl)
append-ne-nil (c ∷ s) t h = λ e. cc

digits-not-slash : (a t : Bytes) → AllDigits a → byte t ≢ b'/' → byte (a ++ t) ≢ b'/'
digits-not-slash [] t d h = h
digits-not-slash (c ∷ a) t d h = unfold is_digit in ground (arith, d.0)

Octets-not-slash : {k : ℕ} {s : Bytes} → Octets k s → byte s ≢ b'/'
Octets-not-slash (one {a = a} o) = rw append-nil at (digits-not-slash a [] o.digits (omega arith))
Octets-not-slash (more {a = a} {s = t} o p q r) =
    digits-not-slash a (b'.' ∷ t) o.digits (omega arith)

address-mask :
    (k : ℕ) (q : Bytes) (c : ℕ) (m : Bytes) (dots : ℕ)
    → Octets k q
    → dots + k ≡ 4
    → prefix_walk (q ++ b'/' ∷ c ∷ m) [] dots ≡ prefix_mask (c ∷ m)
address-mask k q c m dots (one {a = a} o) n =
    let three : dots ≡ 3 = omega arith in
    rw three (prefix_digits a (b'/' ∷ c ∷ m) [] 3 o.digits ∙ prefix_end c m a (octet_good o))
address-mask k q c m dots (more {n = j} {a = a} {s = t} o nnil ndot rest) n =
    let tail : Bytes = t ++ b'/' ∷ c ∷ m in
    ap (λ x. prefix_walk x [] dots) (append_assoc a (b'.' ∷ t) (b'/' ∷ c ∷ m))
    ∙ prefix_digits a (b'.' ∷ tail) [] dots o.digits
    ∙ prefix_dot tail a dots (octet_good o) (
        prefix_dot_pass tail dots (omega (arith, Octets-pos rest))
          (rw (byte-append t (b'/' ∷ c ∷ m) nnil) ndot)
          (rw (byte-append t (b'/' ∷ c ∷ m) nnil) (Octets-not-slash rest))
          (append-ne-nil t (b'/' ∷ c ∷ m) nnil))
    ∙ address-mask j t c m (dots + 1) rest (omega arith)

AllDigits-all_digits : (m : Bytes) → AllDigits m → all_digits m ≡ true
unfolding all_digits
AllDigits-all_digits [] d = refl
AllDigits-all_digits (c ∷ m) d = rw d.0 (AllDigits-all_digits m d.1)

-- The mask is cut to an `int`, which is compared with 32: this mask is not above it.
abbrev pub accepted : ℕ → Bool
accepted mask = leb (2 ^ 63) mask || (leb (mask % 2 ^ 32) 32 || leb (2 ^ 31) (mask % 2 ^ 32))

atoi_gt-accepted : (m : Bytes) → atoi_gt m 32 ≡ not (accepted (value m))
unfolding atoi_gt
atoi_gt-accepted m = elim (Bool-cases (leb (2 ^ 63) (value m))) [
  | inl big ↦ let cut : leb (value m) (2 ^ 63 - 1) ≡ false = ground arith in rw cut (rw big refl)
  | inr small ↦
      let whole : leb (value m) (2 ^ 63 - 1) ≡ true = ground arith in
      rw whole (rw small (ground arith))
]

-- Behind a dotted quad, a mask of digits makes an exact match if its value is at least 2 ^ 63 or is,
-- modulo 2 ^ 32, at most 32 or at least 2 ^ 31. Otherwise it makes no match.
pub cmd_ipv4_prefix_match-mask :
    (q : Bytes) (c : ℕ) (m : Bytes)
    → Octets 4 q
    → AllDigits (c ∷ m)
    → cmd_ipv4_prefix_match (some (q ++ b'/' ∷ c ∷ m))
      ≡ (if accepted (value (c ∷ m)) then exact_match else no_match)
unfolding cmd_ipv4_prefix_match
cmd_ipv4_prefix_match-mask q c m o d = address-mask 4 q c m 0 o (omega arith) ∙ mask
  where
    mask : prefix_mask (c ∷ m) ≡ (if accepted (value (c ∷ m)) then exact_match else no_match)
    mask =
        unfold prefix_mask in
        rw (AllDigits-all_digits (c ∷ m) d)
          (rw (atoi_gt-accepted (c ∷ m)) (swap (accepted (value (c ∷ m)))))
      where
        swap :
            (b : Bool)
            → (if not b then no_match else exact_match) ≡ (if b then exact_match else no_match)
        swap true = refl
        swap false = refl

-- A slash behind the first octet, long before any mask, is passed over together with the octet: the
-- text behind it decides alone.
pub cmd_ipv4_prefix_match-slash :
    (a s : Bytes)
    → IsOctet a
    → cmd_ipv4_prefix_match (some (a ++ b'/' ∷ s)) ≡ cmd_ipv4_prefix_match (some s)
unfolding cmd_ipv4_prefix_match
cmd_ipv4_prefix_match-slash a s o =
    prefix_digits a (b'/' ∷ s) [] 0 o.digits ∙ prefix_slash s a 0 (octet_good o) (omega arith)
