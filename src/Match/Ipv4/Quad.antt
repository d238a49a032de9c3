-- ===== src/Match/Ipv4/Quad.antt =====
-- `cmd_ipv4_match` and the dotted quads.
use mksh.Prelude.{
  ℕ, suc, ◌+◌, ◌-◌, ◌≤◌, ◌<◌, ◌≡◌, ◌≢◌, ◌↔◌, refl, sym, ap, ◌∙◌, inl, inr, true, false, none, some,
  [], ◌∷◌, ◌++◌, append_assoc, append-nil, arith, ◌==◌, length, Bool-cases, ==→eq,
}
use mathlib.Core.Path.{subst}
use mksh.Cstr.{Bytes, byte, is_digit, value}
use mksh.Match.{exact_match}
use mksh.Match.Ipv4.{bad_octet, at_dot, ipv4_walk, cmd_ipv4_match}

abbrev pub AllDigits : Bytes → Type 0
AllDigits [] = Unit {0}
AllDigits (c ∷ s) = (is_digit c ≡ true) × AllDigits s

-- At most three digits, of a value that fits a byte. The empty text is an octet.
pub record IsOctet (a : Bytes) : Type 0 where
  pub digits : AllDigits a
  pub short : length a ≤ 3
  pub small : value a ≤ 255

-- `k` octets with a dot between each two; what follows a dot is neither a dot nor the end.
pub data Octets : ℕ → Bytes → Type 0 where
  one : {a : Bytes} → IsOctet a → Octets 1 a
  more :
      {n : ℕ} {a s : Bytes}
      → IsOctet a
      → s ≢ []
      → byte s ≢ b'.'
      → Octets n s
      → Octets (suc n) (a ++ b'.' ∷ s)

AllDigits-concat : (a : Bytes) (c : ℕ) → AllDigits a → is_digit c ≡ true → AllDigits (a ++ c ∷ [])
AllDigits-concat [] c d h = (h, tt)
AllDigits-concat (x ∷ a) c d h = (d.0, AllDigits-concat a c d.1 h)

bad_octet-IsOctet : (a : Bytes) → AllDigits a → bad_octet a ≡ false → IsOctet a
unfolding bad_octet
bad_octet-IsOctet a d h = record { digits = d; short = ground arith; small = ground arith }

pub octet_good : {a : Bytes} → IsOctet a → bad_octet a ≡ false
unfolding bad_octet
octet_good o = ground arith

dot_passed : (s : Bytes) (dots : ℕ) → at_dot s dots ≡ none → (dots < 3) × (byte s ≢ b'.') × (s ≢ [])
unfolding at_dot
dot_passed [] dots h = (ground arith, ground arith, ground arith)
dot_passed (c ∷ s) dots h = (ground arith, ground arith, λ e. cc)

dot_pass : (s : Bytes) (dots : ℕ) → dots < 3 → byte s ≢ b'.' → s ≢ [] → at_dot s dots ≡ none
unfolding at_dot
dot_pass [] dots h n m = absurd (m refl)
dot_pass (c ∷ s) dots h n m = ground arith

module _ (c : ℕ) (s seg : Bytes) (dots nums : ℕ) where
  walk_at_dot :
      (c == b'.') ≡ true
      → ipv4_walk (c ∷ s) seg dots nums ≡ exact_match
      → (at_dot s dots ≡ none)
        × (bad_octet seg ≡ false)
        × (ipv4_walk s [] (dots + 1) (nums + 1) ≡ exact_match)
  unfolding ipv4_walk
  walk_at_dot e h = ground arith

  walk_at_digit :
      (c == b'.') ≡ false
      → ipv4_walk (c ∷ s) seg dots nums ≡ exact_match
      → (is_digit c ≡ true) × (ipv4_walk s (seg ++ c ∷ []) dots nums ≡ exact_match)
  unfolding ipv4_walk
  walk_at_digit e h = ground arith

  walk_dot :
      (c == b'.') ≡ true
      → at_dot s dots ≡ none
      → bad_octet seg ≡ false
      → ipv4_walk (c ∷ s) seg dots nums ≡ ipv4_walk s [] (dots + 1) (nums + 1)
  unfolding ipv4_walk
  walk_dot e p q = ground arith

  walk_digit :
      is_digit c ≡ true → ipv4_walk (c ∷ s) seg dots nums ≡ ipv4_walk s (seg ++ c ∷ []) dots nums
  unfolding ipv4_walk
  walk_digit e = ground arith

walk_end :
    (seg : Bytes) (dots nums : ℕ)
    → ipv4_walk [] seg dots nums ≡ exact_match
    → (bad_octet seg ≡ false) × (4 ≤ nums + 1)
unfolding ipv4_walk
walk_end seg dots nums h = ground arith

walk_ends :
    (seg : Bytes) (dots nums : ℕ)
    → bad_octet seg ≡ false
    → 4 ≤ nums + 1
    → ipv4_walk [] seg dots nums ≡ exact_match
unfolding ipv4_walk
walk_ends seg dots nums e h = rw e (ground arith)

Octets-count : {j k : ℕ} {s : Bytes} → j ≡ k → Octets j s → Octets k s
Octets-count {s = s} e o = subst (λ n. Octets n s) e o

walk_sound :
    (s seg : Bytes) (dots nums k : ℕ)
    → ipv4_walk s seg dots nums ≡ exact_match
    → AllDigits seg
    → dots ≡ nums
    → dots ≤ 3
    → nums + k ≡ 4
    → Octets k (seg ++ s)
walk_sound [] seg dots nums k h d e b n =
    let (good, enough) = walk_end seg dots nums h in
    rw append-nil (Octets-count (omega arith) (one (bad_octet-IsOctet seg d good)))
walk_sound (c ∷ s) seg dots nums k h d e b n = elim (Bool-cases (c == b'.')) [
  | inl dot ↦
      let (p, good, rest) = walk_at_dot c s seg dots nums dot h in
      let (lt, ndot, nnil) = dot_passed s dots p in
      let o : Octets (3 - nums) s =
        walk_sound s [] (dots + 1) (nums + 1) (3 - nums) rest tt (omega arith) (omega arith)
          (omega arith) in
      rw (==→eq c b'.' dot)
        (Octets-count (omega arith) (more (bad_octet-IsOctet seg d good) nnil ndot o))
  | inr other ↦
      let (digit, rest) = walk_at_digit c s seg dots nums other h in
      rw append_assoc at
        (walk_sound s (seg ++ c ∷ []) dots nums k rest (AllDigits-concat seg c d digit) e b n)
]

walk_digits :
    (a s seg : Bytes) (dots nums : ℕ)
    → AllDigits a
    → ipv4_walk (a ++ s) seg dots nums ≡ ipv4_walk s (seg ++ a) dots nums
walk_digits [] s seg dots nums d = rw (append-nil seg) refl
walk_digits (c ∷ a) s seg dots nums d =
    walk_digit c (a ++ s) seg dots nums d.0
    ∙ walk_digits a s (seg ++ c ∷ []) dots nums d.1
    ∙ ap (λ t. ipv4_walk s t dots nums) (append_assoc seg (c ∷ []) a)

pub Octets-pos : {k : ℕ} {s : Bytes} → Octets k s → 1 ≤ k
Octets-pos (one o) = omega arith
Octets-pos (more o p q r) = omega arith

walk_complete :
    (k : ℕ) (s : Bytes) (dots nums : ℕ)
    → Octets k s
    → dots ≡ nums
    → nums + k ≡ 4
    → ipv4_walk s [] dots nums ≡ exact_match
walk_complete k s dots nums (one {a = a} o) e n =
    ap (λ t. ipv4_walk t [] dots nums) (sym (append-nil a))
    ∙ walk_digits a [] [] dots nums o.digits
    ∙ walk_ends a dots nums (octet_good o) (omega arith)
walk_complete k s dots nums (more {n = j} {a = a} {s = t} o nnil ndot rest) e n =
    walk_digits a (b'.' ∷ t) [] dots nums o.digits
    ∙ walk_dot b'.' t a dots nums refl (dot_pass t dots (omega (arith, Octets-pos rest)) ndot nnil)
        (octet_good o)
    ∙ walk_complete j t (dots + 1) (nums + 1) rest (omega arith) (omega arith)

-- A word is an exact IPv4 address for the interpreter exactly when it is four octets of at most
-- three digits and at most 255 with dots between them, of which the first may be empty.
pub cmd_ipv4_match-Octets : (s : Bytes) → (cmd_ipv4_match (some s) ≡ exact_match) ↔ Octets 4 s
unfolding cmd_ipv4_match
cmd_ipv4_match-Octets s = (
  λ h. walk_sound s [] 0 0 4 h tt refl (omega arith) (omega arith),
  λ o. walk_complete 4 s 0 0 o refl (omega arith),
)
