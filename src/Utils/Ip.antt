-- ===== src/Utils/Ip.antt =====
-- utils.c: `bad_ip_address` against `cmd_ipv4_match` of command.c and against the addresses it takes.
use mksh.Prelude.{
  ℕ, ◌+◌, ◌≡◌, refl, sym, ap, ◌∙◌, inl, inr, ◌↔◌, Bool, true, false, none, some, [], ◌∷◌, ◌++◌, leb,
  ltb, ◌==◌, Bool-cases,
}
use mksh.Cstr.{Bytes, byte, is_digit}
use mksh.Match.{
  MatchType, no_match, extend_match, ipv4_prefix_match, ipv4_match, ipv6_prefix_match, ipv6_match,
  range_match, vararg_match, partly_match, exact_match,
}
use mksh.Match.Ipv4.{is_nil, bad_octet, at_dot, ipv4_walk, cmd_ipv4_match}
use mksh.Match.Ipv4.Quad.{Octets, cmd_ipv4_match-Octets}
use mksh.Utils.{bad_dot, ip_walk, bad_ip_address}

abbrev in_full : MatchType → Bool
in_full no_match = false
in_full extend_match = false
in_full ipv4_prefix_match = false
in_full ipv4_match = false
in_full ipv6_prefix_match = false
in_full ipv6_match = false
in_full range_match = false
in_full vararg_match = false
in_full partly_match = false
in_full exact_match = true

in_full_sound : (m : MatchType) → in_full m ≡ true → m ≡ exact_match
in_full_sound no_match h = cc
in_full_sound extend_match h = cc
in_full_sound ipv4_prefix_match h = cc
in_full_sound ipv4_match h = cc
in_full_sound ipv6_prefix_match h = cc
in_full_sound ipv6_match h = cc
in_full_sound range_match h = cc
in_full_sound vararg_match h = cc
in_full_sound partly_match h = cc
in_full_sound exact_match h = refl

-- What the two functions do at a dot.
data AtDot (s : Bytes) (dots : ℕ) : Type 0 where
  refused :
      (m : MatchType)
      → in_full m ≡ false
      → at_dot s dots ≡ some m
      → bad_dot s dots ≡ true
      → AtDot s dots
  passed : at_dot s dots ≡ none → bad_dot s dots ≡ false → AtDot s dots

AtDot-always : (s : Bytes) (dots : ℕ) → AtDot s dots
unfolding at_dot bad_dot
AtDot-always s dots = elim (Bool-cases (leb 3 dots)) [
  | inl a ↦ refused no_match refl (rw a refl) (rw a refl)
  | inr a ↦ elim (Bool-cases (byte s == b'.')) [
    | inl b ↦ refused no_match refl (rw (a, b) refl) (rw (a, b) refl)
    | inr b ↦ elim (Bool-cases (is_nil s)) [
      | inl c ↦ refused partly_match refl (rw (a, b, c) refl) (rw (a, b, c) refl)
      | inr c ↦ passed (rw (a, b, c) refl) (rw (a, b, c) refl)
    ]
  ]
]

ip_walk-exact :
    (s seg : Bytes) (dots nums : ℕ) → ip_walk s seg dots nums ≡ in_full (ipv4_walk s seg dots nums)
unfolding ip_walk ipv4_walk
ip_walk-exact [] seg dots nums = elim (Bool-cases (bad_octet seg)) [
  | inl b ↦ rw b refl
  | inr b ↦ elim (Bool-cases (ltb (nums + 1) 4)) [ inl n ↦ rw (b, n) refl | inr n ↦ rw (b, n) refl ]
]
ip_walk-exact (c ∷ s) seg dots nums = elim (Bool-cases (c == b'.')) [
  | inr dot ↦ elim (Bool-cases (is_digit c)) [
    | inl d ↦ rw (ip_walk, ipv4_walk, dot, d) (ip_walk-exact s (seg ++ c ∷ []) dots nums)
    | inr d ↦ rw (ip_walk, ipv4_walk, dot, d) refl
  ]
  | inl dot ↦ elim (AtDot-always s dots) [
    | refused m r a b ↦ rw (ip_walk, ipv4_walk, dot, a, b) (sym r)
    | passed a b ↦ elim (Bool-cases (bad_octet seg)) [
      | inl o ↦ rw (ip_walk, ipv4_walk, dot, a, b, o) refl
      | inr o ↦ rw (ip_walk, ipv4_walk, dot, a, b, o) (ip_walk-exact s [] (dots + 1) (nums + 1))
    ]
  ]
]

-- `bad_ip_address` takes a text for valid exactly when the interpreter matches it in full with an
-- `A.B.C.D` word, which is when it is four octets with dots between them, the first
-- of which may be empty.
pub bad_ip_address-ipv4 :
    (s : Bytes)
    → ((bad_ip_address (some s) ≡ true) ↔ (cmd_ipv4_match (some s) ≡ exact_match))
      × ((bad_ip_address (some s) ≡ true) ↔ Octets 4 s)
unfolding bad_ip_address cmd_ipv4_match
bad_ip_address-ipv4 s =
    let same = ip_walk-exact s [] 0 0 in
    let to : bad_ip_address (some s) ≡ true → cmd_ipv4_match (some s) ≡ exact_match =
      λ h. in_full_sound (ipv4_walk s [] 0 0) (sym same ∙ h) in
    let from : cmd_ipv4_match (some s) ≡ exact_match → bad_ip_address (some s) ≡ true =
      λ h. same ∙ ap in_full h in
    let quad = cmd_ipv4_match-Octets s in ((to, from), (λ h. quad.0 (to h), λ o. from (quad.1 o)))
