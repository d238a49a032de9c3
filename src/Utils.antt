-- ===== src/Utils.antt =====
-- utils.c and utils.h: the checks of texts that the commands take as arguments. A function that
-- returns 0 for valid and a negative number for invalid gives a Boolean here, true for valid.
pub mod Ip
pub mod Mac
pub mod Number
use mksh.Prelude.{
  ℕ, zero, suc, ◌+◌, Bool, true, false, not, ◌&&◌, ◌||◌, Option, none, some, List, [], ◌∷◌, ◌++◌,
  ltb, leb, ◌==◌, if◌then◌else◌, length,
}
use mksh.Cstr.{Bytes, byte, next, is_digit, to_upper}
use mksh.Match.Ipv4.{is_nil, bad_octet}

-- The tests of `bad_ip_address` at a dot: true if it returns -1.
unfoldable pub bad_dot : Bytes → ℕ → Bool
bad_dot s dots = leb 3 dots || (byte s == b'.' || is_nil s)

-- The two nested loops walk the string once; `seg` is the text from `sp` to `str`.
unfoldable pub ip_walk : Bytes → Bytes → ℕ → ℕ → Bool
unfolding bad_octet bad_dot is_digit
ip_walk [] seg dots nums = if bad_octet seg then false else not (ltb (nums + 1) 4)
ip_walk (c ∷ s) seg dots nums = elim (c == b'.') [
  | true ↦ elim (bad_dot s dots) [
    | true ↦ false
    | false ↦ elim (bad_octet seg) [ true ↦ false | false ↦ ip_walk s [] (dots + 1) (nums + 1) ]
  ]
  | false ↦ elim (is_digit c) [ false ↦ false | true ↦ ip_walk s (seg ++ c ∷ []) dots nums ]
]

unfoldable pub bad_ip_address : Option Bytes → Bool
unfolding ip_walk
bad_ip_address none = false
bad_ip_address (some str) = ip_walk str [] 0 0

-- `isdigit (c) || (toupper (c) >= 'A' && toupper (c) <= 'F')`.
unfoldable pub is_hex : ℕ → Bool
unfolding is_digit to_upper
is_hex c = is_digit c || (leb b'A' (to_upper c) && leb (to_upper c) b'F')

-- `MAC_SEP_1` and `MAC_SEP_2`.
unfoldable pub is_sep : ℕ → Bool
is_sep c = c == b'-' || c == b':'

-- `n` rounds of the loop of `is_mac_valid`, on `temp + i * 3`.
unfoldable pub mac_rounds : ℕ → Bytes → Bool
unfolding is_hex is_sep
mac_rounds zero temp = true
mac_rounds (suc n) temp =
    is_hex (byte temp)
    && (is_hex (byte (next temp))
        && (is_sep (byte (next (next temp))) && mac_rounds n (next (next (next temp)))))

-- `MAC_LENGTH` is 17; a `:` is put behind the copy.
unfoldable pub is_mac_valid : Bytes → Bool
unfolding mac_rounds
is_mac_valid mac_addr =
    if not (length mac_addr == 17) then false else mac_rounds 6 (mac_addr ++ b':' ∷ [])

-- The first character is read in front of the first test for the end.
unfoldable pub is_number : Bytes → Bool
unfolding is_digit
is_number [] = is_digit 0
is_number (c ∷ p) = is_digit c && (is_nil p || is_number p)
