-- ===== src/Match.antt =====
-- command.c: how one typed word is compared with one word of a command's specification.
pub mod Ipv4
pub mod Ipv6
pub mod Ipv6Prefix
pub mod Range
use mksh.Prelude.{ℕ, Bool, ltb}

-- `enum match_type`.
pub data MatchType : Type 0 where
  no_match extend_match ipv4_prefix_match ipv4_match ipv6_prefix_match ipv6_match : MatchType
  range_match vararg_match partly_match exact_match : MatchType

-- The value of an enumerator.
unfoldable pub rank : MatchType → ℕ
rank no_match = 0
rank extend_match = 1
rank ipv4_prefix_match = 2
rank ipv4_match = 3
rank ipv6_prefix_match = 4
rank ipv6_match = 5
rank range_match = 6
rank vararg_match = 7
rank partly_match = 8
rank exact_match = 9

-- `a < b` on enumerators.
unfoldable pub weaker : MatchType → MatchType → Bool
unfolding rank
weaker a b = ltb (rank a) (rank b)

-- `m == no_match`, as the test `if (m)` reads it.
unfoldable pub matches : MatchType → Bool
unfolding rank
matches m = ltb 0 (rank m)
