-- ===== src/Command/Element.antt =====
-- command.h: `struct desc`, `struct cmd_element`, and the macros that read the form of a word of a
-- specification from its first character or from the whole.
use mksh.Prelude.{ℕ, Bool, ◌&&◌, ◌||◌, Option, List, leb, ◌==◌, if◌then◌else◌}
use Prim.Native.Char.{code}
use Prim.Native.String.{String}
use mksh.Prelude.{[], ◌∷◌}
use mksh.Cstr.{Bytes, byte, str_eq}

-- The bytes of an ASCII text.
abbrev pub codes : String → Bytes
codes String.[] = []
codes (String.◌∷◌ c s) = code c ∷ codes s

pub record Desc : Type 0 where
  pub cmd : Bytes
  pub str : Option Bytes

-- `func` is the address of the handler, and `daemon` says that it is not 0.
pub record Element : Type 0 where
  pub string : Bytes
  pub func : ℕ
  pub doc : Bytes
  pub daemon : Bool
  pub strvec : List (List Desc)
  pub cmdsize : ℕ

unfoldable pub cmd_option : Bytes → Bool
cmd_option s = byte s == b'['

unfoldable pub cmd_variable : Bytes → Bool
cmd_variable s = (leb b'A' (byte s) && leb (byte s) b'Z') || byte s == b'<'

unfoldable pub cmd_vararg : Bytes → Bool
cmd_vararg s = byte s == b'.'

unfoldable pub cmd_range : Bytes → Bool
cmd_range s = byte s == b'<'

unfoldable pub cmd_ipv4 : Bytes → Bool
unfolding str_eq
cmd_ipv4 s = str_eq s (codes "A.B.C.D")

unfoldable pub cmd_ipv4_prefix : Bytes → Bool
unfolding str_eq
cmd_ipv4_prefix s = str_eq s (codes "A.B.C.D/M")

unfoldable pub cmd_ipv6 : Bytes → Bool
unfolding str_eq
cmd_ipv6 s = str_eq s (codes "X:X::X:X")

unfoldable pub cmd_ipv6_prefix : Bytes → Bool
unfolding str_eq
cmd_ipv6_prefix s = str_eq s (codes "X:X::X:X/M")

-- The order in which the filters and the description ask for the form of a word.
pub data Form : Type 0 where
  vararg range ipv6 ipv6_prefix ipv4 ipv4_prefix variable literal : Form

unfoldable pub form : Bytes → Form
form s =
    if cmd_vararg s
    then vararg
    else if cmd_range s
    then range
    else if cmd_ipv6 s
    then ipv6
    else if cmd_ipv6_prefix s
    then ipv6_prefix
    else if cmd_ipv4 s
    then ipv4
    else if cmd_ipv4_prefix s
    then ipv4_prefix
    else if cmd_option s || cmd_variable s
    then variable
    else literal
