-- ===== src/Command/Descvec.antt =====
-- command.c: `cmd_make_descvec` reads a command's specification, such as `show (ip|ipv6) NAME`, and the
-- lines of its documentation; `cmd_cmdsize` counts the words that must be typed.
pub mod Ends
pub mod Install
use mksh.Prelude.{
  ℕ, zero, suc, ◌+◌, Bool, true, false, not, ◌||◌, Option, none, some, List, [], ◌∷◌, ◌++◌, ◌==◌,
  if◌then◌else◌, length,
}
use mksh.Cstr.{Bytes, byte, next, is_space}
use mksh.Command.Element.{Desc, Element, cmd_option}

unfoldable pub skip_space : Bytes → Bytes
skip_space [] = []
skip_space (c ∷ s) = if is_space c then skip_space s else c ∷ s

unfoldable pub is_newline : ℕ → Bool
is_newline c = c == b'\r' || c == b'\n'

-- The text up to the end of the line, and the text from there.
unfoldable pub line : Bytes → Bytes
unfolding is_newline
line [] = []
line (c ∷ s) = if is_newline c then [] else c ∷ line s

unfoldable pub after_line : Bytes → Bytes
unfolding is_newline
after_line [] = []
after_line (c ∷ s) = if is_newline c then c ∷ s else after_line s

-- The next line of the documentation, and where the one behind it starts.
unfoldable pub cmd_desc_str : Option Bytes → Option Bytes × Option Bytes
unfolding skip_space line after_line
cmd_desc_str none = (none, none)
cmd_desc_str (some string) = elim (skip_space string) [
  | [] ↦ (none, some string)
  | c ∷ s ↦ (some (line (c ∷ s)), some (after_line (c ∷ s)))
]

unfoldable pub ends_word : ℕ → Bool
unfolding is_space
ends_word c = is_space c || (c == b'\r' || (c == b'\n' || (c == b')' || c == b'|')))

unfoldable pub word : Bytes → Bytes
word [] = []
word (c ∷ s) = if ends_word c then [] else c ∷ word s

unfoldable pub after_word : Bytes → Bytes
after_word [] = []
after_word (c ∷ s) = if ends_word c then c ∷ s else after_word s

-- `if (*cp == c) cp++`.
unfoldable pub eat : ℕ → Bytes → Bytes
eat c s = if byte s == c then next s else s

pub record Cursor : Type 0 where
  pub cp : Bytes
  pub multiple : ℕ

unfoldable pub open_group : Cursor → Cursor
open_group t = record { cp = eat b'(' t.cp; multiple = if byte t.cp == b'(' then 1 else t.multiple }

unfoldable pub close_group : Cursor → Cursor
close_group t = record {
  cp = eat b')' t.cp;
  multiple = if byte t.cp == b')' then 0 else t.multiple;
}

unfoldable pub blanks : Cursor → Cursor
blanks t = record t { cp = skip_space t.cp }

-- A bar outside a group ends the program: `exit (1)`.
unfoldable pub bar_outside : Cursor → Bool
bar_outside t = if byte t.cp == b'|' then t.multiple == 0 else false

unfoldable pub pass_bar : Cursor → Cursor
pass_bar t = record t { cp = eat b'|' t.cp }

unfoldable pub to_bar : Cursor → Cursor
to_bar t = close_group (open_group (blanks t))

unfoldable pub to_word : Cursor → Cursor
to_word t = open_group (blanks (pass_bar t))

-- The word joins the group that was made last.
unfoldable pub join_last : List (List Desc) → Desc → List (List Desc)
join_last [] desc = (desc ∷ []) ∷ []
join_last (g ∷ []) desc = (g ++ desc ∷ []) ∷ []
join_last (g ∷ h ∷ r) desc = g ∷ join_last (h ∷ r) desc

unfoldable pub add_word : ℕ → List (List Desc) → Desc → List (List Desc)
unfolding join_last
add_word zero allvec desc = allvec ++ (desc ∷ []) ∷ []
add_word (suc zero) allvec desc = allvec ++ (desc ∷ []) ∷ []
add_word (suc (suc n)) allvec desc = join_last allvec desc

unfoldable pub after_add : ℕ → ℕ
after_add zero = zero
after_add (suc n) = suc (suc n)

pub data Parsed : Type 0 where
  parsed : List (List Desc) → Parsed
  parse_error : Parsed
  out_of_fuel : Parsed

-- The `while (1)` loop, on fuel.
unfoldable pub descvec_loop : ℕ → Cursor → Option Bytes → List (List Desc) → Parsed
descvec_loop zero t dp allvec = out_of_fuel
descvec_loop (suc fuel) t dp allvec = elim (bar_outside (to_bar t)) [
  | true ↦ parse_error
  | false ↦
      let u = to_word (to_bar t) in
      elim u.cp [
        | [] ↦ parsed allvec
        | c ∷ s ↦
            let (str, dp') = cmd_desc_str dp in
            descvec_loop fuel (record { cp = after_word (c ∷ s); multiple = after_add u.multiple })
              dp' (add_word u.multiple allvec (record { cmd = word (c ∷ s); str = str }))
      ]
]

-- A specification that is NULL gives NULL, which no caller passes on.
pub cmd_make_descvec : Bytes → Option Bytes → Parsed
unfolding descvec_loop
cmd_make_descvec string descstr =
    descvec_loop (suc (length string)) (record { cp = string; multiple = 0 }) descstr []

unfoldable pub cmd_cmdsize : List (List Desc) → ℕ
cmd_cmdsize [] = 0
cmd_cmdsize ((desc ∷ []) ∷ strvec) = if cmd_option desc.cmd then 0 else suc (cmd_cmdsize strvec)
cmd_cmdsize (descvec ∷ strvec) = suc (cmd_cmdsize strvec)

-- `none` ends the program: the specification is refused.
unfoldable pub install : List Element → Element → Parsed → Option (List Element)
unfolding cmd_cmdsize
install cmd_vector cmd (parsed strvec) =
    some (cmd_vector ++ (record cmd { strvec = strvec; cmdsize = cmd_cmdsize strvec }) ∷ [])
install cmd_vector cmd parse_error = none
install cmd_vector cmd out_of_fuel = none

-- `cnode` is the node of `ntype` with its commands, or NULL where there is none, which ends the program.
-- The command joins those of the node, with the vectors that its specification gives.
pub cmd_install_element : Option (List Element) → Element → Option (List Element)
unfolding install
cmd_install_element none cmd = none
cmd_install_element (some cmd_vector) cmd =
    install cmd_vector cmd (cmd_make_descvec cmd.string (some cmd.doc))
