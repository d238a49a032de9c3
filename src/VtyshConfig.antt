-- ===== src/VtyshConfig.antt =====
-- vtysh_config.c and vtysh_config.h: the text of the configuration. A list of linklist.c is the sequence
-- of its values (Linklist.Sort and Linklist.Find are about the pointers). The lists in `configvec` are
-- changed in their slots. What `vasprintf` and the clock give is an argument, and what is printed to the
-- file is a value. The strings that are copied and freed are values.
pub mod Order
pub mod Lines
pub mod Sections
use mksh.Prelude.{
  ℕ, zero, suc, ◌+◌, Bool, true, false, Option, none, some, List, [], ◌∷◌, ◌++◌, ltb, ◌==◌,
  if◌then◌else◌, set, ◌>>=◌,
}
use mksh.Cstr.{Bytes, str_eq, is_prefix}
use mksh.Command.Element.{codes}
use mksh.Vector.{Vector, vector_init, vector_slot, vector_lookup_ensure, vector_set_index}

-- `strcmp (s, t) < 0`; the bytes are compared as `unsigned char`.
unfoldable pub str_lt : Bytes → Bytes → Bool
str_lt [] [] = false
str_lt [] (d ∷ t) = true
str_lt (c ∷ s) [] = false
str_lt (c ∷ s) (d ∷ t) = if c == d then str_lt s t else ltb c d

module _ {A : Type 0} where
  -- `listnode_add` with a `cmp`.
  pub listnode_add : (A → A → Bool) → A → List A → List A
  listnode_add less val [] = val ∷ []
  listnode_add less val (d ∷ ds) = if less val d then val ∷ d ∷ ds else d ∷ listnode_add less val ds

pub record Config : Type 0 where
  pub name : Bytes
  pub line : List Bytes
  pub index : ℕ

abbrev pub line_cmp : Bytes → Bytes → Bool
line_cmp c1 c2 = str_lt c1 c2

abbrev pub config_cmp : Config → Config → Bool
config_cmp c1 c2 = str_lt c1.name c2.name

-- `info` is the text that `vasprintf` gives. It is not added if it is empty.
pub config_add_line : List Bytes → Bytes → List Bytes
config_add_line config [] = config
config_add_line config (c ∷ info) = listnode_add line_cmp (c ∷ info) config

-- The first line that passes the test is deleted; each node has a string of its own.
pub del_first : (Bytes → Bool) → List Bytes → List Bytes
del_first test [] = []
del_first test (pnt ∷ config) = if test pnt then config else pnt ∷ del_first test config

pub config_del_line : List Bytes → Bytes → List Bytes
config_del_line config line = del_first (λ pnt. str_eq pnt line) config

pub config_del_line_byleft : List Bytes → Bytes → List Bytes
config_del_line_byleft config line = del_first (λ pnt. is_prefix line pnt) config

pub config_get_line_byleft : List Bytes → Bytes → Option Bytes
config_get_line_byleft [] line = none
config_get_line_byleft (pnt ∷ config) line =
    if is_prefix line pnt then some pnt else config_get_line_byleft config line

-- The list of the index, with the vector that has one there.
unfoldable pub config_master :
    Vector (List Config) → ℕ → Option (Vector (List Config) × List Config)
config_master configvec index = do
  r ← vector_lookup_ensure configvec index
  elim r.1 [
    | some master ↦ some (r.0, master)
    | none ↦ (do s ← vector_set_index r.0 index (some []); some (s.0, []))
  ]

-- The loop over the list: the last one of the name.
unfoldable pub find_config : Bytes → List Config → Option Config → Option Config
find_config line [] config = config
find_config line (c ∷ master) config =
    find_config line master (if str_eq c.name line then some c else config)

unfoldable pub config_get :
    Vector (List Config) → ℕ → Bytes → Option (Vector (List Config) × Config)
config_get configvec index line = do
  m ← config_master configvec index
  elim (find_config line m.1 none) [
    | some config ↦ some (m.0, config)
    | none ↦
        let config : Config = record { name = line; line = []; index = index } in
        some (
          record m.0 { index = set m.0.index index (some (listnode_add config_cmp config m.1)) },
          config,
        )
  ]

-- The text that `config_dump` prints.
unfoldable pub print_lines : Bytes → List Bytes → Bytes
print_lines space [] = []
print_lines space (line ∷ lines) = space ++ line ++ b'\n' ∷ print_lines space lines

unfoldable pub print_config : Config → Bytes
print_config config = elim config.line [
  | [] ↦ []
  | line ∷ lines ↦
      config.name ++ b'\n' ∷ (print_lines (b' ' ∷ []) (line ∷ lines) ++ b'!' ∷ b'\n' ∷ [])
]

unfoldable pub print_master : List Config → Bytes
print_master [] = []
print_master (config ∷ master) = print_config config ++ print_master master

unfoldable pub print_slots : ℕ → ℕ → Vector (List Config) → Option Bytes
print_slots i zero configvec = some []
print_slots i (suc n) configvec = do
  s ← vector_slot configvec i
  rest ← print_slots (i + 1) n configvec
  elim s [ none ↦ some rest | some master ↦ some (print_master master ++ rest) ]

-- `timestr` is the text of the time, or nothing if `localtime` fails: then only that is said.
unfoldable pub config_dump : Option Bytes → List Bytes → Vector (List Config) → Option Bytes
config_dump none config_top configvec = some []
config_dump (some timestr) config_top configvec = do
  slots ← print_slots 0 configvec.max configvec
  some (
      codes "#Writed on " ++ timestr ++ b'\n' ∷ (print_lines [] config_top ++ b'!' ∷ b'\n' ∷ slots))

abbrev pub config_init : List Bytes × Vector (List Config)
config_init = ([], vector_init 1)
