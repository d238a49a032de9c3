-- ===== src/Vtysh.antt =====
-- vtysh.c: a line that is entered. `valid` says whether `crypt` gives the stored text for a password, and
-- `table` is the table of each node. What a handler does to the state is not modelled, so an execution
-- ends with the call.
pub mod Login
use mksh.Prelude.{
  ℕ, ◌+◌, Bool, true, false, Option, none, some, List, [], ◌∷◌, ltb, take, if◌then◌else◌,
}
use mksh.Cstr.{Bytes}
use mksh.Vector.{Vector}
use mksh.Command.Filter.{Slots}
use mksh.Command.Strvec.{cmd_make_strvec}
use mksh.Command.Execute.{Outcome, cmd_execute_command}

pub data NodeType : Type 0 where
  auth_node view_node auth_enable_node enable_node config_node : NodeType
  nac_node user_node version_node project_node pro_conf_node vty_node : NodeType

-- `vty->node` and `host.trytimes`.
pub record Shell : Type 0 where
  pub node : NodeType
  pub trytimes : ℕ

pub data Reply : Type 0 where
  -- The line holds no command.
  blank : Shell → Reply
  ran : Outcome → Shell → Reply
  admitted : Shell → Reply
  -- "Invalid password!".
  invalid : Shell → Reply
  -- "Authentication failed!" and the end of the process.
  exited : Reply
  fault : Reply

unfoldable pub words_of : List (Option Bytes) → List Bytes
words_of [] = []
words_of (none ∷ ws) = words_of ws
words_of (some w ∷ ws) = w ∷ words_of ws

unfoldable pub vtysh_execute_func : (NodeType → Slots) → Bytes → Shell → Reply
vtysh_execute_func table line s = elim (cmd_make_strvec (some line)) [
  | none ↦ fault
  | some v ↦ elim v [
    | none ↦ blank s
    | some vline ↦
        ran (cmd_execute_command (words_of (take vline.max vline.index)) (table s.node)) s
  ]
]

-- The branch for AUTH_ENABLE_NODE.
pub authenticate : (Bytes → Bool) → Bytes → Shell → Reply
authenticate valid line s =
    if valid line
    then admitted (record { node = enable_node; trytimes = 0 })
    else if ltb 1 s.trytimes
    then exited
    else invalid (record s { trytimes = s.trytimes + 1 })

pub enter : (Bytes → Bool) → (NodeType → Slots) → Bytes → NodeType → Shell → Reply
enter valid table line auth_enable_node s = authenticate valid line s
enter valid table line auth_node s = vtysh_execute_func table line s
enter valid table line view_node s = vtysh_execute_func table line s
enter valid table line enable_node s = vtysh_execute_func table line s
enter valid table line config_node s = vtysh_execute_func table line s
enter valid table line nac_node s = vtysh_execute_func table line s
enter valid table line user_node s = vtysh_execute_func table line s
enter valid table line version_node s = vtysh_execute_func table line s
enter valid table line project_node s = vtysh_execute_func table line s
enter valid table line pro_conf_node s = vtysh_execute_func table line s
enter valid table line vty_node s = vtysh_execute_func table line s

pub vtysh_execute : (Bytes → Bool) → (NodeType → Slots) → Bytes → Shell → Reply
vtysh_execute valid table line s = enter valid table line s.node s
