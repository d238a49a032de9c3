-- ===== src/Command/Describe/Answers.antt =====
-- What `cmd_describe_command` gives.
use mksh.Prelude.{◌≢◌, Option, none, some, List, [], ◌∷◌, ◌++◌}
use mksh.Cstr.{Bytes}
use mksh.Command.Element.{Desc}
use mksh.Command.Complete.{Status, success}
use mksh.Command.Describe.{Description, desc_cr}
use mksh.Command.Describe.Listing.{Listing}

pub data Described (current : Option Bytes) : Description → Type 0 where
  -- Behind a variable argument list.
  unassigned :
      (descs : List Desc)
      → Described current (record { status = none; descs = descs ++ desc_cr ∷ [] })
  refused : (s : Status) → s ≢ success → Described current (record { status = some s; descs = [] })
  found :
      (desc : Desc) (descs : List Desc)
      → Listing current (desc ∷ descs)
      → Described current (record { status = some success; descs = desc ∷ descs })

abbrev pub AsDescribed : Option Bytes → Option Description → Type 0
AsDescribed current none = Unit {0}
AsDescribed current (some description) = Described current description
