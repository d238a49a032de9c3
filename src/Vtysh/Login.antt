-- ===== src/Vtysh/Login.antt =====
-- vtysh.c: how often a wrong password may be entered.
use mksh.Prelude.{
  ℕ, ◌+◌, ◌≤◌, ◌≡◌, refl, sym, ap, ◌∙◌, inl, inr, Bool, true, false, List, [], ◌∷◌, ◌++◌, arith,
  ltb, length, Bool-cases,
}
use mathlib.Core.Path.{subst}
use mksh.Cstr.{Bytes}
use mksh.Command.Filter.{Slots}
use mksh.Vtysh.{
  NodeType, auth_enable_node, enable_node, Shell, Reply, blank, ran, admitted, invalid, exited,
  fault, authenticate, enter, vtysh_execute,
}

-- Lines are entered until a reply is another one than that a password is invalid.
abbrev pub attempts : (Bytes → Bool) → (NodeType → Slots) → List Bytes → Shell → Reply
attempts valid table [] s = invalid s
attempts valid table (line ∷ lines) s = elim (vtysh_execute valid table line s) [
  | invalid t ↦ attempts valid table lines t
  | blank t ↦ blank t
  | ran o t ↦ ran o t
  | admitted t ↦ admitted t
  | exited ↦ exited
  | fault ↦ fault
]

-- The lines behind a reply.
abbrev after : (Bytes → Bool) → (NodeType → Slots) → List Bytes → Reply → Reply
after valid table lines (invalid t) = attempts valid table lines t
after valid table lines (blank t) = blank t
after valid table lines (ran o t) = ran o t
after valid table lines (admitted t) = admitted t
after valid table lines exited = exited
after valid table lines fault = fault

execute-right :
    (valid : Bytes → Bool) (table : NodeType → Slots) (line : Bytes) (n : ℕ)
    → valid line ≡ true
    → vtysh_execute valid table line (record { node = auth_enable_node; trytimes = n })
      ≡ admitted (record { node = enable_node; trytimes = 0 })
unfolding vtysh_execute enter authenticate
execute-right valid table line n e = rw e refl

execute-third :
    (valid : Bytes → Bool) (table : NodeType → Slots) (line : Bytes) (n : ℕ)
    → valid line ≡ false
    → ltb 1 n ≡ true
    → vtysh_execute valid table line (record { node = auth_enable_node; trytimes = n }) ≡ exited
unfolding vtysh_execute enter authenticate
execute-third valid table line n e f = rw e (rw f refl)

execute-wrong :
    (valid : Bytes → Bool) (table : NodeType → Slots) (line : Bytes) (n : ℕ)
    → valid line ≡ false
    → ltb 1 n ≡ false
    → vtysh_execute valid table line (record { node = auth_enable_node; trytimes = n })
      ≡ invalid (record { node = auth_enable_node; trytimes = n + 1 })
unfolding vtysh_execute enter authenticate
execute-wrong valid table line n e f = rw e (rw f refl)

abbrev pub AllWrong : (Bytes → Bool) → List Bytes → Type 0
AllWrong valid [] = Unit {0}
AllWrong valid (line ∷ lines) = (valid line ≡ false) × AllWrong valid lines

-- What comes of the lines when `n` wrong passwords have been entered before.
pub data Tried (valid : Bytes → Bool) (lines : List Bytes) (n : ℕ) (r : Reply) : Type 0 where
  let_in :
      (wrong : List Bytes) (line : Bytes) (rest : List Bytes)
      → lines ≡ wrong ++ line ∷ rest
      → AllWrong valid wrong
      → length wrong + n ≤ 2
      → valid line ≡ true
      → r ≡ admitted (record { node = enable_node; trytimes = 0 })
      → Tried valid lines n r
  thrown_out :
      (wrong rest : List Bytes)
      → lines ≡ wrong ++ rest
      → AllWrong valid wrong
      → length wrong + n ≡ 3
      → r ≡ exited
      → Tried valid lines n r
  asked_again :
      AllWrong valid lines
      → length lines + n ≤ 2
      → r ≡ invalid (record { node = auth_enable_node; trytimes = length lines + n })
      → Tried valid lines n r

later :
    (valid : Bytes → Bool) (line : Bytes) (lines : List Bytes) (n : ℕ) (r : Reply)
    → valid line ≡ false
    → Tried valid lines (n + 1) r
    → Tried valid (line ∷ lines) n r
later valid line lines n r f (let_in wrong l rest e w h v q) =
    let_in (line ∷ wrong) l rest (ap (λ x. line ∷ x) e) (f, w) (omega arith) v q
later valid line lines n r f (thrown_out wrong rest e w h q) =
    thrown_out (line ∷ wrong) rest (ap (λ x. line ∷ x) e) (f, w) (omega arith) q
later valid line lines n r f (asked_again w h q) =
    asked_again (f, w) (omega arith)
      (q ∙ ap (λ i. invalid (record { node = auth_enable_node; trytimes = i })) (omega arith))

attempts-Tried :
    (valid : Bytes → Bool) (table : NodeType → Slots) (lines : List Bytes) (n : ℕ)
    → n ≤ 2
    → Tried valid lines n
        (attempts valid table lines (record { node = auth_enable_node; trytimes = n }))
unfolding vtysh_execute enter authenticate
attempts-Tried valid table [] n h =
    asked_again tt (omega arith)
      (ap (λ i. invalid (record { node = auth_enable_node; trytimes = i })) (omega arith))
attempts-Tried valid table (line ∷ lines) n h = elim (Bool-cases (valid line)) [
  | inl e ↦
      let_in [] line lines refl tt (omega arith) e
        (ap (λ r. after valid table lines r) (execute-right valid table line n e))
  | inr e ↦ elim (Bool-cases (ltb 1 n)) [
    | inl f ↦
        thrown_out (line ∷ []) lines refl (e, tt) (two n h f)
          (ap (λ r. after valid table lines r) (execute-third valid table line n e f))
    | inr f ↦
        subst (Tried valid (line ∷ lines) n)
          (ap (λ r. after valid table lines r) (sym (execute-wrong valid table line n e f)))
          (later valid line lines n
            (attempts valid table lines (record { node = auth_enable_node; trytimes = n + 1 })) e
            (attempts-Tried valid table lines (n + 1) (one n f)))
  ]
]
  where
    two : (n : ℕ) → n ≤ 2 → ltb 1 n ≡ true → 1 + n ≡ 3
    two n h f = ground arith

    one : (n : ℕ) → ltb 1 n ≡ false → n + 1 ≤ 2
    one n f = ground arith

-- In AUTH_ENABLE_NODE, and with no wrong password so far, the shell is in ENABLE_NODE with the counter
-- cleared when a right password comes behind at most two wrong ones. It ends with the third wrong
-- password, and waits for the next line after at most two.
pub vtysh_execute-Tried :
    (valid : Bytes → Bool) (table : NodeType → Slots) (lines : List Bytes)
    → Tried valid lines 0
        (attempts valid table lines (record { node = auth_enable_node; trytimes = 0 }))
vtysh_execute-Tried valid table lines = attempts-Tried valid table lines 0 (omega arith)
