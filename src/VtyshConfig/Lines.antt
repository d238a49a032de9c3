-- ===== src/VtyshConfig/Lines.antt =====
-- vtysh_config.c: the lines of a section stay in order when one is added or deleted.
use mksh.Prelude.{ℕ, ◌≡◌, refl, ap, inl, inr, Bool, false, List, [], ◌∷◌, map, Bool-cases}
use mksh.Cstr.{Bytes, str_eq, is_prefix}
use mksh.Nodes.Chain.{Cells}
use mksh.Linklist.Sort.{insert_cell}
use mksh.VtyshConfig.{
  str_lt, listnode_add, line_cmp, config_add_line, del_first, config_del_line,
  config_del_line_byleft,
}
use mksh.VtyshConfig.Order.{str_lt_asym, str_lt_trans}

-- No line is below the one in front of it.
abbrev pub After : Bytes → List Bytes → Type 0
After l [] = Unit {0}
After l (m ∷ ls) = (str_lt m l ≡ false) × After m ls

abbrev pub Sorted : List Bytes → Type 0
Sorted [] = Unit {0}
Sorted (l ∷ ls) = After l ls

add-After :
    (l val : Bytes) (ls : List Bytes)
    → str_lt val l ≡ false
    → After l ls
    → After l (listnode_add line_cmp val ls)
unfolding listnode_add
add-After l val [] h a = (h, tt)
add-After l val (m ∷ ls) h (n, a) = elim (Bool-cases (str_lt val m)) [
  | inl e ↦ rw e (h, (str_lt_asym val m e, a))
  | inr e ↦ rw e (n, add-After m val ls e a)
]

add-Sorted : (val : Bytes) (ls : List Bytes) → Sorted ls → Sorted (listnode_add line_cmp val ls)
unfolding listnode_add
add-Sorted val [] s = tt
add-Sorted val (m ∷ ls) s = elim (Bool-cases (str_lt val m)) [
  | inl e ↦ rw e (str_lt_asym val m e, s)
  | inr e ↦ rw e (add-After m val ls e s)
]

skip-After : (l m : Bytes) (ls : List Bytes) → str_lt m l ≡ false → After m ls → After l ls
skip-After l m [] h a = tt
skip-After l m (n ∷ ls) h (k, a) = (str_lt_trans l m n h k, a)

del-After :
    (test : Bytes → Bool) (l : Bytes) (ls : List Bytes) → After l ls → After l (del_first test ls)
unfolding del_first
del-After test l [] a = tt
del-After test l (m ∷ ls) (h, a) = elim (Bool-cases (test m)) [
  | inl e ↦ rw e (skip-After l m ls h a)
  | inr e ↦ rw e (h, del-After test m ls a)
]

After-Sorted : (m : Bytes) (ls : List Bytes) → After m ls → Sorted ls
After-Sorted m [] a = tt
After-Sorted m (n ∷ ls) (h, a) = a

del-Sorted : (test : Bytes → Bool) (ls : List Bytes) → Sorted ls → Sorted (del_first test ls)
unfolding del_first
del-Sorted test [] s = tt
del-Sorted test (m ∷ ls) s = elim (Bool-cases (test m)) [
  | inl e ↦ rw e (After-Sorted m ls s)
  | inr e ↦ rw e (del-After test m ls s)
]

-- Lines in the order of `strcmp` stay in that order when a line is added, deleted, or deleted by its left
-- part.
pub config_add_line-Sorted :
    (config : List Bytes) (line : Bytes)
    → Sorted config
    → Sorted (config_add_line config line)
      × Sorted (config_del_line config line)
      × Sorted (config_del_line_byleft config line)
unfolding config_add_line config_del_line config_del_line_byleft
config_add_line-Sorted config [] s =
    (s, del-Sorted (λ pnt. str_eq pnt []) config s, del-Sorted (λ pnt. is_prefix [] pnt) config s)
config_add_line-Sorted config (c ∷ line) s = (
  add-Sorted (c ∷ line) config s,
  del-Sorted (λ pnt. str_eq pnt (c ∷ line)) config s,
  del-Sorted (λ pnt. is_prefix (c ∷ line) pnt) config s,
)

-- The values of the list behind `listnode_add_sort` are those of `listnode_add`.
pub insert_cell-listnode_add :
    {A : Type 0} (less : A → A → Bool) (new : ℕ) (val : A) (xs : Cells A)
    → map (λ (c : ℕ × A). c.1) (insert_cell less (new, val) xs)
      ≡ listnode_add less val (map (λ (c : ℕ × A). c.1) xs)
unfolding insert_cell listnode_add
insert_cell-listnode_add {A} less new val [] = refl
insert_cell-listnode_add {A} less new val ((a, d) ∷ xs) = elim (Bool-cases (less val d)) [
  | inl e ↦ rw e refl
  | inr e ↦ rw e (ap (λ ds. d ∷ ds) (insert_cell-listnode_add less new val xs))
]
