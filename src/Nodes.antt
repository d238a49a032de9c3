-- ===== src/Nodes.antt =====
-- The heap of linked nodes, and commands that read and write them. A command is `none` where the code
-- would go through NULL or through the address of no node.
pub mod Chain
pub mod Link
pub mod Linked
use mksh.Prelude.{ℕ, ◌≡◌, refl, Option, none, some, ◌==◌, if◌then◌else◌}

-- NULL is `none`.
abbrev pub Ptr : Type 0
Ptr = Option ℕ

pub record Node (A : Type 0) : Type 0 where
  pub next : Ptr
  pub prev : Ptr
  pub val : A

abbrev pub Heap : Type 0 → Type 0
Heap A = ℕ → Option (Node A)

module _ {A : Type 0} where
  unfoldable pub write : Heap A → ℕ → Option (Node A) → Heap A
  write h a n b = if a == b then n else h b

abbrev pub Cmd : Type 0 → Type 0 → Type 0
Cmd A B = Heap A → Option (B × Heap A)

module _ {A : Type 0} where
  abbrev pub pure : {B : Type 0} → B → Cmd A B
  pure b h = some (b, h)

  infixl 5 ◌>>=◌ ◌>>◌
  abbrev pub ◌>>=◌ : {B C : Type 0} → Cmd A B → (B → Cmd A C) → Cmd A C
  ◌>>=◌ m f h = elim (m h) [ none ↦ none | some (b, h') ↦ f b h' ]

  abbrev pub ◌>>◌ : {C : Type 0} → Cmd A (Unit {0}) → Cmd A C → Cmd A C
  m >> k = m >>= λ _. k

  -- `*a`.
  pub load : ℕ → Cmd A (Node A)
  load a h = elim (h a) [ none ↦ none | some n ↦ some (n, h) ]

  -- A node that `malloc` has given, or `none` to give it back.
  unfoldable pub store : ℕ → Option (Node A) → Cmd A (Unit {0})
  store a n h = some (tt, write h a n)

  -- `a->next = q` and `a->prev = q`.
  pub set_next : ℕ → Ptr → Cmd A (Unit {0})
  unfolding load store
  set_next a q = do n ← load a; store a (some (record n { next = q }))

  pub set_prev : ℕ → Ptr → Cmd A (Unit {0})
  unfolding load store
  set_prev a q = do n ← load a; store a (some (record n { prev = q }))

-- The two ends of a list.
pub record Ends : Type 0 where
  pub head : Ptr
  pub tail : Ptr

module _ {A : Type 0} where
  -- `if (p) p->next = q; else list->head = q;`
  pub set_next_or_head : Ptr → Ptr → Ends → Cmd A Ends
  set_next_or_head none q l = pure (record l { head = q })
  set_next_or_head (some a) q l = set_next a q >> pure l

  -- `if (p) p->prev = q; else list->tail = q;`
  pub set_prev_or_tail : Ptr → Ptr → Ends → Cmd A Ends
  set_prev_or_tail none q l = pure (record l { tail = q })
  set_prev_or_tail (some a) q l = set_prev a q >> pure l
