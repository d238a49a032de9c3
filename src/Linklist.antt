-- ===== src/Linklist.antt =====
-- linklist.c and linklist.h: doubly linked lists of nodes on a heap. `new` is the address that `malloc`
-- returns for a node; memory.c ends the process when there is none. A `struct list` stands outside the
-- heap, so a function that updates one gives the new value. A loop over the nodes takes fuel.
pub mod Insert
pub mod Sort
pub mod Delete
pub mod Find
pub mod After
use mksh.Prelude.{
  ℕ, zero, suc, ◌+◌, ◌-◌, ◌%◌, ◌^◌, Bool, false, Option, none, some, List, [], ◌∷◌, if◌then◌else◌,
}
use mksh.Nodes.{
  Ends, set_next_or_head, set_prev_or_tail, Ptr, Cmd, pure, ◌>>=◌, ◌>>◌, load, store, set_next,
  set_prev,
}

-- `cmp` says of two values whether the function of that name gives a negative number; `del` says
-- whether there is one.
pub record LinkList (A : Type 0) : Type 0 where
  pub ends : Ends
  pub count : ℕ
  pub cmp : Option (A → A → Bool)
  pub del : Bool

abbrev pub u32_mod : ℕ
u32_mod = 2 ^ 32

module _ {A : Type 0} where
  -- `list_new` clears all fields.
  abbrev pub list_new : LinkList A
  list_new = record {
    ends = record { head = none; tail = none };
    count = 0;
    cmp = none;
    del = false;
  }

  -- `listnode_new`, with the value that each caller stores first.
  pub listnode_new : ℕ → A → Cmd A (Unit {0})
  listnode_new new val = store new (some (record { next = none; prev = none; val = val }))

  pub listnode_free : ℕ → Cmd A (Unit {0})
  listnode_free a = do n ← load a; store a none

  pub increment : LinkList A → LinkList A
  increment l = record l { count = (l.count + 1) % u32_mod }

  pub decrement : LinkList A → LinkList A
  decrement l = record l { count = (l.count + (u32_mod - 1)) % u32_mod }

  -- `if (list->head == NULL) list->head = node; else list->tail->next = node;`
  unfoldable pub set_head_or_last : Ptr → Ptr → Ptr → Ends → Cmd A Ends
  set_head_or_last none tail q l = pure (record l { head = q })
  set_head_or_last (some b) none q l = λ _. none
  set_head_or_last (some b) (some a) q l = set_next a q >> pure l

  unfoldable pub listnode_add_old : ℕ → LinkList A → A → Cmd A (LinkList A)
  listnode_add_old new l val = do
    listnode_new new val
    set_prev new l.ends.tail
    e ← set_head_or_last l.ends.head l.ends.tail (some new) l.ends
    pure (increment (record l { ends = record e { tail = some new } }))

  -- The loop of `listnode_add_sort`: the first node in front of which the value belongs.
  pub find_above : (A → A → Bool) → A → ℕ → Ptr → Cmd A Ptr
  find_above less val zero n = λ _. none
  find_above less val (suc fuel) none = pure none
  find_above less val (suc fuel) (some a) = do
    n ← load a
    if less val n.val then pure (some a) else find_above less val fuel n.next

  pub place : ℕ → Option (A → A → Bool) → A → Ptr → Cmd A Ptr
  place fuel none val head = pure none
  place fuel (some less) val head = find_above less val fuel head

  -- The insertion in front of a node, and the one at the end.
  pub insert_before : ℕ → LinkList A → ℕ → Cmd A (LinkList A)
  insert_before new l a = do
    set_next new (some a)
    n ← load a
    set_prev new n.prev
    e ← set_next_or_head n.prev (some new) l.ends
    set_prev a (some new)
    pure (increment (record l { ends = e }))

  pub insert_last : ℕ → LinkList A → Cmd A (LinkList A)
  insert_last new l = do
    set_prev new l.ends.tail
    e ← set_next_or_head l.ends.tail (some new) l.ends
    pure (increment (record l { ends = record e { tail = some new } }))

  pub insert_at : ℕ → LinkList A → Ptr → Cmd A (LinkList A)
  insert_at new l none = insert_last new l
  insert_at new l (some a) = insert_before new l a

  pub listnode_add_sort : ℕ → ℕ → LinkList A → A → Cmd A (LinkList A)
  listnode_add_sort fuel new l val = do
    listnode_new new val
    p ← place fuel l.cmp val l.ends.head
    insert_at new l p

  pub listnode_add_after : ℕ → LinkList A → Ptr → A → Cmd A (LinkList A)
  listnode_add_after new l none val = do
    listnode_new new val
    e ← set_prev_or_tail l.ends.head (some new) l.ends
    set_next new e.head
    set_prev new none
    pure (record l { ends = record e { head = some new } })
  listnode_add_after new l (some pp) val = do
    listnode_new new val
    n ← load pp
    e ← set_prev_or_tail n.next (some new) l.ends
    m ← load pp
    set_next new m.next
    set_prev new (some pp)
    set_next pp (some new)
    pure (record l { ends = e })

  pub list_delete_node : LinkList A → ℕ → Cmd A (LinkList A)
  list_delete_node l a = do
    n ← load a
    e ← set_next_or_head n.prev n.next l.ends
    m ← load a
    e' ← set_prev_or_tail m.next m.prev e
    listnode_free a
    pure (decrement (record l { ends = e' }))

  -- The loop of `listnode_lookup` and `listnode_delete`; `same` compares the pointers to the data.
  pub find_node : (A → A → Bool) → A → ℕ → Ptr → Cmd A Ptr
  find_node same val zero n = λ _. none
  find_node same val (suc fuel) none = pure none
  find_node same val (suc fuel) (some a) = do
    n ← load a
    if same n.val val then pure (some a) else find_node same val fuel n.next

  pub listnode_lookup : (A → A → Bool) → ℕ → LinkList A → A → Cmd A Ptr
  listnode_lookup same fuel l val = find_node same val fuel l.ends.head

  -- `listnode_delete` unlinks and frees the node that it finds, as `list_delete_node` does.
  pub delete_found : LinkList A → Ptr → Cmd A (LinkList A)
  delete_found l none = pure l
  delete_found l (some a) = list_delete_node l a

  pub listnode_delete : (A → A → Bool) → ℕ → LinkList A → A → Cmd A (LinkList A)
  listnode_delete same fuel l val = do p ← find_node same val fuel l.ends.head; delete_found l p

  unfoldable pub data_of : Ptr → Cmd A (Option A)
  data_of none = pure none
  data_of (some a) = do n ← load a; pure (some n.val)

  unfoldable pub listnode_head : LinkList A → Cmd A (Option A)
  listnode_head l = data_of l.ends.head

  unfoldable pub list_add_node_prev : ℕ → LinkList A → ℕ → A → Cmd A (LinkList A)
  list_add_node_prev new l current val = do
    listnode_new new val
    set_next new (some current)
    c ← load current
    e ← set_next_or_head c.prev (some new) l.ends
    d ← load current
    set_prev new d.prev
    set_prev current (some new)
    pure (increment (record l { ends = e }))

  unfoldable pub list_add_node_next : ℕ → LinkList A → ℕ → A → Cmd A (LinkList A)
  list_add_node_next new l current val = do
    listnode_new new val
    set_prev new (some current)
    c ← load current
    e ← set_prev_or_tail c.next (some new) l.ends
    d ← load current
    set_next new d.next
    set_next current (some new)
    pure (increment (record l { ends = e }))

  -- The loop that frees the nodes; it gives the values that `del` is called on, in order.
  unfoldable pub free_nodes : Bool → ℕ → Ptr → Cmd A (List A)
  free_nodes del zero p = λ _. none
  free_nodes del (suc fuel) none = pure []
  free_nodes del (suc fuel) (some a) = do
    n ← load a
    listnode_free a
    rest ← free_nodes del fuel n.next
    pure (if del then n.val ∷ rest else rest)

  unfoldable pub list_delete_all_node : ℕ → LinkList A → Cmd A (LinkList A × List A)
  list_delete_all_node fuel l = do
    vals ← free_nodes l.del fuel l.ends.head
    pure (record l { ends = record { head = none; tail = none }; count = 0 }, vals)

  -- `list_delete`: the nodes are freed, and then the list; `list_free` only gives its memory back.
  unfoldable pub list_delete : ℕ → LinkList A → Cmd A (List A)
  list_delete fuel l = free_nodes l.del fuel l.ends.head

  -- The loop of `list_add_list`, for two different lists; `news` are the addresses of the new nodes.
  unfoldable pub add_all : ℕ → List ℕ → LinkList A → Ptr → Cmd A (LinkList A)
  add_all fuel [] l none = pure l
  add_all fuel [] l (some a) = λ _. none
  add_all fuel (new ∷ news) l none = pure l
  add_all fuel (new ∷ news) l (some a) = do
    n ← load a
    l' ← listnode_add_sort fuel new l n.val
    m ← load a
    add_all fuel news l' m.next

  unfoldable pub list_add_list : ℕ → List ℕ → LinkList A → LinkList A → Cmd A (LinkList A)
  list_add_list fuel news l m = add_all fuel news l m.ends.head
