-- ===== src/ThreadList.antt =====
-- thread.c: the lists of threads. A `struct thread` is a node that carries its own links; `val` is the
-- rest of it. `count` is an `int` that is only stepped, as a 32-bit pattern.
pub mod Moves
use mksh.Prelude.{ℕ, ◌+◌, ◌-◌, ◌%◌, ◌^◌, Option, none, some}
use mksh.Nodes.{
  Ptr, Node, Ends, Cmd, pure, ◌>>=◌, ◌>>◌, load, set_next, set_prev, set_next_or_head,
  set_prev_or_tail,
}

pub record ThreadList : Type 0 where
  pub ends : Ends
  pub count : ℕ

abbrev pub int_mod : ℕ
int_mod = 2 ^ 32

module _ {A : Type 0} where
  unfoldable pub thread_list_add : ThreadList → ℕ → Cmd A ThreadList
  thread_list_add list thread = do
    set_next thread none
    set_prev thread list.ends.tail
    e ← set_next_or_head list.ends.tail (some thread) list.ends
    pure (record { ends = record e { tail = some thread }; count = (list.count + 1) % int_mod })

  unfoldable pub thread_list_add_before : ThreadList → ℕ → ℕ → Cmd A ThreadList
  thread_list_add_before list point thread = do
    set_next thread (some point)
    p ← load point
    set_prev thread p.prev
    q ← load point
    e ← set_next_or_head q.prev (some thread) list.ends
    set_prev point (some thread)
    pure (record { ends = e; count = (list.count + 1) % int_mod })

  unfoldable pub thread_list_delete : ThreadList → ℕ → Cmd A ThreadList
  thread_list_delete list thread = do
    n ← load thread
    e ← set_prev_or_tail n.next n.prev list.ends
    m ← load thread
    e' ← set_next_or_head m.prev m.next e
    set_prev thread none
    set_next thread none
    pure (record { ends = e'; count = (list.count + (int_mod - 1)) % int_mod })

  -- The deleted head, if there is one.
  unfoldable pub trim : Ptr → ThreadList → Cmd A (Ptr × ThreadList)
  trim none list = pure (none, list)
  trim (some a) list = do l ← thread_list_delete list a; pure (some a, l)

  unfoldable pub thread_trim_head : ThreadList → Cmd A (Ptr × ThreadList)
  thread_trim_head list = trim list.ends.head list
