-- ===== src/Thread/Release.antt =====
-- thread.c: the functions that take a thread out of use. One is `none` where the code would read a thread
-- that was given back.
use mksh.Prelude.{
  ℕ, ◌+◌, ◌-◌, ◌%◌, ◌^◌, false, Option, none, some, List, [], ◌∷◌, ◌==◌, if◌then◌else◌, ◌>>=◌,
}
use mksh.Thread.{
  ThreadType, Union, Master, set_fd, thread_list_delete, set_type, thread_add_unuse, fd_of,
  thread_read, thread_write, thread_timer, thread_event, thread_ready, thread_unused,
}

-- `assert (FD_ISSET (fd, set)); FD_CLR (fd, set);`
unfoldable pub clear_fd : ThreadType → Union → Master → Option Master
clear_fd k u m = do n ← fd_of u; if m.fdset k n then some (set_fd k n false m) else none

unfoldable pub discard : ThreadType → ℕ → Master → Option Master
discard k a m = do
  d ← thread_list_delete k a m
  s ← set_type thread_unused a d
  thread_add_unuse s a

-- The `switch` of `thread_cancel`, with what follows it.
unfoldable pub cancel : ThreadType → Union → ℕ → Master → Option Master
cancel thread_read u a m = clear_fd thread_read u m >>= discard thread_read a
cancel thread_write u a m = clear_fd thread_write u m >>= discard thread_write a
cancel thread_timer u a m = discard thread_timer a m
cancel thread_event u a m = discard thread_event a m
cancel thread_ready u a m = discard thread_ready a m
cancel thread_unused u a m = thread_add_unuse m a

unfoldable pub thread_cancel : Master → ℕ → Option Master
thread_cancel m a = do t ← m.store a; cancel t.type t.u a m

-- The next thread is read before a thread leaves the list, so the loop follows the first sequence.
unfoldable pub cancel_events : ℕ → List ℕ → Master → Option Master
cancel_events arg [] m = some m
cancel_events arg (a ∷ bs) m = do
  t ← m.store a
  m' ← (if t.arg == arg then discard thread_event a m else some m)
  cancel_events arg bs m'

unfoldable pub thread_cancel_event : Master → ℕ → Option Master
thread_cancel_event m arg = cancel_events arg (m.list thread_event) m

-- `thread_list_free`: a node is read before it is given back.
unfoldable pub free_threads : List ℕ → Master → Option Master
free_threads [] m = some m
free_threads (a ∷ bs) m = do
  t ← m.store a
  free_threads bs (record m {
    store = λ b. if b == a then none else m.store b;
    alloc = (m.alloc + (2 ^ 64 - 1)) % 2 ^ 64;
  })

unfoldable pub thread_list_free : ThreadType → Master → Option Master
thread_list_free k m = free_threads (m.list k) m

-- The master itself is given back behind this.
unfoldable pub thread_master_free : Master → Option Master
thread_master_free m = do
  r ← thread_list_free thread_read m
  w ← thread_list_free thread_write r
  t ← thread_list_free thread_timer w
  e ← thread_list_free thread_event t
  y ← thread_list_free thread_ready e
  thread_list_free thread_unused y
