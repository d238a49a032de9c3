-- ===== src/Thread.antt =====
-- thread.c and thread.h: the scheduler of threads. A list of threads is the sequence of their addresses
-- (ThreadList has the links, and ThreadList.Moves that they make such a sequence); `store` holds the
-- rest of each thread, without the pointer to the one master and the resource usage. The six lists are
-- one function of the type, and so are `readfd` and `writefd`; nothing is put into `exceptfd`. A step
-- is `none` where the code would fail an assertion, put a thread into a list twice, take one out of a
-- list that it is not in, or read a member of the union that was not written. The addresses that
-- `calloc` gives, the clock and `select` are arguments.
pub mod Release
pub mod Schedule
pub mod Members
pub mod Valid
pub mod Put
pub mod Clear
pub mod Retire
pub mod Cancel
pub mod Add
pub mod Start
pub mod Timer
pub mod Serve
pub mod Process
pub mod Look
pub mod Fetch
pub mod Rounds
pub mod Purge
pub mod Reach
use mksh.Prelude.{
  ℕ, ◌+◌, ◌-◌, ◌%◌, ◌^◌, Bool, true, false, ◌&&◌, Option, none, some, List, [], ◌∷◌, ◌++◌, ◌==◌,
  leb, if◌then◌else◌, ◌>>=◌,
}
use mksh.Prelude.Int.{ℤ, pos, ◌+ℤ◌, ltb_ℤ}
use mksh.Timeval.{Timeval, timeval_subtract, timeval_cmp, not_past}

pub data ThreadType : Type 0 where
  thread_read : ThreadType
  thread_write : ThreadType
  thread_timer : ThreadType
  thread_event : ThreadType
  thread_ready : ThreadType
  thread_unused : ThreadType

abbrev pub rank : ThreadType → ℕ
rank thread_read = 0
rank thread_write = 1
rank thread_timer = 2
rank thread_event = 3
rank thread_ready = 4
rank thread_unused = 5

pub data Union : Type 0 where
  val : ℤ → Union
  fd : ℕ → Union
  sands : Timeval → Union

-- `func` and `arg` are pointers.
pub record Thread : Type 0 where
  pub type : ThreadType
  pub func : ℕ
  pub arg : ℕ
  pub u : Union

pub record Master : Type 0 where
  pub list : ThreadType → List ℕ
  pub fdset : ThreadType → ℕ → Bool
  pub store : ℕ → Option Thread
  pub alloc : ℕ

abbrev pub thread_master_create : Master
thread_master_create = record { list = λ k. []; fdset = λ k n. false; store = λ a. none; alloc = 0 }

unfoldable pub mem : ℕ → List ℕ → Bool
mem a [] = false
mem a (b ∷ bs) = if a == b then true else mem a bs

pub remove : ℕ → List ℕ → List ℕ
remove a [] = []
remove a (b ∷ bs) = if a == b then bs else b ∷ remove a bs

abbrev pub set_list : ThreadType → List ℕ → Master → Master
set_list k l m = record m { list = λ j. if rank j == rank k then l else m.list j }

abbrev pub set_fd : ThreadType → ℕ → Bool → Master → Master
set_fd k n b m = record m {
  fdset = λ j i. if (rank j == rank k) && (i == n) then b else m.fdset j i;
}

abbrev pub set_thread : ℕ → Thread → Master → Master
set_thread a t m = record m { store = λ b. if b == a then some t else m.store b }

unfoldable pub thread_list_add : ThreadType → ℕ → Master → Option Master
thread_list_add k a m = if mem a (m.list k) then none else some (set_list k (m.list k ++ a ∷ []) m)

unfoldable pub thread_list_delete : ThreadType → ℕ → Master → Option Master
thread_list_delete k a m =
    if mem a (m.list k) then some (set_list k (remove a (m.list k)) m) else none

unfoldable pub head : List ℕ → Option ℕ
head [] = none
head (a ∷ bs) = some a

unfoldable pub trim : ThreadType → Option ℕ → Master → Option (Option ℕ × Master)
trim k none m = some (none, m)
trim k (some a) m = do m' ← thread_list_delete k a m; some (some a, m')

unfoldable pub thread_trim_head : ThreadType → Master → Option (Option ℕ × Master)
thread_trim_head k m = trim k (head (m.list k)) m

unfoldable pub thread_empty : ThreadType → Master → Bool
thread_empty k m = elim (head (m.list k)) [ none ↦ true | some a ↦ false ]

-- `thread->type = THREAD_UNUSED` and `thread_add_unuse`, which asserts that.
pub set_type : ThreadType → ℕ → Master → Option Master
set_type k a m = do t ← m.store a; some (set_thread a (record t { type = k }) m)

pub thread_add_unuse : Master → ℕ → Option Master
thread_add_unuse m a = do
  t ← m.store a
  if rank t.type == rank thread_unused then thread_list_add thread_unused a m else none

-- The union of a thread that is used again keeps its value; that of a new one is zero.
unfoldable pub get : ℕ → Option ℕ → Master → Option (ℕ × Union × Master)
get new none m = some (new, val (pos 0), record m { alloc = (m.alloc + 1) % 2 ^ 64 })
get new (some a) m = do t ← m.store a; some (a, t.u, m)

unfoldable pub thread_get : ℕ → Master → ThreadType → ℕ → ℕ → Option (ℕ × Master)
thread_get new m type func arg = do
  r ← thread_trim_head thread_unused m
  g ← get new r.0 r.1
  some (g.0, set_thread g.0 (record { type = type; func = func; arg = arg; u = g.1 }) g.2)

unfoldable pub set_union : ℕ → Union → Master → Option Master
set_union a u m = do t ← m.store a; some (set_thread a (record t { u = u }) m)

-- FD_SETSIZE of the C library: an `fd_set` has room for the descriptors below it.
abbrev pub fd_setsize : ℕ
fd_setsize = 1024

-- The shared body of `thread_add_read` and `thread_add_write`; NULL is `none`. FD_ISSET reads behind the
-- set for a descriptor that it has no room for.
pub add_fd : ThreadType → ℕ → Master → ℕ → ℕ → ℕ → Option (Option ℕ × Master)
add_fd k new m func arg n =
    if leb fd_setsize n then none else if m.fdset k n then some (none, m) else (do
      g ← thread_get new m k func arg
      s ← set_union g.0 (fd n) (set_fd k n true g.1)
      l ← thread_list_add k g.0 s
      some (some g.0, l))

pub thread_add_read : ℕ → Master → ℕ → ℕ → ℕ → Option (Option ℕ × Master)
thread_add_read new m func arg n = add_fd thread_read new m func arg n

pub thread_add_write : ℕ → Master → ℕ → ℕ → ℕ → Option (Option ℕ × Master)
thread_add_write new m func arg n = add_fd thread_write new m func arg n

pub sands_of : Union → Option Timeval
sands_of (sands t) = some t
sands_of (val n) = none
sands_of (fd n) = none

pub fd_of : Union → Option ℕ
fd_of (fd n) = some n
fd_of (val i) = none
fd_of (sands t) = none

-- The loop of `thread_add_timer` and the insertion behind it: in front of the first thread whose time
-- is not earlier, or at the end.
pub insert_timer : Master → Timeval → ℕ → List ℕ → Option (List ℕ)
insert_timer m v a [] = some (a ∷ [])
insert_timer m v a (b ∷ bs) = do
  t ← m.store b
  w ← sands_of t.u
  elim (ltb_ℤ (pos 0) (timeval_cmp v w)) [
    | false ↦ some (a ∷ b ∷ bs)
    | true ↦ (do rest ← insert_timer m v a bs; some (b ∷ rest))
  ]

pub add_timer : Timeval → ℕ → Master → Option (ℕ × Master)
add_timer v a m =
    if mem a (m.list thread_timer)
    then none
    else (do l ← insert_timer m v a (m.list thread_timer); some (a, set_list thread_timer l m))

pub thread_add_timer : ℕ → Timeval → Master → ℕ → ℕ → ℤ → Option (ℕ × Master)
thread_add_timer new now m func arg timer = do
  g ← thread_get new m thread_timer func arg
  let v = record now { sec = now.sec +ℤ timer }
  s ← set_union g.0 (sands v) g.1
  add_timer v g.0 s

unfoldable pub thread_add_event : ℕ → Master → ℕ → ℕ → ℤ → Option (ℕ × Master)
thread_add_event new m func arg n = do
  g ← thread_get new m thread_event func arg
  s ← set_union g.0 (val n) g.1
  l ← thread_list_add thread_event g.0 s
  some (g.0, l)
