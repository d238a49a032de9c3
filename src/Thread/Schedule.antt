-- ===== src/Thread/Schedule.antt =====
-- thread.c: `thread_fetch` and what it calls.
use mksh.Prelude.{ℕ, ◌+◌, Bool, Option, none, some, List, [], ◌∷◌, if◌then◌else◌, ◌>>=◌}
use mksh.Prelude.Int.{pos, ltb_ℤ}
use mksh.Timeval.{Timeval, timeval_subtract, timeval_cmp, not_past}
use mksh.Thread.{
  ThreadType, Union, Thread, Master, thread_list_add, thread_list_delete, head, thread_trim_head,
  set_type, thread_add_unuse, sands_of, fd_of, thread_read, thread_write, thread_timer,
  thread_event, thread_ready, thread_unused,
}
use mksh.Thread.Release.{clear_fd}

-- The sorted variant: the compiled one.
unfoldable pub timer_wait : Timeval → Option ℕ → Master → Option (Option Timeval)
timer_wait now none m = some none
timer_wait now (some a) m = do
  t ← m.store a
  v ← sands_of t.u
  w ← timeval_subtract v now
  some (some (not_past w))

unfoldable pub thread_timer_wait : Timeval → Master → Option (Option Timeval)
thread_timer_wait now m = timer_wait now (head (m.list thread_timer)) m

-- `*fetch` is a copy of the thread.
unfoldable pub thread_run : Master → ℕ → Option (Thread × Master)
thread_run m a = do
  t ← m.store a
  s ← set_type thread_unused a m
  m' ← thread_add_unuse s a
  some (t, m')

unfoldable pub make_ready : ThreadType → ℕ → Union → Master → Option Master
make_ready k a u m = do
  c ← clear_fd k u m
  d ← thread_list_delete k a c
  l ← thread_list_add thread_ready a d
  set_type thread_ready a l

-- It follows the first sequence too; it gives the number of threads that became ready.
unfoldable pub process_fds : ThreadType → (ℕ → Bool) → List ℕ → Master → Option (ℕ × Master)
process_fds k set [] m = some (0, m)
process_fds k set (a ∷ bs) m = do
  t ← m.store a
  n ← fd_of t.u
  if set n
      then (do m' ← make_ready k a t.u m; r ← process_fds k set bs m'; some (r.0 + 1, r.1))
      else process_fds k set bs m

unfoldable pub thread_process_fd : Master → ThreadType → (ℕ → Bool) → Option (ℕ × Master)
thread_process_fd m k set = process_fds k set (m.list k) m

-- What `select` answers: 0, an error (EINTR or another), or the sets that it left.
pub data Selected : Type 0 where
  timeout : Selected
  interrupted : Selected
  select_error : Selected
  selected : (readfd writefd : ℕ → Bool) → Selected

-- The clock is read twice in a round.
pub record Round : Type 0 where
  pub now : Timeval
  pub wait_now : Timeval
  pub select : (readfd writefd : ℕ → Bool) → Option Timeval → Selected

pub data Fetched : Type 0 where
  fetched : Thread → Master → Fetched
  failed : Master → Fetched
  again : Master → Fetched

-- The loop that looks for a timer that is due.
unfoldable pub find_due : Timeval → Master → List ℕ → Option (Option ℕ)
find_due now m [] = some none
find_due now m (a ∷ bs) = do
  t ← m.store a
  v ← sands_of t.u
  if ltb_ℤ (timeval_cmp now v) (pos 0) then find_due now m bs else some (some a)

unfoldable pub run : Master → ℕ → Option Fetched
run m a = do r ← thread_run m a; some (fetched r.0 r.1)

unfoldable pub run_head : ThreadType → (Master → Option Fetched) → Master → Option Fetched
run_head k next m = do r ← thread_trim_head k m; elim r.0 [ some a ↦ run r.1 a | none ↦ next r.1 ]

unfoldable pub answer : Selected → Master → Option Fetched
answer timeout m = some (again m)
answer interrupted m = some (again m)
answer select_error m = some (failed m)
answer (selected readfd writefd) m = do
  r ← thread_process_fd m thread_read readfd
  w ← thread_process_fd r.1 thread_write writefd
  run_head thread_ready (λ n. some (again n)) w.1

unfoldable pub wait : Round → Master → Option Fetched
wait r m = do
  w ← thread_timer_wait r.wait_now m
  answer (r.select (m.fdset thread_read) (m.fdset thread_write) w) m

unfoldable pub run_due : Round → Option ℕ → Master → Option Fetched
run_due r none m = run_head thread_ready (wait r) m
run_due r (some a) m = do m' ← thread_list_delete thread_timer a m; run m' a

unfoldable pub due : Round → Master → Option Fetched
due r m = do d ← find_due r.now m (m.list thread_timer); run_due r d m

unfoldable pub fetch_round : Round → Master → Option Fetched
fetch_round r m = run_head thread_event (due r) m

-- `while (1)`: one round for each element; `again` when they are used up.
unfoldable pub thread_fetch : List Round → Master → Option Fetched
thread_fetch [] m = some (again m)
thread_fetch (r ∷ rs) m = do
  o ← fetch_round r m
  elim o [
    | again m' ↦ thread_fetch rs m'
    | fetched t m' ↦ some (fetched t m')
    | failed m' ↦ some (failed m')
  ]
