-- ===== src/Thread/Reach.antt =====
-- thread.c: the states that the functions of the scheduler lead to.
use mksh.Prelude.{
  ℕ, ◌≡◌, ◌≢◌, refl, sym, ◌∙◌, inl, inr, true, false, Option, none, some, List, Bool-cases, ◌>>=◌,
  arith, ◌≤◌, ◌<◌, leb,
}
use mathlib.Core.Path.{subst}
use mksh.Prelude.Int.{ℤ}
use mksh.Timeval.{Timeval}
use mksh.Thread.{
  ThreadType, thread_read, thread_write, thread_event, thread_unused, rank, Thread, Master, Union,
  thread_master_create, fd_setsize, add_fd, thread_add_read, thread_add_write, thread_add_timer,
  thread_add_event,
}
use mksh.Thread.Schedule.{Round, thread_fetch}
use mksh.Thread.Release.{thread_cancel, thread_cancel_event}
use mksh.Thread.Members.{mem-nil}
use mksh.Thread.Valid.{Valid, Placed-Valid}
use mksh.Thread.Retire.{Dropped}
use mksh.Thread.Cancel.{thread_cancel-Dropped}
use mksh.Thread.Clear.{some_inj}
use mksh.Thread.Add.{Started}
use mksh.Thread.Start.{add_fd-Started, thread_add_event-Started}
use mksh.Thread.Timer.{thread_add_timer-Started}
use mksh.Thread.Fetch.{master_of}
use mksh.Thread.Rounds.{thread_fetch-Valid}
use mksh.Thread.Purge.{Purged, thread_cancel_event-Purged}

-- A call of one of the functions; `new` is the address that `calloc` would give.
pub data Call : Type 0 where
  add_read : (new func arg n : ℕ) → Call
  add_write : (new func arg n : ℕ) → Call
  add_timer : (new : ℕ) → Timeval → (func arg : ℕ) → ℤ → Call
  add_event : (new func arg : ℕ) → ℤ → Call
  cancel : ℕ → Call
  cancel_event : ℕ → Call
  fetch : List Round → Call

-- The state behind the call.
abbrev pub call : Call → Master → Option Master
call (add_read new func arg n) m = thread_add_read new m func arg n >>= λ r. some r.1
call (add_write new func arg n) m = thread_add_write new m func arg n >>= λ r. some r.1
call (add_timer new now func arg timer) m =
    thread_add_timer new now m func arg timer >>= λ r. some r.1
call (add_event new func arg n) m = thread_add_event new m func arg n >>= λ r. some r.1
call (cancel a) m = thread_cancel m a
call (cancel_event arg) m = thread_cancel_event m arg
call (fetch rs) m = thread_fetch rs m >>= λ o. some (master_of o)

-- `calloc` gives an address that is free, a descriptor is below FD_SETSIZE, and only a thread that is in use is cancelled.
abbrev pub Allowed : Master → Call → Type 0
Allowed m (add_read new func arg n) = (m.store new ≡ none) × (n < fd_setsize)
Allowed m (add_write new func arg n) = (m.store new ≡ none) × (n < fd_setsize)
Allowed m (add_timer new now func arg timer) = m.store new ≡ none
Allowed m (add_event new func arg n) = m.store new ≡ none
Allowed m (cancel a) = (t : Thread) × ((m.store a ≡ some t) × (t.type ≢ thread_unused))
Allowed m (cancel_event arg) = Unit {0}
Allowed m (fetch rs) = Unit {0}

pub data Reached : Master → Type 0 where
  created : Reached thread_master_create
  called :
      {m : Master} (c : Call) (m' : Master)
      → Reached m
      → Allowed m c
      → call c m ≡ some m'
      → Reached m'

-- A call ends with a well-formed state.
abbrev pub Safe : Option Master → Type 0
Safe r = (m' : Master) × ((r ≡ some m') × Valid m')

Started-Safe :
    {A : Type 0} {m : Master} {k : ThreadType} {func arg : ℕ} {u : Union} {give : ℕ → A}
    {r : Option (A × Master)}
    → Valid m
    → Started m k func arg u give r
    → Safe (r >>= λ x. some x.1)
Started-Safe {A} {m} {k} {func} {arg} {u} {give} {r} v s = (
  s.master,
  (
    rw (s.run, ◌>>=◌) refl,
    Placed-Valid m s.master k s.address (record { type = k; func = func; arg = arg; u = u }) v
        s.placed,
  ),
)

add_fd-Safe :
    (k : ThreadType) (new : ℕ) (m : Master) (func arg n : ℕ)
    → Valid m
    → rank k ≤ 1
    → (m.store new ≡ none) × (n < fd_setsize)
    → Safe (add_fd k new m func arg n >>= λ x. some x.1)
unfolding add_fd
add_fd-Safe k new m func arg n v h (e, l) =
    let x : leb fd_setsize n ≡ false = ground arith in
    elim (Bool-cases (m.fdset k n)) [
      | inl b ↦ (m, (rw x (rw (b, ◌>>=◌) refl), v))
      | inr b ↦ Started-Safe v (add_fd-Started k new m func arg n v h e b x)
    ]

call-Safe : (c : Call) (m : Master) → Valid m → Allowed m c → Safe (call c m)
unfolding thread_add_read thread_add_write
call-Safe (add_read new func arg n) m v e =
    add_fd-Safe thread_read new m func arg n v (omega arith) e
call-Safe (add_write new func arg n) m v e =
    add_fd-Safe thread_write new m func arg n v (omega arith) e
call-Safe (add_timer new now func arg timer) m v e =
    Started-Safe v (thread_add_timer-Started new now m func arg timer v e)
call-Safe (add_event new func arg n) m v e =
    Started-Safe v (thread_add_event-Started new m func arg n v e)
call-Safe (cancel a) m v (t, (e, n)) =
    let d : Dropped m a t (thread_cancel m a) = thread_cancel-Dropped m a t v e n in
    (
      d.master,
      (
        d.run,
        Placed-Valid m d.master thread_unused a (record t { type = thread_unused }) v d.placed,
      ),
    )
call-Safe (cancel_event arg) m v e =
    let p : Purged m arg (m.list thread_event) (thread_cancel_event m arg) =
      thread_cancel_event-Purged m arg v in
    (p.master, (p.result, p.valid))
call-Safe (fetch rs) m v e =
    let (o, (p, w)) = thread_fetch-Valid rs m v in (master_of o, (rw (p, ◌>>=◌) refl, w))

pub create-Valid : Valid thread_master_create
create-Valid = record {
  stored = λ k a h. absurd (mem-nil a h);
  distinct = λ k. tt;
  unique = λ k a b n r h. absurd (mem-nil a h);
  source = λ k n r e. absurd (no_bit e);
  known = λ a. inl refl;
}
  where
    no_bit : false ≡ true → ⊥
    no_bit e = cc

pub Reached-Valid : {m : Master} → Reached m → Valid m
Reached-Valid created = create-Valid
Reached-Valid (called {m} c m' r h e) =
    let (n, (p, w)) = call-Safe c m (Reached-Valid r) h in subst Valid (some_inj (sym p ∙ e)) w

-- In every state that calls lead to from `thread_master_create`, where `calloc` gives addresses that are
-- free, descriptors are below FD_SETSIZE and only threads that are in use are cancelled, such a call ends again without a fault: no
-- assertion fails, no thread comes into a list twice or leaves one that it is not in, and the union is
-- read as it was written. The state behind the call is well-formed.
pub Reached-Safe : (m : Master) (c : Call) → Reached m → Allowed m c → Safe (call c m)
Reached-Safe m c r h = call-Safe c m (Reached-Valid r) h
