-- ===== src/Thread/Rounds.antt =====
-- thread.c: the rounds of `thread_fetch` on a well-formed state.
use mksh.Prelude.{
  ℕ, ◌≡◌, refl, sym, ap, ◌∙◌, inl, inr, Bool, true, Option, none, some, List, [], ◌∷◌, Option-cases,
  ◌>>=◌, arith,
}
use mathlib.Core.Path.{subst}
use mksh.Prelude.Int.{pos, ltb_ℤ}
use mksh.Timeval.{Timeval, timeval_cmp}
use mksh.Thread.Clear.{some_inj}
use mksh.Thread.{
  thread_timer, thread_event, thread_ready, Thread, Master, mem, remove, head, set_list,
  thread_list_delete,
}
use mksh.Thread.Schedule.{
  Selected, timeout, interrupted, select_error, selected, Round, Fetched, fetched, failed, again,
  find_due, answer, wait, run_due, due, run, run_head, fetch_round, thread_fetch,
}
use mksh.Thread.Members.{clash}
use mksh.Thread.Valid.{Stored, Valid}
use mksh.Thread.Add.{head-mem}
use mksh.Thread.Serve.{Ran}
use mksh.Thread.Look.{
  Later, Due, Sought, Search, timers-Search, thread_timer_wait-some, run_head-none, run_taken,
  run_head-some,
}
use mksh.Thread.Fetch.{
  asked, Asked, Quiet, Polled, Answered, event, timer, ready, nobody, timed_out, signalled, refused,
  master_of, Ends, handed, handed-Valid, head-none, selected-Ends,
}

answer-Ends :
    (r : Round) (m : Master) (s : Selected)
    → Valid m
    → Quiet r m
    → Asked r m s
    → Ends r m (answer s m)
unfolding answer
answer-Ends r m timeout v q e = record {
  outcome = again m;
  result = refl;
  valid = v;
  answered = timed_out q e;
}
answer-Ends r m interrupted v q e = record {
  outcome = again m;
  result = refl;
  valid = v;
  answered = signalled q e;
}
answer-Ends r m select_error v q e = record {
  outcome = failed m;
  result = refl;
  valid = v;
  answered = refused q e;
}
answer-Ends r m (selected reads writes) v q e = selected-Ends r m reads writes v q e

wait-Ends : (r : Round) (m : Master) → Valid m → Quiet r m → Ends r m (wait r m)
unfolding wait
wait-Ends r m v q =
    let (w, e) = thread_timer_wait-some r.wait_now m v in
    rw (e, ◌>>=◌)
      (answer-Ends r m (asked r m w) v q (record { told = w; timed = e; answer = refl }))

no_due-Ends :
    (r : Round) (m : Master)
    → Valid m
    → head (m.list thread_event) ≡ none
    → ((b : ℕ) → mem b (m.list thread_timer) ≡ true → Later m r.now b)
    → Ends r m (run_head thread_ready (wait r) m)
no_due-Ends r m v e f = elim (Option-cases (head (m.list thread_ready))) [
  | inl x ↦
      rw (run_head-none thread_ready (wait r) m x)
        (wait-Ends r m v (record { no_event = e; no_timer = f; no_ready = x }))
  | inr (a, x) ↦
      let d : Stored m thread_ready a =
        v.stored thread_ready a (head-mem (m.list thread_ready) a x) in
      let o : Ran m a d.thread (run_head thread_ready (wait r) m) =
        run_head-some thread_ready (wait r) m a d.thread v x d.at (omega arith) in
      record {
        outcome = fetched d.thread o.master;
        result = o.result;
        valid = handed-Valid m a d.thread o.master v o.placed;
        answered = ready a d.thread o.master e f x (handed m a d.thread o.master d.at o.placed);
      }
]

run_due-Ends :
    (r : Round) (m : Master) (o : Option ℕ)
    → Valid m
    → head (m.list thread_event) ≡ none
    → Sought m r.now (m.list thread_timer) o
    → Ends r m (run_due r o m)
unfolding run_due thread_list_delete
run_due-Ends r m none v e s = no_due-Ends r m v e s
run_due-Ends r m (some a) v e (h, p) =
    let d : Stored m thread_timer a = v.stored thread_timer a h in
    let o : Ran m a d.thread (run (set_list thread_timer (remove a (m.list thread_timer)) m) a) =
      run_taken m thread_timer a d.thread v h d.at (omega arith) in
    record {
      outcome = fetched d.thread o.master;
      result = rw (h, ◌>>=◌) o.result;
      valid = handed-Valid m a d.thread o.master v o.placed;
      answered = timer a d.thread o.master e h p (handed m a d.thread o.master d.at o.placed);
    }

-- A round on a well-formed state ends without a fault and leaves a well-formed state. It hands out the
-- first event, or a timer that is due if there is no event, or the first ready thread if no timer is due
-- either. Else `select` is asked to wait as long as `thread_timer_wait` says. If it reports descriptors,
-- the threads that wait for them become ready, with nothing but their type changed, and the other
-- threads stay as they are; one of those that became ready is handed out. If nobody waits for a
-- reported descriptor, or the time is up, or a signal came, there is another round. If `select` fails,
-- so does the round, and the state is the one before it.
pub fetch_round-Ends : (r : Round) (m : Master) → Valid m → Ends r m (fetch_round r m)
unfolding fetch_round due
fetch_round-Ends r m v = elim (Option-cases (head (m.list thread_event))) [
  | inl x ↦
      let s : Search m r.now (m.list thread_timer) (find_due r.now m (m.list thread_timer)) =
        timers-Search m r.now v in
      rw (run_head-none thread_event (due r) m x)
        (rw (s.result, ◌>>=◌) (run_due-Ends r m s.answer v x s.sought))
  | inr (a, x) ↦
      let d : Stored m thread_event a =
        v.stored thread_event a (head-mem (m.list thread_event) a x) in
      let o : Ran m a d.thread (run_head thread_event (due r) m) =
        run_head-some thread_event (due r) m a d.thread v x d.at (omega arith) in
      record {
        outcome = fetched d.thread o.master;
        result = o.result;
        valid = handed-Valid m a d.thread o.master v o.placed;
        answered = event a d.thread o.master x (handed m a d.thread o.master d.at o.placed);
      }
]

next :
    (r : Round) (rs : List Round) (m : Master)
    → ((n : Master)
        → Valid n
        → (x : Fetched) × ((thread_fetch rs n ≡ some x) × Valid (master_of x)))
    → (o : Fetched) → fetch_round r m ≡ some o
    → Valid (master_of o)
    → (x : Fetched) × ((thread_fetch (r ∷ rs) m ≡ some x) × Valid (master_of x))
unfolding thread_fetch
next r rs m f (fetched t n) e w = (fetched t n, (rw (e, ◌>>=◌) refl, w))
next r rs m f (failed n) e w = (failed n, (rw (e, ◌>>=◌) refl, w))
next r rs m f (again n) e w = let (x, (p, q)) = f n w in (x, (rw (e, ◌>>=◌) p, q))

-- However many rounds there are, `thread_fetch` on a well-formed state ends without a fault and leaves a
-- well-formed state.
pub thread_fetch-Valid :
    (rs : List Round) (m : Master)
    → Valid m
    → (o : Fetched) × ((thread_fetch rs m ≡ some o) × Valid (master_of o))
unfolding thread_fetch
thread_fetch-Valid [] m v = (again m, (refl, v))
thread_fetch-Valid (r ∷ rs) m v =
    let e : Ends r m (fetch_round r m) = fetch_round-Ends r m v in
    next r rs m (λ n w. thread_fetch-Valid rs n w) e.outcome e.result e.valid

-- A thread that can run in the round: an event, a timer that is due, a ready thread, or one that waits
-- for a descriptor that `select` reports, however long it is told to wait.
pub data Runnable (r : Round) (m : Master) : Type 0 where
  an_event : (a : ℕ) → mem a (m.list thread_event) ≡ true → Runnable r m
  a_timer : (a : ℕ) → mem a (m.list thread_timer) ≡ true → Due m r.now a → Runnable r m
  a_ready : (a : ℕ) → mem a (m.list thread_ready) ≡ true → Runnable r m
  a_polled :
      (a : ℕ) (reads writes : ℕ → Bool)
      → ((w : Option Timeval) → asked r m w ≡ selected reads writes)
      → Polled m reads writes a
      → Runnable r m

Quiet-Runnable :
    (r : Round) (m : Master) (w : Option Timeval)
    → Quiet r m
    → Runnable r m
    → (reads : ℕ → Bool) × ((writes : ℕ → Bool) × ((asked r m w ≡ selected reads writes)
          × ((a : ℕ) × Polled m reads writes a)))
Quiet-Runnable r m w q (an_event a h) = absurd (head-none (m.list thread_event) a q.no_event h)
Quiet-Runnable r m w q (a_timer a h (x, (e, d))) =
    let (y, (f, l)) = q.no_timer a h in
    let i : y ≡ x = some_inj (sym f ∙ e) in
    absurd (clash (ap (λ z. ltb_ℤ (timeval_cmp r.now z) (pos 0)) (sym i) ∙ l) d)
Quiet-Runnable r m w q (a_ready a h) = absurd (head-none (m.list thread_ready) a q.no_ready h)
Quiet-Runnable r m w q (a_polled a reads writes f p) = (reads, (writes, (f w, (a, p))))

-- The same of an answer of `select`.
abbrev PolledBy : Master → Selected → ℕ → Type 0
PolledBy m timeout a = Unit {0}
PolledBy m interrupted a = Unit {0}
PolledBy m select_error a = Unit {0}
PolledBy m (selected reads writes) a = Polled m reads writes a

not_again : {r : Round} {m n : Master} → Runnable r m → Answered r m (again n) → ⊥
not_again {r} {m} {n} c (nobody k reads writes q e f t) =
    let (x, (y, (p, (a, h)))) = Quiet-Runnable r m e.told q c in
    absurd (f a (subst (λ s. PolledBy m s a) (sym p ∙ e.answer) h))
not_again {r} {m} {n} c (timed_out q e) =
    let (x, (y, (p, h))) = Quiet-Runnable r m e.told q c in let f = e.answer in cc
not_again {r} {m} {n} c (signalled q e) =
    let (x, (y, (p, h))) = Quiet-Runnable r m e.told q c in let f = e.answer in cc

not_refused : {r : Round} {m n : Master} → Runnable r m → Answered r m (failed n) → ⊥
not_refused {r} {m} {n} c (refused q e) =
    let (x, (y, (p, h))) = Quiet-Runnable r m e.told q c in let f = e.answer in cc

-- If a thread can run in the first round, then `thread_fetch` on a well-formed state hands out a thread
-- in that round, and leaves a well-formed state.
pub thread_fetch-served :
    (r : Round) (rs : List Round) (m : Master)
    → Valid m
    → Runnable r m
    → (t : Thread) × ((m' : Master) × ((thread_fetch (r ∷ rs) m ≡ some (fetched t m')) × Valid m'))
unfolding thread_fetch
thread_fetch-served r rs m v c =
    let e : Ends r m (fetch_round r m) = fetch_round-Ends r m v in
    next e.outcome e.result e.valid e.answered
  where
    next :
        (o : Fetched)
        → fetch_round r m ≡ some o
        → Valid (master_of o)
        → Answered r m o
        → (t : Thread) × ((m' : Master) × ((thread_fetch (r ∷ rs) m ≡ some (fetched t m'))
              × Valid m'))
    next (fetched t n) e w a = (t, (n, (rw (e, ◌>>=◌) refl, w)))
    next (failed n) e w a = absurd (not_refused c a)
    next (again n) e w a = absurd (not_again c a)
