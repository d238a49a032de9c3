-- ===== src/Thread/Fetch.antt =====
-- thread.c: what a round of `thread_fetch` may end with, and the part of it behind `select`.
use mksh.Prelude.{
  ℕ, ◌≡◌, refl, sym, ◌∙◌, ◌⊎◌, inl, inr, Bool, true, Option, none, some, List, [], ◌∷◌,
  Option-cases, ◌>>=◌, arith,
}
use mksh.Timeval.{Timeval}
use mksh.Thread.{
  ThreadType, thread_read, thread_write, thread_timer, thread_event, thread_ready, thread_unused,
  Thread, Master, mem, head,
}
use mksh.Thread.Schedule.{
  Selected, timeout, interrupted, select_error, selected, Round, Fetched, fetched, failed, again,
  thread_process_fd, thread_timer_wait, answer, run_head,
}
use mksh.Thread.Valid.{Valid, Placed, Placed-Valid}
use mksh.Thread.Members.{clash}
use mksh.Thread.Put.{not_home}
use mksh.Thread.Add.{head-mem}
use mksh.Thread.Serve.{Ran}
use mksh.Thread.Process.{Reported, Processed, thread_process_fd-Processed}
use mksh.Thread.Look.{Later, Due, run_head-none, run_head-some}

abbrev pub asked : Round → Master → Option Timeval → Selected
asked r m w = r.select (m.fdset thread_read) (m.fdset thread_write) w

-- No thread can run before `select` is asked.
pub record Quiet (r : Round) (m : Master) : Type 0 where
  pub no_event : head (m.list thread_event) ≡ none
  pub no_timer : (b : ℕ) → mem b (m.list thread_timer) ≡ true → Later m r.now b
  pub no_ready : head (m.list thread_ready) ≡ none

-- The thread `t` that stood at `a` in `m` is handed out.
pub record Handed (m : Master) (a : ℕ) (t : Thread) (m' : Master) : Type 0 where
  pub at : m.store a ≡ some t
  pub placed : Placed m thread_unused a (record t { type = thread_unused }) m'

abbrev pub Polled : Master → (ℕ → Bool) → (ℕ → Bool) → ℕ → Type 0
Polled m reads writes a =
    Reported m reads (m.list thread_read) a ⊎ Reported m writes (m.list thread_write) a

-- What `select` has reported makes of `m`: the threads that wait for a reported descriptor are ready,
-- and nothing of them but the type has changed; the other threads and their lists are as before.
pub record Turned (m : Master) (reads writes : ℕ → Bool) (n : Master) : Type 0 where
  pub readied :
      (a : ℕ)
      → Polled m reads writes a
      → (s : Thread) × ((m.store a ≡ some s)
          × ((n.store a ≡ some (record s { type = thread_ready }))
              × (mem a (n.list thread_ready) ≡ true)))
  pub same :
      (a : ℕ)
      → (Polled m reads writes a → ⊥)
      → (n.store a ≡ m.store a) × ((i : ThreadType) → mem a (n.list i) ≡ mem a (m.list i))

-- `select` is asked to wait as long as `thread_timer_wait` says, and answers `s`.
pub record Asked (r : Round) (m : Master) (s : Selected) : Type 0 where
  pub told : Option Timeval
  pub timed : thread_timer_wait r.wait_now m ≡ some told
  pub answer : asked r m told ≡ s

-- What a round may end with.
pub data Answered (r : Round) (m : Master) : Fetched → Type 0 where
  event :
      (a : ℕ) (t : Thread) (m' : Master)
      → head (m.list thread_event) ≡ some a
      → Handed m a t m'
      → Answered r m (fetched t m')
  timer :
      (a : ℕ) (t : Thread) (m' : Master)
      → head (m.list thread_event) ≡ none
      → mem a (m.list thread_timer) ≡ true
      → Due m r.now a
      → Handed m a t m'
      → Answered r m (fetched t m')
  ready :
      (a : ℕ) (t : Thread) (m' : Master)
      → head (m.list thread_event) ≡ none
      → ((b : ℕ) → mem b (m.list thread_timer) ≡ true → Later m r.now b)
      → head (m.list thread_ready) ≡ some a
      → Handed m a t m'
      → Answered r m (fetched t m')
  polled :
      (a : ℕ) (s : Thread) (n m' : Master) (reads writes : ℕ → Bool)
      → Quiet r m
      → Asked r m (selected reads writes)
      → Polled m reads writes a
      → m.store a ≡ some s
      → Turned m reads writes n
      → Handed n a (record s { type = thread_ready }) m'
      → Answered r m (fetched (record s { type = thread_ready }) m')
  nobody :
      (n : Master) (reads writes : ℕ → Bool)
      → Quiet r m
      → Asked r m (selected reads writes)
      → ((a : ℕ) → Polled m reads writes a → ⊥)
      → Turned m reads writes n
      → Answered r m (again n)
  timed_out : Quiet r m → Asked r m timeout → Answered r m (again m)
  signalled : Quiet r m → Asked r m interrupted → Answered r m (again m)
  refused : Quiet r m → Asked r m select_error → Answered r m (failed m)

abbrev pub master_of : Fetched → Master
master_of (fetched t m) = m
master_of (failed m) = m
master_of (again m) = m

pub record Ends (r : Round) (m : Master) (o : Option Fetched) : Type 0 where
  pub outcome : Fetched
  pub result : o ≡ some outcome
  pub valid : Valid (master_of outcome)
  pub answered : Answered r m outcome

pub handed :
    (m : Master) (a : ℕ) (t : Thread) (m' : Master)
    → m.store a ≡ some t
    → Placed m thread_unused a (record t { type = thread_unused }) m'
    → Handed m a t m'
handed m a t m' e p = record { at = e; placed = p }

pub handed-Valid :
    (m : Master) (a : ℕ) (t : Thread) (m' : Master)
    → Valid m
    → Placed m thread_unused a (record t { type = thread_unused }) m'
    → Valid m'
handed-Valid m a t m' v p =
    Placed-Valid m m' thread_unused a (record t { type = thread_unused }) v p

pub head-none : (l : List ℕ) (a : ℕ) → head l ≡ none → mem a l ≡ true → ⊥
unfolding head mem
head-none [] a e h = cc
head-none (b ∷ bs) a e h = cc

-- The two runs of `thread_process_fd` together. A thread waits for reading or for writing, never for
-- both.
both-Turned :
    (m : Master) (reads writes : ℕ → Bool) (o r : Option (ℕ × Master))
    → Valid m
    → (p : Processed m thread_read reads (m.list thread_read) o)
    → (s : Processed p.master thread_write writes (p.master.list thread_write) r)
    → Turned m reads writes s.master
both-Turned m reads writes o r v p s = record {
  readied = λ a h. elim h [
    | inl (i, (x, (y, z))) ↦
        let here : mem a (n.list thread_ready) ≡ true = p.moved a i x y z in
        let (t, (e, f)) = p.readied a (i, (x, (y, z))) in
        let (g, _) =
          s.same a
            (λ (_, (w, _)). clash w (not_home n thread_write thread_ready a p.valid here refl)) in
        (t, (e, (g ∙ f, s.kept a here)))
    | inr (i, (x, (y, z))) ↦
        let w : Reported n writes (n.list thread_write) a = (i, (back a ∙ x, (p.fds a ∙ y, z))) in
        let (t, (e, f)) = s.readied a w in
        let (g, _) =
          p.same a (λ (_, (c, _)). clash c (not_home m thread_read thread_write a v x refl)) in
        (t, (sym g ∙ e, (f, s.moved a i (back a ∙ x) (p.fds a ∙ y) z)))
  ];
  same = λ a h.
      let (e, f) = p.same a (λ x. h (inl x)) in
      let (g, k) =
        s.same a (λ (i, (x, (y, z))). h (inr (i, (sym (back a) ∙ x, (sym (p.fds a) ∙ y, z))))) in
      (g ∙ e, λ i. k i ∙ f i);
}
  where
    n : Master
    n = p.master

    back : (a : ℕ) → mem a (n.list thread_write) ≡ mem a (m.list thread_write)
    back a = p.off thread_write a (λ x. absurd (omega arith)) (λ x. absurd (omega arith))

-- Both lists are processed; what came into the empty list of the ready threads was reported.
pub selected-Ends :
    (r : Round) (m : Master) (reads writes : ℕ → Bool)
    → Valid m
    → Quiet r m
    → Asked r m (selected reads writes)
    → Ends r m (answer (selected reads writes) m)
unfolding answer
selected-Ends r m reads writes v q e =
    let p : Processed m thread_read reads (m.list thread_read)
        (thread_process_fd m thread_read reads) =
      thread_process_fd-Processed thread_read reads m (omega arith) v in
    let n : Master = p.master in
    let s : Processed n thread_write writes (n.list thread_write)
        (thread_process_fd n thread_write writes) =
      thread_process_fd-Processed thread_write writes n (omega arith) p.valid in
    let k : Master = s.master in
    let turned : Turned m reads writes k =
      both-Turned m reads writes (thread_process_fd m thread_read reads)
        (thread_process_fd n thread_write writes) v p s in
    let back : (a : ℕ) → mem a (n.list thread_write) ≡ mem a (m.list thread_write) =
      λ a. p.off thread_write a (λ x. absurd (omega arith)) (λ x. absurd (omega arith)) in
    let came : (a : ℕ) → mem a (k.list thread_ready) ≡ true → Polled m reads writes a = λ a h.
      elim (s.came a h) [
        | inr (i, (x, (y, z))) ↦ inr (i, (sym (back a) ∙ x, (sym (p.fds a) ∙ y, z)))
        | inl x ↦ elim (p.came a x) [
          | inl y ↦ absurd (head-none (m.list thread_ready) a q.no_ready y)
          | inr y ↦ inl y
        ]
      ] in
    elim (Option-cases (head (k.list thread_ready))) [
      | inl x ↦ record {
        outcome = again k;
        result =
            rw (p.result, ◌>>=◌)
              (rw (s.result, ◌>>=◌) (run_head-none thread_ready (λ n. some (again n)) k x));
        valid = s.valid;
        answered = nobody k reads writes q e (absent x turned) turned;
      }
      | inr (a, x) ↦
          let h : Polled m reads writes a = came a (head-mem (k.list thread_ready) a x) in
          let (t, (at, (ready_at, _))) = turned.readied a h in
          let t' : Thread = record t { type = thread_ready } in
          let o : Ran k a t' (run_head thread_ready (λ n. some (again n)) k) =
            run_head-some thread_ready (λ n. some (again n)) k a t' s.valid x ready_at
              (omega arith) in
          record {
            outcome = fetched t' o.master;
            result = rw (p.result, ◌>>=◌) (rw (s.result, ◌>>=◌) o.result);
            valid = handed-Valid k a t' o.master s.valid o.placed;
            answered =
                polled a t k o.master reads writes q e h at turned
                  (handed k a t' o.master ready_at o.placed);
          }
    ]
  where
    absent :
        {k : Master}
        → head (k.list thread_ready) ≡ none
        → Turned m reads writes k
        → (a : ℕ) → Polled m reads writes a
        → ⊥
    absent {k} x turned a y =
        let (t, (_, (_, here))) = turned.readied a y in head-none (k.list thread_ready) a x here
