-- ===== src/Thread/Start.antt =====
-- thread.c: `thread_add_read`, `thread_add_write` and `thread_add_event` on a well-formed state.
use mksh.Prelude.{
  ℕ, ◌≤◌, ◌<◌, leb, ◌≡◌, refl, sym, ap, ◌∙◌, ◌⊎◌, inl, inr, true, false, Option, none, some, [],
  ◌∷◌, ◌++◌, ◌==◌, ==_refl, ==→eq, Bool-cases, ◌>>=◌, arith,
}
use mksh.Prelude.Int.{ℤ}
use mksh.Thread.{
  ThreadType, thread_read, thread_write, thread_timer, thread_event, thread_ready, thread_unused,
  rank, val, fd, Thread, Master, mem, set_list, set_fd, set_thread, fd_of, thread_get, fd_setsize,
  add_fd, thread_add_read, thread_add_write, thread_add_event,
}
use mksh.Thread.Members.{rank_inj, clash}
use mksh.Thread.Valid.{Waits, Stored, OnFd, Waiting, Valid, Placed}
use mksh.Thread.Put.{Taken, append-Added, Bits, same_bits, put-Placed, Others, free-Others}
use mksh.Thread.Clear.{polled, some_inj}
use mksh.Thread.Add.{Got, thread_get-Got, Started, set_union-run, add-run, fds-frame}

-- The union is set and the thread is put at the end of list `k`.
finish-Placed :
    (m c : Master) (k : ThreadType) (a : ℕ) (t : Thread)
    → Taken m a c
    → t.type ≡ k
    → Bits m k a t c
    → Placed m k a t (set_list k (c.list k ++ a ∷ []) (set_thread a t c))
finish-Placed m c k a t g e w =
    put-Placed m c k a t (c.list k ++ a ∷ []) g
      (append-Added a (c.list k) (g.gone k) (g.distinct k)) e w

set_bit : (m : Master) (k : ThreadType) (n : ℕ) → (set_fd k n true m).fdset k n ≡ true
set_bit m k n = rw (==_refl (rank k), ==_refl n) refl

set_fd-Waits :
    (m : Master) (k : ThreadType) (n : ℕ) → rank k ≤ 1 → Waits (set_fd k n true m) k (fd n)
unfolding fd_of
set_fd-Waits m thread_read n h = (n, (refl, set_bit m thread_read n))
set_fd-Waits m thread_write n h = (n, (refl, set_bit m thread_write n))
set_fd-Waits m thread_timer n h = absurd (omega arith)
set_fd-Waits m thread_event n h = absurd (omega arith)
set_fd-Waits m thread_ready n h = absurd (omega arith)
set_fd-Waits m thread_unused n h = absurd (omega arith)

-- No thread waits for a descriptor whose bit is clear.
free_fd :
    (m : Master) (k : ThreadType) (b n : ℕ)
    → Valid m
    → rank k ≤ 1
    → m.fdset k n ≡ false
    → mem b (m.list k) ≡ true
    → OnFd m b n
    → ⊥
free_fd m k b n v r f h o =
    let s : Stored m k b = v.stored k b h in
    let (j, (p, w)) = polled m k s.thread.u r s.waits in
    let q : j ≡ n = some_inj (sym p ∙ ap (λ o. o >>= λ x. fd_of x.u) (sym s.at) ∙ o) in
    clash (ap (m.fdset k) (sym q) ∙ w) f

-- A bit that is set was set before, or it is the new one.
new_source :
    (m c : Master) (k : ThreadType) (a n : ℕ) (i : ThreadType) (l : ℕ)
    → c.fdset ≡ m.fdset
    → (m.fdset i l ≡ true → Others m a i l)
    → (set_fd k n true c).fdset i l ≡ true
    → Others m a i l ⊎ ((i ≡ k) × (fd_of (fd n) ≡ some l))
unfolding fd_of
new_source m c k a n i l e f h = elim (Bool-cases (rank i == rank k)) [
  | inl x ↦ elim (Bool-cases (l == n)) [
    | inl y ↦ inr (rank_inj i k (==→eq (rank i) (rank k) x), ap some (sym (==→eq l n y)))
    | inr y ↦
        let g : (set_fd k n true c).fdset i l ≡ c.fdset i l = rw (x, y) refl in
        inl (f (ap (λ s. s i l) (sym e) ∙ sym g ∙ h))
  ]
  | inr x ↦
      let g : (set_fd k n true c).fdset i l ≡ c.fdset i l = rw x refl in
      inl (f (ap (λ s. s i l) (sym e) ∙ sym g ∙ h))
]

-- A thread for a descriptor whose bit is clear.
pub add_fd-Started :
    (k : ThreadType) (new : ℕ) (m : Master) (func arg n : ℕ)
    → Valid m
    → rank k ≤ 1
    → m.store new ≡ none
    → m.fdset k n ≡ false
    → leb fd_setsize n ≡ false
    → Started m k func arg (fd n) some (add_fd k new m func arg n)
unfolding add_fd fd_of
add_fd-Started k new m func arg n v r e f room =
    let g : Got m k func arg (thread_get new m k func arg) = thread_get-Got new m k func arg v e in
    let a : ℕ = g.address in
    let t : Thread = record { type = k; func = func; arg = arg; u = fd n } in
    let c : Master = set_fd k n true g.master in
    let d : Master = set_thread a t c in
    let w : Bits m k a t c = record {
      waits = set_fd-Waits g.master k n r;
      frame = λ i b u q h o x. fds-frame m g.master k i n u g.fds x;
      source = λ i l x y. new_source m g.master k a n i l g.fds (free-Others m a v g.free i l x) y;
      apart = λ b i q h p o x. free_fd m k b i v h (ap (m.fdset k) (some_inj (sym x)) ∙ f) p o;
    } in
    let k' : Taken m a c = record {
      gone = g.taken.gone;
      others = g.taken.others;
      distinct = g.taken.distinct;
      off = g.taken.off;
    } in
    record {
      address = a;
      master = set_list k (d.list k ++ a ∷ []) d;
      run = rw room (
          rw f (
            rw g.run (
              rw
                (set_union-run c a (record { type = k; func = func; arg = arg; u = g.u }) (fd n)
                  g.at)
                (rw (add-run k a d (g.taken.gone k)) refl))));
      free = g.free;
      placed = finish-Placed m c k a t k' refl w;
    }

-- What `thread_add_read` or `thread_add_write` answers.
pub data Answers (m : Master) (k : ThreadType) (func arg n : ℕ) (r : Option (Option ℕ × Master))
    : Type 0 where
  outside : fd_setsize ≤ n → r ≡ none → Answers m k func arg n r
  refused : n < fd_setsize → Waiting m k n → r ≡ some (none, m) → Answers m k func arg n r
  taken :
      n < fd_setsize
      → (Waiting m k n → ⊥)
      → Started m k func arg (fd n) some r
      → Answers m k func arg n r

add_fd-Answers :
    (k : ThreadType) (new : ℕ) (m : Master) (func arg n : ℕ)
    → Valid m
    → rank k ≤ 1
    → m.store new ≡ none
    → Answers m k func arg n (add_fd k new m func arg n)
add_fd-Answers k new m func arg n v h e = elim (Bool-cases (leb fd_setsize n)) [
  | inl x ↦ outside (ground arith) (unfold add_fd in rw x refl)
  | inr x ↦ elim (Bool-cases (m.fdset k n)) [
    | inl b ↦ refused (ground arith) (v.source k n h b) (unfold add_fd in rw x (rw b refl))
    | inr b ↦
        taken (ground arith) (λ (a, (g, o)). free_fd m k a n v h b g o)
          (add_fd-Started k new m func arg n v h e b x)
  ]
]

-- In a well-formed state and for a descriptor below FD_SETSIZE, `thread_add_read` and
-- `thread_add_write` give NULL and change nothing if a thread waits for the descriptor in the same way
-- already, and only then. Else they add a thread that is
-- new or was unused; it is then in the list of its type and in no other, and every other thread is where
-- it was. For a descriptor of FD_SETSIZE or more they fault.
pub thread_add_read-Answers :
    (new : ℕ) (m : Master) (func arg n : ℕ)
    → Valid m
    → m.store new ≡ none
    → Answers m thread_read func arg n (thread_add_read new m func arg n)
      × Answers m thread_write func arg n (thread_add_write new m func arg n)
unfolding thread_add_read thread_add_write
thread_add_read-Answers new m func arg n v e = (
  add_fd-Answers thread_read new m func arg n v (omega arith) e,
  add_fd-Answers thread_write new m func arg n v (omega arith) e,
)

-- In a well-formed state `thread_add_event` always adds its thread. It is new or was unused, it is then
-- in the list of events and in no other, and every other thread is where it was.
pub thread_add_event-Started :
    (new : ℕ) (m : Master) (func arg : ℕ) (n : ℤ)
    → Valid m
    → m.store new ≡ none
    → Started m thread_event func arg (val n) (λ a. a) (thread_add_event new m func arg n)
unfolding thread_add_event
thread_add_event-Started new m func arg n v e =
    let g : Got m thread_event func arg (thread_get new m thread_event func arg) =
      thread_get-Got new m thread_event func arg v e in
    let a : ℕ = g.address in
    let t : Thread = record { type = thread_event; func = func; arg = arg; u = val n } in
    let d : Master = set_thread a t g.master in
    record {
      address = a;
      master = set_list thread_event (d.list thread_event ++ a ∷ []) d;
      run = rw g.run (
          rw
            (set_union-run g.master a
              (record { type = thread_event; func = func; arg = arg; u = g.u }) (val n) g.at)
            (rw (add-run thread_event a d (g.taken.gone thread_event)) refl));
      free = g.free;
      placed = finish-Placed m g.master thread_event a t g.taken refl (record {
        waits = tt;
        frame = λ i b u q h o x. same_bits m g.master i u g.fds x;
        source = λ i l x y. inl (free-Others m a v g.free i l x (ap (λ f. f i l) (sym g.fds) ∙ y));
        apart = λ b i q h p o x. absurd (omega arith);
      });
    }
