-- ===== src/Thread/Cancel.antt =====
-- thread.c: what `thread_cancel` does to a well-formed state.
use mksh.Prelude.{ℕ, ◌≤◌, ◌≡◌, ◌≢◌, refl, ap, ◌∙◌, inl, true, false, some, ◌>>=◌, arith}
use mksh.Thread.{
  ThreadType, thread_read, thread_write, thread_timer, thread_event, thread_ready, thread_unused,
  rank, Thread, Master, mem, set_fd, fd_of,
}
use mksh.Thread.Release.{clear_fd, discard, cancel, thread_cancel}
use mksh.Thread.Valid.{Waits, OnFd, Valid}
use mksh.Thread.Clear.{listed, polled, clear-frame, clear-Others, stored-Waits}
use mksh.Thread.Retire.{Dropped, discard-Dropped, unpolled-Bits}

clear_discard-Dropped :
    (m : Master) (j : ThreadType) (a : ℕ) (t : Thread)
    → rank j ≤ 1
    → Valid m
    → mem a (m.list j) ≡ true
    → m.store a ≡ some t
    → Waits m j t.u
    → Dropped m a t (clear_fd j t.u m >>= discard j a)
unfolding clear_fd
clear_discard-Dropped m j a t r v h e x =
    let (n, (p, w)) = polled m j t.u r x in
    let o : OnFd m a n = ap (λ o. o >>= λ s. fd_of s.u) e ∙ p in
    let d : Dropped m a t (discard j a (set_fd j n false m)) =
      discard-Dropped m (set_fd j n false m) j a t v h e refl refl (record {
        waits = tt;
        frame = λ i b u q g y z. clear-frame m j i a b n u v h o q g y z;
        source = λ i l x y. inl (clear-Others m j a n v h o i l x y);
        apart = λ b n q r. absurd (omega arith);
      }) in
    record { master = d.master; run = rw p (rw w d.run); placed = d.placed }

cancel-Dropped :
    (m : Master) (k : ThreadType) (a : ℕ) (t : Thread)
    → Valid m
    → mem a (m.list k) ≡ true
    → m.store a ≡ some t
    → Waits m k t.u
    → rank k ≤ 4
    → Dropped m a t (cancel k t.u a m)
unfolding cancel
cancel-Dropped m thread_read a t v h e w r =
    clear_discard-Dropped m thread_read a t (omega arith) v h e w
cancel-Dropped m thread_write a t v h e w r =
    clear_discard-Dropped m thread_write a t (omega arith) v h e w
cancel-Dropped m thread_timer a t v h e w r =
    discard-Dropped m m thread_timer a t v h e refl refl
      (unpolled-Bits m thread_timer a t v h (omega arith))
cancel-Dropped m thread_event a t v h e w r =
    discard-Dropped m m thread_event a t v h e refl refl
      (unpolled-Bits m thread_event a t v h (omega arith))
cancel-Dropped m thread_ready a t v h e w r =
    discard-Dropped m m thread_ready a t v h e refl refl
      (unpolled-Bits m thread_ready a t v h (omega arith))
cancel-Dropped m thread_unused a t v h e w r = absurd (omega arith)

-- In a well-formed state `thread_cancel` of a thread that is not unused always ends without a fault. The
-- thread is then in the list of the unused ones and in no other, and every other thread is where it was.
pub thread_cancel-Dropped :
    (m : Master) (a : ℕ) (t : Thread)
    → Valid m
    → m.store a ≡ some t
    → t.type ≢ thread_unused
    → Dropped m a t (thread_cancel m a)
unfolding thread_cancel
thread_cancel-Dropped m a t v e n =
    let h : mem a (m.list t.type) ≡ true = listed m a t v e in
    rw e (cancel-Dropped m t.type a t v h e (stored-Waits m t.type a t v e h) (low_rank t.type n))
  where
    low_rank : (k : ThreadType) → k ≢ thread_unused → rank k ≤ 4
    low_rank thread_read q = omega arith
    low_rank thread_write q = omega arith
    low_rank thread_timer q = omega arith
    low_rank thread_event q = omega arith
    low_rank thread_ready q = omega arith
    low_rank thread_unused q = absurd (q refl)
