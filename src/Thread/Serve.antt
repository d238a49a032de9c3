-- ===== src/Thread/Serve.antt =====
-- thread.c: `thread_run` and `thread_process_fd` on a well-formed state.
use mksh.Prelude.{
  ℕ, ◌≤◌, ◌≡◌, refl, ap, ◌∙◌, inl, true, false, Option, none, some, [], ◌∷◌, ◌++◌, ◌>>=◌, arith,
}
use mksh.Thread.{
  ThreadType, thread_ready, thread_unused, rank, Thread, Master, mem, remove, set_list, set_fd,
  set_thread, set_type, fd_of, thread_list_add, thread_list_delete, thread_add_unuse,
}
use mksh.Thread.Schedule.{Fetched, fetched, thread_run, run, make_ready}
use mksh.Thread.Release.{clear_fd}
use mksh.Thread.Valid.{Waits, OnFd, Valid, Placed}
use mksh.Thread.Put.{Taken, append-Added, Bits, same_bits, delete-Taken, put-Placed}
use mksh.Thread.Clear.{polled, clear-frame, clear-Others}
use mksh.Thread.Retire.{Dropped, retire-Dropped}

-- A thread `t` that was at `a` is handed out, and its node is unused.
pub record Ran (m : Master) (a : ℕ) (t : Thread) (r : Option Fetched) : Type 0 where
  pub master : Master
  pub result : r ≡ some (fetched t master)
  pub placed : Placed m thread_unused a (record t { type = thread_unused }) master

bind_assoc :
    {A B C : Type 0} (o : Option A) (f : A → Option B) (g : B → Option C)
    → (o >>= λ a. f a >>= g) ≡ (o >>= f >>= g)
bind_assoc {A} {B} {C} none f g = refl
bind_assoc {A} {B} {C} (some a) f g = refl

pub run-Ran :
    (m c : Master) (a : ℕ) (t : Thread)
    → Taken m a c
    → c.store a ≡ some t
    → Bits m thread_unused a t c
    → Ran m a t (run c a)
unfolding run thread_run
run-Ran m c a t k e w =
    let d : Dropped m a t (set_type thread_unused a c >>= λ s. thread_add_unuse s a) =
      retire-Dropped m c a t k e w in
    record {
      master = d.master;
      result =
          rw (e, ◌>>=◌)
            (rw
              (bind_assoc {C = Thread × Master} (set_type thread_unused a c)
                (λ s. thread_add_unuse s a) (λ n. some (t, n)))
              (rw d.run refl));
      placed = d.placed;
    }

-- A thread whose descriptor is ready moves to the list of the ready ones.
pub record Readied (m : Master) (a : ℕ) (t : Thread) (r : Option Master) : Type 0 where
  pub master : Master
  pub result : r ≡ some master
  pub placed : Placed m thread_ready a (record t { type = thread_ready }) master

pub make_ready-Readied :
    (m : Master) (k : ThreadType) (a : ℕ) (t : Thread)
    → rank k ≤ 1
    → Valid m
    → mem a (m.list k) ≡ true
    → m.store a ≡ some t
    → Waits m k t.u
    → Readied m a t (make_ready k a t.u m)
unfolding make_ready clear_fd thread_list_delete thread_list_add set_type
make_ready-Readied m k a t r v h e x =
    let (n, (p, w)) = polled m k t.u r x in
    let o : OnFd m a n = ap (λ o. o >>= λ s. fd_of s.u) e ∙ p in
    let g : Taken m a (set_list k (remove a (m.list k)) m) = delete-Taken m k a v h in
    let c : Master = set_list k (remove a (m.list k)) (set_fd k n false m) in
    let g' : Taken m a c = record {
      gone = g.gone;
      others = g.others;
      distinct = g.distinct;
      off = g.off;
    } in
    let s : Thread = record t { type = thread_ready } in
    let b : Bits m thread_ready a s c = record {
      waits = tt;
      frame = λ i b u q l y z.
          same_bits (set_fd k n false m) c i u refl (clear-frame m k i a b n u v h o q l y z);
      source = λ i l x y. inl (clear-Others m k a n v h o i l x y);
      apart = λ b n q y. absurd (omega arith);
    } in
    record {
      master = set_list thread_ready (c.list thread_ready ++ a ∷ []) (set_thread a s c);
      result =
          rw (p, ◌>>=◌)
            (rw (w, ◌>>=◌) (rw (h, ◌>>=◌) (rw (g.gone thread_ready, ◌>>=◌) (rw (e, ◌>>=◌) refl))));
      placed =
          put-Placed m c thread_ready a s (c.list thread_ready ++ a ∷ []) g'
            (append-Added a (c.list thread_ready) (g.gone thread_ready) (g.distinct thread_ready))
            refl b;
    }
