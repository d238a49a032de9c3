-- ===== src/Thread/Timer.antt =====
-- thread.c: `thread_add_timer` on a well-formed state.
use mksh.Prelude.{
  ℕ, ◌≡◌, ◌≢◌, refl, sym, ap, ◌∙◌, inl, inr, true, false, Option, none, some, List, [], ◌∷◌, ◌==◌,
  ==→eq, Bool-cases, ◌>>=◌, arith,
}
use mksh.Prelude.Int.{ℤ, pos, ◌+ℤ◌, ltb_ℤ}
use mksh.Timeval.{Timeval, timeval_cmp}
use mksh.Thread.{
  thread_timer, sands, Thread, Master, mem, set_list, set_thread, sands_of, thread_get,
  insert_timer, add_timer, thread_add_timer,
}
use mksh.Thread.Members.{Distinct, clash, ne_of_==, mem-here, mem-skip}
use mksh.Thread.Valid.{Stored, Valid}
use mksh.Thread.Put.{Taken, Added, same_bits, set_thread-Taken, put-Placed, free-Others}
use mksh.Thread.Add.{Got, thread_get-Got, Started, set_union-run}

-- The loop of `thread_add_timer` puts the thread somewhere into the sequence.
record Inserted (a : ℕ) (bs : List ℕ) (r : Option (List ℕ)) : Type 0 where
  list : List ℕ
  run : r ≡ some list
  added : Added a bs list

Added-front : (a : ℕ) (bs : List ℕ) → mem a bs ≡ false → Distinct bs → Added a bs (a ∷ bs)
Added-front a bs n d = record {
  here = mem-here a bs;
  others = λ b q. mem-skip b a bs q;
  distinct = (n, d);
}

Added-skip :
    (a b : ℕ) (bs l : List ℕ) → a ≢ b → mem b bs ≡ false → Added a bs l → Added a (b ∷ bs) (b ∷ l)
unfolding mem
Added-skip a b bs l n m d = record {
  here = mem-skip a b l n ∙ d.here;
  others = λ c q. elim (Bool-cases (c == b)) [ inl e ↦ rw e refl | inr e ↦ rw e (d.others c q) ];
  distinct = (d.others b (λ q. n (sym q)) ∙ m, d.distinct);
}

not_first : (a b : ℕ) (bs : List ℕ) → mem a (b ∷ bs) ≡ false → a ≢ b
not_first a b bs n q = clash (ap (λ x. mem x (b ∷ bs)) q ∙ mem-here b bs) n

insert_timer-Inserted :
    (m : Master) (v : Timeval) (a : ℕ) (bs : List ℕ)
    → ((b : ℕ) → mem b bs ≡ true → Stored m thread_timer b)
    → mem a bs ≡ false
    → Distinct bs
    → Inserted a bs (insert_timer m v a bs)
unfolding insert_timer
insert_timer-Inserted m v a [] f n d = record {
  list = a ∷ [];
  run = refl;
  added = Added-front a [] n d;
}
insert_timer-Inserted m v a (b ∷ bs) f n (nb, d) =
    let s : Stored m thread_timer b = f b (mem-here b bs) in
    let (w, e) = s.waits in
    let q : a ≢ b = not_first a b bs n in
    elim (Bool-cases (ltb_ℤ (pos 0) (timeval_cmp v w))) [
      | inr p ↦ record {
        list = a ∷ b ∷ bs;
        run = rw s.at (rw (e, ◌>>=◌) (rw p refl));
        added = Added-front a (b ∷ bs) n (nb, d);
      }
      | inl p ↦
          let r : Inserted a bs (insert_timer m v a bs) =
            insert_timer-Inserted m v a bs (λ c h. f c (step c b bs h))
              (sym (mem-skip a b bs q) ∙ n) d in
          record {
            list = b ∷ r.list;
            run = rw s.at (rw (e, ◌>>=◌) (rw p (rw r.run refl)));
            added = Added-skip a b bs r.list q nb r.added;
          }
    ]
  where
    step : (c b : ℕ) (bs : List ℕ) → mem c bs ≡ true → mem c (b ∷ bs) ≡ true
    step c b bs h = elim (Bool-cases (c == b)) [
      | inl e ↦ ap (λ x. mem x (b ∷ bs)) (==→eq c b e) ∙ mem-here b bs
      | inr e ↦ mem-skip c b bs (λ q. ne_of_== c b e (sym q)) ∙ h
    ]

-- In a well-formed state `thread_add_timer` always adds its thread, to run `timer` seconds from now. It
-- is new or was unused, it is then in the list of timers and in no other, and every other thread is
-- where it was.
pub thread_add_timer-Started :
    (new : ℕ) (now : Timeval) (m : Master) (func arg : ℕ) (timer : ℤ)
    → Valid m
    → m.store new ≡ none
    → Started m thread_timer func arg
        (sands (record now { sec = now.sec +ℤ timer }))
        (λ a. a)
        (thread_add_timer new now m func arg timer)
unfolding thread_add_timer add_timer sands_of
thread_add_timer-Started new now m func arg timer v e =
    let g : Got m thread_timer func arg (thread_get new m thread_timer func arg) =
      thread_get-Got new m thread_timer func arg v e in
    let a : ℕ = g.address in
    let time : Timeval = record now { sec = now.sec +ℤ timer } in
    let t : Thread = record { type = thread_timer; func = func; arg = arg; u = sands time } in
    let d : Master = set_thread a t g.master in
    let k : Taken m a d = set_thread-Taken m g.master a t g.taken in
    let r : Inserted a (d.list thread_timer) (insert_timer d time a (d.list thread_timer)) =
      insert_timer-Inserted d time a (d.list thread_timer) (timers m d a v k) (k.gone thread_timer)
        (k.distinct thread_timer) in
    record {
      address = a;
      master = set_list thread_timer r.list d;
      run = rw g.run (
          rw
            (set_union-run g.master a
              (record { type = thread_timer; func = func; arg = arg; u = g.u }) (sands time) g.at)
            (rw (g.taken.gone thread_timer) (rw r.run refl)));
      free = g.free;
      placed = put-Placed m g.master thread_timer a t r.list g.taken r.added refl (record {
        waits = (time, refl);
        frame = λ i b u q h o x. same_bits m g.master i u g.fds x;
        source = λ i l x y. inl (free-Others m a v g.free i l x (ap (λ f. f i l) (sym g.fds) ∙ y));
        apart = λ b i q h p o x. absurd (omega arith);
      });
    }
  where
    timers :
        (m d : Master) (a : ℕ)
        → Valid m
        → Taken m a d
        → (b : ℕ) → mem b (d.list thread_timer) ≡ true
        → Stored d thread_timer b
    timers m d a v k b h =
        let q : b ≢ a =
          λ q. clash (ap (λ x. mem x (d.list thread_timer)) (sym q) ∙ h) (k.gone thread_timer) in
        let s : Stored m thread_timer b =
          v.stored thread_timer b (sym (k.others thread_timer b q) ∙ h) in
        record { thread = s.thread; at = k.off b q ∙ s.at; type = s.type; waits = s.waits }
