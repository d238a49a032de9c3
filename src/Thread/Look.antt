-- ===== src/Thread/Look.antt =====
-- thread.c: the timers that `thread_fetch` looks at, and the wait that it gives to `select`.
use mksh.Prelude.{
  ℕ, ◌≤◌, ◌≡◌, refl, sym, ap, ◌∙◌, inl, inr, true, false, Option, none, some, List, [], ◌∷◌, ◌==◌,
  ==→eq, Bool-cases, Option-cases, ◌>>=◌, arith,
}
use mksh.Prelude.Int.{pos, ltb_ℤ, ◌-ℤ◌}
use mksh.Timeval.{Timeval, timeval_cmp, timeval_adjust, timeval_subtract, not_past}
use mksh.Timeval.Adjust.{Bounded, timeval_adjust-Bounded}
use mksh.Thread.{
  ThreadType, rank, thread_timer, Thread, Master, mem, remove, head, set_list, sands_of,
}
use mksh.Thread.Schedule.{Fetched, timer_wait, thread_timer_wait, find_due, run, run_head}
use mksh.Thread.Members.{Distinct, clash, mem-nil, mem-here, mem-skip, ne_of_==}
use mksh.Thread.Valid.{Stored, Valid}
use mksh.Thread.Put.{delete-Taken, same_bits, unpolled-Others}
use mksh.Thread.Add.{head-mem, trim-none, trim-some}
use mksh.Thread.Serve.{Ran, run-Ran}

abbrev pub time_at : Master → ℕ → Option Timeval
time_at m b = m.store b >>= λ s. sands_of s.u

-- The time of the thread at `b` is behind `now`.
abbrev pub Later : Master → Timeval → ℕ → Type 0
Later m now b =
    (w : Timeval) × ((time_at m b ≡ some w) × (ltb_ℤ (timeval_cmp now w) (pos 0) ≡ true))

abbrev pub Due : Master → Timeval → ℕ → Type 0
Due m now b = (w : Timeval) × ((time_at m b ≡ some w) × (ltb_ℤ (timeval_cmp now w) (pos 0) ≡ false))

abbrev pub Sought : Master → Timeval → List ℕ → Option ℕ → Type 0
Sought m now bs none = (b : ℕ) → mem b bs ≡ true → Later m now b
Sought m now bs (some a) = (mem a bs ≡ true) × Due m now a

pub record Search (m : Master) (now : Timeval) (bs : List ℕ) (r : Option (Option ℕ)) : Type 0 where
  pub answer : Option ℕ
  pub result : r ≡ some answer
  pub sought : Sought m now bs answer

behind :
    (m : Master) (now : Timeval) (a : ℕ) (bs : List ℕ) (o : Option ℕ)
    → mem a bs ≡ false
    → Later m now a
    → Sought m now bs o
    → Sought m now (a ∷ bs) o
behind m now a bs (some c) n l (h, d) =
    (mem-skip c a bs (λ q. clash (ap (λ x. mem x bs) (sym q) ∙ h) n) ∙ h, d)
behind m now a bs none n l f = λ b h. elim (Bool-cases (b == a)) [
  | inl e ↦ let q : b ≡ a = ==→eq b a e in (l.0, (ap (time_at m) q ∙ l.1.0, l.1.1))
  | inr e ↦ f b (sym (mem-skip b a bs (λ q. ne_of_== b a e (sym q))) ∙ h)
]

find_due-Search :
    (m : Master) (now : Timeval) (bs : List ℕ)
    → ((b : ℕ) → mem b bs ≡ true → Stored m thread_timer b)
    → Distinct bs
    → Search m now bs (find_due now m bs)
unfolding find_due
find_due-Search m now [] f d = record {
  answer = none;
  result = refl;
  sought = λ b h. absurd (mem-nil b h);
}
find_due-Search m now (a ∷ bs) f (na, d) =
    let s : Stored m thread_timer a = f a (mem-here a bs) in
    let (w, e) = s.waits in
    let t : time_at m a ≡ some w = ap (λ o. o >>= λ x. sands_of x.u) s.at ∙ e in
    elim (Bool-cases (ltb_ℤ (timeval_cmp now w) (pos 0))) [
      | inr p ↦ record {
        answer = some a;
        result = rw s.at (rw (e, ◌>>=◌) (rw p refl));
        sought = (mem-here a bs, (w, (t, p)));
      }
      | inl p ↦
          let r : Search m now bs (find_due now m bs) =
            find_due-Search m now bs
              (λ b h. f b (mem-skip b a bs (λ q. clash (ap (λ x. mem x bs) (sym q) ∙ h) na) ∙ h))
              d in
          record {
            answer = r.answer;
            result = rw s.at (rw (e, ◌>>=◌) (rw p r.result));
            sought = behind m now a bs r.answer na (w, (t, p)) r.sought;
          }
    ]

pub timers-Search :
    (m : Master) (now : Timeval)
    → Valid m
    → Search m now (m.list thread_timer) (find_due now m (m.list thread_timer))
timers-Search m now v =
    find_due-Search m now (m.list thread_timer) (λ b h. v.stored thread_timer b h)
      (v.distinct thread_timer)

-- The wait is always computed.
pub thread_timer_wait-some :
    (now : Timeval) (m : Master)
    → Valid m
    → (w : Option Timeval) × (thread_timer_wait now m ≡ some w)
unfolding thread_timer_wait timer_wait timeval_subtract
thread_timer_wait-some now m v = elim (Option-cases (head (m.list thread_timer))) [
  | inl e ↦ (none, rw e refl)
  | inr (a, e) ↦
      let s : Stored m thread_timer a =
        v.stored thread_timer a (head-mem (m.list thread_timer) a e) in
      let (t, p) = s.waits in
      let b : Bounded (record { sec = t.sec -ℤ now.sec; usec = t.usec -ℤ now.usec })
          (timeval_adjust (record { sec = t.sec -ℤ now.sec; usec = t.usec -ℤ now.usec })) =
        timeval_adjust-Bounded (record { sec = t.sec -ℤ now.sec; usec = t.usec -ℤ now.usec }) in
      (some (not_past b.time), rw e (rw (s.at, ◌>>=◌) (rw (p, ◌>>=◌) (rw (b.run, ◌>>=◌) refl))))
]

-- The head of a list is taken out and run, or there is none.
pub run_head-none :
    (k : ThreadType) (next : Master → Option Fetched) (m : Master)
    → head (m.list k) ≡ none
    → run_head k next m ≡ next m
unfolding run_head
run_head-none k next m e = rw (trim-none k m e, ◌>>=◌) refl

pub run_taken :
    (m : Master) (k : ThreadType) (a : ℕ) (t : Thread)
    → Valid m
    → mem a (m.list k) ≡ true
    → m.store a ≡ some t
    → 2 ≤ rank k
    → Ran m a t (run (set_list k (remove a (m.list k)) m) a)
run_taken m k a t v h e y =
    run-Ran m (set_list k (remove a (m.list k)) m) a t (delete-Taken m k a v h) e (record {
      waits = tt;
      frame = λ j b u q g p x. same_bits m (set_list k (remove a (m.list k)) m) j u refl x;
      source = λ j n r x. inl (unpolled-Others m k a v h y j n r x);
      apart = λ b n q r. absurd (omega arith);
    })

pub run_head-some :
    (k : ThreadType) (next : Master → Option Fetched) (m : Master) (a : ℕ) (t : Thread)
    → Valid m
    → head (m.list k) ≡ some a
    → m.store a ≡ some t
    → 2 ≤ rank k
    → Ran m a t (run_head k next m)
unfolding run_head
run_head-some k next m a t v e s y =
    let r : Ran m a t (run (set_list k (remove a (m.list k)) m) a) =
      run_taken m k a t v (head-mem (m.list k) a e) s y in
    record { master = r.master; result = rw (trim-some k m a e, ◌>>=◌) r.result; placed = r.placed }
