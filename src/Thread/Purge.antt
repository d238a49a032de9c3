-- ===== src/Thread/Purge.antt =====
-- thread.c: `thread_cancel_event` on a well-formed state.
use mksh.Prelude.{
  ℕ, ◌≡◌, ◌≢◌, refl, sym, ap, ◌∙◌, inl, inr, true, false, Option, some, List, [], ◌∷◌, ◌==◌, ==→eq,
  Bool-cases, ◌>>=◌, if◌then◌else◌, arith,
}
use mathlib.Core.Path.{subst}
use mksh.Thread.{ThreadType, thread_event, thread_unused, Thread, Master, mem}
use mksh.Thread.Release.{discard, cancel_events, thread_cancel_event}
use mksh.Thread.Members.{Distinct, clash, ne_of_==, mem-nil, mem-here, mem-skip}
use mksh.Thread.Valid.{Stored, Valid, Placed-Valid}
use mksh.Thread.Retire.{Dropped, discard-Dropped, unpolled-Bits}
use mksh.Thread.Clear.{some_inj}

-- The list that an event with this argument is in when those with argument `arg` are cancelled.
abbrev pub list_behind : ℕ → Thread → ThreadType
list_behind arg t = if t.arg == arg then thread_unused else thread_event

pub record Purged (m : Master) (arg : ℕ) (bs : List ℕ) (r : Option Master) : Type 0 where
  pub master : Master
  pub result : r ≡ some master
  pub valid : Valid master
  pub on :
      (b : ℕ) (t : Thread)
      → mem b bs ≡ true
      → m.store b ≡ some t
      → mem b (master.list (list_behind arg t)) ≡ true
  pub off : (i : ThreadType) (b : ℕ) → mem b bs ≡ false → mem b (master.list i) ≡ mem b (m.list i)

not_member : (a b : ℕ) (bs : List ℕ) → mem b (a ∷ bs) ≡ false → (b ≢ a) × (mem b bs ≡ false)
not_member a b bs n =
    let q : b ≢ a = λ q. clash (ap (λ x. mem x (a ∷ bs)) q ∙ mem-here a bs) n in
    (q, sym (mem-skip b a bs q) ∙ n)

cancel_events-Purged :
    (arg : ℕ) (bs : List ℕ) (m : Master)
    → Valid m
    → ((b : ℕ) → mem b bs ≡ true → mem b (m.list thread_event) ≡ true)
    → Distinct bs
    → Purged m arg bs (cancel_events arg bs m)
unfolding cancel_events
cancel_events-Purged arg [] m v f d = record {
  master = m;
  result = refl;
  valid = v;
  on = λ b t h. absurd (mem-nil b h);
  off = λ i b n. refl;
}
cancel_events-Purged arg (a ∷ bs) m v f (na, d) =
    let h : mem a (m.list thread_event) ≡ true = f a (mem-here a bs) in
    let s : Stored m thread_event a = v.stored thread_event a h in
    let rest : (b : ℕ) → mem b bs ≡ true → b ≢ a =
      λ b g q. clash (ap (λ x. mem x bs) (sym q) ∙ g) na in
    let behind : (b : ℕ) → mem b bs ≡ true → mem b (m.list thread_event) ≡ true =
      λ b g. f b (mem-skip b a bs (rest b g) ∙ g) in
    elim (Bool-cases (s.thread.arg == arg)) [
      | inl e ↦
          let r : Dropped m a s.thread (discard thread_event a m) =
            discard-Dropped m m thread_event a s.thread v h s.at refl refl
              (unpolled-Bits m thread_event a s.thread v h (omega arith)) in
          let p : Purged r.master arg bs (cancel_events arg bs r.master) =
            cancel_events-Purged arg bs r.master
              (Placed-Valid m r.master thread_unused a (record s.thread { type = thread_unused }) v
                r.placed)
              (λ b g. r.placed.others thread_event b (rest b g) ∙ behind b g) d in
          record {
            master = p.master;
            result = rw (s.at, ◌>>=◌) (rw e (rw (r.run, ◌>>=◌) p.result));
            valid = p.valid;
            on = λ b t g w. elim (Bool-cases (b == a)) [
              | inl c ↦
                  let q : b ≡ a = ==→eq b a c in
                  let u : s.thread ≡ t = some_inj (sym s.at ∙ ap m.store (sym q) ∙ w) in
                  subst (λ t. mem b (p.master.list (list_behind arg t)) ≡ true) u
                    (rw e (
                      ap (λ x. mem x (p.master.list thread_unused)) q
                      ∙ p.off thread_unused a na
                      ∙ r.placed.here))
              | inr c ↦
                  let q : b ≢ a = λ q. ne_of_== b a c (sym q) in
                  p.on b t (sym (mem-skip b a bs q) ∙ g) (r.placed.off b q ∙ w)
            ];
            off = λ i b n. let (q, w) = not_member a b bs n in p.off i b w ∙ r.placed.others i b q;
          }
      | inr e ↦
          let p : Purged m arg bs (cancel_events arg bs m) =
            cancel_events-Purged arg bs m v behind d in
          record {
            master = p.master;
            result = rw (s.at, ◌>>=◌) (rw e p.result);
            valid = p.valid;
            on = λ b t g w. elim (Bool-cases (b == a)) [
              | inl c ↦
                  let q : b ≡ a = ==→eq b a c in
                  let u : s.thread ≡ t = some_inj (sym s.at ∙ ap m.store (sym q) ∙ w) in
                  subst (λ t. mem b (p.master.list (list_behind arg t)) ≡ true) u
                    (rw e (
                      ap (λ x. mem x (p.master.list thread_event)) q ∙ p.off thread_event a na ∙ h))
              | inr c ↦ p.on b t (sym (mem-skip b a bs (λ q. ne_of_== b a c (sym q))) ∙ g) w
            ];
            off = λ i b n. p.off i b (not_member a b bs n).1;
          }
    ]

-- In a well-formed state `thread_cancel_event` ends without a fault and leaves a well-formed state. The
-- events with the argument are then unused, the other events are still events, and every other thread
-- is in the list where it was.
pub thread_cancel_event-Purged :
    (m : Master) (arg : ℕ)
    → Valid m
    → Purged m arg (m.list thread_event) (thread_cancel_event m arg)
unfolding thread_cancel_event
thread_cancel_event-Purged m arg v =
    cancel_events-Purged arg (m.list thread_event) m v (λ b h. h) (v.distinct thread_event)
