-- ===== src/Thread/Process.antt =====
-- thread.c: `thread_process_fd` on a well-formed state.
use mksh.Prelude.{
  ℕ, ◌+◌, ◌≤◌, ◌≡◌, ◌≢◌, refl, sym, ap, ◌∙◌, ◌⊎◌, inl, inr, Bool, true, false, Option, some, List,
  [], ◌∷◌, ◌==◌, ne→==, ==→eq, Bool-cases, ◌>>=◌, arith,
}
use mathlib.Core.Path.{subst}
use mksh.Thread.{ThreadType, thread_ready, rank, Thread, Master, mem, fd_of}
use mksh.Thread.Schedule.{make_ready, process_fds, thread_process_fd}
use mksh.Thread.Members.{Distinct, clash, mem-nil, mem-here, mem-skip}
use mksh.Thread.Valid.{Stored, Valid, Placed, Placed-Valid}
use mksh.Thread.Clear.{polled, some_inj}
use mksh.Thread.Put.{not_home}
use mksh.Thread.Serve.{Readied, make_ready-Readied}

abbrev pub fd_at : Master → ℕ → Option ℕ
fd_at m b = m.store b >>= λ s. fd_of s.u

-- A thread of `bs` whose descriptor is in the set.
abbrev pub Reported : Master → (ℕ → Bool) → List ℕ → ℕ → Type 0
Reported m ready bs b = (n : ℕ) × ((mem b bs ≡ true) × ((fd_at m b ≡ some n) × (ready n ≡ true)))

-- The threads of `bs` whose descriptor is in the set are ready, and nothing of them but the type has
-- changed; the other threads, their places in the lists, and the descriptors are as before.
pub record Processed (m : Master) (k : ThreadType) (ready : ℕ → Bool) (bs : List ℕ)
    (r : Option (ℕ × Master)) : Type 0 where
  pub count : ℕ
  pub master : Master
  pub result : r ≡ some (count, master)
  pub valid : Valid master
  pub kept : (b : ℕ) → mem b (m.list thread_ready) ≡ true → mem b (master.list thread_ready) ≡ true
  pub moved :
      (b n : ℕ)
      → mem b bs ≡ true
      → fd_at m b ≡ some n
      → ready n ≡ true
      → mem b (master.list thread_ready) ≡ true
  pub came :
      (b : ℕ)
      → mem b (master.list thread_ready) ≡ true
      → (mem b (m.list thread_ready) ≡ true) ⊎ Reported m ready bs b
  pub off :
      (i : ThreadType) (b : ℕ)
      → rank i ≢ rank k
      → rank i ≢ 4
      → mem b (master.list i) ≡ mem b (m.list i)
  pub fds : (b : ℕ) → fd_at master b ≡ fd_at m b
  pub readied :
      (b : ℕ)
      → Reported m ready bs b
      → (s : Thread) × ((m.store b ≡ some s)
          × (master.store b ≡ some (record s { type = thread_ready })))
  pub same :
      (b : ℕ)
      → (Reported m ready bs b → ⊥)
      → (master.store b ≡ m.store b) × ((i : ThreadType) → mem b (master.list i) ≡ mem b (m.list i))

ne_flip : (a b : ℕ) → (a == b) ≡ false → a ≢ b
ne_flip a b e = ground arith

-- What is reported of the threads behind the first one, before its step and after it.
Reported-tail :
    (m n : Master) (set : ℕ → Bool) (a b : ℕ) (bs : List ℕ)
    → b ≢ a
    → n.store b ≡ m.store b
    → Reported m set (a ∷ bs) b
    → Reported n set bs b
Reported-tail m n set a b bs l e (i, (g, (w, x))) =
    (i, (sym (mem-skip b a bs l) ∙ g, (ap (λ o. o >>= λ s. fd_of s.u) e ∙ w, x)))

Reported-cons :
    (m n : Master) (set : ℕ → Bool) (a b : ℕ) (bs : List ℕ)
    → b ≢ a
    → n.store b ≡ m.store b
    → Reported n set bs b
    → Reported m set (a ∷ bs) b
Reported-cons m n set a b bs l e (i, (g, (w, x))) =
    (i, (mem-skip b a bs l ∙ g, (ap (λ o. o >>= λ s. fd_of s.u) (sym e) ∙ w, x)))

-- One step and the steps behind it.
ready-Processed :
    (m n : Master) (k : ThreadType) (set : ℕ → Bool) (a : ℕ) (bs : List ℕ) (t : Thread)
    (r : Option (ℕ × Master)) (o : Option (ℕ × Master))
    → Valid m
    → rank k ≤ 1
    → mem a (m.list k) ≡ true
    → m.store a ≡ some t
    → Placed m thread_ready a (record t { type = thread_ready }) n
    → (p : Processed n k set bs r) → o ≡ some (p.count + 1, p.master)
    → Reported m set (a ∷ bs) a
    → mem a bs ≡ false
    → Processed m k set (a ∷ bs) o
ready-Processed m n k set a bs t r o v y h e p q u c na = record {
  count = q.count + 1;
  master = q.master;
  result = u;
  valid = q.valid;
  kept = λ b g. elim (Bool-cases (b == a)) [
    | inl f ↦ q.kept b (ap (λ x. mem x (n.list thread_ready)) (==→eq b a f) ∙ p.here)
    | inr f ↦ q.kept b (p.others thread_ready b (ne_flip b a f) ∙ g)
  ];
  moved = λ b i g w x. elim (Bool-cases (b == a)) [
    | inl f ↦ q.kept b (ap (λ x. mem x (n.list thread_ready)) (==→eq b a f) ∙ p.here)
    | inr f ↦
        let l : b ≢ a = ne_flip b a f in
        q.moved b i (sym (mem-skip b a bs l) ∙ g) (ap (λ o. o >>= λ s. fd_of s.u) (p.off b l) ∙ w) x
  ];
  came = λ b g. elim (Bool-cases (b == a)) [
    | inl f ↦ inr (subst (λ x. Reported m set (a ∷ bs) x) (sym (==→eq b a f)) c)
    | inr f ↦
        let l : b ≢ a = ne_flip b a f in
        elim (q.came b g) [
          | inl w ↦ inl (sym (p.others thread_ready b l) ∙ w)
          | inr (i, (w, (x, z))) ↦ inr (
            i,
            (mem-skip b a bs l ∙ w, (ap (λ o. o >>= λ s. fd_of s.u) (sym (p.off b l)) ∙ x, z)),
          )
        ]
  ];
  off = λ i b x z. q.off i b x z ∙ elim (Bool-cases (b == a)) [
    | inl f ↦
        let s : b ≡ a = ==→eq b a f in
        ap (λ x. mem x (n.list i)) s
        ∙ p.elsewhere i z
        ∙ sym (not_home m i k a v h (ne→== (rank i) (rank k) x))
        ∙ ap (λ x. mem x (m.list i)) (sym s)
    | inr f ↦ p.others i b (ne_flip b a f)
  ];
  fds = λ b. q.fds b ∙ elim (Bool-cases (b == a)) [
    | inl f ↦
        let s : b ≡ a = ==→eq b a f in
        ap (fd_at n) s
        ∙ ap (λ o. o >>= λ s. fd_of s.u) p.at
        ∙ ap (λ o. o >>= λ s. fd_of s.u) (sym e)
        ∙ ap (fd_at m) (sym s)
    | inr f ↦ ap (λ o. o >>= λ s. fd_of s.u) (p.off b (ne_flip b a f))
  ];
  readied = λ b g. elim (Bool-cases (b == a)) [
    | inl f ↦
        let s : b ≡ a = ==→eq b a f in
        let (kept_store, _) = q.same a (λ (_, (w, _)). clash w na) in
        (t, (ap m.store s ∙ e, ap q.master.store s ∙ kept_store ∙ p.at))
    | inr f ↦
        let l : b ≢ a = ne_flip b a f in
        let (s, (w, x)) = q.readied b (Reported-tail m n set a b bs l (p.off b l) g) in
        (s, (sym (p.off b l) ∙ w, x))
  ];
  same = λ b g. elim (Bool-cases (b == a)) [
    | inl f ↦ absurd (g (subst (λ x. Reported m set (a ∷ bs) x) (sym (==→eq b a f)) c))
    | inr f ↦
        let l : b ≢ a = ne_flip b a f in
        let (w, x) = q.same b (λ z. g (Reported-cons m n set a b bs l (p.off b l) z)) in
        (w ∙ p.off b l, λ i. x i ∙ p.others i b l)
  ];
}

pub process_fds-Processed :
    (k : ThreadType) (set : ℕ → Bool) (bs : List ℕ) (m : Master)
    → rank k ≤ 1
    → Valid m
    → ((b : ℕ) → mem b bs ≡ true → mem b (m.list k) ≡ true)
    → Distinct bs
    → Processed m k set bs (process_fds k set bs m)
unfolding process_fds
process_fds-Processed k set [] m y v f d = record {
  count = 0;
  master = m;
  result = refl;
  valid = v;
  kept = λ b h. h;
  moved = λ b n h. absurd (mem-nil b h);
  came = λ b h. inl h;
  off = λ i b x z. refl;
  fds = λ b. refl;
  readied = λ b (n, (h, _)). absurd (mem-nil b h);
  same = λ b h. (refl, λ i. refl);
}
process_fds-Processed k set (a ∷ bs) m y v f (na, d) =
    let h : mem a (m.list k) ≡ true = f a (mem-here a bs) in
    let s : Stored m k a = v.stored k a h in
    let t : Thread = s.thread in
    let (n, (p, w)) = polled m k t.u y s.waits in
    let rest : (b : ℕ) → mem b bs ≡ true → b ≢ a =
      λ b g q. clash (ap (λ x. mem x bs) (sym q) ∙ g) na in
    let behind : (b : ℕ) → mem b bs ≡ true → mem b (m.list k) ≡ true =
      λ b g. f b (mem-skip b a bs (rest b g) ∙ g) in
    elim (Bool-cases (set n)) [
      | inl e ↦
          let r : Readied m a t (make_ready k a t.u m) =
            make_ready-Readied m k a t y v h s.at s.waits in
          let v' : Valid r.master =
            Placed-Valid m r.master thread_ready a (record t { type = thread_ready }) v r.placed in
          let q : Processed r.master k set bs (process_fds k set bs r.master) =
            process_fds-Processed k set bs r.master y v'
              (λ b g. r.placed.others k b (rest b g) ∙ behind b g) d in
          ready-Processed m r.master k set a bs t (process_fds k set bs r.master)
            (process_fds k set (a ∷ bs) m) v y h s.at r.placed q
            (rw (s.at, ◌>>=◌)
              (rw (p, ◌>>=◌) (rw e (rw (r.result, ◌>>=◌) (rw (q.result, ◌>>=◌) refl)))))
            (n, (mem-here a bs, (ap (λ o. o >>= λ s. fd_of s.u) s.at ∙ p, e))) na
      | inr e ↦
          let q : Processed m k set bs (process_fds k set bs m) =
            process_fds-Processed k set bs m y v behind d in
          record {
            count = q.count;
            master = q.master;
            result = rw (s.at, ◌>>=◌) (rw (p, ◌>>=◌) (rw e q.result));
            valid = q.valid;
            kept = q.kept;
            moved = λ b i g w x. elim (Bool-cases (b == a)) [
              | inl c ↦
                  let j : i ≡ n = some_inj (
                    sym w ∙ ap (fd_at m) (==→eq b a c) ∙ ap (λ o. o >>= λ s. fd_of s.u) s.at ∙ p) in
                  absurd (clash x (ap set j ∙ e))
              | inr c ↦ q.moved b i (sym (mem-skip b a bs (ne_flip b a c)) ∙ g) w x
            ];
            came = λ b g. elim (q.came b g) [
              | inl z ↦ inl z
              | inr (i, (z, x)) ↦ inr (i, (mem-skip b a bs (rest b z) ∙ z, x))
            ];
            off = q.off;
            fds = q.fds;
            readied = λ b (i, (g, (w, x))). elim (Bool-cases (b == a)) [
              | inl c ↦
                  let j : i ≡ n = some_inj (
                    sym w ∙ ap (fd_at m) (==→eq b a c) ∙ ap (λ o. o >>= λ s. fd_of s.u) s.at ∙ p) in
                  absurd (clash x (ap set j ∙ e))
              | inr c ↦
                  q.readied b (Reported-tail m m set a b bs (ne_flip b a c) refl (i, (g, (w, x))))
            ];
            same = λ b g. q.same b (λ (i, (z, x)). g (i, (mem-skip b a bs (rest b z) ∙ z, x)));
          }
    ]

pub thread_process_fd-Processed :
    (k : ThreadType) (set : ℕ → Bool) (m : Master)
    → rank k ≤ 1
    → Valid m
    → Processed m k set (m.list k) (thread_process_fd m k set)
unfolding thread_process_fd
thread_process_fd-Processed k set m y v =
    process_fds-Processed k set (m.list k) m y v (λ b h. h) (v.distinct k)
