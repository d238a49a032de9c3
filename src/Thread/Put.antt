-- ===== src/Thread/Put.antt =====
-- A thread between two lists, and what it takes to put it into one.
use mksh.Prelude.{
  ℕ, ◌≤◌, ◌≡◌, ◌≢◌, refl, sym, ap, ◌∙◌, ◌⊎◌, inl, inr, true, false, Option, none, some, List, [],
  ◌∷◌, ◌++◌, ◌==◌, ==_refl, ne→==, ==→eq, Bool-cases, ◌>>=◌, arith,
}
use mksh.Thread.{
  ThreadType, thread_read, thread_write, thread_timer, thread_event, thread_ready, thread_unused,
  rank, Union, Thread, Master, mem, remove, set_list, set_thread, fd_of,
}
use mksh.Thread.Members.{
  Distinct, rank_inj, ne_of_==, mem-add_self, mem-add_ne, mem-remove_self, mem-remove_ne,
  Distinct-add, Distinct-remove,
}
use mksh.Thread.Valid.{Waits, Stored, OnFd, Waiting, Valid, Placed}

-- `c` is `m` with the thread at `a` in no list; its own fields may have changed.
pub record Taken (m : Master) (a : ℕ) (c : Master) : Type 0 where
  pub gone : (i : ThreadType) → mem a (c.list i) ≡ false
  pub others : (i : ThreadType) (b : ℕ) → b ≢ a → mem b (c.list i) ≡ mem b (m.list i)
  pub distinct : (i : ThreadType) → Distinct (c.list i)
  pub off : (b : ℕ) → b ≢ a → c.store b ≡ m.store b

-- The sequence `l` is `as` with one more member.
pub record Added (a : ℕ) (bs l : List ℕ) : Type 0 where
  pub here : mem a l ≡ true
  pub others : (b : ℕ) → b ≢ a → mem b l ≡ mem b bs
  pub distinct : Distinct l

pub append-Added :
    (a : ℕ) (bs : List ℕ) → mem a bs ≡ false → Distinct bs → Added a bs (bs ++ a ∷ [])
append-Added a bs n d = record {
  here = mem-add_self a bs;
  others = λ b q. mem-add_ne a b bs q;
  distinct = Distinct-add a bs n d;
}

abbrev pub rank_at : Option Thread → ℕ
rank_at none = 6
rank_at (some t) = rank t.type

-- A thread is in one list.
pub home :
    (m : Master) (i j : ThreadType) (a : ℕ)
    → Valid m
    → mem a (m.list i) ≡ true
    → mem a (m.list j) ≡ true
    → rank i ≡ rank j
home m i j a v h k =
    let s : Stored m i a = v.stored i a h in
    let r : Stored m j a = v.stored j a k in
    sym (ap rank s.type) ∙ sym (ap rank_at s.at) ∙ ap rank_at r.at ∙ ap rank r.type

pub not_home :
    (m : Master) (i j : ThreadType) (a : ℕ)
    → Valid m
    → mem a (m.list j) ≡ true
    → (rank i == rank j) ≡ false
    → mem a (m.list i) ≡ false
not_home m i j a v h n = elim (Bool-cases (mem a (m.list i))) [
  | inl e ↦ absurd (ne_of_== (rank i) (rank j) n (sym (home m i j a v e h)))
  | inr e ↦ e
]

pub delete-Taken :
    (m : Master) (j : ThreadType) (a : ℕ)
    → Valid m
    → mem a (m.list j) ≡ true
    → Taken m a (set_list j (remove a (m.list j)) m)
delete-Taken m j a v h = record {
  gone = λ i. elim (Bool-cases (rank i == rank j)) [
    | inl e ↦ rw e (mem-remove_self a (m.list j) (v.distinct j))
    | inr e ↦ rw e (not_home m i j a v h e)
  ];
  others = λ i b q. elim (Bool-cases (rank i == rank j)) [
    | inl e ↦ rw e (
        mem-remove_ne a b (m.list j) q
        ∙ ap (λ x. mem b (m.list x)) (sym (rank_inj i j (==→eq (rank i) (rank j) e))))
    | inr e ↦ rw e refl
  ];
  distinct = λ i. elim (Bool-cases (rank i == rank j)) [
    | inl e ↦ rw e (Distinct-remove a (m.list j) (v.distinct j))
    | inr e ↦ rw e (v.distinct i)
  ];
  off = λ b q. refl;
}

pub fresh-Taken :
    (m : Master) (a n : ℕ) → Valid m → m.store a ≡ none → Taken m a (record m { alloc = n })
fresh-Taken m a n v e = record {
  gone = λ i. elim (Bool-cases (mem a (m.list i))) [
    | inl h ↦ let s : Stored m i a = v.stored i a h in absurd (no_thread (sym e ∙ s.at))
    | inr h ↦ h
  ];
  others = λ i b q. refl;
  distinct = v.distinct;
  off = λ b q. refl;
}
  where
    no_thread : {t : Thread} → none ≡ some t → ⊥
    no_thread {t} q = cc

pub set_thread-Taken :
    (m c : Master) (a : ℕ) (t : Thread) → Taken m a c → Taken m a (set_thread a t c)
set_thread-Taken m c a t k = record {
  gone = k.gone;
  others = k.others;
  distinct = k.distinct;
  off = λ b q. rw (ne→== b a q) (k.off b q);
}

-- Somebody else than `a` waits.
abbrev pub Others : Master → ℕ → ThreadType → ℕ → Type 0
Others m a j n = (b : ℕ) × ((b ≢ a) × ((mem b (m.list j) ≡ true) × OnFd m b n))

-- A thread that waits for no descriptor is not the one that a bit is set for.
pub unpolled-Others :
    (m : Master) (k : ThreadType) (a : ℕ)
    → Valid m
    → mem a (m.list k) ≡ true
    → 2 ≤ rank k
    → (j : ThreadType) (n : ℕ) → rank j ≤ 1
    → m.fdset j n ≡ true
    → Others m a j n
unpolled-Others m k a v h r j n x e =
    let (b, (g, o)) = v.source j n x e in
    (b, (λ q. differ (home m j k b v g (ap (λ y. mem y (m.list k)) q ∙ h)), (g, o)))
  where
    differ : rank j ≡ rank k → ⊥
    differ e = absurd (omega arith)

pub free-Others :
    (m : Master) (a : ℕ)
    → Valid m
    → (m.store a ≡ none) ⊎ (mem a (m.list thread_unused) ≡ true)
    → (j : ThreadType) (n : ℕ) → rank j ≤ 1
    → m.fdset j n ≡ true
    → Others m a j n
free-Others m a v (inr h) j n x e = unpolled-Others m thread_unused a v h (omega arith) j n x e
free-Others m a v (inl s) j n x e =
    let (b, (g, o)) = v.source j n x e in
    (b, (λ q. no_fd (ap (λ o. o >>= λ s. fd_of s.u) (sym (ap m.store q ∙ s)) ∙ o), (g, o)))
  where
    no_fd : none ≡ some n → ⊥
    no_fd e = cc

-- The bits of the descriptors are those that the waiting threads need.
pub record Bits (m : Master) (k : ThreadType) (a : ℕ) (t : Thread) (c : Master) : Type 0 where
  pub waits : Waits c k t.u
  pub frame :
      (j : ThreadType) (b : ℕ) (u : Union)
      → b ≢ a
      → mem b (m.list j) ≡ true
      → (m.store b >>= λ s. fd_of s.u) ≡ fd_of u
      → Waits m j u
      → Waits c j u
  pub source :
      (j : ThreadType) (n : ℕ)
      → rank j ≤ 1
      → c.fdset j n ≡ true
      → Others m a j n ⊎ ((j ≡ k) × (fd_of t.u ≡ some n))
  pub apart :
      (b n : ℕ) → b ≢ a → rank k ≤ 1 → mem b (m.list k) ≡ true → OnFd m b n → fd_of t.u ≢ some n

pub same_bits :
    (m c : Master) (k : ThreadType) (u : Union) → c.fdset ≡ m.fdset → Waits m k u → Waits c k u
same_bits m c thread_read u e (n, (p, q)) = (n, (p, ap (λ f. f thread_read n) e ∙ q))
same_bits m c thread_write u e (n, (p, q)) = (n, (p, ap (λ f. f thread_write n) e ∙ q))
same_bits m c thread_timer u e w = w
same_bits m c thread_event u e w = w
same_bits m c thread_ready u e w = w
same_bits m c thread_unused u e w = w

put-others :
    (m c : Master) (k : ThreadType) (a : ℕ) (t : Thread) (l : List ℕ)
    → Taken m a c
    → Added a (c.list k) l
    → (j : ThreadType) (b : ℕ) → b ≢ a
    → mem b ((set_list k l (set_thread a t c)).list j) ≡ mem b (m.list j)
put-others m c k a t l g d j b q = elim (Bool-cases (rank j == rank k)) [
  | inl e ↦ rw e (
      d.others b q
      ∙ g.others k b q
      ∙ ap (λ x. mem b (m.list x)) (sym (rank_inj j k (==→eq (rank j) (rank k) e))))
  | inr e ↦ rw e (g.others j b q)
]

put-source :
    (m c : Master) (k : ThreadType) (a : ℕ) (t : Thread) (l : List ℕ)
    → Taken m a c
    → Added a (c.list k) l
    → (j : ThreadType) (n : ℕ) → Others m a j n ⊎ ((j ≡ k) × (fd_of t.u ≡ some n))
    → Waiting (set_list k l (set_thread a t c)) j n
put-source m c k a t l g d j n (inl (b, (q, (h, o)))) = (
  b,
  (
    put-others m c k a t l g d j b q ∙ h,
    ap (λ o. o >>= λ s. fd_of s.u) (rw (ne→== b a q) (g.off b q)) ∙ o,
  ),
)
put-source m c k a t l g d j n (inr (e, o)) =
    (a, (rw (ap rank e) (rw (==_refl (rank k)) d.here), rw (==_refl a) o))

pub put-Placed :
    (m c : Master) (k : ThreadType) (a : ℕ) (t : Thread) (l : List ℕ)
    → Taken m a c
    → Added a (c.list k) l
    → t.type ≡ k
    → Bits m k a t c
    → Placed m k a t (set_list k l (set_thread a t c))
put-Placed m c k a t l g d ty w = record {
  here = rw (==_refl (rank k)) d.here;
  elsewhere = λ j n. rw (ne→== (rank j) (rank k) n) (g.gone j);
  others = λ j b q. put-others m c k a t l g d j b q;
  distinct = λ j. elim (Bool-cases (rank j == rank k)) [
    | inl e ↦ rw e d.distinct
    | inr e ↦ rw e (g.distinct j)
  ];
  at = rw (==_refl a) refl;
  off = λ b q. rw (ne→== b a q) (g.off b q);
  type = ty;
  waits = same_bits c (set_list k l (set_thread a t c)) k t.u refl w.waits;
  frame = λ j b u q h e x.
      same_bits c (set_list k l (set_thread a t c)) j u refl (w.frame j b u q h e x);
  source = λ j n r e. put-source m c k a t l g d j n (w.source j n r e);
  apart = w.apart;
}
