-- ===== src/Thread/Valid.antt =====
-- The well-formed states of the scheduler, and what keeps a state well-formed.
use mksh.Prelude.{
  ℕ, ◌≤◌, ◌≡◌, ◌≢◌, sym, ap, ◌∙◌, ◌⊎◌, inl, inr, true, false, none, some, ◌==◌, ==→eq, Bool-cases,
  ◌>>=◌, arith,
}
use mathlib.Core.Path.{subst}
use mksh.Timeval.{Timeval}
use mksh.Thread.{
  ThreadType, thread_read, thread_write, thread_timer, thread_event, thread_ready, thread_unused,
  rank, Union, Thread, Master, mem, sands_of, fd_of,
}
use mksh.Thread.Members.{Distinct, rank_inj, clash}

-- The union holds what the type needs, and the set has the bit of a descriptor that is waited for.
abbrev pub Waits : Master → ThreadType → Union → Type 0
Waits m thread_read u = (n : ℕ) × ((fd_of u ≡ some n) × (m.fdset thread_read n ≡ true))
Waits m thread_write u = (n : ℕ) × ((fd_of u ≡ some n) × (m.fdset thread_write n ≡ true))
Waits m thread_timer u = (v : Timeval) × (sands_of u ≡ some v)
Waits m thread_event u = Unit {0}
Waits m thread_ready u = Unit {0}
Waits m thread_unused u = Unit {0}

pub record Stored (m : Master) (k : ThreadType) (a : ℕ) : Type 0 where
  pub thread : Thread
  pub at : m.store a ≡ some thread
  pub type : thread.type ≡ k
  pub waits : Waits m k thread.u

abbrev pub OnFd : Master → ℕ → ℕ → Type 0
OnFd m a n = (m.store a >>= λ t. fd_of t.u) ≡ some n

-- A thread of list `j` waits for descriptor `n`.
abbrev pub Waiting : Master → ThreadType → ℕ → Type 0
Waiting m j n = (b : ℕ) × ((mem b (m.list j) ≡ true) × OnFd m b n)

-- The threads of a list have its type, none is in a list twice, two threads that wait for the same
-- descriptor in the same way are one, somebody waits for each descriptor of a set, and every thread
-- there is is in a list.
pub record Valid (m : Master) : Type 0 where
  pub stored : (k : ThreadType) (a : ℕ) → mem a (m.list k) ≡ true → Stored m k a
  pub distinct : (k : ThreadType) → Distinct (m.list k)
  pub unique :
      (k : ThreadType) (a b n : ℕ)
      → rank k ≤ 1
      → mem a (m.list k) ≡ true
      → mem b (m.list k) ≡ true
      → OnFd m a n
      → OnFd m b n
      → a ≡ b
  pub source : (k : ThreadType) (n : ℕ) → rank k ≤ 1 → m.fdset k n ≡ true → Waiting m k n
  pub known : (a : ℕ) → (m.store a ≡ none) ⊎ ((k : ThreadType) × (mem a (m.list k) ≡ true))

-- The thread `t` at `a` has come into list `k`, and the others are where they were.
pub record Placed (m : Master) (k : ThreadType) (a : ℕ) (t : Thread) (m' : Master) : Type 0 where
  pub here : mem a (m'.list k) ≡ true
  pub elsewhere : (j : ThreadType) → rank j ≢ rank k → mem a (m'.list j) ≡ false
  pub others : (j : ThreadType) (b : ℕ) → b ≢ a → mem b (m'.list j) ≡ mem b (m.list j)
  pub distinct : (j : ThreadType) → Distinct (m'.list j)
  pub at : m'.store a ≡ some t
  pub off : (b : ℕ) → b ≢ a → m'.store b ≡ m.store b
  pub type : t.type ≡ k
  pub waits : Waits m' k t.u
  pub frame :
      (j : ThreadType) (b : ℕ) (u : Union)
      → b ≢ a
      → mem b (m.list j) ≡ true
      → (m.store b >>= λ s. fd_of s.u) ≡ fd_of u
      → Waits m j u
      → Waits m' j u
  pub source : (j : ThreadType) (n : ℕ) → rank j ≤ 1 → m'.fdset j n ≡ true → Waiting m' j n
  pub apart :
      (b n : ℕ) → b ≢ a → rank k ≤ 1 → mem b (m.list k) ≡ true → OnFd m b n → fd_of t.u ≢ some n

ne_flip : (a b : ℕ) → (a == b) ≡ false → a ≢ b
ne_flip a b e = ground arith

-- A list that has the thread is list `k`.
Placed-only :
    (m m' : Master) (k j : ThreadType) (a b : ℕ) (t : Thread)
    → Placed m k a t m'
    → b ≡ a
    → mem b (m'.list j) ≡ true
    → j ≡ k
Placed-only m m' k j a b t p e h = elim (Bool-cases (rank j == rank k)) [
  | inl r ↦ rank_inj j k (==→eq (rank j) (rank k) r)
  | inr r ↦
      absurd (clash h (ap (λ x. mem x (m'.list j)) e ∙ p.elsewhere j (ne_flip (rank j) (rank k) r)))
]

pub Placed-Valid :
    (m m' : Master) (k : ThreadType) (a : ℕ) (t : Thread) → Valid m → Placed m k a t m' → Valid m'
Placed-Valid m m' k a t v p = record {
  stored = stored;
  distinct = p.distinct;
  unique = unique;
  source = p.source;
  known = known;
}
  where
    stored : (j : ThreadType) (b : ℕ) → mem b (m'.list j) ≡ true → Stored m' j b
    stored j b h = elim (Bool-cases (b == a)) [
      | inl e ↦
          let s : Stored m' k a = record {
            thread = t;
            at = p.at;
            type = p.type;
            waits = p.waits;
          } in
          let q : b ≡ a = ==→eq b a e in
          subst (λ x. Stored m' x b) (sym (Placed-only m m' k j a b t p q h))
            (subst (λ x. Stored m' k x) (sym q) s)
      | inr e ↦
          let q : b ≢ a = ne_flip b a e in
          let g : mem b (m.list j) ≡ true = sym (p.others j b q) ∙ h in
          let s : Stored m j b = v.stored j b g in
          record {
            thread = s.thread;
            at = p.off b q ∙ s.at;
            type = s.type;
            waits = p.frame j b s.thread.u q g (ap (λ o. o >>= λ s. fd_of s.u) s.at) s.waits;
          }
    ]

    back : (b n : ℕ) → b ≢ a → OnFd m' b n → OnFd m b n
    back b n q o = ap (λ o. o >>= λ s. fd_of s.u) (sym (p.off b q)) ∙ o

    alone :
        (j : ThreadType) (b c n : ℕ)
        → rank j ≤ 1
        → b ≡ a
        → c ≢ a
        → mem b (m'.list j) ≡ true
        → mem c (m'.list j) ≡ true
        → OnFd m' b n
        → OnFd m' c n
        → ⊥
    alone j b c n r e q hb hc ob oc =
        let i : j ≡ k = Placed-only m m' k j a b t p e hb in
        let g : mem c (m.list k) ≡ true =
          sym (p.others k c q) ∙ ap (λ x. mem c (m'.list x)) (sym i) ∙ hc in
        let o : fd_of t.u ≡ some n =
          ap (λ o. o >>= λ s. fd_of s.u) (sym p.at)
          ∙ ap (λ x. m'.store x >>= λ s. fd_of s.u) (sym e)
          ∙ ob in
        p.apart c n q (subst (λ x. rank x ≤ 1) i r) g (back c n q oc) o

    unique :
        (j : ThreadType) (b c n : ℕ)
        → rank j ≤ 1
        → mem b (m'.list j) ≡ true
        → mem c (m'.list j) ≡ true
        → OnFd m' b n
        → OnFd m' c n
        → b ≡ c
    unique j b c n r hb hc ob oc = elim (Bool-cases (b == a)) [
      | inl e ↦ elim (Bool-cases (c == a)) [
        | inl f ↦ ==→eq b a e ∙ sym (==→eq c a f)
        | inr f ↦ absurd (alone j b c n r (==→eq b a e) (ne_flip c a f) hb hc ob oc)
      ]
      | inr e ↦ elim (Bool-cases (c == a)) [
        | inl f ↦ absurd (alone j c b n r (==→eq c a f) (ne_flip b a e) hc hb oc ob)
        | inr f ↦
            let q : b ≢ a = ne_flip b a e in
            let s : c ≢ a = ne_flip c a f in
            v.unique j b c n r (sym (p.others j b q) ∙ hb) (sym (p.others j c s) ∙ hc)
              (back b n q ob) (back c n s oc)
      ]
    ]

    known : (b : ℕ) → (m'.store b ≡ none) ⊎ ((j : ThreadType) × (mem b (m'.list j) ≡ true))
    known b = elim (Bool-cases (b == a)) [
      | inl e ↦ inr (k, ap (λ x. mem x (m'.list k)) (==→eq b a e) ∙ p.here)
      | inr e ↦
          let q : b ≢ a = ne_flip b a e in
          elim (v.known b) [
            | inl n ↦ inl (p.off b q ∙ n)
            | inr (j, h) ↦ inr (j, p.others j b q ∙ h)
          ]
    ]
