-- ===== src/Thread/Clear.antt =====
-- thread.c: the bits of the descriptors, and the thread that one is cleared for.
use mksh.Prelude.{
  ℕ, ◌≤◌, ◌≡◌, ◌≢◌, refl, sym, ap, ◌∙◌, inl, inr, true, false, ◌&&◌, none, some, ◌==◌, ==_refl,
  ==→eq, Bool-cases, ◌>>=◌, arith,
}
use mathlib.Core.Path.{subst}
use mksh.Thread.{
  ThreadType, thread_read, thread_write, thread_timer, thread_event, thread_ready, thread_unused,
  rank, Union, Thread, Master, mem, set_fd, fd_of,
}
use mksh.Thread.Members.{rank_inj, clash}
use mksh.Thread.Valid.{Waits, Stored, OnFd, Valid}
use mksh.Thread.Put.{rank_at, home, Others}

pub some_inj : {A : Type 0} {a b : A} → some a ≡ some b → a ≡ b
some_inj {A} {a} {b} e = ap (λ o. elim o as (λ _. A) [ none ↦ a | some x ↦ x ]) e

-- Every thread stands in the list of its type.
pub listed :
    (m : Master) (a : ℕ) (t : Thread) → Valid m → m.store a ≡ some t → mem a (m.list t.type) ≡ true
listed m a t v e = elim (v.known a) [
  | inl n ↦ absurd (no_thread (sym n ∙ e))
  | inr (k, h) ↦
      let s : Stored m k a = v.stored k a h in
      let r : k ≡ t.type =
        rank_inj k t.type (sym (ap rank s.type) ∙ sym (ap rank_at s.at) ∙ ap rank_at e) in
      subst (λ x. mem a (m.list x) ≡ true) r h
]
  where
    no_thread : {s : Thread} → none ≡ some s → ⊥
    no_thread {s} q = cc

pub polled :
    (m : Master) (j : ThreadType) (u : Union)
    → rank j ≤ 1
    → Waits m j u
    → (n : ℕ) × ((fd_of u ≡ some n) × (m.fdset j n ≡ true))
polled m thread_read u h w = w
polled m thread_write u h w = w
polled m thread_timer u h w = absurd (omega arith)
polled m thread_event u h w = absurd (omega arith)
polled m thread_ready u h w = absurd (omega arith)
polled m thread_unused u h w = absurd (omega arith)

-- Clearing the bit of one thread leaves the bits of the others.
bit-kept :
    (m : Master) (j i : ThreadType) (a b n k : ℕ)
    → Valid m
    → rank i ≤ 1
    → mem a (m.list j) ≡ true
    → OnFd m a n
    → b ≢ a
    → mem b (m.list i) ≡ true
    → OnFd m b k
    → m.fdset i k ≡ true
    → (set_fd j n false m).fdset i k ≡ true
bit-kept m j i a b n k v r h o q g p w = elim (Bool-cases (rank i == rank j)) [
  | inr e ↦ rw e w
  | inl e ↦ elim (Bool-cases (k == n)) [
    | inr f ↦ rw (e, f) w
    | inl f ↦
        let ij : i ≡ j = rank_inj i j (==→eq (rank i) (rank j) e) in
        absurd (
          q (
            v.unique i b a n r g (ap (λ x. mem a (m.list x)) ij ∙ h)
              (subst (λ x. OnFd m b x) (==→eq k n f) p) o))
  ]
]

pub clear-frame :
    (m : Master) (j i : ThreadType) (a b n : ℕ) (u : Union)
    → Valid m
    → mem a (m.list j) ≡ true
    → OnFd m a n
    → b ≢ a
    → mem b (m.list i) ≡ true
    → (m.store b >>= λ s. fd_of s.u) ≡ fd_of u
    → Waits m i u
    → Waits (set_fd j n false m) i u
clear-frame m j thread_read a b n u v h o q g e (k, (p, w)) =
    (k, (p, bit-kept m j thread_read a b n k v (omega arith) h o q g (e ∙ p) w))
clear-frame m j thread_write a b n u v h o q g e (k, (p, w)) =
    (k, (p, bit-kept m j thread_write a b n k v (omega arith) h o q g (e ∙ p) w))
clear-frame m j thread_timer a b n u v h o q g e w = w
clear-frame m j thread_event a b n u v h o q g e w = w
clear-frame m j thread_ready a b n u v h o q g e w = w
clear-frame m j thread_unused a b n u v h o q g e w = w

-- Somebody else waits for a bit that is left.
pub clear-Others :
    (m : Master) (j : ThreadType) (a n : ℕ)
    → Valid m
    → mem a (m.list j) ≡ true
    → OnFd m a n
    → (i : ThreadType) (l : ℕ) → rank i ≤ 1
    → (set_fd j n false m).fdset i l ≡ true
    → Others m a i l
clear-Others m j a n v h o i l r e = elim (Bool-cases ((rank i == rank j) && (l == n))) [
  | inl x ↦ absurd (clash e (rw x refl))
  | inr x ↦
      let g : (set_fd j n false m).fdset i l ≡ m.fdset i l = rw x refl in
      let (b, (y, p)) = v.source i l r (sym g ∙ e) in (b, (λ q. clash (same b q y p) x, (y, p)))
]
  where
    same :
        (b : ℕ)
        → b ≡ a
        → mem b (m.list i) ≡ true
        → OnFd m b l
        → ((rank i == rank j) && (l == n)) ≡ true
    same b q y p =
        let s : rank i ≡ rank j = home m i j b v y (ap (λ x. mem x (m.list j)) q ∙ h) in
        let u : l ≡ n = some_inj (sym p ∙ ap (λ x. m.store x >>= λ s. fd_of s.u) q ∙ o) in
        ap (λ x. (x == rank j) && (l == n)) s
        ∙ ap (λ x. (rank j == rank j) && (x == n)) u
        ∙ rw (==_refl (rank j), ==_refl n) refl

pub stored-Waits :
    (m : Master) (k : ThreadType) (a : ℕ) (t : Thread)
    → Valid m
    → m.store a ≡ some t
    → mem a (m.list k) ≡ true
    → Waits m k t.u
stored-Waits m k a t v e h =
    let s : Stored m k a = v.stored k a h in
    subst (λ x. Waits m k x.u) (some_inj (sym s.at ∙ e)) s.waits
