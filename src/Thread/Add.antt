-- ===== src/Thread/Add.antt =====
-- thread.c: what the functions that add a thread do to a well-formed state.
use mksh.Prelude.{
  ℕ, ◌+◌, ◌%◌, ◌^◌, ◌≡◌, refl, sym, ap, ◌∙◌, ◌⊎◌, inl, inr, true, false, ◌&&◌, Option, none, some,
  List, [], ◌∷◌, ◌++◌, ◌==◌, ==_refl, Bool-cases, Option-cases,
}
use mksh.Prelude.Int.{pos}
use mksh.Thread.{
  ThreadType, thread_read, thread_write, thread_timer, thread_event, thread_ready, thread_unused,
  rank, Union, val, Thread, Master, mem, remove, head, set_list, set_fd, set_thread, set_union,
  thread_list_add, thread_list_delete, trim, thread_trim_head, get, thread_get,
}
use mksh.Thread.Members.{mem-here}
use mksh.Thread.Valid.{Waits, Stored, Valid, Placed}
use mksh.Thread.Put.{Taken, delete-Taken, fresh-Taken, set_thread-Taken}
use mksh.Thread.Clear.{some_inj}

pub head-mem : (l : List ℕ) (a : ℕ) → head l ≡ some a → mem a l ≡ true
unfolding head
head-mem [] a e = absurd (no_member e)
  where
    no_member : {b : ℕ} → none ≡ some b → ⊥
    no_member {b} q = cc
head-mem (b ∷ bs) a e = ap (λ x. mem x (b ∷ bs)) (sym (some_inj e)) ∙ mem-here b bs

pub trim-none :
    (k : ThreadType) (m : Master) → head (m.list k) ≡ none → thread_trim_head k m ≡ some (none, m)
unfolding thread_trim_head trim
trim-none k m e = rw e refl

pub trim-some :
    (k : ThreadType) (m : Master) (a : ℕ)
    → head (m.list k) ≡ some a
    → thread_trim_head k m ≡ some (some a, set_list k (remove a (m.list k)) m)
unfolding thread_trim_head trim thread_list_delete
trim-some k m a e = rw e (rw (head-mem (m.list k) a e) refl)

-- What `thread_get` gives: a thread that was not in use, with its new fields, in no list.
pub record Got (m : Master) (k : ThreadType) (func arg : ℕ) (r : Option (ℕ × Master)) : Type 0 where
  pub address : ℕ
  pub u : Union
  pub master : Master
  pub run : r ≡ some (address, master)
  pub at : master.store address ≡ some (record { type = k; func = func; arg = arg; u = u })
  pub taken : Taken m address master
  pub fds : master.fdset ≡ m.fdset
  pub free : (m.store address ≡ none) ⊎ (mem address (m.list thread_unused) ≡ true)

pub thread_get-Got :
    (new : ℕ) (m : Master) (k : ThreadType) (func arg : ℕ)
    → Valid m
    → m.store new ≡ none
    → Got m k func arg (thread_get new m k func arg)
unfolding thread_get get
thread_get-Got new m k func arg v n = elim (Option-cases (head (m.list thread_unused))) [
  | inl e ↦
      let t : Thread = record { type = k; func = func; arg = arg; u = val (pos 0) } in
      let c : Master = record m { alloc = (m.alloc + 1) % 2 ^ 64 } in
      record {
        address = new;
        u = val (pos 0);
        master = set_thread new t c;
        run = rw (trim-none thread_unused m e) refl;
        at = rw (==_refl new) refl;
        taken = set_thread-Taken m c new t (fresh-Taken m new ((m.alloc + 1) % 2 ^ 64) v n);
        fds = refl;
        free = inl n;
      }
  | inr (a, e) ↦
      let h : mem a (m.list thread_unused) ≡ true = head-mem (m.list thread_unused) a e in
      let s : Stored m thread_unused a = v.stored thread_unused a h in
      let t : Thread = record { type = k; func = func; arg = arg; u = s.thread.u } in
      let c : Master = set_list thread_unused (remove a (m.list thread_unused)) m in
      record {
        address = a;
        u = s.thread.u;
        master = set_thread a t c;
        run = rw (trim-some thread_unused m a e) (rw s.at refl);
        at = rw (==_refl a) refl;
        taken = set_thread-Taken m c a t (delete-Taken m thread_unused a v h);
        fds = refl;
        free = inr h;
      }
]

-- A run that ends with such a thread in list `k`, and all else where it was.
pub record Started {A : Type 0} (m : Master) (k : ThreadType) (func arg : ℕ) (u : Union)
    (give : ℕ → A) (r : Option (A × Master)) : Type 0 where
  pub address : ℕ
  pub master : Master
  pub run : r ≡ some (give address, master)
  pub free : (m.store address ≡ none) ⊎ (mem address (m.list thread_unused) ≡ true)
  pub placed : Placed m k address (record { type = k; func = func; arg = arg; u = u }) master

pub set_union-run :
    (c : Master) (a : ℕ) (t : Thread) (u : Union)
    → c.store a ≡ some t
    → set_union a u c ≡ some (set_thread a (record t { u = u }) c)
unfolding set_union
set_union-run c a t u e = rw e refl

pub add-run :
    (k : ThreadType) (a : ℕ) (c : Master)
    → mem a (c.list k) ≡ false
    → thread_list_add k a c ≡ some (set_list k (c.list k ++ a ∷ []) c)
unfolding thread_list_add
add-run k a c g = rw g refl

kept_bit :
    (m c : Master) (k i : ThreadType) (n j : ℕ)
    → c.fdset ≡ m.fdset
    → m.fdset i j ≡ true
    → (set_fd k n true c).fdset i j ≡ true
kept_bit m c k i n j e w = elim (Bool-cases ((rank i == rank k) && (j == n))) [
  | inl q ↦ rw q refl
  | inr q ↦ rw q (ap (λ f. f i j) e ∙ w)
]

pub fds-frame :
    (m c : Master) (k i : ThreadType) (n : ℕ) (u : Union)
    → c.fdset ≡ m.fdset
    → Waits m i u
    → Waits (set_fd k n true c) i u
fds-frame m c k thread_read n u e (j, (p, w)) = (j, (p, kept_bit m c k thread_read n j e w))
fds-frame m c k thread_write n u e (j, (p, w)) = (j, (p, kept_bit m c k thread_write n j e w))
fds-frame m c k thread_timer n u e w = w
fds-frame m c k thread_event n u e w = w
fds-frame m c k thread_ready n u e w = w
fds-frame m c k thread_unused n u e w = w
