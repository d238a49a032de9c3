-- ===== src/Thread/Retire.antt =====
-- thread.c: a thread that becomes unused.
use mksh.Prelude.{
  ℕ, ◌≤◌, ◌≡◌, refl, ap, ◌∙◌, inl, true, false, Option, some, [], ◌∷◌, ◌++◌, ==_refl, ◌>>=◌, arith,
}
use mksh.Thread.{
  ThreadType, thread_unused, rank, Thread, Master, mem, remove, set_list, set_thread, set_type,
  thread_list_add, thread_list_delete, thread_add_unuse,
}
use mksh.Thread.Release.{discard}
use mksh.Thread.Valid.{Valid, Placed}
use mksh.Thread.Put.{
  Taken, append-Added, Bits, same_bits, delete-Taken, put-Placed, unpolled-Others,
}

-- The run ends, with the thread in the list of the unused ones and all else where it was.
pub record Dropped (m : Master) (a : ℕ) (t : Thread) (r : Option Master) : Type 0 where
  pub master : Master
  pub run : r ≡ some master
  pub placed : Placed m thread_unused a (record t { type = thread_unused }) master

pub add_unuse-run :
    (c : Master) (a : ℕ) (t : Thread)
    → c.store a ≡ some (record t { type = thread_unused })
    → mem a (c.list thread_unused) ≡ false
    → thread_add_unuse c a ≡ some (set_list thread_unused (c.list thread_unused ++ a ∷ []) c)
unfolding thread_add_unuse thread_list_add
add_unuse-run c a t e g = rw e (rw g refl)

-- `thread->type = THREAD_UNUSED; thread_add_unuse (m, thread);` for a thread that was taken out.
pub retire-Dropped :
    (m c : Master) (a : ℕ) (t : Thread)
    → Taken m a c
    → c.store a ≡ some t
    → Bits m thread_unused a t c
    → Dropped m a t (set_type thread_unused a c >>= λ s. thread_add_unuse s a)
retire-Dropped m c a t k e w =
    let s : Thread = record t { type = thread_unused } in
    record {
      master = set_list thread_unused (c.list thread_unused ++ a ∷ []) (set_thread a s c);
      run =
          unfold set_type in
          rw e (add_unuse-run (set_thread a s c) a t (rw (==_refl a) refl) (k.gone thread_unused));
      placed =
          put-Placed m c thread_unused a s (c.list thread_unused ++ a ∷ []) k
            (append-Added a (c.list thread_unused) (k.gone thread_unused)
              (k.distinct thread_unused))
            refl
            (record {
              waits = tt;
              frame = w.frame;
              source = w.source;
              apart = λ b n q r. absurd (omega arith);
            });
    }

pub discard-Dropped :
    (m c : Master) (j : ThreadType) (a : ℕ) (t : Thread)
    → Valid m
    → mem a (m.list j) ≡ true
    → m.store a ≡ some t
    → c.list ≡ m.list
    → c.store ≡ m.store
    → Bits m thread_unused a t c
    → Dropped m a t (discard j a c)
discard-Dropped m c j a t v h e l s w =
    let d : Master = set_list j (remove a (c.list j)) c in
    let k : Taken m a (set_list j (remove a (m.list j)) m) = delete-Taken m j a v h in
    let k' : Taken m a d = record {
      gone = λ i. rw l (k.gone i);
      others = λ i b q. rw l (k.others i b q);
      distinct = λ i. rw l (k.distinct i);
      off = λ b q. ap (λ f. f b) s;
    } in
    let r : Dropped m a t (set_type thread_unused a d >>= λ x. thread_add_unuse x a) =
      retire-Dropped m d a t k' (ap (λ f. f a) s ∙ e) (record {
        waits = tt;
        frame = λ i b u q g p x. same_bits c d i u refl (w.frame i b u q g p x);
        source = w.source;
        apart = w.apart;
      }) in
    record {
      master = r.master;
      run = unfold discard thread_list_delete in rw (ap (λ f. mem a (f j)) l ∙ h) r.run;
      placed = r.placed;
    }

pub unpolled-Bits :
    (m : Master) (k : ThreadType) (a : ℕ) (t : Thread)
    → Valid m
    → mem a (m.list k) ≡ true
    → 2 ≤ rank k
    → Bits m thread_unused a t m
unpolled-Bits m k a t v h r = record {
  waits = tt;
  frame = λ j b u q g e x. x;
  source = λ j n x e. inl (unpolled-Others m k a v h r j n x e);
  apart = λ b n q r. absurd (omega arith);
}
