-- ===== src/Thread/Members.antt =====
-- The sequences of addresses: what a step does to their members.
use mksh.Prelude.{
  ℕ, ◌≡◌, ◌≢◌, refl, sym, ap, ◌∙◌, inl, inr, Bool, true, false, List, [], ◌∷◌, ◌++◌, arith, ◌==◌,
  if◌then◌else◌, ==_refl, ne→==, ==→eq, Bool-cases,
}
use mksh.Thread.{
  ThreadType, thread_read, thread_write, thread_timer, thread_event, thread_ready, thread_unused,
  rank, mem, remove,
}

abbrev pub Distinct : List ℕ → Type 0
Distinct [] = Unit {0}
Distinct (a ∷ bs) = (mem a bs ≡ false) × Distinct bs

unrank : ℕ → ThreadType
unrank n =
    if n == 0
    then thread_read
    else if n == 1
    then thread_write
    else if n == 2
    then thread_timer
    else if n == 3
    then thread_event
    else if n == 4
    then thread_ready
    else thread_unused

unrank-rank : (k : ThreadType) → unrank (rank k) ≡ k
unfolding unrank
unrank-rank thread_read = refl
unrank-rank thread_write = refl
unrank-rank thread_timer = refl
unrank-rank thread_event = refl
unrank-rank thread_ready = refl
unrank-rank thread_unused = refl

pub rank_inj : (j k : ThreadType) → rank j ≡ rank k → j ≡ k
rank_inj j k e = sym (unrank-rank j) ∙ ap unrank e ∙ unrank-rank k

pub ne_of_== : (a b : ℕ) → (a == b) ≡ false → b ≢ a
ne_of_== a b e q = ground arith

pub clash : {b : Bool} → b ≡ true → b ≡ false → ⊥
clash {b} t f = cc

pub mem-nil : (a : ℕ) → mem a [] ≡ true → ⊥
unfolding mem
mem-nil a h = cc

pub mem-here : (a : ℕ) (bs : List ℕ) → mem a (a ∷ bs) ≡ true
unfolding mem
mem-here a bs = rw (==_refl a) refl

pub mem-skip : (a b : ℕ) (bs : List ℕ) → a ≢ b → mem a (b ∷ bs) ≡ mem a bs
unfolding mem
mem-skip a b bs n = rw (ne→== a b n) refl

pub mem-add_self : (a : ℕ) (bs : List ℕ) → mem a (bs ++ a ∷ []) ≡ true
unfolding mem
mem-add_self a [] = rw (==_refl a) refl
mem-add_self a (b ∷ bs) = elim (Bool-cases (a == b)) [
  | inl e ↦ rw e refl
  | inr e ↦ rw e (mem-add_self a bs)
]

pub mem-add_ne : (a c : ℕ) (bs : List ℕ) → c ≢ a → mem c (bs ++ a ∷ []) ≡ mem c bs
unfolding mem
mem-add_ne a c [] n = rw (ne→== c a n) refl
mem-add_ne a c (b ∷ bs) n = elim (Bool-cases (c == b)) [
  | inl e ↦ rw e refl
  | inr e ↦ rw e (mem-add_ne a c bs n)
]

pub mem-remove_self : (a : ℕ) (bs : List ℕ) → Distinct bs → mem a (remove a bs) ≡ false
unfolding mem remove
mem-remove_self a [] d = refl
mem-remove_self a (b ∷ bs) (n, d) = elim (Bool-cases (a == b)) [
  | inl e ↦ rw e (ap (λ x. mem x bs) (==→eq a b e) ∙ n)
  | inr e ↦ rw e (rw e (mem-remove_self a bs d))
]

pub mem-remove_ne : (a c : ℕ) (bs : List ℕ) → c ≢ a → mem c (remove a bs) ≡ mem c bs
unfolding mem remove
mem-remove_ne a c [] n = refl
mem-remove_ne a c (b ∷ bs) n = elim (Bool-cases (a == b)) [
  | inl e ↦ rw (e, ne→== c b (λ q. n (q ∙ sym (==→eq a b e)))) refl
  | inr e ↦
      rw e
        (elim (Bool-cases (c == b)) [ inl f ↦ rw f refl | inr f ↦ rw f (mem-remove_ne a c bs n) ])
]

pub Distinct-add : (a : ℕ) (bs : List ℕ) → mem a bs ≡ false → Distinct bs → Distinct (bs ++ a ∷ [])
unfolding mem
Distinct-add a [] n d = (refl, tt)
Distinct-add a (b ∷ bs) n (m, d) = elim (Bool-cases (a == b)) [
  | inl e ↦ absurd (clash (rw e refl) n)
  | inr e ↦ (
    mem-add_ne a b bs (ne_of_== a b e) ∙ m,
    Distinct-add a bs (sym (mem-skip a b bs (λ q. ne_of_== a b e (sym q))) ∙ n) d,
  )
]

pub Distinct-remove : (a : ℕ) (bs : List ℕ) → Distinct bs → Distinct (remove a bs)
unfolding remove
Distinct-remove a [] d = tt
Distinct-remove a (b ∷ bs) (n, d) = elim (Bool-cases (a == b)) [
  | inl e ↦ rw e d
  | inr e ↦ rw e (mem-remove_ne a b bs (ne_of_== a b e) ∙ n, Distinct-remove a bs d)
]
