-- ===== src/Timeval/Adjust.antt =====
-- What `timeval_adjust` computes.
use mksh.Prelude.{
  ℕ, zero, suc, ◌+◌, ◌-◌, ◌*◌, ◌/◌, ◌≤◌, ◌<◌, ◌≡◌, refl, inl, inr, true, false, Option, some, arith,
  Bool-cases, ◌>>=◌,
}
use mksh.Prelude.Int.{ℤ, pos, pos_part, neg_part, ◌+ℤ◌, ◌-ℤ◌, ◌≤ℤ◌, ltb_ℤ, +ℤ_parts, -ℤ_parts}
use mksh.Timeval.{Timeval, timer_second_micro, carry, borrow, not_past, not_far, timeval_adjust}

-- The microseconds of a time, on both sides of zero.
abbrev pub micros_above : Timeval → ℕ
micros_above a = pos_part a.sec * 1000000 + pos_part a.usec

abbrev pub micros_below : Timeval → ℕ
micros_below a = neg_part a.sec * 1000000 + neg_part a.usec

abbrev pub Same : Timeval → Timeval → Type 0
Same a b = micros_above a + micros_below b ≡ micros_above b + micros_below a

record Carried (a : Timeval) (r : Option Timeval) : Type 0 where
  time : Timeval
  run : r ≡ some time
  same : Same a time
  high : pos_part time.usec < 1000000

carried_usec :
    (u : ℤ)
    → ltb_ℤ u timer_second_micro ≡ false
    → pos_part u ≡ pos_part (u -ℤ timer_second_micro) + 1000000
unfolding ◌-ℤ◌
carried_usec u e = ground arith

borrowed_usec :
    (u : ℤ)
    → ltb_ℤ u (pos 0) ≡ true
    → (neg_part (u +ℤ timer_second_micro) ≡ neg_part u - 1000000)
      × ((0 < neg_part u) × (pos_part (u +ℤ timer_second_micro) < 1000000))
unfolding ◌+ℤ◌
borrowed_usec u e = (ground arith, (ground arith, ground arith))

carry-Carried :
    (fuel : ℕ) (a : Timeval) → pos_part a.usec < fuel * 1000000 → Carried a (carry fuel a)
unfolding carry
carry-Carried zero a h = absurd (omega arith)
carry-Carried (suc fuel) a h = elim (Bool-cases (ltb_ℤ a.usec timer_second_micro)) [
  | inl e ↦ record { time = a; run = rw e refl; same = refl; high = ground arith }
  | inr e ↦
      let b : Timeval = record { sec = a.sec +ℤ pos 1; usec = a.usec -ℤ timer_second_micro } in
      let p : pos_part a.usec ≡ pos_part (a.usec -ℤ timer_second_micro) + 1000000 =
        carried_usec a.usec e in
      let r : Carried b (carry fuel b) = carry-Carried fuel b (omega (arith, p, h)) in
      record {
        time = r.time;
        run = rw e r.run;
        same = omega (arith, r.same, -ℤ_parts a.usec timer_second_micro, +ℤ_parts a.sec (pos 1));
        high = r.high;
      }
]

-- Behind the second loop there are 0 to 999999 microseconds.
record Borrowed (a : Timeval) (r : Option Timeval) : Type 0 where
  time : Timeval
  run : r ≡ some time
  same : Same a time
  low : neg_part time.usec ≡ 0
  high : pos_part time.usec < 1000000

borrow-Borrowed :
    (fuel : ℕ) (a : Timeval)
    → neg_part a.usec + 1000000 ≤ fuel * 1000000
    → pos_part a.usec < 1000000
    → Borrowed a (borrow fuel a)
unfolding borrow
borrow-Borrowed zero a h k = absurd (omega arith)
borrow-Borrowed (suc fuel) a h k = elim (Bool-cases (ltb_ℤ a.usec (pos 0))) [
  | inr e ↦ record { time = a; run = rw e refl; same = refl; low = ground arith; high = k }
  | inl e ↦
      let b : Timeval = record { sec = a.sec -ℤ pos 1; usec = a.usec +ℤ timer_second_micro } in
      let (p, (n, q)) = borrowed_usec a.usec e in
      let r : Borrowed b (borrow fuel b) = borrow-Borrowed fuel b (omega (arith, h, p, n)) q in
      record {
        time = r.time;
        run = rw e r.run;
        same = omega (arith, r.same, +ℤ_parts a.usec timer_second_micro, -ℤ_parts a.sec (pos 1));
        low = r.low;
        high = r.high;
      }
]

-- Times of 0 to 1000000 seconds keep their value; the others are cut off.
pub data Adjusted (a t : Timeval) : Type 0 where
  kept : Same a t → Adjusted a t
  past : micros_above a < micros_below a → t.sec ≡ pos 0 → t.usec ≡ pos 10 → Adjusted a t
  far :
      1000000 * 1000000 + 1000000 + micros_below a ≤ micros_above a
      → t.sec ≡ pos 1000000
      → Adjusted a t

pub record Bounded (a : Timeval) (r : Option Timeval) : Type 0 where
  pub time : Timeval
  pub run : r ≡ some time
  pub sec_low : pos 0 ≤ℤ time.sec
  pub sec_high : time.sec ≤ℤ pos 1000000
  pub usec_low : pos 0 ≤ℤ time.usec
  pub usec_high : time.usec ≤ℤ pos 999999
  pub adjusted : Adjusted a time

cut-Bounded :
    (a c : Timeval)
    → Same a c
    → neg_part c.usec ≡ 0
    → pos_part c.usec < 1000000
    → Bounded a (some (not_far (not_past c)))
unfolding not_far not_past
cut-Bounded a c s l h = elim (Bool-cases (ltb_ℤ c.sec (pos 0))) [
  | inl e ↦ record {
    time = record { sec = pos 0; usec = pos 10 };
    run = rw e refl;
    sec_low = ground arith;
    sec_high = ground arith;
    usec_low = ground arith;
    usec_high = ground arith;
    adjusted = past (ground arith) refl refl;
  }
  | inr e ↦ elim (Bool-cases (ltb_ℤ timer_second_micro c.sec)) [
    | inl g ↦ record {
      time = record { sec = timer_second_micro; usec = c.usec };
      run = rw (e, g) refl;
      sec_low = ground arith;
      sec_high = ground arith;
      usec_low = ground arith;
      usec_high = ground arith;
      adjusted = far (ground arith) refl;
    }
    | inr g ↦ record {
      time = c;
      run = rw (e, g) refl;
      sec_low = ground arith;
      sec_high = ground arith;
      usec_low = ground arith;
      usec_high = ground arith;
      adjusted = kept s;
    }
  ]
]

-- timeval_adjust always ends. Its result has 0 to 1000000 seconds and 0 to 999999 microseconds. It is
-- the time that was given, or 10 microseconds if that was negative, or 1000000 seconds and some
-- microseconds if that was longer.
pub timeval_adjust-Bounded : (a : Timeval) → Bounded a (timeval_adjust a)
unfolding timeval_adjust
timeval_adjust-Bounded a =
    let c : Carried a (carry (suc (pos_part a.usec / 1000000)) a) =
      carry-Carried (suc (pos_part a.usec / 1000000)) a (omega arith) in
    let b : Borrowed c.time (borrow (suc (suc (neg_part c.time.usec / 1000000))) c.time) =
      borrow-Borrowed (suc (suc (neg_part c.time.usec / 1000000))) c.time (omega arith) c.high in
    rw (c.run, ◌>>=◌)
      (rw (b.run, ◌>>=◌) (cut-Bounded a b.time (omega (arith, c.same, b.same)) b.low b.high))
