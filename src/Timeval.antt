-- ===== src/Timeval.antt =====
-- thread.c: the arithmetic of `struct timeval`. The two members are `long`; an overflow of a `long` has
-- no defined result in C, so they are unbounded integers here. A comparison gives an `int`, which keeps
-- the low 32 bits of the difference. A loop takes the fuel that its callers give it here.
pub mod Adjust
use mksh.Prelude.{
  ℕ, zero, suc, ◌+◌, ◌-◌, ◌/◌, ◌%◌, ◌^◌, Option, none, some, ltb, ◌==◌, ◌&&◌, if◌then◌else◌, ◌>>=◌,
}
use mksh.Prelude.Int.{ℤ, pos, negsuc, pos_part, neg_part, ◌+ℤ◌, ◌-ℤ◌, ltb_ℤ}

pub record Timeval : Type 0 where
  pub sec : ℤ
  pub usec : ℤ

abbrev pub timer_second_micro : ℤ
timer_second_micro = pos 1000000

-- The two loops of `timeval_adjust`.
pub carry : ℕ → Timeval → Option Timeval
carry zero a = none
carry (suc fuel) a =
    if ltb_ℤ a.usec timer_second_micro
    then some a
    else carry fuel (record { sec = a.sec +ℤ pos 1; usec = a.usec -ℤ timer_second_micro })

pub borrow : ℕ → Timeval → Option Timeval
borrow zero a = none
borrow (suc fuel) a =
    if ltb_ℤ a.usec (pos 0)
    then borrow fuel (record { sec = a.sec -ℤ pos 1; usec = a.usec +ℤ timer_second_micro })
    else some a

-- The two tests behind the loops.
pub not_past : Timeval → Timeval
not_past a = if ltb_ℤ a.sec (pos 0) then record { sec = pos 0; usec = pos 10 } else a

pub not_far : Timeval → Timeval
not_far a = if ltb_ℤ timer_second_micro a.sec then record a { sec = timer_second_micro } else a

pub timeval_adjust : Timeval → Option Timeval
timeval_adjust a = do
  b ← carry (suc (pos_part a.usec / 1000000)) a
  c ← borrow (suc (suc (neg_part b.usec / 1000000))) b
  some (not_far (not_past c))

unfoldable pub timeval_subtract : Timeval → Timeval → Option Timeval
timeval_subtract a b = timeval_adjust (record { sec = a.sec -ℤ b.sec; usec = a.usec -ℤ b.usec })

-- The `int` that a `long` is stored into.
unfoldable pub low_bits : ℤ → ℕ
low_bits (pos n) = n % 2 ^ 32
low_bits (negsuc n) = 2 ^ 32 - 1 - n % 2 ^ 32

unfoldable pub to_int : ℤ → ℤ
to_int a = if ltb (low_bits a) (2 ^ 31) then pos (low_bits a) else negsuc (2 ^ 32 - 1 - low_bits a)

unfoldable pub timeval_cmp : Timeval → Timeval → ℤ
timeval_cmp a b =
    if (pos_part a.sec == pos_part b.sec) && (neg_part a.sec == neg_part b.sec)
    then to_int (a.usec -ℤ b.usec)
    else to_int (a.sec -ℤ b.sec)
