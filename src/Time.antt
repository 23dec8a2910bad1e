-- ===== src/Time.antt =====
-- codechiev/base/Time.cpp and Time.hpp: a time in milliseconds. The products with .001 are of a double, and are
-- truncated when they are stored; for the times that occur they are divisions by 1000. The clock is an
-- argument, in seconds and microseconds. `asctime` and `localtime` are not modelled.
use codechiev.Common.{ℕ, ◌+◌, ◌-◌, ◌*◌, ◌/◌, ◌<◌, ◌≡◌, ap, ◌∙◌, ℤ, pos, ◌-ℤ◌, arith, pos--ℤ}
use codechiev.Timer.Clock.{Timespec, of_millis, nanos, billion}

pub record Time : Type 0 where
  pub time_millis : ℤ

-- timeval
pub record Timeval : Type 0 where
  pub tv_sec : ℕ
  pub tv_usec : ℕ

abbrev pub secs_to_millis : ℕ → ℕ
secs_to_millis secs = secs * 1000

abbrev pub micros_to_millis : ℕ → ℕ
micros_to_millis micros = micros / 1000

unfoldable pub new : ℤ → Time
new t = record { time_millis = t }

-- Time::Now
unfoldable pub now : Timeval → Time
now tv = new (pos (secs_to_millis tv.tv_sec + micros_to_millis tv.tv_usec))

-- Time::NowTm, with the answer of `::time`
unfoldable pub now_tm : ℕ → Time
now_tm rawtime = new (pos (secs_to_millis rawtime))

-- operator=
unfoldable pub assign : ℤ → Time → Time
assign t time = record time { time_millis = t }

-- operator-
unfoldable pub minus : Time → Time → ℤ
minus time t = time.time_millis -ℤ t.time_millis

-- Time::SleepMillis: what nanosleep is asked for. A negative number of milliseconds is not modelled.
unfoldable pub sleep_millis : ℕ → Timespec
sleep_millis millis = of_millis millis

abbrev pub micros : Timeval → ℕ
micros tv = tv.tv_sec * 1000000 + tv.tv_usec

-- The difference of two readings of the clock, of which the second is not earlier, is not negative
-- and is the time between them to less than a millisecond.
pub now-minus :
    (tv tv' : Timeval) (between : ℕ)
    → tv.tv_usec < 1000000
    → tv'.tv_usec < 1000000
    → micros tv + between ≡ micros tv'
    → (n : ℕ) × (minus (now tv') (now tv) ≡ pos n)
      × (n * 1000 < between + 1000)
      × (between < n * 1000 + 1000)
unfolding minus now new
now-minus tv tv' between small small' later =
    let a : ℕ = tv.tv_sec * 1000 + tv.tv_usec / 1000 in
    let b : ℕ = tv'.tv_sec * 1000 + tv'.tv_usec / 1000 in
    let n : ℕ = b - a in
    let sum : b ≡ a + n = omega (arith, later, small, small') in
    (
      n,
      ap (λ (k : ℕ). pos k -ℤ pos a) sum ∙ pos--ℤ a n,
      omega (arith, later, small, small'),
      omega (arith, later, small, small'),
    )

-- SleepMillis asks nanosleep for as many nanoseconds as the milliseconds have, in a form that it accepts.
pub sleep_millis_lem :
    (millis : ℕ)
    → (nanos (sleep_millis millis) ≡ millis * 1000000) × ((sleep_millis millis).nsec < billion)
unfolding sleep_millis
sleep_millis_lem millis = (omega arith, omega arith)
