-- ===== src/Timer/Clock.antt =====
-- codechiev/net/Timer.cpp: Timer::every and Timer::after, which set the descriptor in seconds and
-- nanoseconds. Times are not negative. `timerfd_settime` refuses nanoseconds of 10 ^ 9 or more.
use codechiev.Common.{
  Option, some, ℕ, ◌+◌, ◌*◌, ◌/◌, ◌%◌, ◌≤◌, ◌<◌, ◌≡◌, refl, true, ◌&&◌, ltb, if◌then◌else◌, arith,
  lt→ltb, ge→ltb,
}

pub record Timespec : Type 0 where
  pub sec : ℕ
  pub nsec : ℕ

pub record Setting : Type 0 where
  pub first : Timespec
  pub interval : Timespec

abbrev pub billion : ℕ
billion = 1000000000

-- MILLIS_TO_SECS and MILLIS_TO_NANOS
abbrev pub of_millis : ℕ → Timespec
of_millis millis = record { sec = millis / 1000; nsec = millis % 1000 * 1000000 }

-- A setting that is refused leaves the timer as it was.
unfoldable pub settime : Setting → Setting → Setting
settime new old = if ltb new.first.nsec billion && ltb new.interval.nsec billion then new else old

unfoldable pub every : Timespec → ℕ → ℕ → Setting → Setting
every now millis delay old =
    settime
      (record {
        first = record {
          sec = now.sec + (of_millis delay).sec;
          nsec = now.nsec + (of_millis delay).nsec;
        };
        interval = of_millis millis;
      })
      old

unfoldable pub after : Timespec → ℕ → Setting → Setting
after now millis old = every now 0 millis old

-- A Timer: what its descriptor is set to, and its callback.
pub record TimerObject : Type 0 where
  pub setting : Setting
  pub callback : Option ℕ

-- The overloads that take a callback.
unfoldable pub every_calls : Timespec → ℕ → ℕ → ℕ → TimerObject → TimerObject
every_calls now millis delay cb t = record {
  setting = every now millis delay t.setting;
  callback = some cb;
}

unfoldable pub after_calls : Timespec → ℕ → ℕ → TimerObject → TimerObject
after_calls now millis cb t = record { setting = after now millis t.setting; callback = some cb }

-- A time in nanoseconds.
abbrev pub nanos : Timespec → ℕ
nanos t = t.sec * billion + t.nsec

fits : (millis : ℕ) → ltb (of_millis millis).nsec billion ≡ true
fits millis = lt→ltb (millis % 1000 * 1000000) billion (omega arith)

-- If the nanoseconds of the clock and of the delay are less than 10 ^ 9 together, `every` sets the
-- timer to expire first when the delay is over, and then at the interval that it was given.
pub every_lem :
    (now : Timespec) (millis delay : ℕ) (old : Setting)
    → now.nsec + delay % 1000 * 1000000 < billion
    → let set = every now millis delay old in
      (nanos set.first ≡ nanos now + delay * 1000000) × (nanos set.interval ≡ millis * 1000000)
unfolding every settime
every_lem now millis delay old h =
    rw (lt→ltb (now.nsec + delay % 1000 * 1000000) billion h, fits millis)
      (omega arith, omega arith)

-- `after` with a callback sets the timer to expire once, when the delay is over, and to run the
-- callback then, if the nanoseconds of the clock and of the delay are less than 10 ^ 9 together.
pub after_calls_lem :
    (now : Timespec) (millis cb : ℕ) (t : TimerObject)
    → now.nsec + millis % 1000 * 1000000 < billion
    → let t' = after_calls now millis cb t in
      (nanos t'.setting.first ≡ nanos now + millis * 1000000)
      × (nanos t'.setting.interval ≡ 0)
      × (t'.callback ≡ some cb)
unfolding after_calls after
after_calls_lem now millis cb t h =
    let set = every_lem now 0 millis t.setting h in (set.0, set.1, refl)

-- If the nanoseconds of the clock and of the delay are 10 ^ 9 or more together, `every` leaves the
-- timer as it was.
pub every-refused :
    (now : Timespec) (millis delay : ℕ) (old : Setting)
    → billion ≤ now.nsec + delay % 1000 * 1000000
    → every now millis delay old ≡ old
unfolding every settime
every-refused now millis delay old h =
    rw (ge→ltb (now.nsec + delay % 1000 * 1000000) billion h) refl
