-- ===== src/Timer/System.antt =====
-- codechiev/net/Timer.cpp: a TimerQueue with the scheduler that it commences and the loop of
-- codechiev/net/EventLoop.h with EPoll. A turn is a call of addTask, the timer running out, or a round of the loop
-- with what `epoll_wait` and the clock answer; the timer's descriptor has eight bytes to read after it
-- has run out, until they are read or it is set again.
use codechiev.Common.{
  ℕ, false, not, Option, none, some, List, [], ◌∷◌, ◌>>=◌, ◌>>◌, guard, ℤ, pos, negsuc, ◌==◌,
  if◌then◌else◌,
}
use codechiev.Channel
use codechiev.Channel.{Channel}
use codechiev.Endpoint.{put}
use codechiev.Endpoint.Poll.{poll}
use codechiev.Endpoint.Server.Start.{nothing}
use codechiev.Endpoint.Loop.{init_events}
use codechiev.Timer.{
  TimerQueue, Event, adds, runs_out, expires, add_task, run_out, expire, read_timer, step, run,
}
use codechiev.Timer
use codechiev.Timer.Schedule.{Scheduler, add_timer, poll_event}

pub record System : Type 0 where
  pub fd : ℕ
  pub queue : TimerQueue
  pub scheduler : Scheduler

-- TimerQueue(), with Timer(): `created` is what `::timerfd_create` answers; the program ends if it fails.
unfoldable pub construct : ℤ → Option System
construct (negsuc n) = none
construct (pos fd) = some (record {
  fd = fd;
  queue = Timer.new;
  scheduler = record { timers = []; poll = put fd (Channel.new fd) nothing };
})

-- The timer's callback, which is `expire` of the queue.
abbrev pub expire_callback : ℕ
expire_callback = 0

-- TimerQueue::commence before the loop
unfoldable pub commence : System → Option System
commence s = do
  scheduler ← add_timer s.fd (some expire_callback) s.scheduler
  some (record s { scheduler = scheduler })

-- `::read` on the timer's descriptor
unfoldable pub read_expiration : ℕ → TimerQueue → ℤ × TimerQueue
read_expiration fd q =
    if q.timer.fired
    then (pos 8, record q { timer = record { alarm = q.timer.alarm; fired = false } })
    else (negsuc 0, q)

pub data Turn : Type 0 where
  calls_add_task : (now expired : ℤ) (task : ℕ) → Turn
  timer_runs_out : Turn
  polls : (nfds : ℤ) (events : List (ℕ × ℕ)) (now : ℕ → ℤ) → Turn

-- The loop with pollEvent, whose array of events has the given size.
unfoldable pub turns : List Turn → ℕ → System → Option System
turns [] size s = some s
turns (calls_add_task now expired task ∷ ts) size s =
    turns ts size (record s { queue = add_task now expired task s.queue })
turns (timer_runs_out ∷ ts) size s =
    turns ts size (record s { queue = record s.queue { timer = run_out s.queue.timer } })
turns (polls nfds events now ∷ ts) size s = do
  (vec, size', poll') ← poll size nfds events s.scheduler.poll
  let scheduler = record s.scheduler { poll = poll' }
  let queue = poll_event read_expiration (λ callback. expire now) vec scheduler s.queue
  turns ts size' (record s { queue = queue; scheduler = scheduler })

-- Scheduler::schedule: `tid` is the thread that made the loop, and `caller` the one that runs it.
unfoldable pub schedule : ℕ → ℕ → List Turn → System → Option System
schedule tid caller ts s = do guard (not (tid == caller)); turns ts init_events s
