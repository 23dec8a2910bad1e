-- ===== src/Timer/Refine.antt =====
-- The timer, its scheduler and the loop do what the timer queue alone says.
use codechiev.Common.{
  ℕ, take, ◌≡◌, some, List, [], ◌∷◌, ◌++◌, map, All, ◌>>=◌, ℤ, pos, negsuc, ◌==◌, if◌then◌else◌,
}
use codechiev.Common.Assoc.{lookup}
use codechiev.Channel
use codechiev.Channel.{Channel}
use codechiev.Endpoint.{Endpoint}
use codechiev.Endpoint.Poll.{poll, descriptors}
use codechiev.Timer.{TimerQueue, Event, adds, runs_out, expires, expire}
use codechiev.Timer
use codechiev.Timer.System.{System, Turn, calls_add_task, timer_runs_out, polls, expire_callback}

-- One expiration for each descriptor that `epoll_wait` has answered.
abbrev pub each_expires : (ℕ → ℤ) → List ℕ → List Event
each_expires now vec = map (λ (fd : ℕ). expires now) vec

abbrev pub heard : Turn → List Event
heard (calls_add_task now expired task) = adds now expired task ∷ []
heard timer_runs_out = runs_out ∷ []
heard (polls (negsuc n) events now) = []
heard (polls (pos nfds) events now) =
    if nfds == 0 then [] else each_expires now (descriptors (take nfds events))

abbrev pub all_heard : List Turn → List Event
all_heard [] = []
all_heard (t ∷ ts) = heard t ++ all_heard ts

-- `epoll_wait` answers with events of descriptors that have been added: the timer's.
abbrev pub IsOf : ℕ → List (ℕ × ℕ) → Type 0
IsOf fd events = All (λ g. g ≡ fd) (descriptors events)

abbrev pub IsTurnOf : ℕ → Turn → Type 0
IsTurnOf fd (calls_add_task now expired task) = Unit {0}
IsTurnOf fd timer_runs_out = Unit {0}
IsTurnOf fd (polls nfds events now) = IsOf fd events

-- The scheduler has the timer, with `expire` for its callback.
abbrev IsScheduled : System → Type 0
IsScheduled s =
    (lookup s.fd s.scheduler.timers ≡ some (some expire_callback))
    × ((c : Channel) × (lookup s.fd s.scheduler.poll.channels ≡ some c))

abbrev runs_expire : (ℕ → ℤ) → ℕ → TimerQueue → TimerQueue
runs_expire now callback = expire now
