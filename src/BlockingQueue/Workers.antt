-- ===== src/BlockingQueue/Workers.antt =====
-- The threads of a queue: BlockingQueue::runInThread and Condition.
use codechiev.Common.{ℕ, zero, suc, ◌+◌, ◌≤◌, ◌≡◌, refl, List, [], ◌∷◌, ◌++◌, map, replicate, arith}

-- Before the test of takeJob's loop, in `wait`, in a job, or past pthread_exit.
pub data Worker : Type 0 where
  idle waiting ended : Worker
  runs : ℕ → Worker

-- One worker goes from `w` to `w'`.
pub data Moves (w w' : Worker) : List Worker → List Worker → Type 0 where
  here : {ws : List Worker} → Moves w w' (w ∷ ws) (w' ∷ ws)
  there : {v : Worker} {ws ws' : List Worker} → Moves w w' ws ws' → Moves w w' (v ∷ ws) (v ∷ ws')

abbrev pub idle_one : Worker → ℕ
idle_one idle = 1
idle_one waiting = 0
idle_one ended = 0
idle_one (runs _) = 0

abbrev pub waiting_one : Worker → ℕ
waiting_one idle = 0
waiting_one waiting = 1
waiting_one ended = 0
waiting_one (runs _) = 0

abbrev pub idles : List Worker → ℕ
idles [] = 0
idles (w ∷ ws) = idle_one w + idles ws

abbrev pub waits_count : List Worker → ℕ
waits_count [] = 0
waits_count (w ∷ ws) = waiting_one w + waits_count ws

-- Condition::notify
pub data Notified (ws : List Worker) : List Worker → Type 0 where
  nobody : waits_count ws ≡ 0 → Notified ws ws
  somebody : {ws' : List Worker} → Moves waiting idle ws ws' → Notified ws ws'

-- Condition::notifyall, for one thread
abbrev pub wake : Worker → Worker
wake idle = idle
wake waiting = idle
wake ended = ended
wake (runs job) = runs job

pub Moves-idles :
    {w w' : Worker} {ws ws' : List Worker}
    → Moves w w' ws ws'
    → idles ws' + idle_one w ≡ idles ws + idle_one w'
Moves-idles here = omega arith
Moves-idles (there m) = omega (arith, Moves-idles m)

pub Moves-waits :
    {w w' : Worker} {ws ws' : List Worker}
    → Moves w w' ws ws'
    → waits_count ws' + waiting_one w ≡ waits_count ws + waiting_one w'
Moves-waits here = omega arith
Moves-waits (there m) = omega (arith, Moves-waits m)

pub wake-waits : (ws : List Worker) → waits_count (map wake ws) ≡ 0
wake-waits [] = refl
wake-waits (w ∷ ws) = omega (arith, awake w, wake-waits ws)
  where
    awake : (w : Worker) → waiting_one (wake w) ≡ 0
    awake idle = refl
    awake waiting = refl
    awake ended = refl
    awake (runs job) = refl

pub more_idles : (n : ℕ) (ws : List Worker) → waits_count (ws ++ replicate n idle) ≡ waits_count ws
more_idles zero [] = refl
more_idles (suc n) [] = omega (arith, more_idles n [])
more_idles n (w ∷ ws) = omega (arith, more_idles n ws)

pub fewer_idles : (n : ℕ) (ws : List Worker) → idles ws ≤ idles (ws ++ replicate n idle)
fewer_idles n [] = omega arith
fewer_idles n (w ∷ ws) = omega (arith, fewer_idles n ws)
