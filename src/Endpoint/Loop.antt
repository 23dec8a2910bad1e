-- ===== src/Endpoint/Loop.antt =====
-- codechiev/net/EventLoop.h: EventLoop::loop with EPoll.
pub mod One
use codechiev.Common.{ℕ, true, not, some, List, [], ◌∷◌, map, ◌>>=◌, ◌>>◌, guard, ℤ, ◌==◌}
use codechiev.Endpoint.{Endpoint, Callbacks, Answer}
use codechiev.Endpoint.Poll.{poll}
use codechiev.Endpoint.Server.{Ready, and_next, Handled}

-- What the system answers in one round: to `epoll_wait`, and while the entries are handled.
pub record Round : Type 0 where
  pub nfds : ℤ
  pub events : List (ℕ × ℕ)
  pub accepted : ℕ → ℤ
  pub reads : ℕ → List Answer
  pub writes : ℕ → List Answer

-- INIT_EVENTS
abbrev pub init_events : ℕ
init_events = 2

abbrev pub entry : Round → ℕ → Ready
entry r fd = record { fd = fd; accepted = r.accepted fd; reads = r.reads fd; writes = r.writes fd }

-- `handle` is the pollEvent of a server or of a client.
module _ (cb : Callbacks) (handle : List Ready → Endpoint → Handled cb) where
  -- The rounds of `while(1)` for which there are answers.
  unfoldable pub rounds : List Round → ℕ → Endpoint → Handled cb
  rounds [] size s = some (some true, s)
  rounds (r ∷ rs) size s = do
    (vec, size', s') ← poll size r.nfds r.events s
    and_next cb (handle (map (entry r) vec) s') (rounds rs size')

  -- `tid` is `tid_`, the thread that made the loop, and `caller` the one that runs it: not the same.
  unfoldable pub loop : ℕ → ℕ → List Round → Endpoint → Handled cb
  loop tid caller rs s = do guard (not (tid == caller)); rounds rs init_events s
