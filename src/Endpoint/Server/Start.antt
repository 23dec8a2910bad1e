-- ===== src/Endpoint/Server/Start.antt =====
-- codechiev/net/TcpServer.cpp: a TcpServer from its constructor on. A failing system call at its start
-- ends the program, which is `none`.
use codechiev.Common.{
  ℕ, ◌≡◌, refl, sym, ◌∙◌, Bool, Option, none, some, List, [], inl, ◌>>=◌, guard, >>=-eq-some,
  some-injective, ==-self, ℤ, pos, negsuc,
}
use codechiev.Common.Assoc.{lookup, insert}
use codechiev.Channel
use codechiev.Endpoint.Calls.{Call}
use codechiev.Endpoint.{Endpoint, Callbacks, put, call, epoll_add, add_channel, epollin}
use codechiev.Endpoint.Server.{listen, poll_event}
use codechiev.Endpoint.Server.Tracking.{IsTracked, watches}
use codechiev.Endpoint.Server.Closing.{CallbacksKeep}
use codechiev.Endpoint.Server.Rounds.{accepting}
use codechiev.Endpoint.Server.Loop.{RoundsFresh, loop-IsTracked}
use codechiev.Endpoint.Loop.{Round, loop, init_events}

-- Without channels and calls.
abbrev pub nothing : Endpoint
nothing = record { channels = []; calls = [] }

-- TcpServer(): `socket` is what `::socket` answers. The server has its listening channel.
unfoldable pub new : ℤ → Option Endpoint
new (negsuc n) = none
new (pos fd) = some (put fd (Channel.new fd) nothing)

-- What the system answers while a server starts.
pub record Starting : Type 0 where
  pub reused : Bool
  pub bound : Bool
  pub listening : Bool

-- TcpServer::listen with its loop, of a server with the listening descriptor `fd`.
unfoldable pub serve :
    Callbacks → ℕ → Starting → ℕ → ℕ → List Round → Endpoint → Option (Option Bool × Endpoint)
serve cb fd starting tid caller rs s = do
  s₁ ← listen fd starting.reused starting.bound starting.listening s
  loop cb (poll_event cb fd) tid caller rs s₁

-- The state at the first round.
abbrev pub listens : ℕ → Endpoint
listens fd =
    let c = Channel.set_event epollin (Channel.new fd) in
    call (Call.ctl_add fd epollin) (call (Call.set_non_block fd) (put fd c nothing))

listens-IsTracked : (fd : ℕ) → IsTracked (listens fd)
unfolding watches lookup Channel.set_event Channel.new
listens-IsTracked fd =
    accepting fd (Channel.set_event epollin (Channel.new fd)) nothing refl refl
      ((λ g. inl (refl, refl)), tt)

pub add_channel-listens :
    (fd : ℕ) → add_channel fd epollin (put fd (Channel.new fd) nothing) ≡ some (listens fd)
unfolding add_channel epoll_add put call insert lookup Channel.set_event Channel.new
add_channel-listens fd = rw (==-self fd) (rw (==-self fd) refl)

listen-listens :
    (fd : ℕ) (starting : Starting) (s s₁ : Endpoint)
    → s ≡ put fd (Channel.new fd) nothing
    → listen fd starting.reused starting.bound starting.listening s ≡ some s₁
    → s₁ ≡ listens fd
unfolding listen
listen-listens fd starting s s₁ is_new e =
    let (_, _, e₁) = >>=-eq-some (guard starting.reused) _ e in
    let (_, _, e₂) = >>=-eq-some (guard starting.bound) _ e₁ in
    let (_, _, e₃) = >>=-eq-some (guard starting.listening) _ e₂ in
    some-injective (sym e₃ ∙ rw (is_new) (add_channel-listens fd))

module _ (cb : Callbacks) (keeps : CallbacksKeep cb) where
  -- A TcpServer that starts keeps the poll and the map of channels together: however many rounds
  -- its loop makes without a fault, and whatever the system answers in them, a descriptor is
  -- watched afterwards exactly if it has a living channel, which has that descriptor, and each
  -- change, removal and write of the trace has been made on a watched descriptor and each addition
  -- on one that was not, if `accept` gives descriptors that are not open and the callbacks preserve
  -- this.
  pub serve-IsTracked :
      (fd tid caller : ℕ) (starting : Starting) (rs : List Round) (s s' : Endpoint)
      (o : Option Bool)
      → new (pos fd) ≡ some s
      → RoundsFresh cb fd rs init_events (listens fd)
      → serve cb fd starting tid caller rs s ≡ some (o, s')
      → IsTracked s'
  unfolding new serve
  serve-IsTracked fd tid caller starting rs s s' o made fresh e =
      let (s₁, listened, looped) =
        >>=-eq-some (listen fd starting.reused starting.bound starting.listening s) _ e in
      let same = listen-listens fd starting s s₁ (sym (some-injective made)) listened in
      loop-IsTracked cb keeps fd tid caller rs (listens fd) s' o fresh (rw (same) at looped)
        (listens-IsTracked fd)
