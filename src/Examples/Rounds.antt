-- ===== src/Examples/Rounds.antt =====
-- A server that accepts a connection in the first round of its loop.
use mathlib.Core.Path.{subst}
use codechiev.Common.{
  ℕ, ◌≡◌, refl, sym, ◌∙◌, true, Bool, Option, some, none, List, [], ◌∷◌, map, pos, some-injective,
}
use codechiev.Common.Assoc.{lookup, insert}
use codechiev.Channel
use codechiev.Channel.{Channel}
use codechiev.Endpoint.Calls.{Call}
use codechiev.Endpoint.{Endpoint, Callbacks, epollin, call, put, epoll_add, add_channel, write}
use codechiev.Endpoint.Poll.{poll, push_events}
use codechiev.Endpoint.Server.{poll_event, on_ready, on_connect, listen}
use codechiev.Endpoint.Server.Tracking.{IsTracked}
use codechiev.Endpoint.Server.Output.{write-IsTracked}
use codechiev.Endpoint.Server.Rounds.{AllFresh}
use codechiev.Endpoint.Loop.{Round, entry, rounds, loop}
use codechiev.Endpoint.Server.Loop.{RoundsFresh}
use codechiev.Endpoint.Server.Start
use codechiev.Endpoint.Server.Start.{Starting, serve, listens, serve-IsTracked}

abbrev sockets : ℕ → Channel
sockets fd = Channel.set_event epollin (Channel.new fd)

abbrev constructed : Endpoint
constructed = record { channels = (3, Channel.new 3) ∷ []; calls = [] }

-- The listening channel, 3, is in the poll.
abbrev start : Endpoint
start = listens 3

abbrev all_succeed : Starting
all_succeed = record { reused = true; bound = true; listening = true }

-- With data, the peer is answered.
abbrev answering : Callbacks
answering = record {
  on_connect = none;
  on_data = some (λ fd s. write fd (79 ∷ 75 ∷ []) s);
  on_close = none;
}

abbrev round : Round
round = record {
  nfds = pos 1;
  events = (3, epollin) ∷ [];
  accepted = λ _. pos 5;
  reads = λ _. [];
  writes = λ _. [];
}

-- The new connection, 5.
abbrev later : Endpoint
later = call (Call.ctl_add 5 epollin) (call (Call.set_non_block 5) (put 5 (sockets 5) start))

polled : poll 2 (pos 1) ((3, epollin) ∷ []) start ≡ some (3 ∷ [], 2, start)
unfolding poll push_events put call lookup insert Channel.set_event Channel.new
polled = refl

fresh : RoundsFresh answering 3 (round ∷ []) 2 start
unfolding call put lookup insert Channel.set_event Channel.new
fresh vec size' s' e =
    subst
      (λ (p : List ℕ × ℕ × Endpoint).
        AllFresh answering 3 (map (entry round) p.0) p.2
        × ((o : Option Bool) (s'' : Endpoint)
            → poll_event answering 3 (map (entry round) p.0) p.2 ≡ some (o, s'')
            → RoundsFresh answering 3 [] p.1 s''))
      (some-injective (sym polled ∙ e)) ((refl, (λ o t made. tt)), (λ o t made. tt))

accepted : serve answering 3 all_succeed 1 2 (round ∷ []) constructed ≡ some (some true, later)
unfolding serve listen add_channel loop rounds poll push_events put call lookup insert
    Channel.set_event Channel.new poll_event on_ready on_connect epoll_add
accepted = refl

made : Start.new (pos 3) ≡ some constructed
unfolding Start.new put insert Channel.new
made = refl

answers :
    (fd : ℕ) (s s' : Endpoint) → write fd (79 ∷ 75 ∷ []) s ≡ some s' → IsTracked s → IsTracked s'
answers fd s s' e h = write-IsTracked fd (79 ∷ 75 ∷ []) s s' e h

serve-IsTracked_example : IsTracked later
serve-IsTracked_example =
    serve-IsTracked answering (tt, answers, tt) 3 1 2 all_succeed (round ∷ []) constructed later
      (some true) made fresh accepted
