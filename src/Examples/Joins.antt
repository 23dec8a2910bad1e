-- ===== src/Examples/Joins.antt =====
-- A client that connects and reads its first bytes, and a server with one connection.
use codechiev.Common.{
  ℕ, ◌≡◌, refl, true, false, Option, some, none, List, [], ◌∷◌, pos, negsuc, arith,
}
use codechiev.Common.Assoc.{lookup, insert}
use codechiev.Channel
use codechiev.Endpoint.Calls.{Call}
use codechiev.Endpoint.{
  Endpoint, Callbacks, epollin, epollout, has, call, put, add_channel, epoll_add,
}
use codechiev.Endpoint.Loop.{init_events, rounds}
use codechiev.Endpoint.Client.{Answered, connect, poll_event}
use codechiev.Endpoint.Client.Start.{start}
use codechiev.Endpoint.Loop.One.{one_event}
use codechiev.Endpoint.Arrival.{Arrive, arriving, with_first}
use codechiev.Endpoint.Server
use codechiev.Endpoint.Server.Start
use codechiev.Endpoint.Server.Start.{serve}
use codechiev.Endpoint.Server.Receiving
use codechiev.Endpoint.Server.Receiving.{accepted_channel}
use codechiev.Endpoint.Server.Connection.{all_succeed, connection, serve-receives}
use codechiev.Endpoint.Client.Receiving.{joined_channel, received, start-receives}

abbrev nothing : Endpoint
nothing = record { channels = []; calls = [] }

abbrev keeps : ℕ → Endpoint → Option Endpoint
keeps fd s = some s

abbrev keeping : Callbacks
keeping = record { on_connect = none; on_data = some keeps; on_close = none }

abbrev pieces : List (List ℕ)
pieces = (1 ∷ 2 ∷ []) ∷ (3 ∷ []) ∷ []

-- The endpoint when the socket 5 waits to be connected.
abbrev waiting : Endpoint
waiting = record {
  channels = (5, record (Channel.new 5) { event = epollout }) ∷ [];
  calls = Call.ctl_add 5 epollout ∷ Call.set_non_block 5 ∷ Call.set_reuse_addr 5 ∷ [];
}

made : connect (pos 5) Answered.in_progress nothing ≡ some (some 5, waiting)
unfolding connect add_channel epoll_add put call lookup insert Channel.set_event Channel.new
made = refl

no_input : has epollout epollin ≡ false
unfolding has
no_input = refl

output : has epollout epollout ≡ true
unfolding has
output = refl

input : has epollin epollin ≡ true
unfolding has
input = refl

alive : lookup 5 (received 5 pieces nothing).channels ≡ some (with_first (joined_channel 5) pieces)
unfolding lookup insert
alive = refl

arrive : Arrive 0 pieces
arrive = (
  omega arith,
  ((omega arith, omega arith), ((omega arith, omega arith), tt)),
  omega arith,
  omega arith,
)

start-receives_example :
    start keeping 1 2
      (one_event 5 epollout (negsuc 0) []
        ∷ (one_event 5 epollin (negsuc 0) (arriving 0 pieces []) ∷ []))
      waiting
    ≡ rounds keeping (poll_event keeping) [] init_events (received 5 pieces nothing)
start-receives_example =
    start-receives keeping 5 epollin 0 pieces [] keeps Answered.in_progress 1 2 epollout (negsuc 0)
      [] nothing waiting (received 5 pieces nothing) (with_first (joined_channel 5) pieces) made
      refl refl refl no_input output input arrive refl alive refl

-- The server when it has read what its connection sent.
abbrev has_read : Endpoint
has_read = Receiving.received 3 epollin 5 pieces

abbrev constructed : Endpoint
constructed = record { channels = (3, Channel.new 3) ∷ []; calls = [] }

built : Start.new (pos 3) ≡ some constructed
unfolding Start.new put insert Channel.new
built = refl

there : lookup 5 has_read.channels ≡ some (with_first (accepted_channel 5) pieces)
unfolding lookup insert Channel.new
there = refl

serve-receives_example :
    (t : Endpoint) × (serve keeping 3 all_succeed 1 2
        (connection 3 5 epollin epollin 0 pieces [] [] epollin (negsuc 0) [])
        constructed
      ≡ rounds keeping (Server.poll_event keeping 3) [] init_events t)
    × (lookup 5 t.channels ≡ none)
    × (t.calls ≡ Call.close 5 ∷ Call.ctl_del 5 ∷ has_read.calls)
serve-receives_example =
    serve-receives keeping 3 5 epollin epollin 0 pieces [] [] keeps 1 2 epollin (negsuc 0) []
      constructed has_read (with_first (accepted_channel 5) pieces) built refl refl refl refl refl
      input input arrive refl there refl refl
