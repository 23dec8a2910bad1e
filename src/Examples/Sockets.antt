-- ===== src/Examples/Sockets.antt =====
-- A server with one channel.
use Prim.Native.Nat.{bit_or}
use codechiev.Common.{
  ℕ, ◌≡◌, refl, true, false, Option, some, none, List, [], ◌∷◌, ◌++◌, pos, arith, replicate,
  length-replicate, drop, map,
}
use codechiev.Common.Assoc.{lookup}
use codechiev.Buffer
use codechiev.Buffer.{Buffer}
use codechiev.Buffer.Layout.{layout}
use codechiev.Channel.{Channel, buffer_size}
use codechiev.Endpoint.{Endpoint, Callbacks, eagain, epollin, epollout, on_read, has}
use codechiev.Endpoint.Reading.{Arrives, got, failed, after_reading, on_read-spins}
use codechiev.Endpoint.Writing.{
  took, sent_bytes, Writes, ComesBack, on_write-sends, on_write-resends,
}
use codechiev.Endpoint.Client
use codechiev.Endpoint.Client.Connecting.{joined_to, ready_channel-connects}
use codechiev.Endpoint.Server.{Ready, on_close, ready_channel}
use codechiev.Endpoint.Server.Events.{ready_channel-drops_write}

abbrev zeros : ℕ → List ℕ
zeros n = replicate n (let z : ℕ = 0 in z)

abbrev channel : Channel
channel = record {
  fd = 5;
  event = epollin;
  connected = true;
  readbuf = layout [] [] (zeros 8191);
  writebuf = layout [] (7 ∷ 8 ∷ 9 ∷ []) (zeros 8188);
}

abbrev endpoint : Endpoint
endpoint = record { channels = (5, channel) ∷ []; calls = [] }

abbrev unset : Callbacks
unset = record { on_connect = none; on_data = none; on_close = none }

abbrev pieces : List (List ℕ)
pieces = (1 ∷ 2 ∷ []) ∷ (3 ∷ []) ∷ []

alive : lookup 5 endpoint.channels ≡ some channel
unfolding lookup
alive = refl

abbrev Arriving : (cb : Callbacks) (close : ℕ → Endpoint → Option Endpoint) → Type 0
Arriving cb close = Arrives cb close 5 0 pieces endpoint channel [] [] (zeros 8191)

arrives : (cb : Callbacks) (close : ℕ → Endpoint → Option Endpoint) → Arriving cb close
arrives cb close = (
  (omega arith),
  alive,
  refl,
  omega (arith, length-replicate 8191 (let z : ℕ = 0 in z)),
  ((omega arith, omega arith), ((omega arith, omega arith), tt)),
  omega (arith, length-replicate 8191 (let z : ℕ = 0 in z)),
)

-- 104 is ECONNRESET.
on_read-spins_example :
    on_read unset (on_close unset) 5 (replicate 9 (failed 104)) endpoint ≡ some (none, endpoint)
on_read-spins_example =
    on_read-spins unset (on_close unset) 5 104 9 endpoint channel [] [] (zeros 8191) (omega arith)
      alive refl

writes : Writes 5 0 (2 ∷ 1 ∷ []) endpoint channel [] (7 ∷ 8 ∷ 9 ∷ []) (zeros 8188)
writes = (
  omega arith,
  alive,
  refl,
  ((omega arith, omega arith, omega arith, (omega arith, omega arith, omega arith, tt))),
)

on_write-sends_example : ComesBack 5 (map (took 0) (2 ∷ 1 ∷ []) ++ (took 0 0 ∷ [])) endpoint λ s'.
    (sent_bytes 5 s'.calls ≡ [] ++ (7 ∷ 8 ∷ 9 ∷ []))
    × (lookup 5 s'.channels
        ≡ some (record channel { event = epollin; writebuf = Buffer.new buffer_size }))
on_write-sends_example =
    on_write-sends 5 0 (2 ∷ 1 ∷ []) endpoint channel [] (7 ∷ 8 ∷ 9 ∷ []) (zeros 8188) [] writes refl

some_sent : Writes 5 0 (2 ∷ []) endpoint channel [] (7 ∷ 8 ∷ 9 ∷ []) (zeros 8188)
some_sent = (omega arith, alive, refl, (omega arith, omega arith, omega arith, tt))

on_write-resends_example :
    ComesBack 5 (map (took 0) (2 ∷ []) ++ (failed eagain ∷ [])) endpoint λ s'.
      (sent_bytes 5 s'.calls ≡ [] ++ (7 ∷ 8 ∷ []))
      × ((pre : List ℕ) × (lookup 5 s'.channels
            ≡ some (record channel {
              event = bit_or epollin epollout;
              writebuf = layout pre (8 ∷ 9 ∷ []) (zeros 8188);
            })))
on_write-resends_example =
    on_write-resends 5 0 (2 ∷ []) endpoint channel [] (7 ∷ 8 ∷ 9 ∷ []) (zeros 8188) [] some_sent
      (omega arith)

abbrev ended : Ready
ended = record {
  fd = 5;
  accepted = pos 0;
  reads = map (got 0) pieces ++ (got 0 [] ∷ []);
  writes = [];
}

abbrev both : Ready
both = record {
  fd = 5;
  accepted = pos 0;
  reads = map (got 0) pieces ++ (failed eagain ∷ []);
  writes = [];
}

input : has channel.event epollin ≡ true
unfolding has
input = refl

ready_channel-drops_write_example :
    ready_channel unset both endpoint
    ≡ some (some true, after_reading 5 endpoint channel [] (1 ∷ 2 ∷ 3 ∷ []) (drop 3 (zeros 8191)))
ready_channel-drops_write_example =
    ready_channel-drops_write unset 0 pieces endpoint channel [] [] (zeros 8191) both
      (arrives unset (on_close unset)) input [] refl refl

-- EPOLLOUT and EPOLLHUP
abbrev fresh : Channel
fresh = record channel { event = 0x14; connected = false }

abbrev client : Endpoint
client = record { channels = (5, fresh) ∷ []; calls = [] }

client_alive : lookup 5 client.channels ≡ some fresh
unfolding lookup
client_alive = refl

no_input : has fresh.event epollin ≡ false
unfolding has
no_input = refl

output : has fresh.event epollout ≡ true
unfolding has
output = refl

ready_channel-connects_example :
    Client.ready_channel unset both client ≡ some (some true, joined_to 5 client fresh)
ready_channel-connects_example =
    ready_channel-connects unset both client fresh refl client_alive no_input output refl
