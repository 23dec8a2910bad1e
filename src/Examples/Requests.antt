-- ===== src/Examples/Requests.antt =====
-- Remote calls and HTTP messages on one channel.
use codechiev.Common.{
  ℕ, ◌≡◌, refl, true, some, none, List, [], ◌∷◌, ◌++◌, arith, drop, replicate, length-replicate,
}
use codechiev.Common.Assoc.{lookup}
use codechiev.Internet.Bytes.{little, big, be_bytes}
use codechiev.Buffer.Layout.{layout}
use codechiev.Channel.{Channel}
use codechiev.Endpoint.{Endpoint, epollin}
use codechiev.Rpc.{call_method}
use codechiev.Rpc.Frames.{queued, CanSend, call_method-cuts}
use codechiev.Rpc.RoundTrip.{Way, Carries, Goes, call-returns}
use codechiev.Rpc.Dispatch.{Service, on_message}
use codechiev.Http.{empty_line, starts_with, strstr}
use codechiev.Http.Search.{IsMessage}
use codechiev.Http.Stream.{Received, receive-ended}
use codechiev.Http.Messages.{IsText, ended}

abbrev zeros : ℕ → List ℕ
zeros n = replicate n (let z : ℕ = 0 in z)

abbrev lines : List ℕ
lines = ended ((71 ∷ 69 ∷ []) ∷ (80 ∷ []) ∷ []) ++ (72 ∷ [])

abbrev channel : Channel
channel = record {
  fd = 5;
  event = epollin;
  connected = true;
  readbuf = layout [] lines (zeros 8179);
  writebuf = layout [] [] (zeros 8191);
}

abbrev endpoint : Endpoint
endpoint = record { channels = (5, channel) ∷ []; calls = [] }

alive : lookup 5 endpoint.channels ≡ some channel
unfolding lookup
alive = refl

can_send : CanSend 5 endpoint channel [] [] (zeros 8191) 2
can_send = (
  alive,
  refl,
  omega (arith, length-replicate 8191 (let z : ℕ = 0 in z)),
  omega (arith, length-replicate 8191 (let z : ℕ = 0 in z)),
)

call_method-cuts_example :
    call_method little (some 5) ((10 ∷ []) ++ (0 ∷ [])) endpoint
    ≡ some (
        queued 5 endpoint channel []
          ([] ++ (be_bytes 4 2 ++ (10 ∷ [])))
          (drop 1 (drop 4 (zeros 8191))))
call_method-cuts_example =
    call_method-cuts little 5 endpoint channel [] [] (zeros 8191) (10 ∷ []) [] can_send
      (omega arith, tt)

lines-IsText : IsText lines
lines-IsText = (
  omega arith,
  (
    omega arith,
    (
      omega arith,
      (
        omega arith,
        (
          omega arith,
          (
            omega arith,
            (
              omega arith,
              (omega arith, (omega arith, (omega arith, (omega arith, (omega arith, tt))))),
            ),
          ),
        ),
      ),
    ),
  ),
)

first-IsMessage : IsMessage (71 ∷ 69 ∷ [])
unfolding strstr starts_with
first-IsMessage = refl

second-IsMessage : IsMessage (80 ∷ [])
unfolding strstr starts_with
second-IsMessage = refl

unended : strstr empty_line (72 ∷ []) ≡ none
unfolding strstr starts_with
unended = refl

-- The same text in two pieces, cut within an empty line, on a channel with nothing to read.
abbrev fresh : Channel
fresh = record channel { readbuf = layout [] [] (zeros 8191) }

abbrev quiet : Endpoint
quiet = record { channels = (5, fresh) ∷ []; calls = [] }

fresh-alive : lookup 5 quiet.channels ≡ some fresh
unfolding lookup
fresh-alive = refl

receive-ended_example :
    Received 8192 5
      ((71 ∷ 69 ∷ 13 ∷ 10 ∷ []) ∷ (13 ∷ 10 ∷ 80 ∷ 13 ∷ 10 ∷ 13 ∷ 10 ∷ 72 ∷ []) ∷ [])
      ((71 ∷ 69 ∷ []) ∷ (80 ∷ []) ∷ [])
      (72 ∷ [])
      quiet
      fresh
receive-ended_example =
    receive-ended 6 8 8192 5 (72 ∷ []) unended (omega arith) (omega arith) (omega arith)
      ((71 ∷ 69 ∷ 13 ∷ 10 ∷ []) ∷ (13 ∷ 10 ∷ 80 ∷ 13 ∷ 10 ∷ 13 ∷ 10 ∷ 72 ∷ []) ∷ [])
      ((71 ∷ 69 ∷ []) ∷ (80 ∷ []) ∷ []) quiet fresh (zeros 8191) fresh-alive refl
      (omega (arith, length-replicate 8191 (let z : ℕ = 0 in z)))
      (first-IsMessage, (second-IsMessage, tt)) (omega arith, (omega arith, tt))
      (omega arith, (omega arith, tt)) lines-IsText refl

-- A service with one method, which answers a request with the request.
abbrev echo : Service
echo = record {
  parse = λ msg. ([], msg);
  find_method = λ name. some 1;
  respond = λ method request. some request;
}

-- Two bytes on channel 5, in two portions.
abbrev way : Way
way = record {
  fd = 5;
  errno = 0;
  takes = 4 ∷ 2 ∷ [];
  endpoint = endpoint;
  channel = channel;
  pre = [];
  post = zeros 8191;
  size = 16;
  limit = 8;
  pieces = (0 ∷ 0 ∷ 0 ∷ []) ∷ (2 ∷ 10 ∷ 20 ∷ []) ∷ [];
}

way-Carries : Carries way (10 ∷ 20 ∷ [])
way-Carries = record {
  can = can_send;
  nonzero = (omega arith, (omega arith, tt));
  other = omega arith;
  portions = (omega arith, omega arith, omega arith, (omega arith, omega arith, omega arith, tt));
  everything = refl;
  top = omega arith;
  below = omega arith;
  fits = omega arith;
  cut = (omega arith, (omega arith, tt));
  same = refl;
}

call-returns_example :
    Goes little big way (10 ∷ 20 ∷ [])
    × ((answer : Goes big little way (10 ∷ 20 ∷ [])) × (on_message big echo 3
            (10 ∷ 20 ∷ [])
            5
            endpoint
          ≡ some answer.called))
call-returns_example =
    call-returns little big echo 3 way way (10 ∷ 20 ∷ []) (10 ∷ 20 ∷ []) (1, refl, refl) refl
      way-Carries way-Carries
