-- ===== src/Rpc/Server.antt =====
-- codechiev/net/protobuf/protoServer.cpp: ProtoServer, in which the loop's thread cuts what arrives
-- into messages (`onData`) and the threads of its queue run `onMessage` on them. The jobs of the queue
-- are numbers, and job n is the n-th message that was queued, with its descriptor. Every connection
-- has been accepted and stays; the loop's thread takes the messages of one reading from the
-- buffer, which only it uses, and queues them one by one, while the other threads go on.
pub mod Pieces
pub mod Order
use codechiev.Common.{
  ℕ, suc, ◌+◌, ◌≡◌, Bool, Option, some, List, [], ◌∷◌, ◌++◌, map, length, pos, ◌==◌, if◌then◌else◌,
  ◌>>=◌,
}
use codechiev.Internet.Bytes.{Endian}
use codechiev.Buffer
use codechiev.Buffer.{Buffer}
use codechiev.Coder.{drain}
use codechiev.BlockingQueue
use codechiev.BlockingQueue.{State, added, taken, silent}

-- A message and the descriptor of its connection.
abbrev pub Message : Type 0
Message = List ℕ × ℕ

pub record Server : Type 0 where
  pub buffers : ℕ → Buffer
  -- what onData has still to queue
  pub pending : List Message
  pub queued : List Message
  pub queue : State

abbrev pub set_buffer : ℕ → Buffer → (ℕ → Buffer) → ℕ → Buffer
set_buffer fd b buffers other = if fd == other then b else buffers other

-- ProtoServer(): `queue_.commence()` of a BlockingQueue<4>
unfoldable pub new : ℕ → Server
new size = record {
  buffers = λ _. Buffer.new size;
  pending = [];
  queued = [];
  queue = BlockingQueue.commence 4 BlockingQueue.new;
}

pub data Event : Type 0 where
  received : ℕ → List ℕ → Event
  queue_event : BlockingQueue.Event → Event

abbrev pub with_fd : ℕ → List (List ℕ) → List Message
with_fd fd msgs = map (λ (msg : List ℕ). (msg, fd)) msgs

abbrev pub IsWork : BlockingQueue.Event → Type 0
IsWork (added _) = ⊥
IsWork (taken _) = Unit
IsWork silent = Unit

-- The loop of onData on a channel's read buffer: the messages to queue. A round takes bytes from the
-- buffer, so as many rounds as it has bytes are enough.
unfoldable pub on_data : Endian → ℕ → Buffer → Option (List (List ℕ) × Buffer)
on_data e size b = drain e size b

-- TcpEndpoint::onRead: a piece is appended, and then onData is called.
unfoldable pub read_piece : Endian → ℕ → Buffer → List ℕ → Option (List (List ℕ) × Buffer)
read_piece e size b piece = do
  stored ← Buffer.append size b piece (pos (length piece))
  on_data e size stored.1

module _ (e : Endian) (size : ℕ) where
  pub data Step (s : Server) : Event → Server → Type 0 where
    -- A piece is read, and onData takes the whole messages.
    receives :
        {msgs : List (List ℕ)} {b : Buffer} (fd : ℕ) (piece : List ℕ)
        → s.pending ≡ []
        → read_piece e size (s.buffers fd) piece ≡ some (msgs, b)
        → Step s
            (received fd piece)
            (record s { buffers = set_buffer fd b s.buffers; pending = with_fd fd msgs })
    -- onData: `queue_.addJob(...)`
    queues :
        {q : State} {m : Message} {ms : List Message}
        → s.pending ≡ m ∷ ms
        → BlockingQueue.Step s.queue (added (suc (length s.queued))) q
        → Step s
            (queue_event (added (suc (length s.queued))))
            (record s { pending = ms; queued = s.queued ++ (m ∷ []); queue = q })
    -- A step of the queue's threads.
    works :
        {q : State} {event : BlockingQueue.Event}
        → IsWork event
        → BlockingQueue.Step s.queue event q
        → Step s (queue_event event) (record s { queue = q })

  pub data Run : Server → List Event → Server → Type 0 where
    done : {s : Server} → Run s [] s
    goes :
        {s s' s'' : Server} {event : Event} {events : List Event}
        → Step s event s'
        → Run s' events s''
        → Run s (event ∷ events) s''
