-- ===== src/Examples/Services.antt =====
-- A server that handles one message.
use codechiev.Common.{
  ℕ, ◌≡◌, refl, some, none, List, [], ◌∷◌, ◌++◌, map, pos, arith, replicate, true, false,
}
use codechiev.Internet.Bytes.{little}
use codechiev.Internet
use codechiev.Internet.Bytes
use codechiev.Buffer
use codechiev.Buffer.{Buffer}
use codechiev.Buffer.Memory
use codechiev.Coder
use codechiev.BlockingQueue
use codechiev.BlockingQueue.{State, added, taken, silent, adds, gets}
use codechiev.BlockingQueue.Workers.{idle, runs, here, nobody}
use codechiev.BlockingQueue.Order.{jobs_taken}
use codechiev.Rpc.Server.{
  Message, Server, new, on_data, read_piece, set_buffer, Event, received, queue_event, Run,
  receives, queues, works, done, goes,
}
use codechiev.Rpc.Server.Order.{message_at, queue_events, Run-handles}
use codechiev.Rpc.Server.Pieces.{of_fd}

-- 0 0 0 1 65
abbrev piece : List ℕ
piece = 0 ∷ 0 ∷ 0 ∷ 1 ∷ 65 ∷ []

abbrev emptied : Buffer
emptied = record {
  writer = pos 0;
  reader = pos 0;
  cells = 0 ∷ 0 ∷ 0 ∷ 1 ∷ 65 ∷ replicate 11 (let z : ℕ = 0 in z);
}

one_message : read_piece little 16 (Buffer.new 16) piece ≡ some ((65 ∷ []) ∷ [], emptied)
unfolding on_data read_piece Buffer.append Buffer.writable Buffer.copy_in Buffer.write Buffer.move
    Buffer.readable Buffer.read Buffer.new Buffer.Memory.load Buffer.Memory.store Coder.drain
    Coder.decode_buffer Coder.take_message Internet.network_to_host32 Internet.htonl
    Bytes.from_memory Bytes.in_memory Bytes.swap codechiev.Common.◌+ℤ◌ codechiev.Common.◌-ℤ◌
one_message = refl

abbrev message : Message
message = (65 ∷ [], 5)

abbrev listening : Server
listening = record {
  buffers = λ _. Buffer.new 16;
  pending = [];
  queued = [];
  queue = record { jobs = []; running = true; workers = idle ∷ idle ∷ idle ∷ idle ∷ [] };
}

abbrev handling : Server
handling = record {
  buffers = set_buffer 5 emptied (λ _. Buffer.new 16);
  pending = [];
  queued = message ∷ [];
  queue = record { jobs = []; running = true; workers = runs 1 ∷ idle ∷ idle ∷ idle ∷ [] };
}

abbrev happened : List Event
happened = received 5 piece ∷ queue_event (added 1) ∷ queue_event (taken (some 1)) ∷ []

one_job : Run little 16 (new 16) happened handling
unfolding new BlockingQueue.new BlockingQueue.commence BlockingQueue.add_job BlockingQueue.take_job
one_job =
    goes (receives 5 piece refl one_message)
      (goes (queues refl (adds 1 (nobody refl))) (goes (works tt (gets refl here refl)) done))

Run-handles_example :
    (of_fd 5 (handling.queued ++ handling.pending) ≡ (65 ∷ []) ∷ [])
    × (map (message_at handling.queued) (jobs_taken (queue_events happened) ++ handling.queue.jobs)
        ≡ map some handling.queued)
Run-handles_example =
    Run-handles little 16 8 5 ((65 ∷ []) ∷ []) one_job (omega arith) (omega arith) (omega arith, tt)
      (omega arith, tt) refl
