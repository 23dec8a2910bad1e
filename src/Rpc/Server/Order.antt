-- ===== src/Rpc/Server/Order.antt =====
-- In which order a ProtoServer handles the messages of its connections.
use codechiev.Common.{
  ℕ, zero, suc, ◌+◌, ◌^◌, ◌≤◌, ◌<◌, ◌≡◌, refl, sym, ap, ◌∙◌, Option, none, some, List, [], ◌∷◌,
  ◌++◌, map, length, All, some-injective, arith, append_assoc, append-nil, length-append,
}
use codechiev.Internet.Bytes.{Endian}
use codechiev.Buffer.{Buffer}
use codechiev.Coder.Stream.{frames}
use codechiev.Coder.Reassembly.{joined, receive-frames}
use codechiev.BlockingQueue
use codechiev.BlockingQueue.{State, added, taken, silent}
use codechiev.BlockingQueue.Order.{jobs_added, jobs_taken, Run-order}
use codechiev.Rpc.Server.{
  Message, Server, new, Event, received, queue_event, IsWork, receives, queues, works, Run, done,
  goes,
}
use codechiev.Rpc.Server.Pieces.{of_fd, pieces, Run-Receives}

abbrev pub queue_events : List Event → List BlockingQueue.Event
queue_events [] = []
queue_events (received _ _ ∷ es) = queue_events es
queue_events (queue_event e ∷ es) = e ∷ queue_events es

-- The message of a job.
abbrev pub message_at : List Message → ℕ → Option Message
message_at ms zero = none
message_at [] (suc n) = none
message_at (m ∷ ms) (suc zero) = some m
message_at (m ∷ ms) (suc (suc n)) = message_at ms (suc n)

module _ (e : Endian) (size : ℕ) where
  -- The jobs are numbered in the order in which their messages were queued.
  abbrev pub count_up : ℕ → ℕ → List ℕ
  count_up k zero = []
  count_up k (suc n) = suc k ∷ count_up (suc k) n

  work_adds :
      (event : BlockingQueue.Event) (es : List BlockingQueue.Event)
      → IsWork event
      → jobs_added (event ∷ es) ≡ jobs_added es
  work_adds (added n) es w = absurd w
  work_adds (taken none) es w = refl
  work_adds (taken (some n)) es w = refl
  work_adds silent es w = refl

  -- What a run queues, and the part of the queue in it.
  abbrev Queues : Server → List Event → Server → Type 0
  Queues s events s' =
      BlockingQueue.Run s.queue (queue_events events) s'.queue
      × ((more : List Message) × (s'.queued ≡ s.queued ++ more)
          × (jobs_added (queue_events events) ≡ count_up (length s.queued) (length more)))

  Run-Queues : {s s' : Server} {events : List Event} → Run e size s events s' → Queues s events s'
  Run-Queues {s = s} done = (BlockingQueue.done, ([], sym (append-nil s.queued), refl))
  Run-Queues (goes (receives from piece p r) run) = Run-Queues run
  Run-Queues (goes {events = events} (works {event = event} w q) run) =
      let (later, (more, all, numbers)) = Run-Queues run in
      (BlockingQueue.goes q later, (more, all, work_adds event (queue_events events) w ∙ numbers))
  Run-Queues {s = s} (goes (queues {m = m} p q) run) =
      let (later, (more, all, numbers)) = Run-Queues run in
      let n : length (s.queued ++ (m ∷ [])) ≡ suc (length s.queued) =
        omega (arith, length-append s.queued (m ∷ [])) in
      (
        BlockingQueue.goes q later,
        (
          m ∷ more,
          all ∙ append_assoc s.queued (m ∷ []) more,
          ap (◌∷◌ (suc (length s.queued))) (numbers ∙ ap (λ (k : ℕ). count_up k (length more)) n),
        ),
      )

  message_at-append :
      (before more : List Message) (m : Message)
      → message_at (before ++ (m ∷ more)) (suc (length before)) ≡ some m
  message_at-append [] more m = refl
  message_at-append (b ∷ before) more m = message_at-append before more m

  count_up-messages :
      (before more : List Message)
      → map (message_at (before ++ more)) (count_up (length before) (length more)) ≡ map some more
  count_up-messages before [] = refl
  count_up-messages before (m ∷ more) =
      let n : length (before ++ (m ∷ [])) ≡ suc (length before) =
        omega (arith, length-append before (m ∷ [])) in
      let others =
        rw (append_assoc before (m ∷ []) more, n) at
          (count_up-messages (before ++ (m ∷ [])) more) in
      rw (message_at-append before more m) (ap (◌∷◌ (some m)) others)

  -- Whatever the loop's thread and the threads of the queue of a ProtoServer do, and in whatever
  -- order: if the pieces that arrived on a connection are together the frames of messages (under
  -- the conditions of the coder), the connection's messages that were queued or are still to be
  -- queued are those, in order; and the messages of the jobs that were taken, and then of the jobs
  -- that wait, are those that were queued, in order, so that no message is lost or handled twice.
  pub Run-handles :
      (limit : ℕ) (fd : ℕ) (ms : List (List ℕ)) {s : Server} {events : List Event}
      → Run e size (new size) events s
      → size + 4 < 2 ^ 31
      → limit < size
      → All (λ m. length m + 4 + limit ≤ size) ms
      → All (λ c. length c ≤ limit) (pieces fd events)
      → joined (pieces fd events) ≡ frames ms
      → (of_fd fd (s.queued ++ s.pending) ≡ ms)
        × (map (message_at s.queued) (jobs_taken (queue_events events) ++ s.queue.jobs)
            ≡ map some s.queued)
  unfolding new BlockingQueue.commence BlockingQueue.new
  Run-handles limit fd ms {s = s} {events = events} run top below small cut whole =
      let (msgs, got, all) = Run-Receives e size fd run in
      let (b, decoded, _) =
        receive-frames e size limit ms (pieces fd events) top below small cut whole in
      let same : some (msgs, s.buffers fd) ≡ some (ms, b) = sym got ∙ decoded in
      let (queue_run, (more, queued, numbers)) = Run-Queues run in
      (
        all ∙ ap (λ (r : List (List ℕ) × Buffer). r.0) (some-injective same),
        rw (sym (Run-order queue_run), numbers, queued) (count_up-messages [] more),
      )
