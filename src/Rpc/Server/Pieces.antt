-- ===== src/Rpc/Server/Pieces.antt =====
-- What the pieces that arrive on one connection of a ProtoServer become.
use codechiev.Common.{
  ℕ, ◌≡◌, refl, sym, ap, ◌∙◌, false, some, List, [], ◌∷◌, ◌++◌, length, pos, ◌==◌, ==-self,
  if◌then◌else◌, Bool-cases, inl, inr, >>=-eq-some, append_assoc, append-nil, ==_iff,
}
use codechiev.Internet.Bytes.{Endian}
use codechiev.Buffer
use codechiev.Buffer.{Buffer}
use codechiev.Coder.Stream.{receive}
use codechiev.Rpc.Server.{
  Message, Server, Event, received, queue_event, with_fd, on_data, read_piece, receives, queues,
  works, Run, done, goes,
}

-- The messages of one connection.
abbrev pub of_fd : ℕ → List Message → List (List ℕ)
of_fd fd [] = []
of_fd fd ((msg, from) ∷ ms) = let rest = of_fd fd ms in if from == fd then msg ∷ rest else rest

-- The pieces that arrived on one connection.
abbrev pub pieces : ℕ → List Event → List (List ℕ)
pieces fd [] = []
pieces fd (received from piece ∷ es) =
    let rest = pieces fd es in if from == fd then piece ∷ rest else rest
pieces fd (queue_event _ ∷ es) = pieces fd es

of_fd-append : (fd : ℕ) (xs ys : List Message) → of_fd fd (xs ++ ys) ≡ of_fd fd xs ++ of_fd fd ys
of_fd-append fd [] ys = refl
of_fd-append fd ((msg, from) ∷ xs) ys = elim (Bool-cases (from == fd)) [
  | inl same ↦ rw (same) (ap (◌∷◌ msg) (of_fd-append fd xs ys))
  | inr other ↦ rw (other) (of_fd-append fd xs ys)
]

of_fd_self : (fd : ℕ) (msgs : List (List ℕ)) → of_fd fd (with_fd fd msgs) ≡ msgs
of_fd_self fd [] = refl
of_fd_self fd (msg ∷ msgs) = rw (==-self fd) (ap (◌∷◌ msg) (of_fd_self fd msgs))

of_fd_other :
    (fd from : ℕ) (msgs : List (List ℕ)) → (from == fd) ≡ false → of_fd fd (with_fd from msgs) ≡ []
of_fd_other fd from [] other = refl
of_fd_other fd from (msg ∷ msgs) other = rw (other) (of_fd_other fd from msgs other)

abbrev pub entered : Server → List Message
entered s = s.queued ++ s.pending

module _ (e : Endian) (size : ℕ) where
  -- What one connection's pieces make of its buffer and of the messages.
  abbrev pub Receives : ℕ → Server → List Event → Server → Type 0
  Receives fd s events s' =
      (msgs : List (List ℕ)) × (receive e size size (s.buffers fd) (pieces fd events)
        ≡ some (msgs, s'.buffers fd))
      × (of_fd fd (entered s') ≡ of_fd fd (entered s) ++ msgs)

  none_pending : (s : Server) → s.pending ≡ [] → s.queued ≡ entered s
  none_pending s p = sym (append-nil s.queued) ∙ ap (λ l. s.queued ++ l) (sym p)

  receive-piece :
      (b b' b'' : Buffer) (piece : List ℕ) (ps msgs later : List (List ℕ))
      → read_piece e size b piece ≡ some (msgs, b')
      → receive e size size b' ps ≡ some (later, b'')
      → receive e size size b (piece ∷ ps) ≡ some (msgs ++ later, b'')
  unfolding receive read_piece on_data
  receive-piece b b' b'' piece ps msgs later now next =
      let (stored, is_stored, drained) =
        >>=-eq-some (Buffer.append size b piece (pos (length piece)))
          (λ stored. on_data e size stored.1) now in
      rw (is_stored, drained, next) refl

  pub Run-Receives :
      (fd : ℕ) {s s' : Server} {events : List Event}
      → Run e size s events s'
      → Receives fd s events s'
  unfolding receive
  Run-Receives fd {s = s} done = ([], refl, sym (append-nil (of_fd fd (entered s))))
  Run-Receives fd {s = s} (goes (works w q) run) = Run-Receives fd run
  Run-Receives fd {s = s} {s' = s'} (goes (queues {m = m} {ms = ms} p q) run) =
      let (msgs, got, all) = Run-Receives fd run in
      (
        msgs,
        got,
        all
            ∙ ap (λ l. of_fd fd l ++ msgs)
                (append_assoc s.queued (m ∷ []) ms ∙ ap (λ l. s.queued ++ l) (sym p)),
      )
  Run-Receives fd {s = s} {s' = s'}
        (goes {events = events} (receives {msgs = now} {b = b} from piece p r) run) =
      let (msgs, got, all) = Run-Receives fd run in
      elim (Bool-cases (from == fd)) [
        | inl same ↦
            let here = (==_iff from fd).0 same in
            (
              now ++ msgs,
              rw (same) (
                  receive-piece (s.buffers fd) b (s'.buffers fd) piece (pieces fd events) now msgs
                    (rw (here) at r) (rw (same) at got)),
              all
                  ∙ ap (λ l. l ++ msgs)
                      (of_fd-append fd s.queued (with_fd from now)
                        ∙ ap (λ l. of_fd fd s.queued ++ l)
                            (ap (λ n. of_fd fd (with_fd n now)) here ∙ of_fd_self fd now))
                  ∙ append_assoc (of_fd fd s.queued) now msgs
                  ∙ ap (λ l. of_fd fd l ++ (now ++ msgs)) (none_pending s p),
            )
        | inr other ↦ (
          msgs,
          rw (other) (rw (other) at got),
          all
              ∙ ap (λ l. l ++ msgs)
                  (of_fd-append fd s.queued (with_fd from now)
                    ∙ ap (λ l. of_fd fd s.queued ++ l) (of_fd_other fd from now other)
                    ∙ append-nil (of_fd fd s.queued)
                    ∙ ap (of_fd fd) (none_pending s p)),
        )
      ]
