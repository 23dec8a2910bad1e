-- ===== src/Endpoint/Writing/Rounds.antt =====
-- codechiev/net/TcpServer.cpp: the rounds of TcpEndpoint::onWrite, and the bytes that they offer.
use mathlib.Core.Path.{ap₂}
use native.Mathlib.Decide.{dec_lt}
use codechiev.Common.{
  ℕ, ◌+◌, ◌≤◌, ◌<◌, ◌≡◌, ◌≢◌, refl, sym, ap, ◌∙◌, false, some, List, [], ◌∷◌, ◌++◌, length, take,
  drop, min, map, pos, negsuc, arith, length-append, append_assoc, append-nil, length-take,
  take-append_le, take-add, drop-drop, ==-self, take-append-drop, lt→ltb, ge→ltb, ◌==◌,
  if◌then◌else◌, ◌+ℤ◌,
}
use codechiev.Common.Assoc.{lookup-insert_self, insert-insert}
use codechiev.Buffer.{read}
use codechiev.Buffer.Memory.{load, load-append}
use codechiev.Buffer.Layout.{layout, readable-layout}
use codechiev.Buffer.Consume.{read-layout}
use codechiev.Channel.{Channel, buffer_each_time_size}
use codechiev.Endpoint.Calls.{Call}
use codechiev.Endpoint.{
  Endpoint, Answer, eagain, call, put, is_zero, offer, start_write, record_sent, on_write,
}

-- `write` has taken `n` bytes.
abbrev pub took : ℕ → ℕ → Answer
took errno n = record { len = pos n; bytes = []; errno = errno }

-- The bytes that have gone to the system for a descriptor, oldest first.
abbrev pub sent_bytes : ℕ → List Call → List ℕ
sent_bytes fd [] = []
sent_bytes fd (Call.sent j bs ∷ calls) =
    if j == fd then sent_bytes fd calls ++ bs else sent_bytes fd calls
sent_bytes fd (_ ∷ calls) = sent_bytes fd calls

-- `write` can take these numbers of bytes, one after the other.
abbrev pub Takes : List ℕ → List ℕ → Type 0
Takes [] xs = Unit {0}
Takes (n ∷ ns) xs = (0 < n) × (n ≤ buffer_each_time_size) × (n ≤ length xs) × Takes ns (drop n xs)

abbrev pub total : List ℕ → ℕ
total [] = 0
total (n ∷ ns) = n + total ns

-- The channel with these bytes to send, and with these calls made.
abbrev pub to_send : ℕ → Endpoint → Channel → List ℕ → List ℕ → List ℕ → Endpoint
to_send fd s c pre xs post = put fd (record c { writebuf = layout pre xs post }) s

load-front :
    (pre xs post : List ℕ) (k : ℕ)
    → k ≤ length xs
    → load (pre ++ (xs ++ (0 ∷ post))) (pos (length pre)) (pos k) ≡ some (take k xs)
load-front pre xs post k h =
    load-append pre (drop k xs ++ (0 ∷ post)) (pre ++ (xs ++ (0 ∷ post))) (length pre) (take k xs) k
      (ap (λ (ys : List ℕ). pre ++ ys)
        (ap (λ (ys : List ℕ). ys ++ (0 ∷ post)) (sym (take-append-drop k xs))
          ∙ append_assoc (take k xs) (drop k xs) (0 ∷ post)))
      refl (omega (arith, length-take k xs))

-- The size of what is offered.
abbrev offered_size : List ℕ → ℕ
offered_size xs = min buffer_each_time_size (length xs)

offer-layout :
    (pre xs post : List ℕ) → offer (layout pre xs post) ≡ some (take (offered_size xs) xs)
unfolding offer
offer-layout pre xs post =
    rw (readable-layout pre xs post) (elim (dec_lt buffer_each_time_size (length xs)) [
      | yes big ↦
          let k : offered_size xs ≡ buffer_each_time_size = omega arith in
          rw (lt→ltb (buffer_each_time_size + 0) (length xs + 0) (omega arith), k)
            (load-front pre xs post buffer_each_time_size (omega arith))
      | no small ↦
          let k : offered_size xs ≡ length xs = omega arith in
          rw (ge→ltb (buffer_each_time_size + 0) (length xs + 0) (omega arith), k)
            (load-front pre xs post (length xs) (omega arith))
    ])

take-take : (n k : ℕ) (xs : List ℕ) → n ≤ k → k ≤ length xs → take n (take k xs) ≡ take n xs
take-take n k xs h l =
    sym (take-append_le (take k xs) (drop k xs) n (omega (arith, length-take k xs)))
    ∙ ap (take n) (take-append-drop k xs)

-- What `read(-1)` does: the last byte that was sent can be read again.
pub read_back :
    (pre xs post : List ℕ) (x : ℕ)
    → read (layout (pre ++ (x ∷ [])) xs post) (negsuc 0) ≡ layout pre (x ∷ xs) post
unfolding read ◌+ℤ◌
read_back pre xs post x =
    let size : length (pre ++ (x ∷ [])) ≡ length pre + 1 = length-append pre (x ∷ []) in
    rw (size, append_assoc pre (x ∷ []) (xs ++ (0 ∷ post))) (ground arith)

read_taken :
    (pre xs post : List ℕ) (n : ℕ)
    → n ≤ length xs
    → read (layout pre xs post) (pos n) ≡ layout (pre ++ take n xs) (drop n xs) post
read_taken pre xs post n h =
    ap₂ (λ (ys : List ℕ) (k : ℕ). read (layout pre ys post) (pos k)) (sym (take-append-drop n xs))
      (omega (arith, length-take n xs))
    ∙ read-layout pre (take n xs) (drop n xs) post

module _ (fd errno : ℕ) where
  -- One round that goes on.
  on_write-next :
      (a : Answer) (s : Endpoint) (c : Channel) (offered : List ℕ) (answers : List Answer)
      → is_zero a.len ≡ false
      → start_write fd s ≡ some (c, offered)
      → (a.errno == eagain) ≡ false
      → on_write fd (a ∷ answers) s
        ≡ on_write fd answers (
            record_sent fd a.len offered (put fd (record c { writebuf = read c.writebuf a.len }) s))
  unfolding on_write
  on_write-next a s c offered answers some_bytes started more =
      rw (started, some_bytes, more, on_write) refl

  pub start_write-to_send :
      (s : Endpoint) (c : Channel) (pre xs post : List ℕ)
      → start_write fd (to_send fd s c pre xs post)
        ≡ some (record c { writebuf = layout pre xs post }, take (offered_size xs) xs)
  unfolding start_write put
  start_write-to_send s c pre xs post =
      rw
        (
          lookup-insert_self fd (record c { writebuf = layout pre xs post }) s.channels,
          offer-layout pre xs post,
        )
        refl

  -- Taking `n` bytes: they are sent, and the rest is still to be sent.
  on_write-took :
      (n : ℕ) (s : Endpoint) (c : Channel) (pre xs post : List ℕ) (answers : List Answer)
      → errno ≢ eagain
      → 0 < n
      → n ≤ buffer_each_time_size
      → n ≤ length xs
      → on_write fd (took errno n ∷ answers) (to_send fd s c pre xs post)
        ≡ on_write fd answers
            (to_send fd (call (Call.sent fd (take n xs)) s) c (pre ++ take n xs) (drop n xs) post)
  unfolding record_sent call put
  on_write-took n s c pre xs post answers other some_byte small fits =
      on_write-next (took errno n) (to_send fd s c pre xs post)
        (record c { writebuf = layout pre xs post }) (take (offered_size xs) xs) answers
        (ground arith) (start_write-to_send s c pre xs post) (ground arith)
      ∙ rw
          (
            read_taken pre xs post n fits,
            take-take n (offered_size xs) xs (omega arith) (omega arith),
          )
          (ap
            (λ (m : List (ℕ × Channel)).
              on_write fd answers
                (record { channels = m; calls = Call.sent fd (take n xs) ∷ s.calls }))
            (insert-insert fd (record c { writebuf = layout (pre ++ take n xs) (drop n xs) post })
              (record c { writebuf = layout pre xs post }) s.channels))

  pub sends : List ℕ → List ℕ → List Call → List Call
  sends [] xs calls = calls
  sends (n ∷ ns) xs calls = sends ns (drop n xs) (Call.sent fd (take n xs) ∷ calls)

  pub sends-sent_bytes :
      (ns xs : List ℕ) (calls : List Call)
      → Takes ns xs
      → sent_bytes fd (sends ns xs calls) ≡ sent_bytes fd calls ++ take (total ns) xs
  unfolding sends
  sends-sent_bytes [] xs calls h = sym (append-nil (sent_bytes fd calls))
  sends-sent_bytes (n ∷ ns) xs calls h =
      sends-sent_bytes ns (drop n xs) (Call.sent fd (take n xs) ∷ calls) h.3
      ∙ rw (==-self fd) (
          append_assoc (sent_bytes fd calls) (take n xs) (take (total ns) (drop n xs))
          ∙ ap (λ (ys : List ℕ). sent_bytes fd calls ++ ys) (sym (take-add n (total ns) xs)))

  -- Every answer takes some bytes.
  pub on_write-Takes :
      (ns : List ℕ) (last : List Answer) (s : Endpoint) (c : Channel) (pre xs post : List ℕ)
      → errno ≢ eagain
      → Takes ns xs
      → on_write fd (map (took errno) ns ++ last) (to_send fd s c pre xs post)
        ≡ on_write fd last (
            to_send fd
              (record s { calls = sends ns xs s.calls })
              c
              (pre ++ take (total ns) xs)
              (drop (total ns) xs)
              post)
  unfolding sends call
  on_write-Takes [] last s c pre xs post other h =
      ap (λ (ys : List ℕ). on_write fd last (to_send fd s c ys xs post)) (sym (append-nil pre))
  on_write-Takes (n ∷ ns) last s c pre xs post other h =
      on_write-took n s c pre xs post (map (took errno) ns ++ last) other h.0 h.1 h.2
      ∙ on_write-Takes ns last (call (Call.sent fd (take n xs)) s) c (pre ++ take n xs) (drop n xs)
          post other h.3
      ∙ ap₂
          (λ (ys : List ℕ) (zs : List ℕ). on_write fd last (
            to_send fd
              (record s { calls = sends ns (drop n xs) (Call.sent fd (take n xs) ∷ s.calls) }) c ys
              zs post))
          (append_assoc pre (take n xs) (take (total ns) (drop n xs))
            ∙ ap (λ (ys : List ℕ). pre ++ ys) (sym (take-add n (total ns) xs)))
          (drop-drop (total ns) n xs)
