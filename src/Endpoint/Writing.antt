-- ===== src/Endpoint/Writing.antt =====
-- codechiev/net/TcpServer.cpp: what TcpEndpoint::onWrite sends.
pub mod Rounds
pub mod Ends
pub use Rounds.{took, sent_bytes, Takes, total}
use Rounds.{to_send, read_back, start_write-to_send, sends, sends-sent_bytes, on_write-Takes}
use Ends.{to_send-same, on_write-done, on_write-blocked}
use Prim.Native.Nat.{bit_or}
use mathlib.Core.Path.{ap₂, subst}
use native.Mathlib.Decide.{dec_lt}
use codechiev.Common.{
  ℕ, zero, suc, ◌+◌, ◌-◌, ◌*◌, ◌≤◌, ◌<◌, ◌≡◌, ◌≢◌, refl, sym, ap, ◌∙◌, Bool, true, false, not,
  Option, none, some, List, [], ◌∷◌, ◌++◌, length, take, drop, min, replicate, map, All, ◌>>=◌, ℤ,
  pos, negsuc, arith, length-append, append_assoc, append-nil, leb_ℤ, ltb_ℤ, ltb, length-drop,
  length-take, take-append_le, take-add, take-all, drop-drop, ==-self, take-append-drop, gt→leb,
  lt→ltb, ge→ltb, ◌==◌, if◌then◌else◌, ◌+ℤ◌,
}
use codechiev.Common.Assoc.{lookup, insert, lookup-insert_self, insert-insert, insert-lookup}
use codechiev.Buffer
use codechiev.Buffer.{Buffer, read}
use codechiev.Buffer.Memory.{load, load-append}
use codechiev.Buffer.Layout.{layout, Fills, readable-layout}
use codechiev.Buffer.Consume.{read-layout}
use codechiev.Channel
use codechiev.Channel.{Channel, buffer_size, buffer_each_time_size}
use codechiev.Endpoint.Calls.{Call}
use codechiev.Endpoint.{
  Endpoint, Answer, eagain, epollin, epollout, call, put, is_zero, update_channel, epoll_set, offer,
  start_write, record_sent, writing_later, writing_done, on_write,
}
use codechiev.Endpoint.Reading.{failed, update_channel_lem}

-- The last byte of the part that was taken.
last_taken :
    (t : ℕ) (xs : List ℕ)
    → 0 < t
    → t ≤ length xs
    → (x : ℕ) × (take t xs ≡ take (t - 1) xs ++ (x ∷ [])) × (drop (t - 1) xs ≡ x ∷ drop t xs)
last_taken zero xs h fits = absurd (omega arith)
last_taken (suc t) [] h fits = absurd (omega arith)
last_taken (suc zero) (y ∷ xs) h fits = (y, refl, refl)
last_taken (suc (suc t)) (y ∷ xs) h fits =
    let (x, a, b) = last_taken (suc t) xs (omega arith) (omega arith) in
    let one : suc (suc t) - 1 ≡ suc (suc t - 1) = omega arith in
    (
      x,
      ap (◌∷◌ y) a ∙ ap (λ (k : ℕ). take k (y ∷ xs) ++ (x ∷ [])) (sym one),
      ap (λ (k : ℕ). drop k (y ∷ xs)) one ∙ b,
    )

Takes-total : (ns xs : List ℕ) → Takes ns xs → total ns ≤ length xs
Takes-total [] xs h = omega arith
Takes-total (n ∷ ns) xs h = omega (arith, Takes-total ns (drop n xs) h.3, length-drop n xs, h.2)

-- A run of onWrite that comes back with `false`, in a state in which `P` holds.
abbrev pub ComesBack : ℕ → List Answer → Endpoint → (Endpoint → Type 0) → Type 0
ComesBack fd answers s P = (s' : Endpoint) × (on_write fd answers s ≡ some (some false, s')) × P s'

module _ (fd errno : ℕ) (ns : List ℕ) (s : Endpoint) (c : Channel) (pre xs post : List ℕ) where
  abbrev pub Writes : Type 0
  Writes =
      (errno ≢ eagain)
      × (lookup fd s.channels ≡ some c)
      × (c.writebuf ≡ layout pre xs post)
      × Takes ns xs

  on_write-reached :
      (last : List Answer)
      → Writes
      → on_write fd (map (took errno) ns ++ last) s
        ≡ on_write fd last (
            to_send fd
              (record s { calls = sends fd errno ns xs s.calls })
              c
              (pre ++ take (total ns) xs)
              (drop (total ns) xs)
              post)
  on_write-reached last (other, alive, shape, takes) =
      ap (on_write fd (map (took errno) ns ++ last))
        (sym (to_send-same fd s c pre xs post alive shape))
      ∙ on_write-Takes fd errno ns last s c pre xs post other takes

  -- When `write` takes all of the write buffer's bytes, in whatever portions, without EAGAIN, and
  -- then answers 0, `onWrite` comes back with false; exactly those bytes have gone to the system,
  -- in order, and the channel has an empty write buffer and waits for input alone.
  pub on_write-sends :
      (more : List Answer)
      → Writes
      → total ns ≡ length xs
      → ComesBack fd (map (took errno) ns ++ (took 0 0 ∷ more)) s λ s'.
        (sent_bytes fd s'.calls ≡ sent_bytes fd s.calls ++ xs)
        × (lookup fd s'.channels
            ≡ some (record c { event = epollin; writebuf = Buffer.new buffer_size }))
  unfolding call put
  on_write-sends more h everything =
      let s₁ = record s { calls = sends fd errno ns xs s.calls } in
      let c' = record c { event = epollin; writebuf = Buffer.new buffer_size } in
      (
        call (Call.ctl_mod c.fd epollin) (put fd c' s₁),
        on_write-reached (took 0 0 ∷ more) h
            ∙ on_write-done fd 0 more s₁ c (pre ++ take (total ns) xs) (drop (total ns) xs) post,
        (
          sends-sent_bytes fd errno ns xs s.calls h.3
              ∙ ap (λ (ys : List ℕ). sent_bytes fd s.calls ++ ys)
                  (take-all (total ns) xs (omega (arith, everything))),
          lookup-insert_self fd c' s.channels,
        ),
      )

  -- If `write` takes some bytes and then answers -1 with EAGAIN, the read offset is stepped back by
  -- one: the bytes that are left to send begin with the last byte that was sent.
  pub on_write-resends :
      (more : List Answer)
      → Writes
      → 0 < total ns
      → ComesBack fd (map (took errno) ns ++ (failed eagain ∷ more)) s λ s'.
        (sent_bytes fd s'.calls ≡ sent_bytes fd s.calls ++ take (total ns) xs)
        × ((pre' : List ℕ) × (lookup fd s'.channels
              ≡ some (record c {
                event = bit_or epollin epollout;
                writebuf = layout pre' (drop (total ns - 1) xs) post;
              })))
  unfolding call put
  on_write-resends more h some_byte =
      let t : ℕ = total ns in
      let s₁ = record s { calls = sends fd errno ns xs s.calls } in
      let (x, front, back) = last_taken t xs some_byte (Takes-total ns xs h.3) in
      let pre' : List ℕ = pre ++ take (t - 1) xs in
      let read_part : pre ++ take t xs ≡ pre' ++ (x ∷ []) =
        ap (λ (ys : List ℕ). pre ++ ys) front ∙ sym (append_assoc pre (take (t - 1) xs) (x ∷ [])) in
      let c' = record c {
        event = bit_or epollin epollout;
        writebuf = layout pre' (x ∷ drop t xs) post;
      } in
      (
        _,
        on_write-reached (failed eagain ∷ more) h
            ∙ ap
                (λ (ys : List ℕ).
                  on_write fd (failed eagain ∷ more) (to_send fd s₁ c ys (drop t xs) post))
                read_part
            ∙ on_write-blocked fd more s₁ c pre' (drop t xs) post x,
        (
          sends-sent_bytes fd errno ns xs s.calls h.3,
          (
            pre',
            lookup-insert_self fd c' s.channels
                ∙ ap
                    (λ (ys : List ℕ). some (record c {
                      event = bit_or epollin epollout;
                      writebuf = layout pre' ys post;
                    }))
                    (sym back),
          ),
        ),
      )
