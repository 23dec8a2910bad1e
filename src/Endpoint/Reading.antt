-- ===== src/Endpoint/Reading.antt =====
-- codechiev/net/TcpServer.cpp: what TcpEndpoint::onRead does with the bytes that arrive.
pub mod Rounds
pub use Rounds.{got, failed, IsPiece, update_channel_lem, with_bytes, after_reading}
use Rounds.{
  other_errno, store_none, on_read-next, on_read-pieces, with_bytes-same, reading_done-set,
  reading_done-unset,
}
use codechiev.Common.{
  ℕ, zero, suc, ◌+◌, ◌-◌, ◌*◌, ◌≤◌, ◌<◌, ◌≡◌, ◌≢◌, refl, sym, ap, ◌∙◌, Bool, true, false, not,
  Option, none, some, List, [], ◌∷◌, ◌++◌, length, take, drop, min, replicate, map, All, ◌>>=◌, ℤ,
  pos, negsuc, arith, length-append, append_assoc, append-nil, leb_ℤ, drop-drop, length-drop,
  take-length_append, gt→leb, ◌==◌, if◌then◌else◌,
}
use mathlib.Core.Path.{ap₂}
use codechiev.Common.Assoc.{lookup, insert, lookup-insert_self, insert-insert, insert-lookup}
use codechiev.Buffer.{append, readable}
use codechiev.Buffer.Layout.{layout, Fills, readable-layout}
use codechiev.Buffer.Append.{append_whole}
use codechiev.Channel
use codechiev.Channel.{Channel, buffer_size, buffer_each_time_size}
use codechiev.Coder.Reassembly.{joined}
use codechiev.Endpoint.Calls.{Call}
use codechiev.Endpoint.{
  Endpoint, Callbacks, Answer, eagain, epollin, call, call_if, put, is_zero, epoll_set,
  update_channel, reading_done, store_read, on_read, round_buffer,
}

module _ (cb : Callbacks) (close : ℕ → Endpoint → Option Endpoint) (fd errno : ℕ)
    (pieces : List (List ℕ)) (s : Endpoint) (c : Channel) (pre xs post : List ℕ) where
  -- What stands before a run of `onRead`: the channel is alive and has room for the pieces.
  abbrev pub Arrives : Type 0
  Arrives =
      (errno ≢ eagain)
      × (lookup fd s.channels ≡ some c)
      × (c.readbuf ≡ layout pre xs post)
      × Fills buffer_size pre xs post
      × All IsPiece pieces
      × (length (joined pieces) ≤ length post)

  abbrev pub arrived : List ℕ
  arrived = xs ++ joined pieces

  abbrev pub room_left : List ℕ
  room_left = drop (length (joined pieces)) post

  on_read-stored :
      (last : List Answer)
      → Arrives
      → on_read cb close fd (map (got errno) pieces ++ last) s
        ≡ on_read cb close fd last (with_bytes fd s c pre arrived room_left)
  on_read-stored last (other, alive, shape, full, h, fits) =
      ap (on_read cb close fd (map (got errno) pieces ++ last))
        (sym (with_bytes-same fd s c pre xs post alive shape))
      ∙ on_read-pieces cb close fd errno last other pieces s c pre xs post full h fits

  -- With a data callback set and bytes to hand on: the pieces that arrive without EAGAIN, and fit
  -- in the read buffer, until `read` answers -1 with EAGAIN are appended to the read buffer in
  -- order, the channel is set to wait for input, and the callback runs once, on all the bytes;
  -- `onRead` then answers false.
  pub on_read-data :
      (f : ℕ → Endpoint → Option Endpoint) (more : List Answer)
      → Arrives
      → cb.on_data ≡ some f
      → 0 < length arrived
      → on_read cb close fd (map (got errno) pieces ++ (failed eagain ∷ more)) s
        ≡ (do s' ← f fd (after_reading fd s c pre arrived room_left); some (some false, s'))
  unfolding on_read
  on_read-data f more h set some_byte =
      on_read-stored (failed eagain ∷ more) h
      ∙ rw
          (
            store_none fd eagain s c pre arrived room_left,
            reading_done-set cb fd s c pre arrived room_left f set some_byte,
            on_read,
          )
          refl

  -- The same with no data callback: the bytes stay in the read buffer.
  pub on_read-quiet :
      (more : List Answer)
      → Arrives
      → cb.on_data ≡ none
      → on_read cb close fd (map (got errno) pieces ++ (failed eagain ∷ more)) s
        ≡ some (some false, after_reading fd s c pre arrived room_left)
  unfolding on_read
  on_read-quiet more h unset =
      on_read-stored (failed eagain ∷ more) h
      ∙ rw
          (
            store_none fd eagain s c pre arrived room_left,
            reading_done-unset cb fd s c pre arrived room_left unset,
            on_read,
          )
          refl

  -- When the peer has closed, after pieces that fit in the read buffer and without EAGAIN, the
  -- pieces are stored, the close handler runs on the channel, and `onRead` answers true.
  pub on_read-end :
      (more : List Answer)
      → Arrives
      → on_read cb close fd (map (got errno) pieces ++ (got 0 [] ∷ more)) s
        ≡ (do s' ← close fd (with_bytes fd s c pre arrived room_left); some (some true, s'))
  unfolding on_read
  on_read-end more h = on_read-stored (got 0 [] ∷ more) h ∙ refl

-- An error other than EAGAIN does not end the loop of `onRead`: however often `read` answers -1
-- with it, `onRead` is still in its loop and the endpoint is as before.
pub on_read-spins :
    (cb : Callbacks) (close : ℕ → Endpoint → Option Endpoint) (fd errno n : ℕ) (s : Endpoint)
    (c : Channel) (pre xs post : List ℕ)
    → errno ≢ eagain
    → lookup fd s.channels ≡ some c
    → c.readbuf ≡ layout pre xs post
    → on_read cb close fd (replicate n (failed errno)) s ≡ some (none, s)
unfolding on_read
on_read-spins cb close fd errno zero s c pre xs post other alive shape = refl
on_read-spins cb close fd errno (suc n) s c pre xs post other alive shape =
    on_read-next cb close fd errno [] other (failed errno) s s (replicate n (failed errno)) refl
      (ap (store_read fd (failed errno)) (sym same)
        ∙ store_none fd errno s c pre xs post
        ∙ ap some same)
      (other_errno errno other)
    ∙ on_read-spins cb close fd errno n s c pre xs post other alive shape
  where
    same : with_bytes fd s c pre xs post ≡ s
    same = with_bytes-same fd s c pre xs post alive shape
