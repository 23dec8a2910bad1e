-- ===== src/Endpoint.antt =====
-- codechiev/net/TcpServer.cpp, TcpEndpoint.hpp, TcpClient.cpp and EPoll.cpp: channels, the calls
-- that are made to the system, and the handlers of poll events.
-- A `Channel*` is the descriptor of the channel, and `channels` holds the objects that are alive:
-- going through a pointer to another object is a fault. `calls` is the trace of system calls,
-- newest first. What `read` and `write` answer comes as a list of answers; a handler that is still
-- in its loop when the list ends gives `none` for its result.
pub mod Calls
pub mod Reading
pub mod Writing
pub mod Server
pub mod Poll
pub mod Client
pub mod Loop
pub mod Arrival
use Prim.Native.Nat.{bit_and, bit_or}
use codechiev.Common.{
  ℕ, ◌+◌, Bool, true, false, not, ◌&&◌, ◌||◌, Option, none, some, List, [], ◌∷◌, ◌++◌, length, take,
  replicate, ◌-◌, ◌>>=◌, ◌>>◌, guard, ℤ, pos, negsuc, ltb_ℤ, leb_ℤ, ltb, ◌==◌, if◌then◌else◌,
}
use codechiev.Common.Assoc.{lookup, insert, erase}
use codechiev.Buffer
use codechiev.Buffer.{Buffer}
use codechiev.Buffer.Memory.{load}
use codechiev.Channel
use codechiev.Channel.{Channel, buffer_size, buffer_each_time_size}
use Calls.{Call}

abbrev pub epollin : ℕ
epollin = 0x1

abbrev pub epollout : ℕ
epollout = 0x4

abbrev pub epollhup : ℕ
epollhup = 0x10

abbrev pub epollrdhup : ℕ
epollrdhup = 0x2000

abbrev pub eagain : ℕ
eagain = 11

-- `event & mask` as a condition
unfoldable pub has : ℕ → ℕ → Bool
has event mask = not (bit_and event mask == 0)

-- What one `read` or `write` answers: its result, the bytes that a `read` has put in the array,
-- and `errno` behind the call.
pub record Answer : Type 0 where
  pub len : ℤ
  pub bytes : List ℕ
  pub errno : ℕ

pub record Endpoint : Type 0 where
  pub channels : List (ℕ × Channel)
  pub calls : List Call

-- `none` is a boost::function that is not set.
pub record Callbacks : Type 0 where
  pub on_connect : Option (ℕ → Endpoint → Option Endpoint)
  pub on_data : Option (ℕ → Endpoint → Option Endpoint)
  pub on_close : Option (ℕ → Endpoint → Option Endpoint)

abbrev pub call_if : Option (ℕ → Endpoint → Option Endpoint) → ℕ → Endpoint → Option Endpoint
call_if none fd s = some s
call_if (some f) fd s = f fd s

unfoldable pub put : ℕ → Channel → Endpoint → Endpoint
put fd c s = record s { channels = insert fd c s.channels }

unfoldable pub call : Call → Endpoint → Endpoint
call c s = record s { calls = c ∷ s.calls }

-- EPoll::addChannel, setChannel, delChannel
unfoldable pub epoll_add : ℕ → Endpoint → Option Endpoint
epoll_add fd s = do
  c ← lookup fd s.channels
  some (call (Call.ctl_add c.fd c.event) (call (Call.set_non_block c.fd) s))

unfoldable pub epoll_set : ℕ → Endpoint → Option Endpoint
epoll_set fd s = do c ← lookup fd s.channels; some (call (Call.ctl_mod c.fd c.event) s)

unfoldable pub epoll_del : ℕ → Endpoint → Option Endpoint
epoll_del fd s = do c ← lookup fd s.channels; some (call (Call.ctl_del c.fd) s)

unfoldable pub update_channel : ℕ → ℕ → Endpoint → Option Endpoint
update_channel fd events s = do
  c ← lookup fd s.channels
  epoll_set fd (put fd (Channel.set_event events c) s)

unfoldable pub add_channel : ℕ → ℕ → Endpoint → Option Endpoint
add_channel fd events s = do
  c ← lookup fd s.channels
  epoll_add fd (put fd (Channel.set_event events c) s)

unfoldable pub del_channel : ℕ → Endpoint → Option Endpoint
del_channel fd s = epoll_del fd s

-- TcpEndpoint::onClose
unfoldable pub on_close_base : Callbacks → ℕ → Endpoint → Option Endpoint
on_close_base cb fd s = do
  s₁ ← del_channel fd s
  c ← lookup fd s₁.channels
  call_if cb.on_close fd (call (Call.close c.fd) (put fd (Channel.close c) s₁))

-- TcpEndpoint::write and send
unfoldable pub write : ℕ → List ℕ → Endpoint → Option Endpoint
write fd msg s = do
  c ← lookup fd s.channels
  c' ← Channel.write c msg
  readable ← Buffer.readable c'.writebuf
  if not (leb_ℤ readable (pos 0))
      then update_channel fd (bit_or epollin epollout) (put fd c' s)
      else some (put fd c' s)

unfoldable pub shut : ℕ → Endpoint → Option Endpoint
shut fd s = do c ← lookup fd s.channels; some (call (Call.shutdown c.fd) s)

abbrev pub is_zero : ℤ → Bool
is_zero (pos n) = n == 0
is_zero (negsuc n) = false

-- The array of one round of onRead: cleared, with the bytes that `read` put in front.
abbrev pub round_buffer : List ℕ → List ℕ
round_buffer bytes = bytes ++ replicate (buffer_each_time_size - length bytes) 0

-- One round of onRead: the bytes are appended to the read buffer.
unfoldable pub store_read : ℕ → Answer → Endpoint → Option Endpoint
store_read fd a s = do
  c ← lookup fd s.channels
  stored ← Buffer.append buffer_size c.readbuf (round_buffer a.bytes) a.len
  some (put fd (record c { readbuf = stored.1 }) s)

-- After the bytes are stored: leave the loop if `errno` is EAGAIN.
unfoldable pub reading_done : Callbacks → ℕ → Endpoint → Option Endpoint
reading_done cb fd s = do
  s₁ ← update_channel fd epollin s
  elim cb.on_data [
    | none ↦ some s₁
    | some f ↦ (do
      c ← lookup fd s₁.channels
      readable ← Buffer.readable c.readbuf
      if not (leb_ℤ readable (pos 0)) then f fd s₁ else some s₁)
  ]

-- TcpEndpoint::onRead. `close` is the virtual onClose.
module _ (cb : Callbacks) (close : ℕ → Endpoint → Option Endpoint) where
  unfoldable pub on_read : ℕ → List Answer → Endpoint → Option (Option Bool × Endpoint)
  on_read fd [] s = some (none, s)
  on_read fd (a ∷ answers) s = elim (is_zero a.len) [
    | true ↦ (do s' ← close fd s; some (some true, s'))
    | false ↦ elim (store_read fd a s) [
      | none ↦ none
      | some s₁ ↦ elim (a.errno == eagain) [
        | true ↦ (do s₂ ← reading_done cb fd s₁; some (some false, s₂))
        | false ↦ on_read fd answers s₁
      ]
    ]
  ]

-- TcpEndpoint::onWrite
-- Before the call: the bytes at the pointer that are offered to `write`.
unfoldable pub offer : Buffer → Option (List ℕ)
offer b = do
  readable ← Buffer.readable b
  load b.cells b.reader
      (if ltb_ℤ (pos buffer_each_time_size) readable then pos buffer_each_time_size else readable)

unfoldable pub start_write : ℕ → Endpoint → Option (Channel × List ℕ)
start_write fd s = do c ← lookup fd s.channels; offered ← offer c.writebuf; some (c, offered)

unfoldable pub record_sent : ℕ → ℤ → List ℕ → Endpoint → Endpoint
record_sent fd (pos n) offered s = call (Call.sent fd (take n offered)) s
record_sent fd (negsuc n) offered s = s

-- EAGAIN: wait for more room if something is left to send.
unfoldable pub writing_later : ℕ → Endpoint → Option Endpoint
writing_later fd s = do
  c ← lookup fd s.channels
  readable ← Buffer.readable c.writebuf
  s₁ ←
      update_channel fd (if not (leb_ℤ readable (pos 0)) then bit_or epollin epollout else epollin)
        s
  epoll_set fd s₁

-- `write` has answered 0: the buffer is cleared.
unfoldable pub writing_done : ℕ → Endpoint → Option Endpoint
writing_done fd s = do
  c ← lookup fd s.channels
  update_channel fd epollin
      (put fd (record c { writebuf = Buffer.readall buffer_size c.writebuf }) s)

unfoldable pub on_write : ℕ → List Answer → Endpoint → Option (Option Bool × Endpoint)
on_write fd [] s = some (none, s)
on_write fd (a ∷ answers) s = elim (start_write fd s) [
  | none ↦ none
  | some (c, offered) ↦ elim (is_zero a.len) [
    | true ↦ (do s' ← writing_done fd s; some (some false, s'))
    | false ↦
        let s₁ =
          record_sent fd a.len offered
            (put fd (record c { writebuf = Buffer.read c.writebuf a.len }) s) in
        elim (a.errno == eagain) [
          | true ↦ (do s₂ ← writing_later fd s₁; some (some false, s₂))
          | false ↦ on_write fd answers s₁
        ]
  ]
]
