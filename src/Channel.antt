-- ===== src/Channel.antt =====
-- codechiev/net/Channel.hpp and Channel.cpp: a socket with its two buffers. What the system calls
-- answer (`::close`, `::fcntl`, `::setsockopt`) is not part of a channel's state.
use codechiev.Common.{ℕ, ◌*◌, Bool, false, Option, some, List, [], ◌∷◌, ◌++◌, ◌>>=◌}
use codechiev.Buffer
use codechiev.Buffer.{Buffer}

abbrev pub buffer_size : ℕ
buffer_size = 1024 * 8

abbrev pub buffer_each_time_size : ℕ
buffer_each_time_size = 256

pub record Channel : Type 0 where
  pub fd : ℕ
  pub event : ℕ
  pub connected : Bool
  pub readbuf : Buffer
  pub writebuf : Buffer

unfoldable pub new : ℕ → Channel
new fd = record {
  fd = fd;
  event = 0;
  connected = false;
  readbuf = Buffer.new buffer_size;
  writebuf = Buffer.new buffer_size;
}

unfoldable pub set_event : ℕ → Channel → Channel
set_event e c = record c { event = e }

unfoldable pub set_connected : Bool → Channel → Channel
set_connected val c = record c { connected = val }

-- What `close` does to the channel beside calling `::close`.
unfoldable pub close : Channel → Channel
close c = record c { connected = false }

-- The message goes through `msg.c_str()`, so it ends at its first 0.
unfoldable pub write : Channel → List ℕ → Option Channel
write c msg = do
  done ← Buffer.append_str buffer_size c.writebuf (msg ++ (0 ∷ []))
  some (record c { writebuf = done.1 })
