-- ===== src/Buffer.antt =====
-- codechiev/base/FixedBuffer.h: a fixed array with a writer and a reader offset.
-- `size` is BUFFER_SIZE; an `int` is an integer. An operation returns `none` where an assert
-- fails, where memory outside the array or the source is touched, and where `append` ends without
-- its return statement. A pointer is an offset into the array. `memcpy` and `memset` copy from the
-- low end up.
pub mod Memory
pub mod Layout
pub mod Append
pub mod Consume
pub mod Queue
pub mod Refine
use codechiev.Common.{
  ℕ, zero, suc, ◌+◌, ◌-◌, ◌≤◌, Bool, true, false, Option, none, some, List, [], ◌∷◌, ◌++◌, length,
  take, drop, replicate, leb, ltb, if◌then◌else◌, ℤ, pos, negsuc, ◌+ℤ◌, ◌-ℤ◌, ltb_ℤ, leb_ℤ, guard,
  ◌>>=◌, ◌>>◌, ◌==◌,
}
use Memory.{load, load_from, store, c_str}

pub record Buffer : Type 0 where
  pub writer : ℤ
  pub reader : ℤ
  pub cells : List ℕ

-- FixedBuffer()
unfoldable pub new : ℕ → Buffer
new size = record { writer = pos 0; reader = pos 0; cells = replicate size 0 }

unfoldable pub readable : Buffer → Option ℤ
readable b = let rb = b.writer -ℤ b.reader in do guard (leb_ℤ (pos 0) rb); some rb

-- void read(int len)
unfoldable pub read : Buffer → ℤ → Buffer
read b len = record b { reader = b.reader +ℤ len }

unfoldable pub move : Buffer → Option Buffer
move b = do
  rb ← readable b
  bytes ← load b.cells b.reader rb
  moved ← store b.cells (pos 0) bytes
  cells ← store moved rb (0 ∷ [])
  some (record { writer = rb; reader = pos 0; cells = cells })

-- const char* str(): what can be read at the pointer.
unfoldable pub str : Buffer → Option (List ℕ)
str b = load_from b.cells b.reader

module _ (size : ℕ) where
  unfoldable pub writable : Buffer → Option ℤ
  writable b = let wb = (pos size -ℤ pos 1) -ℤ b.writer in do guard (leb_ℤ (pos 0) wb); some wb

  unfoldable pub write : Buffer → ℤ → Option Buffer
  write b len =
      let w = b.writer +ℤ len in
      do
        guard (ltb_ℤ w (pos size))
        cells ← store b.cells w (0 ∷ [])
        some (record b { writer = w; cells = cells })

  -- One of the two branches that copy: memcpy, write, return.
  unfoldable pub copy_in : Buffer → List ℕ → ℤ → Option (ℤ × Buffer)
  copy_in b source len = do
    bytes ← load source (pos 0) len
    cells ← store b.cells b.writer bytes
    b' ← write (record b { cells = cells }) len
    some (len, b')

  -- int append(const char *str, int len); the bytes that can be read at `str` are `source`.
  unfoldable pub append : Buffer → List ℕ → ℤ → Option (ℤ × Buffer)
  append b source len = if leb_ℤ len (pos 0) then some (pos 0, b) else (do
    wb ← writable b
    if ltb_ℤ len wb
        then copy_in b source len
        else (if ltb_ℤ (pos 0) wb then copy_in b source wb else none))

  -- int append(const char *str): the length is that of the text in front of the first 0.
  unfoldable pub append_str : Buffer → List ℕ → Option (ℤ × Buffer)
  append_str b source = append b (c_str source) (pos (length (c_str source)))

  unfoldable pub readall : Buffer → Buffer
  readall b = record { writer = pos 0; reader = pos 0; cells = replicate size 0 }
