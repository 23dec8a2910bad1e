-- ===== src/Buffer/Queue.antt =====
-- A bounded queue of bytes with the calls of a FixedBuffer.
use codechiev.Common.{
  ℕ, ◌+◌, ◌-◌, ◌≡◌, Option, none, some, List, [], ◌∷◌, ◌++◌, length, take, drop, pos, leb, ltb,
  if◌then◌else◌, ◌>>=◌,
}
use codechiev.Buffer.{Buffer, read, move, append, readall}
use codechiev.Buffer.Layout.{layout, Fills}

-- The bytes that can be read, and how many cells in front of them are read already.
pub record Queue : Type 0 where
  pub bytes : List ℕ
  pub used : ℕ

pub data Op : Type 0 where
  appends : List ℕ → Op
  reads : ℕ → Op
  moves clears : Op

-- A call on the buffer itself.
unfoldable pub perform : ℕ → Buffer → Op → Option Buffer
perform size b (appends source) = do done ← append size b source (pos (length source)); some done.1
perform size b (reads n) = some (read b (pos n))
perform size b moves = move b
perform size b clears = some (readall size b)

unfoldable pub performs : ℕ → Buffer → List Op → Option Buffer
performs size b [] = some b
performs size b (op ∷ ops) = do b' ← perform size b op; performs size b' ops

-- The same call on the queue. It refuses a non-empty source when there is no room, and a `reads` past the end.
unfoldable pub room : ℕ → Queue → ℕ
room size q = size - 1 - (q.used + length q.bytes)

unfoldable pub step : ℕ → Queue → Op → Option Queue
unfolding room
step size q (appends []) = some q
step size q (appends (c ∷ cs)) =
    if ltb 0 (room size q)
    then some (record q { bytes = q.bytes ++ take (room size q) (c ∷ cs) })
    else none
step size q (reads n) =
    if leb n (length q.bytes)
    then some (record { bytes = drop n q.bytes; used = q.used + n })
    else none
step size q moves = some (record q { used = 0 })
step size q clears = some (record { bytes = []; used = 0 })

unfoldable pub steps : ℕ → Queue → List Op → Option Queue
steps size q [] = some q
steps size q (op ∷ ops) = do q' ← step size q op; steps size q' ops

-- The buffer holds the queue's bytes.
pub record Holds (size : ℕ) (b : Buffer) (q : Queue) : Type 0 where
  pub pre : List ℕ
  pub post : List ℕ
  pub shape : b ≡ layout pre q.bytes post
  pub fills : Fills size pre q.bytes post
  pub behind : length pre ≡ q.used
