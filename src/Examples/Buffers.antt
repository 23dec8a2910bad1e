-- ===== src/Examples/Buffers.antt =====
-- A buffer of four cells, and numbers in network order.
use codechiev.Common.{◌≡◌, refl, some, List, [], ◌∷◌, arith}
use codechiev.Buffer.{Buffer, new}
use codechiev.Buffer.Queue.{Queue, Op, appends, reads, moves, performs, step, steps, room, Holds}
use codechiev.Buffer.Refine.{new-Holds, performs_refine}

abbrev empty_queue : Queue
empty_queue = record { bytes = []; used = 0 }

abbrev empty-Holds : Holds 4 (new 4) empty_queue
empty-Holds = new-Holds 4 (omega arith)

abbrev calls : List Op
calls = appends (1 ∷ 2 ∷ []) ∷ reads 1 ∷ moves ∷ appends (3 ∷ 4 ∷ 5 ∷ []) ∷ []

calls-steps : steps 4 empty_queue calls ≡ some (record { bytes = 2 ∷ 3 ∷ 4 ∷ []; used = 0 })
unfolding steps step room
calls-steps = refl

performs_refine_example :
    (b : Buffer) × (performs 4 (new 4) calls ≡ some b)
    × Holds 4 b (record { bytes = 2 ∷ 3 ∷ 4 ∷ []; used = 0 })
performs_refine_example = performs_refine 4 (new 4) empty_queue calls _ empty-Holds calls-steps
