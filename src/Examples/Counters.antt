-- ===== src/Examples/Counters.antt =====
-- Two threads that change a number of eight bits, and one mutex.
use codechiev.Common.{ℕ, ◌+◌, ◌%◌, ◌^◌, ◌≡◌, some, List, [], ◌∷◌, arith}
use codechiev.AtomicNumber.{Call, add_and_fetch, fetch_and_sub, perform_all}
use codechiev.AtomicNumber.Interleaving.{
  here, there, all_done, thread_done, next, sum, perform_all-interleaved,
}
use codechiev.Threads.{Phase, over}
use codechiev.Threads.{Process, running, guarded, set_phase, created}

-- One thread adds 200 and 100, the other subtracts 1 in between.
abbrev adding : List Call
adding = add_and_fetch 200 ∷ add_and_fetch 100 ∷ []

abbrev subtracting : List Call
subtracting = fetch_and_sub 1 ∷ []

perform_all-interleaved_example :
    perform_all 8 (add_and_fetch 200 ∷ fetch_and_sub 1 ∷ add_and_fetch 100 ∷ []) 5
    ≡ (5 + sum 8 (adding ∷ subtracting ∷ [])) % 2 ^ 8
perform_all-interleaved_example =
    perform_all-interleaved 8 5
      (next here (next (there here) (next here (thread_done (thread_done all_done)))))
      ((tt, (tt, tt)), ((tt, tt), tt)) (omega arith)

-- The first thread is cancelled in its section.
abbrev ended : ℕ → Phase
ended =
    set_phase 1 over
      (set_phase 1 running (set_phase 1 guarded (set_phase 1 running (λ _. created))))

abbrev inside : Process
inside = record { owner = some 2; phases = set_phase 2 guarded (set_phase 2 running ended) }
