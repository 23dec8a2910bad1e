-- ===== src/Threads/Exclusion.antt =====
-- Guarded sections exclude each other.
use codechiev.Common.{ℕ, ◌≡◌, some}
use codechiev.Threads.{guarded, Process}

-- The thread that holds the mutex is the one in a guarded section.
abbrev pub IsExclusive : Process → Type 0
IsExclusive p =
    ((i : ℕ) → p.phases i ≡ guarded → p.owner ≡ some i)
    × ((i : ℕ) → p.owner ≡ some i → p.phases i ≡ guarded)
