-- ===== src/Endpoint/Calls.antt =====
-- The system calls that an endpoint makes.
use codechiev.Common.{ℕ, List}

pub data Call : Type 0 where
  ctl_add ctl_mod : (fd events : ℕ) → Call
  ctl_del close shutdown set_non_block set_reuse_addr set_keep_alive : (fd : ℕ) → Call
  sent : (fd : ℕ) → List ℕ → Call
