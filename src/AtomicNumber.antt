-- ===== src/AtomicNumber.antt =====
-- codechiev/base/AtomicNumber.h: a number of `width` bits that threads change. Each built-in of the
-- compiler is one step, and a signed number is the word that stands for it.
pub mod Interleaving
use codechiev.Common.{ℕ, ◌+◌, ◌-◌, ◌%◌, ◌^◌, List, [], ◌∷◌}

-- The methods with their argument.
pub data Call : Type 0 where
  fetch_and_add add_and_fetch fetch_and_sub sub_and_fetch set : ℕ → Call

module _ (width : ℕ) where
  unfoldable pub plus : ℕ → ℕ → ℕ
  plus num n = (num + n) % 2 ^ width

  unfoldable pub minus : ℕ → ℕ → ℕ
  minus num n = (num + (2 ^ width - n % 2 ^ width)) % 2 ^ width

  -- What is returned (what is set, for `set`), and the number afterwards.
  unfoldable pub perform : Call → ℕ → ℕ × ℕ
  perform (fetch_and_add n) num = (num, plus num n)
  perform (add_and_fetch n) num = (plus num n, plus num n)
  perform (fetch_and_sub n) num = (num, minus num n)
  perform (sub_and_fetch n) num = (minus num n, minus num n)
  perform (set n) num = (n, n)

  unfoldable pub perform_all : List Call → ℕ → ℕ
  perform_all [] num = num
  perform_all (c ∷ cs) num = perform_all cs (perform c num).1
