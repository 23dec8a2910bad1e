-- ===== src/Internet/BitOr.antt =====
-- `hi << k | lo` is a sum where `lo` has k bits.
use Prim.Native.Nat.{bit_or, digits, bit_or-bitwise, max}
use native.Mathlib.Nat.{pow-suc}
use codechiev.Common.{ℕ, zero, suc, ◌+◌, ◌*◌, ◌/◌, ◌%◌, ◌^◌, ◌≤◌, ◌<◌, ◌≡◌, refl, ap, arith}

abbrev or_digits : ℕ → ℕ → ℕ → ℕ
or_digits fuel a b = digits (λ y. y) max fuel a b

-- Any fuel that is not less than the first argument gives the same.
or_digits_enough : (m n a b : ℕ) → a ≤ m → a ≤ n → or_digits m a b ≡ or_digits n a b
or_digits_enough zero zero zero b hm hn = refl
or_digits_enough zero (suc n) zero b hm hn = refl
or_digits_enough (suc m) zero zero b hm hn = refl
or_digits_enough (suc m) (suc n) zero b hm hn = refl
or_digits_enough zero n (suc a) b hm hn = absurd (omega arith)
or_digits_enough (suc m) zero (suc a) b hm hn = absurd (omega arith)
or_digits_enough (suc m) (suc n) (suc a) b hm hn =
    ap (λ (r : ℕ). r * 2 + max (suc a % 2) (b % 2))
      (or_digits_enough m n (suc a / 2) (b / 2) (omega arith) (omega arith))

-- The lowest binary digit of `|`.
bit_or-halves : (a b : ℕ) → bit_or a b ≡ bit_or (a / 2) (b / 2) * 2 + max (a % 2) (b % 2)
bit_or-halves zero b = omega (arith, zero_or b, zero_or (b / 2))
  where
    zero_or : (c : ℕ) → bit_or 0 c ≡ c
    zero_or c = bit_or-bitwise 0 c
bit_or-halves (suc a) b = omega (
  arith,
  whole,
  halves,
  or_digits_enough a (suc a / 2) (suc a / 2) (b / 2) (omega arith) (omega arith),
)
  where
    whole : bit_or (suc a) b ≡ or_digits a (suc a / 2) (b / 2) * 2 + max (suc a % 2) (b % 2)
    whole = bit_or-bitwise (suc a) b

    halves : bit_or (suc a / 2) (b / 2) ≡ or_digits (suc a / 2) (suc a / 2) (b / 2)
    halves = bit_or-bitwise (suc a / 2) (b / 2)

or-zero : (n a : ℕ) → a ≤ n → bit_or a 0 ≡ a
or-zero n zero h = refl
or-zero zero (suc a) h = absurd (omega arith)
or-zero (suc n) (suc a) h =
    omega (arith, bit_or-halves (suc a) 0, or-zero n (suc a / 2) (omega arith))

pub bit_or-shifted : (k hi lo : ℕ) → lo < 2 ^ k → bit_or (hi * 2 ^ k) lo ≡ hi * 2 ^ k + lo
bit_or-shifted zero hi lo h = ground (arith, or-zero hi hi)
bit_or-shifted (suc k) hi lo h =
    let double : hi * 2 ^ suc k ≡ hi * 2 ^ k * 2 =
      omega (arith, ap (λ (t : ℕ). hi * t) (pow-suc 2 k)) in
    let half : hi * 2 ^ suc k / 2 ≡ hi * 2 ^ k = omega (arith, double) in
    omega (
      arith,
      double,
      bit_or-halves (hi * 2 ^ suc k) lo,
      ap (λ (t : ℕ). bit_or t (lo / 2)) half,
      bit_or-shifted k hi (lo / 2) (omega (arith, pow-suc 2 k)),
    )
