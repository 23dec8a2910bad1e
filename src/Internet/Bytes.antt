-- ===== src/Internet/Bytes.antt =====
-- Numbers as bytes in the memory of a host.
use mathlib.Core.List.{reverse, reverse-cons, reverse-reverse}
use native.Mathlib.Nat.{pow-suc}
use codechiev.Common.{
  ℕ, zero, suc, ◌+◌, ◌*◌, ◌/◌, ◌%◌, ◌^◌, ◌<◌, ◌≡◌, refl, sym, ap, ◌∙◌, List, [], ◌∷◌, ◌++◌, length,
  All, arith, length-append,
}

pub data Endian : Type 0 where
  little big : Endian

-- The `n` low bytes of a number, lowest first, and the number that bytes stand for.
abbrev pub le_bytes : ℕ → ℕ → List ℕ
le_bytes zero v = []
le_bytes (suc n) v = v % 256 ∷ le_bytes n (v / 256)

abbrev pub of_le : List ℕ → ℕ
of_le [] = 0
of_le (b ∷ bs) = b + 256 * of_le bs

-- Network byte order: highest byte first.
abbrev pub be_bytes : ℕ → ℕ → List ℕ
be_bytes n v = reverse (le_bytes n v)

-- How an unsigned integer of `n` bytes lies in memory, and how it is read back.
unfoldable pub in_memory : Endian → ℕ → ℕ → List ℕ
in_memory little n v = le_bytes n v
in_memory big n v = be_bytes n v

unfoldable pub from_memory : Endian → List ℕ → ℕ
from_memory little bs = of_le bs
from_memory big bs = of_le (reverse bs)

unfoldable pub swap : Endian → ℕ → ℕ → ℕ
swap little n v = of_le (be_bytes n v)
swap big n v = v

abbrev pub IsByte : ℕ → Type 0
IsByte b = b < 256

pub length-le_bytes : (n v : ℕ) → length (le_bytes n v) ≡ n
length-le_bytes zero v = refl
length-le_bytes (suc n) v = ap suc (length-le_bytes n (v / 256))

pub length-reverse : (bs : List ℕ) → length (reverse bs) ≡ length bs
length-reverse [] = refl
length-reverse (b ∷ bs) =
    omega
      (arith, ap length (reverse-cons b bs), length-append (reverse bs) (b ∷ []), length-reverse bs)

pub length-be_bytes : (n v : ℕ) → length (be_bytes n v) ≡ n
length-be_bytes n v = length-reverse (le_bytes n v) ∙ length-le_bytes n v

All-append : (bs cs : List ℕ) → All IsByte bs → All IsByte cs → All IsByte (bs ++ cs)
All-append [] cs h k = k
All-append (b ∷ bs) cs h k = (h.0, All-append bs cs h.1 k)

All-reverse : (bs : List ℕ) → All IsByte bs → All IsByte (reverse bs)
All-reverse [] h = tt
All-reverse (b ∷ bs) h =
    rw (reverse-cons b bs) (All-append (reverse bs) (b ∷ []) (All-reverse bs h.1) (h.0, tt))

le_bytes-All : (n v : ℕ) → All IsByte (le_bytes n v)
le_bytes-All zero v = tt
le_bytes-All (suc n) v = (omega arith, le_bytes-All n (v / 256))

pub be_bytes-All : (n v : ℕ) → All IsByte (be_bytes n v)
be_bytes-All n v = All-reverse (le_bytes n v) (le_bytes-All n v)

pub le_bytes-of_le : (bs : List ℕ) → All IsByte bs → le_bytes (length bs) (of_le bs) ≡ bs
le_bytes-of_le [] h = refl
le_bytes-of_le (b ∷ bs) h =
    let low : (b + 256 * of_le bs) % 256 ≡ b = omega (arith, h.0) in
    let high : (b + 256 * of_le bs) / 256 ≡ of_le bs = omega (arith, h.0) in
    rw (low, high, le_bytes-of_le bs h.1) refl

pub of_le-le_bytes : (n v : ℕ) → v < 256 ^ n → of_le (le_bytes n v) ≡ v
of_le-le_bytes zero v h = omega arith
of_le-le_bytes (suc n) v h =
    omega (arith, of_le-le_bytes n (v / 256) (omega (arith, pow-suc 256 n)))

pub of_le-append : (bs cs : List ℕ) → of_le (bs ++ cs) ≡ of_le bs + 256 ^ length bs * of_le cs
of_le-append [] cs = omega arith
of_le-append (b ∷ bs) cs =
    omega (arith, of_le-append bs cs, ap (λ (p : ℕ). p * of_le cs) (pow-suc 256 (length bs)))

-- Swapped on the host, a number lies in memory highest byte first, on either host.
pub in_memory-swap : (e : Endian) (n v : ℕ) → in_memory e n (swap e n v) ≡ be_bytes n v
unfolding in_memory swap
in_memory-swap little n v =
    ap (λ (k : ℕ). le_bytes k (of_le (be_bytes n v))) (sym (length-be_bytes n v))
    ∙ le_bytes-of_le (be_bytes n v) (be_bytes-All n v)
in_memory-swap big n v = refl

-- Read from memory and swapped back, network bytes give their number.
pub swap-from_memory :
    (e : Endian) (n v : ℕ) → v < 256 ^ n → swap e n (from_memory e (be_bytes n v)) ≡ v
unfolding from_memory swap
swap-from_memory little n v h =
    rw
      (
        ap (λ (k : ℕ). le_bytes k (of_le (be_bytes n v))) (sym (length-be_bytes n v))
            ∙ le_bytes-of_le (be_bytes n v) (be_bytes-All n v),
        reverse-reverse (le_bytes n v),
      )
      (of_le-le_bytes n v h)
swap-from_memory big n v h = rw (reverse-reverse (le_bytes n v)) (of_le-le_bytes n v h)

pub of_le-lt : (bs : List ℕ) → All IsByte bs → of_le bs < 256 ^ length bs
of_le-lt [] h = omega arith
of_le-lt (b ∷ bs) h = omega (arith, of_le-lt bs h.1, h.0, pow-suc 256 (length bs))

pub of_le-be_bytes-lt : (n v : ℕ) → of_le (be_bytes n v) < 256 ^ n
of_le-be_bytes-lt n v = omega (
  arith,
  of_le-lt (be_bytes n v) (be_bytes-All n v),
  ap (λ (k : ℕ). 256 ^ k) (length-be_bytes n v),
)

pub from_memory-be_bytes-lt :
    (e : Endian) (n v : ℕ) → v < 256 ^ n → from_memory e (be_bytes n v) < 256 ^ n
unfolding from_memory
from_memory-be_bytes-lt little n v h = of_le-be_bytes-lt n v
from_memory-be_bytes-lt big n v h =
    omega (arith, ap of_le (reverse-reverse (le_bytes n v)), of_le-le_bytes n v h)
