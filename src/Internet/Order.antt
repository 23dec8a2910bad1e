-- ===== src/Internet/Order.antt =====
-- Numbers in network order mean the same on hosts of either byte order.
use codechiev.Common.{ℕ, ◌*◌, ◌/◌, ◌%◌, ◌^◌, ◌<◌, ◌≡◌, refl, arith}
use codechiev.Internet.{
  htons, htonl, htonll, host_to_network16, host_to_network32, host_to_network64, network_to_host16,
  network_to_host32, network_to_host64,
}
use codechiev.Internet.BitOr.{bit_or-shifted}
use codechiev.Internet.Bytes.{
  Endian, little, big, of_le, be_bytes, in_memory, from_memory, swap, in_memory-swap,
  swap-from_memory, from_memory-be_bytes-lt, of_le-be_bytes-lt,
}

-- On a little-endian host the two halves of the macro make up the swapped number.
htonll-swap : (e : Endian) (x : ℕ) → x < 2 ^ 64 → htonll e x ≡ swap e 8 x
unfolding htonll swap
htonll-swap big x h = refl
htonll-swap little x h =
    let lo : ℕ = of_le (be_bytes 4 (x % 2 ^ 32)) in
    let hi : ℕ = of_le (be_bytes 4 (x / 2 ^ 32)) in
    let small : lo < 2 ^ 32 = of_le-be_bytes-lt 4 (x % 2 ^ 32) in
    let fits : hi < 2 ^ 32 = of_le-be_bytes-lt 4 (x / 2 ^ 32) in
    let kept : lo * 2 ^ 32 % 2 ^ 64 ≡ lo * 2 ^ 32 = omega (arith, small) in
    rw (kept, bit_or-shifted 32 lo hi fits) (omega arith)

module _ (e e' : Endian) (v : ℕ) where
  -- A 16-bit number in network order, written to memory by one host, is read and turned back by
  -- another as the same number, whatever the byte orders of both.
  pub network16_round_trip :
      v < 2 ^ 16 → network_to_host16 e' (from_memory e' (in_memory e 2 (host_to_network16 e v))) ≡ v
  unfolding network_to_host16 host_to_network16 htons
  network16_round_trip h = rw (in_memory-swap e 2 v) (swap-from_memory e' 2 v h)

  pub network32_bytes : in_memory e 4 (host_to_network32 e v) ≡ be_bytes 4 v
  unfolding host_to_network32 htonl
  network32_bytes = in_memory-swap e 4 v

  pub network32_read : v < 2 ^ 32 → network_to_host32 e (from_memory e (be_bytes 4 v)) ≡ v
  unfolding network_to_host32 htonl
  network32_read h = swap-from_memory e 4 v h

  -- A number below 2 ^ 64 in network order lies in memory highest byte first, on hosts of either
  -- byte order.
  pub network64_bytes : v < 2 ^ 64 → in_memory e 8 (host_to_network64 e v) ≡ be_bytes 8 v
  unfolding host_to_network64
  network64_bytes h = rw (htonll-swap e v h) (in_memory-swap e 8 v)

  pub network64_read : v < 2 ^ 64 → network_to_host64 e (from_memory e (be_bytes 8 v)) ≡ v
  unfolding network_to_host64
  network64_read h =
      rw (htonll-swap e (from_memory e (be_bytes 8 v)) (from_memory-be_bytes-lt e 8 v h))
        (swap-from_memory e 8 v h)

  pub network32_round_trip :
      v < 2 ^ 32 → network_to_host32 e' (from_memory e' (in_memory e 4 (host_to_network32 e v))) ≡ v
  unfolding network_to_host32 host_to_network32 htonl
  network32_round_trip h = rw (in_memory-swap e 4 v) (swap-from_memory e' 4 v h)
