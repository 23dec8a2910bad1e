-- ===== src/Internet.antt =====
-- codechiev/net/Internet.h: network byte order. The host's byte order is an argument; `htons` and
-- `htonl` are the C library's, which swap the bytes on a little-endian host and do nothing on a
-- big-endian one (`ntohs` and `ntohl` are the same functions).
pub mod Bytes
pub mod BitOr
pub mod Order
pub mod Address
use Prim.Native.Nat.{bit_or}
use codechiev.Common.{ℕ, ◌+◌, ◌*◌, ◌/◌, ◌%◌, ◌^◌, Bool, List, if◌then◌else◌, ◌==◌}
use Bytes.{Endian, swap}

unfoldable pub htons : Endian → ℕ → ℕ
htons e v = swap e 2 v

unfoldable pub htonl : Endian → ℕ → ℕ
htonl e v = swap e 4 v

-- the macros htonll and ntohll, for a uint64_t
unfoldable pub htonll : Endian → ℕ → ℕ
unfolding htonl
htonll e x =
    if 1 == htonl e 1
    then x
    else (bit_or (htonl e (x % 2 ^ 32) * 2 ^ 32 % 2 ^ 64) (htonl e (x / 2 ^ 32)))

unfoldable pub host_to_network16 : Endian → ℕ → ℕ
host_to_network16 e v = htons e v

unfoldable pub host_to_network32 : Endian → ℕ → ℕ
host_to_network32 e v = htonl e v

unfoldable pub host_to_network64 : Endian → ℕ → ℕ
host_to_network64 e v = htonll e v

unfoldable pub network_to_host16 : Endian → ℕ → ℕ
network_to_host16 e v = htons e v

unfoldable pub network_to_host32 : Endian → ℕ → ℕ
network_to_host32 e v = htonl e v

unfoldable pub network_to_host64 : Endian → ℕ → ℕ
network_to_host64 e v = htonll e v
