-- ===== src/Internet/Address.antt =====
-- codechiev/net/Internet.h: InetAddress. What `inet_aton` makes of a text is an argument: four bytes in network
-- order, or none for a text that is no address, and then it writes nothing.
use codechiev.Common.{ℕ, ◌≡◌, refl, Option, none, some, List, [], ◌∷◌, ◌++◌, replicate}
use codechiev.Internet.{htons}
use codechiev.Internet.Bytes.{Endian, be_bytes, in_memory, in_memory-swap}
use codechiev.Buffer.Memory.{c_str}

-- sockaddr_in
pub record SockaddrIn : Type 0 where
  pub sin_family : ℕ
  pub sin_port : ℕ
  pub sin_addr : List ℕ
  pub sin_zero : List ℕ

pub record InetAddress : Type 0 where
  pub ipaddr : List ℕ
  pub port : ℕ
  pub sockaddrin : SockaddrIn
  pub socklen : ℕ

abbrev pub af_inet : ℕ
af_inet = 2

-- sizeof(struct sockaddr)
abbrev pub sockaddr_size : ℕ
sockaddr_size = 16

abbrev pub zeros : ℕ → List ℕ
zeros n = replicate n 0

-- After memset.
abbrev pub cleared : SockaddrIn
cleared = record { sin_family = 0; sin_port = 0; sin_addr = zeros 4; sin_zero = zeros 8 }

-- InetAddress(): `ipaddr` is empty, and what is in `port` is an argument.
unfoldable pub new_empty : ℕ → InetAddress
new_empty port = record { ipaddr = []; port = port; sockaddrin = cleared; socklen = 0 }

abbrev pub written : Option (List ℕ) → List ℕ → List ℕ
written none old = old
written (some bytes) old = bytes

module _ (e : Endian) (inet_aton : List ℕ → Option (List ℕ)) where
  unfoldable pub new : List ℕ → ℕ → InetAddress
  new ip po = record {
    ipaddr = ip;
    port = po;
    sockaddrin = record cleared {
      sin_family = af_inet;
      sin_port = htons e po;
      sin_addr = written (inet_aton (c_str (ip ++ (0 ∷ [])))) cleared.sin_addr;
    };
    socklen = sockaddr_size;
  }

  -- What the system reads at the pointer to the address.
  abbrev pub in_bytes : SockaddrIn → List ℕ
  in_bytes a =
      in_memory e 2 a.sin_family ++ (in_memory e 2 a.sin_port ++ (a.sin_addr ++ a.sin_zero))

  new-in_bytes :
      (ip : List ℕ) (port : ℕ) (found : Option (List ℕ))
      → inet_aton (c_str (ip ++ (0 ∷ []))) ≡ found
      → in_bytes (new ip port).sockaddrin
        ≡ in_memory e 2 af_inet ++ (be_bytes 2 port ++ (written found (zeros 4) ++ zeros 8))
  unfolding new htons
  new-in_bytes ip port found asked = rw (in_memory-swap e 2 port, asked) refl

  -- The address of a text that `inet_aton` reads has the family, the port with its high byte first
  -- on a host of either byte order, and the bytes that were read; for a text that it refuses, which
  -- nobody looks at, it is the address 0.0.0.0 with this port, so that a server listens on every
  -- interface.
  pub new-addresses :
      (ip other bytes : List ℕ) (port : ℕ)
      → inet_aton (c_str (ip ++ (0 ∷ []))) ≡ some bytes
      → inet_aton (c_str (other ++ (0 ∷ []))) ≡ none
      → (in_bytes (new ip port).sockaddrin
          ≡ in_memory e 2 af_inet ++ (be_bytes 2 port ++ (bytes ++ zeros 8)))
        × (in_bytes (new other port).sockaddrin
            ≡ in_memory e 2 af_inet ++ (be_bytes 2 port ++ (zeros 4 ++ zeros 8)))
  new-addresses ip other bytes port reads refuses =
      (new-in_bytes ip port (some bytes) reads, new-in_bytes other port none refuses)
