-- ===== src/Examples/Hosts.antt =====
-- Addresses of hosts.
use codechiev.Common.{ℕ, ◌≡◌, refl, Option, none, some, List, [], ◌∷◌, ◌++◌}
use codechiev.Internet.Bytes.{little, be_bytes, in_memory}
use codechiev.Internet.Address
use codechiev.Internet.Address.{af_inet, zeros, in_bytes, new-addresses}
use codechiev.Buffer.Memory.{c_str}

-- Only "1" is an address, and stands for 0.0.0.1.
abbrev one_address : List ℕ → Option (List ℕ)
one_address [] = none
one_address (c ∷ []) = some (0 ∷ 0 ∷ 0 ∷ 1 ∷ [])
one_address (c ∷ d ∷ cs) = none

new-addresses_example :
    (in_bytes little one_address (Address.new little one_address (49 ∷ []) 80).sockaddrin
      ≡ in_memory little 2 af_inet ++ (be_bytes 2 80 ++ ((0 ∷ 0 ∷ 0 ∷ 1 ∷ []) ++ zeros 8)))
    × (in_bytes little one_address (Address.new little one_address [] 80).sockaddrin
        ≡ in_memory little 2 af_inet ++ (be_bytes 2 80 ++ (zeros 4 ++ zeros 8)))
unfolding c_str
new-addresses_example =
    new-addresses little one_address (49 ∷ []) [] (0 ∷ 0 ∷ 0 ∷ 1 ∷ []) 80 refl refl
