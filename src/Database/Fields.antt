-- ===== src/Database/Fields.antt =====
-- codechiev/db/orm.h: the fields of a mapped table. A pointer to a value is the bytes that can be
-- read there, up to the end of the value for a number.
use codechiev.Common.{
  ℕ, ◌-◌, ◌%◌, ◌^◌, ◌<◌, ◌≡◌, refl, ap, ◌∙◌, Option, none, some, List, [], ◌∷◌, ◌++◌, ℤ, pos,
  negsuc, ltb, if◌then◌else◌, arith, lt→ltb, ge→ltb, ◌≤ℤ◌, ◌<ℤ◌, All,
}
use codechiev.Internet.Bytes.{Endian, in_memory, from_memory}
use codechiev.Internet.{host_to_network32, network_to_host32, network_to_host64, host_to_network64}
use codechiev.Internet.Order.{network32_round_trip, network64_bytes, network64_read}
use codechiev.Buffer.Memory.{c_str, c_str-nonzero}

-- int64_t and uint64_t
abbrev pub to_uint64 : ℤ → ℕ
to_uint64 (pos n) = n % 2 ^ 64
to_uint64 (negsuc n) = 2 ^ 64 - 1 - n % 2 ^ 64

abbrev pub to_int64 : ℕ → ℤ
to_int64 w = if ltb w (2 ^ 63) then pos w else negsuc (2 ^ 64 - 1 - w)

-- int32_t and uint32_t
abbrev pub to_uint32 : ℤ → ℕ
to_uint32 (pos n) = n % 2 ^ 32
to_uint32 (negsuc n) = 2 ^ 32 - 1 - n % 2 ^ 32

abbrev pub to_int32 : ℕ → ℤ
to_int32 w = if ltb w (2 ^ 31) then pos w else negsuc (2 ^ 32 - 1 - w)

pub record IntField : Type 0 where
  pub value : ℤ
  pub netval : ℕ

-- Field<int64_t>
unfoldable pub get_net_value64 : Endian → IntField → List ℕ × IntField
get_net_value64 e f =
    let n = network_to_host64 e (to_uint64 f.value) in (in_memory e 8 n, record f { netval = n })

unfoldable pub set_value64 : ℕ → IntField → IntField
set_value64 t f = record f { value = to_int64 t }

unfoldable pub to_field64 : Endian → Option (List ℕ) → IntField → IntField
to_field64 e none f = f
to_field64 e (some bytes) f = set_value64 (network_to_host64 e (from_memory e bytes)) f

-- Field<int32_t>
unfoldable pub get_net_value32 : Endian → IntField → List ℕ × IntField
get_net_value32 e f =
    let n = host_to_network32 e (to_uint32 f.value) in (in_memory e 4 n, record f { netval = n })

unfoldable pub set_value32 : ℕ → IntField → IntField
set_value32 t f = record f { value = to_int32 t }

unfoldable pub to_field32 : Endian → Option (List ℕ) → IntField → IntField
to_field32 e none f = f
to_field32 e (some bytes) f = set_value32 (network_to_host32 e (from_memory e bytes)) f

-- Field<std::string>
unfoldable pub get_net_value_string : List ℕ → List ℕ
get_net_value_string t = t ++ (0 ∷ [])

unfoldable pub to_field_string : Option (List ℕ) → List ℕ → List ℕ
to_field_string none t = t
to_field_string (some bytes) t = c_str bytes

abbrev pub IsInt64 : ℤ → Type 0
IsInt64 v = (negsuc (2 ^ 63 - 1) ≤ℤ v) × (v <ℤ pos (2 ^ 63))

abbrev pub IsInt32 : ℤ → Type 0
IsInt32 v = (negsuc (2 ^ 31 - 1) ≤ℤ v) × (v <ℤ pos (2 ^ 31))

int64-uint64 : (v : ℤ) → IsInt64 v → to_int64 (to_uint64 v) ≡ v
int64-uint64 (pos n) h =
    let kept : n % 2 ^ 64 ≡ n = omega (arith, h.1) in
    rw (kept, lt→ltb n (2 ^ 63) (omega (arith, h.1))) refl
int64-uint64 (negsuc n) h =
    let kept : n % 2 ^ 64 ≡ n = omega (arith, h.0) in
    rw (kept, ge→ltb (2 ^ 64 - 1 - n) (2 ^ 63) (omega (arith, h.0)))
      (ap negsuc (omega (arith, h.0)))

int32-uint32 : (v : ℤ) → IsInt32 v → to_int32 (to_uint32 v) ≡ v
int32-uint32 (pos n) h =
    let kept : n % 2 ^ 32 ≡ n = omega (arith, h.1) in
    rw (kept, lt→ltb n (2 ^ 31) (omega (arith, h.1))) refl
int32-uint32 (negsuc n) h =
    let kept : n % 2 ^ 32 ≡ n = omega (arith, h.0) in
    rw (kept, ge→ltb (2 ^ 32 - 1 - n) (2 ^ 31) (omega (arith, h.0)))
      (ap negsuc (omega (arith, h.0)))

pub uint64-lt : (v : ℤ) → to_uint64 v < 2 ^ 64
uint64-lt (pos n) = omega arith
uint64-lt (negsuc n) = omega arith

uint32-lt : (v : ℤ) → to_uint32 v < 2 ^ 32
uint32-lt (pos n) = omega arith
uint32-lt (negsuc n) = omega arith

-- An int64_t that one field gives as network bytes is the number that another field reads from
-- them, whatever the byte orders of their hosts.
pub field64_round_trip :
    (e e' : Endian) (f g : IntField)
    → IsInt64 f.value
    → (to_field64 e' (some (get_net_value64 e f).0) g).value ≡ f.value
unfolding to_field64 get_net_value64 set_value64 network_to_host64 host_to_network64
field64_round_trip e e' f g h =
    let u : ℕ = to_uint64 f.value in
    ap (λ (bs : List ℕ). to_int64 (network_to_host64 e' (from_memory e' bs)))
      (network64_bytes e e' u (uint64-lt f.value))
    ∙ ap to_int64 (network64_read e' e u (uint64-lt f.value))
    ∙ int64-uint64 f.value h

-- An int32_t that one field gives as network bytes is the number that another field reads from
-- them, whatever the byte orders of their hosts.
pub field32_round_trip :
    (e e' : Endian) (f g : IntField)
    → IsInt32 f.value
    → (to_field32 e' (some (get_net_value32 e f).0) g).value ≡ f.value
unfolding to_field32 get_net_value32 set_value32
field32_round_trip e e' f g h =
    ap to_int32 (network32_round_trip e e' (to_uint32 f.value) (uint32-lt f.value))
    ∙ int32-uint32 f.value h

-- A text without a 0 byte is read back by a text field as it was given.
pub field_string_round_trip :
    (t u : List ℕ) → All (λ c. 0 < c) t → to_field_string (some (get_net_value_string t)) u ≡ t
unfolding to_field_string get_net_value_string
field_string_round_trip t u h = c_str-nonzero t [] h
