-- ===== src/Utils/Ids.antt =====
-- pkg/utils/idutils/id_utils.go. sonyflake and hashids are parameters.
use kubesphere_schedule.Base.Words.{of_bits}
use kubesphere_schedule.Base.Int.{ℤ}
use kubesphere_schedule.Utils.Reverse.{reverse}
use kubesphere_schedule.Base.Results.{ok, failed, Result}
use kubesphere_schedule.Base.{
  ◌≡◌, ◌∷◌, ◌^◌, ◌<◌, ◌+◌, ◌*◌, ◌%◌, ℕ, true, some, returned, panicked, none, join, false, arith,
  [], String, Outcome, Option, List, Bool,
}

-- The four bytes of an address.
pub record Ip : Type 0 where
  pub b0 : ℕ
  pub b1 : ℕ
  pub b2 : ℕ
  pub b3 : ℕ

-- A `net.Addr`: an `IPNet`, with its `IsLoopback` and its `To4`, or another one.
pub data Addr : Type 0 where
  ip_net : (loopback : Bool) → (to4 : Option Ip) → Addr
  other_addr : Addr

-- The loop over the addresses.
unfoldable pub first_ipv4 : List Addr → Result Ip
first_ipv4 [] = failed "no ip address"
first_ipv4 (other_addr ∷ addrs) = first_ipv4 addrs
first_ipv4 (ip_net loopback none ∷ addrs) = first_ipv4 addrs
first_ipv4 (ip_net true (some ip) ∷ addrs) = first_ipv4 addrs
first_ipv4 (ip_net false (some ip) ∷ addrs) = ok ip

-- `ipv4` over the answer of `net.InterfaceAddrs`.
unfoldable pub ipv4 : Result (List Addr) → Result Ip
unfolding first_ipv4
ipv4 (failed e) = failed e
ipv4 (ok addrs) = first_ipv4 addrs

-- `uint16(a)<<8 + uint16(b)`.
abbrev pub uint16_of : ℕ → ℕ → ℕ
uint16_of a b = ((a * 2 ^ 8) % 2 ^ 16 + b) % 2 ^ 16

-- The number and the error; the number is 0 beside an error.
unfoldable pub lower16_bit_ip : Result (List Addr) → ℕ × Option String
unfolding ipv4
lower16_bit_ip addrs = elim (ipv4 addrs) [
  | failed e ↦ (0, some e)
  | ok ip ↦ (uint16_of ip.b2 ip.b3, none)
]

unfoldable pub upper16_bit_ip : Result (List Addr) → ℕ × Option String
unfolding ipv4
upper16_bit_ip addrs = elim (ipv4 addrs) [
  | failed e ↦ (0, some e)
  | ok ip ↦ (uint16_of ip.b0 ip.b1, none)
]

-- `sf` and `upperMachineID` behind `init`: `new_default` is `NewSonyflake` of empty settings, `new_with`
-- of settings with a machine's number; both give nil where it cannot be made.
unfoldable pub init_ids :
    {S : Type 0} → Option S → (ℕ × Option String → Option S) → Result (List Addr) → Option S × ℕ
unfolding lower16_bit_ip upper16_bit_ip
init_ids (some sf) new_with addrs = (some sf, 0)
init_ids none new_with addrs = (new_with (lower16_bit_ip addrs), (upper16_bit_ip addrs).0)

-- `next_id` is `NextID` of the generator, `encode` is `Encode` of the hash of an alphabet.
unfoldable pub get_int_id : Result ℕ → Outcome ℕ
get_int_id (ok id) = returned id
get_int_id (failed e) = panicked

abbrev pub or_panic : Result String → Outcome String
or_panic (ok s) = returned s
or_panic (failed e) = panicked

abbrev pub int_of : ℕ → ℤ
int_of n = of_bits (n % 2 ^ 64)

unfoldable pub encode_id :
    (ℤ → Result String) → (turn : String → String) → String → Outcome ℕ → Outcome String
encode_id encode turn prefix panicked = panicked
encode_id encode turn prefix (returned id) = elim (encode (int_of id)) [
  | failed e ↦ panicked
  | ok i ↦ returned (join prefix (turn i))
]

-- `make_hash` makes the hash of an alphabet, where `none` is the default one.
unfoldable pub get_uuid :
    (Option String → Result (ℤ → Result String)) → Result ℕ → String → Outcome String
unfolding get_int_id encode_id reverse
get_uuid make_hash next_id prefix = elim (make_hash none) [
  | failed e ↦ panicked
  | ok encode ↦ encode_id encode reverse prefix (get_int_id next_id)
]

-- `turn` is the `Reverse` of golang.org/x/example/stringutil.
unfoldable pub get_uuid36 :
    (turn : String → String)
    → (Option String → Result (ℤ → Result String))
    → Result ℕ
    → String
    → Outcome String
unfolding get_int_id encode_id
get_uuid36 turn make_hash next_id prefix =
    elim (make_hash (some "abcdefghijklmnopqrstuvwxyz1234567890")) [
      | failed e ↦ panicked
      | ok encode ↦ encode_id encode turn prefix (get_int_id next_id)
    ]

abbrev pub IsIp : Ip → Type 0
IsIp ip = (ip.b0 < 2 ^ 8) × (ip.b1 < 2 ^ 8) × (ip.b2 < 2 ^ 8) × (ip.b3 < 2 ^ 8)

-- The two numbers of 16 bits lose nothing of the address: with no overflow they are the two halves
-- of its 32 bits, and both fit 16 bits.
pub upper_lower-ip :
    (addrs : Result (List Addr)) (ip : Ip)
    → ipv4 addrs ≡ ok ip
    → IsIp ip
    → ((upper16_bit_ip addrs).0 * 2 ^ 16 + (lower16_bit_ip addrs).0
        ≡ ip.b0 * 2 ^ 24 + ip.b1 * 2 ^ 16 + ip.b2 * 2 ^ 8 + ip.b3)
      × ((upper16_bit_ip addrs).0 < 2 ^ 16)
      × ((lower16_bit_ip addrs).0 < 2 ^ 16)
unfolding upper16_bit_ip lower16_bit_ip
upper_lower-ip addrs ip h fits = rw (upper16_bit_ip, lower16_bit_ip, h) (ground arith)
