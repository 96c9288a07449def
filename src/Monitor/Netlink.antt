-- ===== src/Monitor/Netlink.antt =====
-- `ipv4_addresses` and `vip` of docker/home-service-monitor/monitor.py: the kernel's dump of the
-- addresses of this host. A message is a list of bytes, and `struct.unpack` reads them in the order
-- of a little-endian machine. An address is its four bytes.
pub mod Fuel
use my_infra.Prelude.{
  ℕ, zero, suc, ◌+◌, ◌*◌, ◌/◌, Bool, true, false, not, ◌&&◌, ◌||◌, List, [], ◌∷◌, ◌++◌, String,
  take, drop, length, ltb, leb, ◌==◌, nat_eq, if◌then◌else◌,
}
use my_infra.Prelude.Action.{Result, ok, err}
use my_infra.Monitor.Metrics.{Error, value_error, timeout_error, other_error, out_of_fuel, flag}
use my_infra.Monitor.Scan.{Act, add}

abbrev pub Bytes : Type 0
Bytes = List ℕ

-- What stands at an offset.
abbrev pub first : Bytes → ℕ
first [] = 0
first (b ∷ bs) = b

abbrev pub byte_at : Bytes → ℕ → ℕ
byte_at d i = first (drop i d)

unfoldable pub u16 : Bytes → ℕ → ℕ
u16 d i = byte_at d i + 256 * byte_at d (i + 1)

unfoldable pub u32 : Bytes → ℕ → ℕ
unfolding u16
u32 d i = u16 d i + 65_536 * u16 d (i + 2)

-- `(n + 3) & ~3`
unfoldable pub align : ℕ → ℕ
align n = (n + 3) / 4 * 4

abbrev pub Addresses : Type 0
Addresses = List Bytes

abbrev bytes_eqb : Bytes → Bytes → Bool
bytes_eqb [] [] = true
bytes_eqb [] (y ∷ ys) = false
bytes_eqb (x ∷ xs) [] = false
bytes_eqb (x ∷ xs) (y ∷ ys) = (x == y) && bytes_eqb xs ys

unfoldable pub has_address : Addresses → Bytes → Bool
has_address [] a = false
has_address (b ∷ bs) a = bytes_eqb b a || has_address bs a

-- `addresses.add(socket.inet_ntoa(a))`, which raises if there are not four bytes.
unfoldable pub add_address : Bytes → Addresses → Result Error Addresses
unfolding has_address
add_address a addresses =
    if length a == 4
    then ok (if has_address addresses a then addresses else addresses ++ (a ∷ []))
    else err other_error

-- The loop over the attributes of a message that ends at `stop`.
unfoldable pub read_attributes : ℕ → Bytes → ℕ → ℕ → Addresses → Result Error Addresses
unfolding u16 align add_address
read_attributes zero d attribute stop addresses = err out_of_fuel
read_attributes (suc fuel) d attribute stop addresses =
    let size = u16 d attribute in
    let kind = u16 d (attribute + 2) in
    let next = λ (found : Addresses). read_attributes fuel d (attribute + align size) stop found in
    let added =
      elim (add_address (take 4 (drop (attribute + 4) d)) addresses)
        as (λ r. Result Error Addresses) [ err e ↦ err e | ok found ↦ next found ] in
    if not (leb (attribute + 4) stop)
    then ok addresses
    else if ltb size 4
    then err value_error
    else if (kind == 2) && (size == 8)
    then added
    else next addresses

-- Whether the dump has ended, with the addresses so far.
pub data Progress : Type 0 where
  ended : Addresses → Progress
  unfinished : Addresses → Progress

-- The loop over the messages of a datagram.
unfoldable pub read_messages : ℕ → Bytes → ℕ → Addresses → Result Error Progress
unfolding u32 u16 align read_attributes
read_messages zero d offset addresses = err out_of_fuel
read_messages (suc fuel) d offset addresses =
    let size = u32 d offset in
    let kind = u16 d (offset + 4) in
    let sequence = u32 d (offset + 8) in
    let next = λ (found : Addresses). read_messages fuel d (offset + align size) found in
    let read =
      elim (read_attributes (suc size) d (offset + 24) (offset + size) addresses)
        as (λ r. Result Error Progress) [ err e ↦ err e | ok found ↦ next found ] in
    if not (leb (offset + 16) (length d))
    then ok (unfinished addresses)
    else if ltb size 16 || ltb (length d) (offset + size)
    then err value_error
    else if kind == 3
    then ok (ended addresses)
    else if kind == 2
    then err value_error
    else if (kind == 20) && (sequence == 1)
    then read
    else next addresses

-- `return addresses`, or the next datagram.
abbrev pub unless_ended :
    Result Error Progress → (Addresses → Result Error Addresses) → Result Error Addresses
unless_ended (err e) next = err e
unless_ended (ok (ended found)) next = ok found
unless_ended (ok (unfinished found)) next = next found

-- The loop over what the kernel sends. Nothing more is a timeout.
unfoldable pub receive_all : List Bytes → Addresses → Result Error Addresses
unfolding read_messages
receive_all [] addresses = err timeout_error
receive_all (d ∷ datagrams) addresses =
    unless_ended (read_messages (suc (length d)) d 0 addresses) (receive_all datagrams)

unfoldable pub ipv4_addresses : List Bytes → Result Error Addresses
unfolding receive_all
ipv4_addresses datagrams = receive_all datagrams []

-- The address in bytes, and in writing.
unfoldable pub vip : List Bytes → Bytes → String → Act (Unit {0})
unfolding ipv4_addresses has_address add
vip datagrams address name s = elim (ipv4_addresses datagrams) [
  | err e ↦ (err e, s)
  | ok found ↦ add "home_vip_owned" (flag (has_address found address)) (("vip", name) ∷ []) s
]
